-- ===== src/Facts/Address.antt =====
-- mc_ai_bt/world_facts.py: the addresses, a scope with a key, that an execution's facts are written to.
use mc_ai_bt.Common.{
  String, true, false, ◌==◌, Option, none, some, List, [], ◌∷◌, ◌≡◌, refl, ◌⊎◌, inl, inr,
  Bool-cases, ⊤,
}
use mc_ai_bt.Common.Text.{strip}
use mc_ai_bt.Json.{Value, null, bool, str, dict, Fields, Runtime, get, truthy, text_or_empty}
use mc_ai_bt.Facts.{
  WorldFactUpdate, text_update, dict_update, true_update, person_update, named_person, named_update,
  fact_update,
}

-- A scope, and a key unless every key of the scope is meant.
abbrev pub Address : Type 0
Address = String × Option String

abbrev pub KeyFits : Option String → String → Type 0
KeyFits none key = ⊤
KeyFits (some k) key = k ≡ key

abbrev pub Fits : Address → WorldFactUpdate → Type 0
Fits (scope, key) u = (scope ≡ u.scope) × KeyFits key u.key

-- At most one update, at the address.
abbrev pub Single : Address → List WorldFactUpdate → Type 0
Single a us = (us ≡ []) ⊎ ((u : WorldFactUpdate) × (us ≡ u ∷ []) × Fits a u)

pub text_update-Single :
    (rt : Runtime) (source scope key : String) (v : Option Value)
    → Single (scope, some key) (text_update rt source scope key v)
unfolding text_update
text_update-Single rt source scope key v = elim (Bool-cases (strip (text_or_empty rt v) == "")) [
  | inl e ↦ inl (rw e refl)
  | inr e ↦
      inr (fact_update source scope key (str (strip (text_or_empty rt v))), rw e refl, (refl, refl))
]

pub dict_update-Single :
    (source scope key : String) (v : Option Value)
    → Single (scope, some key) (dict_update source scope key v)
unfolding dict_update truthy
dict_update-Single source scope key (some (dict Fields.end)) = inl refl
dict_update-Single source scope key (some (dict (Fields.field k v d))) =
    inr (fact_update source scope key _, refl, (refl, refl))
dict_update-Single source scope key none = inl refl
dict_update-Single source scope key (some null) = inl refl
dict_update-Single source scope key (some (bool b)) = inl refl
dict_update-Single source scope key (some (Value.int n)) = inl refl
dict_update-Single source scope key (some (Value.float x)) = inl refl
dict_update-Single source scope key (some (str s)) = inl refl
dict_update-Single source scope key (some (Value.list xs)) = inl refl

pub true_update-Single :
    (source scope key : String) (v : Option Value)
    → Single (scope, some key) (true_update source scope key v)
unfolding true_update
true_update-Single source scope key (some (bool true)) =
    inr (fact_update source scope key _, refl, (refl, refl))
true_update-Single source scope key (some (bool false)) = inl refl
true_update-Single source scope key none = inl refl
true_update-Single source scope key (some null) = inl refl
true_update-Single source scope key (some (dict d)) = inl refl
true_update-Single source scope key (some (Value.int n)) = inl refl
true_update-Single source scope key (some (Value.float x)) = inl refl
true_update-Single source scope key (some (str s)) = inl refl
true_update-Single source scope key (some (Value.list xs)) = inl refl

named_update-Single :
    (rt : Runtime) (person_id name : Option Value)
    → Single ("people_names", none) (named_update rt person_id name)
named_update-Single rt none name = inl refl
named_update-Single rt (some v) none = inl refl
named_update-Single rt (some v) (some w) = elim (Bool-cases (truthy v)) [
  | inl a ↦ elim (Bool-cases (truthy w)) [
    | inl b ↦ inr (named_person rt v w, rw (a, b) refl, (refl, tt))
    | inr b ↦ inl (rw (a, b) refl)
  ]
  | inr a ↦ inl (rw a refl)
]

pub person_update-Single :
    (rt : Runtime) (v : Option Value) → Single ("people_names", none) (person_update rt v)
unfolding person_update
person_update-Single rt (some (dict d)) = named_update-Single rt (get "person_id" d) (get "name" d)
person_update-Single rt none = inl refl
person_update-Single rt (some null) = inl refl
person_update-Single rt (some (bool b)) = inl refl
person_update-Single rt (some (Value.int n)) = inl refl
person_update-Single rt (some (Value.float x)) = inl refl
person_update-Single rt (some (str s)) = inl refl
person_update-Single rt (some (Value.list xs)) = inl refl
