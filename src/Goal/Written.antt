-- ===== src/Goal/Written.antt =====
-- mc_ai_bt/world_facts.py and mc_ai_bt/goal_check.py: facts of an execution that are written to the world
-- state, as the checker reads them back.
use mc_ai_bt.Common.{
  String, true, false, ◌==◌, Option, none, some, List, [], ◌∷◌, ◌++◌, ◌≡◌, refl, ap, ◌∙◌, ◌≢◌,
  Bool-cases, inl, inr, All, ⊤, arith,
}
use mc_ai_bt.Common.Text.{strip, ◌<>◌}
use mc_ai_bt.Json.{
  Value, null, bool, str, dict, Fields, end, field, get, truthy, text_or_empty, text_of, Runtime,
}
use mc_ai_bt.Json.Builtins.{Builtins, if_dict}
use mc_ai_bt.Executor.{yes, unknown}
use mc_ai_bt.Entity.{fact_value}
use mc_ai_bt.Facts.{WorldFactUpdate, fact_update, text_update, dict_update}
use mc_ai_bt.Goal.Direct.{CheckResult, result, says_true}
use mc_ai_bt.Goal.Bespoke.{compare_names, relative_motion_result, motion_object, text_at}
use mc_ai_bt.Goal.World.{Tools}
use mc_ai_bt.Goal.Snapshot.{snapshot_value, scope_of, compare_value}

-- The predicates that are written under another name.
pub data Written : Type 0 where
  place near motion animation : Written

abbrev pub name_of : Written → String
name_of place = "robot_at_place"
name_of near = "robot_near_interaction_owner"
name_of motion = "relative_motion_completed"
name_of animation = "animation_played"

-- What the fact must be like to be written as it is: a text without space around it, an object that is
-- not empty.
abbrev pub Writable : Tools → Fields → Written → Type 0
Writable t facts near = ⊤
Writable t facts motion = get "relative_motion_completed" facts ≢ some (dict end)
Writable t facts w = strip (text_at t.py (name_of w) facts) ≡ text_at t.py (name_of w) facts

-- The world state has the fact of an update, under its scope and key, as an entry with that value.
abbrev pub Stored : Fields → WorldFactUpdate → Type 0
Stored world u =
    (entry : Value) × (get u.key (scope_of u.scope world) ≡ some entry)
    × (fact_value entry ≡ u.value)

pub All-left : {A : Type 0} (P : A → Type 0) (xs ys : List A) → All P (xs ++ ys) → All P xs
All-left P [] ys all = tt
All-left P (x ∷ xs) ys all = (all.0, All-left P xs ys all.1)

pub All-right : {A : Type 0} (P : A → Type 0) (xs ys : List A) → All P (xs ++ ys) → All P ys
All-right P [] ys all = all
All-right P (x ∷ xs) ys all = All-right P xs ys all.1

pub compare_names-yes :
    (actual expected a b m : String)
    → (compare_names actual expected a b (result unknown m)).state ≡ yes
    → ((actual == "") ≡ false) × ((actual == expected) ≡ true)
unfolding compare_names
compare_names-yes actual expected a b m e = elim (Bool-cases (actual == "")) [
  | inl empty ↦ let bad = rw empty at e in absurd (ground arith)
  | inr full ↦ elim (Bool-cases (actual == expected)) [
    | inl same ↦ (full, same)
    | inr other ↦ let bad = rw (full, other) at e in absurd (ground arith)
  ]
]

pub compare_names-same :
    (actual expected a b : String) (later : CheckResult)
    → (actual == "") ≡ false
    → (actual == expected) ≡ true
    → compare_names actual expected a b later ≡ result yes (a <> actual)
unfolding compare_names
compare_names-same actual expected a b later full same = rw (full, same) refl

pub text_or_empty-str :
    (rt : Runtime) (s : String) → (s == "") ≡ false → text_or_empty rt (some (str s)) ≡ s
unfolding text_or_empty truthy text_of
text_or_empty-str rt s full = rw full refl

-- The verdict on a motion does not depend on where the evidence is from.
pub motion_object-source :
    (py : Builtins) (actual args : Fields) (s r : String)
    → (motion_object py actual args s).state ≡ (motion_object py actual args r).state
unfolding motion_object
motion_object-source py actual args s r = ground arith

-- An entry of a scope shows that the scope is an object.
pub if_dict-object :
    (key : String) (v : Option Value) {x : Value}
    → snapshot_value (get key (if_dict v)) ≡ some x
    → v ≡ some (dict (if_dict v))
unfolding get snapshot_value
if_dict-object key (some (dict d)) e = refl
if_dict-object key none e = cc
if_dict-object key (some null) e = cc
if_dict-object key (some (bool b)) e = cc
if_dict-object key (some (Value.int n)) e = cc
if_dict-object key (some (Value.float x)) e = cc
if_dict-object key (some (str s)) e = cc
if_dict-object key (some (Value.list xs)) e = cc

pub Stored-value :
    (world : Fields) (u : WorldFactUpdate)
    → Stored world u
    → snapshot_value (get u.key (scope_of u.scope world)) ≡ some u.value
unfolding snapshot_value
Stored-value world u (entry, is_entry, is_value) = rw is_entry (ap some is_value)

pub says_true-some : (v : Option Value) → says_true v ≡ true → v ≡ some (bool true)
says_true-some (some (bool true)) e = refl
says_true-some (some (bool false)) e = cc
says_true-some none e = cc
says_true-some (some null) e = cc
says_true-some (some (Value.int n)) e = cc
says_true-some (some (Value.float x)) e = cc
says_true-some (some (str s)) e = cc
says_true-some (some (Value.list xs)) e = cc
says_true-some (some (dict d)) e = cc

-- A text that is written is read back as it is.
pub text-Stored :
    (t : Tools) (source scope key : String) (world : Fields) (v : Option Value)
    → All (Stored world) (text_update t.py.rt source scope key v)
    → (text_or_empty t.py.rt v == "") ≡ false
    → strip (text_or_empty t.py.rt v) ≡ text_or_empty t.py.rt v
    → snapshot_value (get key (scope_of scope world)) ≡ some (str (text_or_empty t.py.rt v))
unfolding text_update
text-Stored t source scope key world v stored full plain =
    Stored-value world (fact_update source scope key _) (rw (plain, full) at stored).0

pub compare_value-same :
    (py : Builtins) (s expected : String) (later : CheckResult)
    → (s == "") ≡ false
    → (s == expected) ≡ true
    → compare_value py (some (str s)) expected later
      ≡ result yes ("world state says robot_at_place: " <> s)
unfolding compare_value truthy text_of
compare_value-same py s expected later full same = rw (full, same) refl

pub motion-Stored :
    (py : Builtins) (args world : Fields) (v : Option Value)
    → All (Stored world) (dict_update "mc_ai_bt.skill.simple_move" "robot" "last_relative_motion" v)
    → v ≢ some (dict end)
    → (relative_motion_result py v args "execution facts").state ≡ yes
    → (relative_motion_result py
        (snapshot_value (get "last_relative_motion" (scope_of "robot" world)))
        args
        "world state").state
      ≡ yes
unfolding dict_update truthy relative_motion_result
motion-Stored py args world (some (dict end)) stored full e = absurd (full refl)
motion-Stored py args world (some (dict (field k v d))) stored full e =
    let update =
      fact_update "mc_ai_bt.skill.simple_move" "robot" "last_relative_motion"
        (dict (field k v d)) in
    rw (Stored-value world update stored.0)
      (motion_object-source py (field k v d) args "world state" "execution facts" ∙ e)
motion-Stored py args world none stored full e = cc
motion-Stored py args world (some null) stored full e = cc
motion-Stored py args world (some (bool b)) stored full e = cc
motion-Stored py args world (some (Value.int n)) stored full e = cc
motion-Stored py args world (some (Value.float x)) stored full e = cc
motion-Stored py args world (some (str s)) stored full e = cc
motion-Stored py args world (some (Value.list xs)) stored full e = cc
