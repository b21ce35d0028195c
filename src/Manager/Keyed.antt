-- ===== src/Manager/Keyed.antt =====
-- Dictionaries of missions that are keyed by the missions' own ids.
use mc_ai_bt.Common.{
  ◌≡◌, refl, String, Bool, true, false, Option, none, some, List, [], ◌∷◌, inl, inr, arith,
  Bool-cases, eq_iff, eq_refl, ◌==◌, All,
}
use mathlib.Core.Path.{subst}
use mc_ai_bt.Common.Dict.{lookup, insert, lookup-insert, Dict, values, ==_comm}
use mc_ai_bt.Common.Sort.{sort, first, All-sort, All-first, first-sort-none, some_eq}
use mc_ai_bt.Mission.{Mission, State, is_queued}
use mc_ai_bt.Manager.{before, with_state, id_of, next_queued_id}

-- Every key is the id of its mission, and no key is there twice.
abbrev pub Keyed : Dict Mission → Type 0
Keyed [] = Unit
Keyed ((k, m) ∷ d) = (m.identity.mission_id ≡ k) × (lookup k d ≡ none) × Keyed d

pub Keyed-insert :
    (k : String) (m : Mission) (d : Dict Mission)
    → m.identity.mission_id ≡ k
    → Keyed d
    → Keyed (insert k m d)
unfolding lookup insert
Keyed-insert k m [] e h = (e, refl, tt)
Keyed-insert k m ((j, n) ∷ d) e h = elim (Bool-cases (j == k)) [
  | inl same ↦ rw same (cc ((eq_iff j k).0 same), h.1, h.2)
  | inr other ↦
      rw other (h.0, rw (lookup-insert k j m d, ==_comm k j, other) h.1, Keyed-insert k m d e h.2)
]

pub lookup-Keyed :
    (k : String) (m : Mission) (d : Dict Mission)
    → Keyed d
    → lookup k d ≡ some m
    → m.identity.mission_id ≡ k
unfolding lookup
lookup-Keyed k m [] h e = cc
lookup-Keyed k m ((j, n) ∷ d) h e = ground (arith, lookup-Keyed k m d h.2, eq_iff j k)

-- Found under its own id.
abbrev pub IsStored : Dict Mission → Mission → Type 0
IsStored d m = lookup m.identity.mission_id d ≡ some m

-- What is stored behind an entry with another key is stored.
All-IsStored_cons :
    (k : String) (m : Mission) (d : Dict Mission) (ms : List Mission)
    → lookup k d ≡ none
    → All (IsStored d) ms
    → All (IsStored ((k, m) ∷ d)) ms
unfolding lookup
All-IsStored_cons k m d [] missing h = tt
All-IsStored_cons k m d (n ∷ ms) missing h = (
  ground (arith, h.0, missing, eq_iff k n.identity.mission_id),
  All-IsStored_cons k m d ms missing h.1,
)

pub values-IsStored : (d : Dict Mission) → Keyed d → All (IsStored d) (values d)
unfolding values lookup
values-IsStored [] h = tt
values-IsStored ((k, m) ∷ d) h =
    (rw (h.0, eq_refl), All-IsStored_cons k m d (values d) h.1 (values-IsStored d h.2))

module _ (P : Mission → Type 0) (keep : State → Bool) where
  pub All-with_state :
      (ms : List Mission) → All P ms → All (λ m. P m × (keep m.state ≡ true)) (with_state keep ms)
  unfolding with_state
  All-with_state [] h = tt
  All-with_state (m ∷ ms) h = elim (Bool-cases (keep m.state)) [
    | inl e ↦ rw e ((h.0, e), All-with_state ms h.1)
    | inr e ↦ rw e (All-with_state ms h.1)
  ]

pub with_state-nil :
    (keep : State → Bool) (ms : List Mission)
    → with_state keep ms ≡ []
    → All (λ m. keep m.state ≡ false) ms
unfolding with_state
with_state-nil keep [] e = tt
with_state-nil keep (m ∷ ms) e = elim (Bool-cases (keep m.state)) [
  | inl kept ↦ absurd (ground arith)
  | inr out ↦ (out, with_state-nil keep ms (ground arith))
]

-- What holds of all that the filter keeps holds of every mission that it would keep.
pub All-kept :
    (P : Mission → Type 0) (keep : State → Bool) (ms : List Mission)
    → All P (with_state keep ms)
    → All (λ m. keep m.state ≡ true → P m) ms
unfolding with_state
All-kept P keep [] h = tt
All-kept P keep (m ∷ ms) h = elim (Bool-cases (keep m.state)) [
  | inl e ↦ let g = rw e at h in ((λ k. g.0), All-kept P keep ms g.1)
  | inr e ↦ let g = rw e at h in ((λ k. absurd (cc (e, k))), All-kept P keep ms g)
]

-- What holds of all values holds of a value that is found.
pub lookup-All :
    (P : Mission → Type 0) (k : String) (m : Mission) (d : Dict Mission)
    → All P (values d)
    → lookup k d ≡ some m
    → P m
unfolding lookup values
lookup-All P k m [] h e = absurd (cc)
lookup-All P k m ((j, n) ∷ d) h e = elim (Bool-cases (j == k)) [
  | inl same ↦ subst P (some_eq (rw same at e)) h.0
  | inr other ↦ lookup-All P k m d h.1 (rw other at e)
]

-- The first of the sorted missions of some kind is a stored mission of that kind.
pub first-with_state :
    (keep : State → Bool) (d : Dict Mission) (m : Mission)
    → Keyed d
    → first (sort before (with_state keep (values d))) ≡ some m
    → IsStored d m × (keep m.state ≡ true)
first-with_state keep d m h e =
    let P = λ (m : Mission). IsStored d m × (keep m.state ≡ true) in
    All-first P (sort before (with_state keep (values d)))
      (All-sort P before (with_state keep (values d))
        (All-with_state (IsStored d) keep (values d) (values-IsStored d h)))
      e

pub id_of-some :
    (o : Option Mission) (id : String)
    → id_of o ≡ some id
    → (m : Mission) × (o ≡ some m) × (m.identity.mission_id ≡ id)
id_of-some none id e = absurd (cc)
id_of-some (some m) id e = (m, refl, some_eq e)

id_of-none : (o : Option Mission) → id_of o ≡ none → o ≡ none
id_of-none none e = refl
id_of-none (some m) e = absurd (cc)

-- The id that `_next_queued_id` returns finds a queued mission.
pub next_queued_id-found :
    (d : Dict Mission) (id : String)
    → Keyed d
    → next_queued_id d ≡ some id
    → (m : Mission) × (lookup id d ≡ some m) × (is_queued m.state ≡ true)
unfolding next_queued_id
next_queued_id-found d id h e =
    let (m, found, same) =
      id_of-some (first (sort before (with_state is_queued (values d)))) id e in
    let (stored, queued) = first-with_state is_queued d m h found in
    (m, subst (λ k. lookup k d ≡ some m) same stored, queued)

-- `_next_queued_id` returns nothing only if no stored mission is queued.
pub next_queued_id-none :
    (d : Dict Mission) (id : String) (m : Mission)
    → next_queued_id d ≡ none
    → lookup id d ≡ some m
    → is_queued m.state ≡ false
unfolding next_queued_id
next_queued_id-none d id m e h =
    let nothing : first (sort before (with_state is_queued (values d))) ≡ none = id_of-none _ e in
    let empty : with_state is_queued (values d) ≡ [] = first-sort-none before _ nothing in
    lookup-All (λ n. is_queued n.state ≡ false) id m d (with_state-nil is_queued (values d) empty) h
