-- ===== src/Manager/Evolve.antt =====
-- How a stored mission may change: it keeps its id, its plan version never falls, and once it is in
-- a terminal state nothing of it changes any more.
use mc_ai_bt.Common.{
  ◌≤◌, ◌≡◌, refl, String, true, none, some, inl, inr, arith, Bool-cases, eq_iff, ◌==◌,
}
use mathlib.Core.Path.{subst}
use mc_ai_bt.Common.Dict.{lookup, insert, lookup-insert, Dict}
use mc_ai_bt.Mission.{Mission, is_terminal}

pub record Evolves (m n : Mission) : Type 0 where
  pub same_id : n.identity.mission_id ≡ m.identity.mission_id
  pub newer : m.identity.plan_version ≤ n.identity.plan_version
  pub final : is_terminal m.state ≡ true → n ≡ m

pub Evolves-refl : (m : Mission) → Evolves m m
Evolves-refl m = record { same_id = refl; newer = omega arith; final = λ _. refl }

pub Evolves-trans : {m n o : Mission} → Evolves m n → Evolves n o → Evolves m o
Evolves-trans e f = record {
  same_id = cc (e.same_id, f.same_id);
  newer = omega (arith, e.newer, f.newer);
  final = λ t. let p = e.final t in cc (f.final (rw p t), p);
}

-- No stored mission is lost, and each evolves.
abbrev pub Extends : Dict Mission → Dict Mission → Type 0
Extends d e =
    (k : String) (m : Mission)
    → lookup k d ≡ some m
    → (n : Mission) × (lookup k e ≡ some n) × Evolves m n

pub Extends-refl : (d : Dict Mission) → Extends d d
Extends-refl d k m h = (m, h, Evolves-refl m)

pub Extends-trans : (c d e : Dict Mission) → Extends c d → Extends d e → Extends c e
Extends-trans c d e f g k m h =
    let (n, hn, en) = f k m h in let (o, ho, eo) = g k n hn in (o, ho, Evolves-trans en eo)

same_found :
    (id k : String) (m o : Mission) (d : Dict Mission)
    → lookup id d ≡ some m
    → lookup k d ≡ some o
    → (id == k) ≡ true
    → m ≡ o
same_found id k m o d found h same = cc ((eq_iff id k).0 same)

-- Storing what a stored mission has evolved to.
pub Extends-insert :
    (id : String) (m n : Mission) (d : Dict Mission)
    → lookup id d ≡ some m
    → Evolves m n
    → Extends d (insert id n d)
Extends-insert id m n d found e k o h = elim (Bool-cases (id == k)) [
  | inl same ↦
      (n, rw (lookup-insert, same), subst (λ x. Evolves x n) (same_found id k m o d found h same) e)
  | inr other ↦ (o, rw (lookup-insert, other) h, Evolves-refl o)
]

-- Storing a mission under a new id.
pub Extends-insert_new :
    (id : String) (n : Mission) (d : Dict Mission) → lookup id d ≡ none → Extends d (insert id n d)
Extends-insert_new id n d missing k o h = elim (Bool-cases (id == k)) [
  | inl same ↦ absurd (cc (missing, h, (eq_iff id k).0 same))
  | inr other ↦ (o, rw (lookup-insert, other) h, Evolves-refl o)
]
