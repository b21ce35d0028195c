-- ===== src/Facts/Places.antt =====
-- mc_ai_bt/world_facts.py: lists of updates of which each may stand at one address.
use mc_ai_bt.Common.{
  String, Bool, true, false, not, ◌&&◌, ◌||◌, ◌==◌, Option, none, some, List, [], ◌∷◌, ◌++◌, ◌≡◌,
  inl, inr, All, ⊤, arith, eq_iff,
}
use mc_ai_bt.Validator.Resources.{among}
use mc_ai_bt.Facts.{WorldFactUpdate}
use mc_ai_bt.Facts.Address.{Address, Fits, Single}

abbrev keys_apart : Option String → Option String → Bool
keys_apart (some j) (some k) = not (j == k)
keys_apart j k = false

-- Two addresses that share no place of the world state.
abbrev apart : Address → Address → Bool
apart (s, j) (t, k) = not (s == t) || keys_apart j k

abbrev pub same_place : WorldFactUpdate → WorldFactUpdate → Bool
same_place u v = u.scope == v.scope && u.key == v.key

-- No two updates write the same place.
abbrev pub Distinct : List WorldFactUpdate → Type 0
Distinct [] = ⊤
Distinct (u ∷ us) = All (λ v. same_place u v ≡ false) us × Distinct us

apart-same_place :
    (a b : Address) (u v : WorldFactUpdate)
    → apart a b ≡ true
    → Fits a u
    → Fits b v
    → same_place u v ≡ false
apart-same_place (s, some j) (t, some k) u v e f g =
    ground (arith, eq_iff s t, eq_iff u.scope v.scope, eq_iff j k, eq_iff u.key v.key)
apart-same_place (s, some j) (t, none) u v e f g =
    ground (arith, eq_iff s t, eq_iff u.scope v.scope)
apart-same_place (s, none) (t, some k) u v e f g =
    ground (arith, eq_iff s t, eq_iff u.scope v.scope)
apart-same_place (s, none) (t, none) u v e f g = ground (arith, eq_iff s t, eq_iff u.scope v.scope)

-- Updates, each with the address that it may have, in one list.
abbrev pub Chunk : Type 0
Chunk = Address × List WorldFactUpdate

abbrev pub flatten : List Chunk → List WorldFactUpdate
flatten [] = []
flatten ((a, us) ∷ cs) = us ++ flatten cs

abbrev all_apart : Address → List Chunk → Bool
all_apart a [] = true
all_apart a ((b, us) ∷ cs) = apart a b && all_apart a cs

abbrev pub pairwise_apart : List Chunk → Bool
pairwise_apart [] = true
pairwise_apart ((a, us) ∷ cs) = all_apart a cs && pairwise_apart cs

-- What the updates of later chunks write is apart from an address.
flatten-apart :
    (a : Address) (u : WorldFactUpdate)
    → Fits a u
    → (cs : List Chunk) → all_apart a cs ≡ true
    → All (λ c. Single c.0 c.1) cs
    → All (λ v. same_place u v ≡ false) (flatten cs)
flatten-apart a u f [] e singles = tt
flatten-apart a u f ((b, us) ∷ cs) e (inl n, singles) =
    rw n (flatten-apart a u f cs (ground arith) singles)
flatten-apart a u f ((b, us) ∷ cs) e (inr (v, s, g), singles) =
    rw s
      (apart-same_place a b u v (ground arith) f g, flatten-apart a u f cs (ground arith) singles)

pub flatten-Distinct :
    (cs : List Chunk)
    → pairwise_apart cs ≡ true
    → All (λ c. Single c.0 c.1) cs
    → Distinct (flatten cs)
flatten-Distinct [] e singles = tt
flatten-Distinct ((a, us) ∷ cs) e (inl n, singles) =
    rw n (flatten-Distinct cs (ground arith) singles)
flatten-Distinct ((a, us) ∷ cs) e (inr (u, s, f), singles) =
    rw s (flatten-apart a u f cs (ground arith) singles, flatten-Distinct cs (ground arith) singles)

-- The keys of the robot's scope that its embodied skills verify and write themselves.
abbrev pub verified_keys : List String
verified_keys =
    "reach_completed" ∷ "retracted" ∷ "pose_held" ∷ "axis_aligned" ∷ "axis_motion_completed"
    ∷ "oscillation_completed" ∷ []

abbrev pub overwrites : String → String → Bool
overwrites scope key = scope == "robot" && among key verified_keys

abbrev harmless : Address → Bool
harmless (scope, none) = not (scope == "robot")
harmless (scope, some key) = not (overwrites scope key)

abbrev pub all_harmless : List Chunk → Bool
all_harmless [] = true
all_harmless ((a, us) ∷ cs) = harmless a && all_harmless cs

harmless-update :
    (a : Address) (u : WorldFactUpdate)
    → harmless a ≡ true
    → Fits a u
    → overwrites u.scope u.key ≡ false
harmless-update (scope, none) u e f = ground (arith, eq_iff scope u.scope)
harmless-update (scope, some key) u e f = let s = f.0 in let k = f.1 in rw (← s, ← k) (ground arith)

pub flatten-harmless :
    (cs : List Chunk)
    → all_harmless cs ≡ true
    → All (λ c. Single c.0 c.1) cs
    → All (λ u. overwrites u.scope u.key ≡ false) (flatten cs)
flatten-harmless [] e singles = tt
flatten-harmless ((a, us) ∷ cs) e (inl n, singles) =
    rw n (flatten-harmless cs (ground arith) singles)
flatten-harmless ((a, us) ∷ cs) e (inr (u, s, f), singles) =
    rw s (harmless-update a u (ground arith) f, flatten-harmless cs (ground arith) singles)
