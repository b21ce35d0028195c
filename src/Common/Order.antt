-- ===== src/Common/Order.antt =====
-- The order of Python's `str`, by code points.
use Prim.Native.String.{String, [], ◌∷◌, compare}
use Prim.Native.Nat.{Ordering}
use Prim.Native.String.compare
use text.Mathlib.TextPositions.{compare_refl}
use mathlib.Core.Bool.{Bool, true, false}
use mathlib.Core.Path.{◌≡◌, refl}
use native.Mathlib.Omega.{arith}

-- `a < b`.
abbrev pub lt_text : String → String → Bool
lt_text a b = elim (compare a b) [ Ordering.lt ↦ true | _ ↦ false ]

pub lt_text_asym : (a b : String) → lt_text a b ≡ true → lt_text b a ≡ false
lt_text_asym [] [] h = refl
lt_text_asym [] (d ∷ t) h = ground (arith, compare.cons-nil d t)
lt_text_asym (c ∷ s) [] h = absurd (ground (arith, compare.cons-nil c s))
lt_text_asym (c ∷ s) (d ∷ t) h =
    ground (arith, compare.cons-cons c d s t, compare.cons-cons d c t s, lt_text_asym s t)

pub lt_text_weak :
    (a b c : String) → lt_text a b ≡ false → lt_text b c ≡ false → lt_text a c ≡ false
lt_text_weak a [] [] h k = h
lt_text_weak a [] (y ∷ u) h k = absurd (ground (arith, compare.nil-cons y u))
lt_text_weak [] (d ∷ t) c h k = absurd (ground (arith, compare.nil-cons d t))
lt_text_weak (x ∷ s) (d ∷ t) [] h k = ground (arith, compare.cons-nil x s)
lt_text_weak (x ∷ s) (d ∷ t) (y ∷ u) h k = ground (
  arith,
  compare.cons-cons x d s t,
  compare.cons-cons d y t u,
  compare.cons-cons x y s u,
  lt_text_weak s t u,
)

pub lt_text_irrefl : (a : String) → lt_text a a ≡ false
lt_text_irrefl a = ground (arith, compare_refl a)
