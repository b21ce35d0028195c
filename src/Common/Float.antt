-- ===== src/Common/Float.antt =====
-- Python's floats as far as the program compares them: every finite double is a whole number of
-- units of 2 ^ -1074, so comparisons, also those with integers, are exact here.
use mc_ai_bt.Common.Tests.{if◌then◌else◌}
use mc_ai_bt.Common.Int.{ℤ, pos, negsuc, ltb_ℤ, leb_ℤ}
use Prim.Native.Nat.{ℕ, suc, ◌*◌, ◌^◌, ◌<◌}
use mathlib.Core.Path.{◌≡◌}
use mathlib.Core.Bool.{Bool, true, false}
use native.Mathlib.Omega.{arith}

pub data Float : Type 0 where
  nan neg_inf pos_inf : Float
  finite : ℤ → Float

-- The number of units in 1.0.
unfoldable pub unit : ℕ
unit = 2 ^ 1074

pub unit-pos : 0 < unit
unfolding unit
unit-pos = omega arith

abbrev pub zero_float : Float
zero_float = finite (pos 0)

-- Of a whole number.
abbrev pub of_ℕ : ℕ → Float
of_ℕ n = finite (pos (n * unit))

-- `a < b` and `a <= b`: nothing compares with `nan`.
abbrev pub ltb_float : Float → Float → Bool
ltb_float nan b = false
ltb_float neg_inf nan = false
ltb_float neg_inf neg_inf = false
ltb_float neg_inf pos_inf = true
ltb_float neg_inf (finite b) = true
ltb_float pos_inf b = false
ltb_float (finite a) nan = false
ltb_float (finite a) neg_inf = false
ltb_float (finite a) pos_inf = true
ltb_float (finite a) (finite b) = ltb_ℤ a b

abbrev pub leb_float : Float → Float → Bool
leb_float nan b = false
leb_float neg_inf nan = false
leb_float neg_inf neg_inf = true
leb_float neg_inf pos_inf = true
leb_float neg_inf (finite b) = true
leb_float pos_inf nan = false
leb_float pos_inf neg_inf = false
leb_float pos_inf pos_inf = true
leb_float pos_inf (finite b) = false
leb_float (finite a) nan = false
leb_float (finite a) neg_inf = false
leb_float (finite a) pos_inf = true
leb_float (finite a) (finite b) = leb_ℤ a b

-- `abs(x)`
abbrev pub abs_float : Float → Float
abs_float nan = nan
abs_float neg_inf = pos_inf
abs_float pos_inf = pos_inf
abs_float (finite (pos n)) = finite (pos n)
abs_float (finite (negsuc n)) = finite (pos (suc n))

-- `max(0.0, min(1.0, x))`; Python's `min` and `max` keep the first argument unless the second is
-- strictly better.
unfoldable pub clamp_unit : Float → Float
clamp_unit x =
    let low = if ltb_float x (of_ℕ 1) then x else of_ℕ 1 in
    if ltb_float zero_float low then low else zero_float

-- Between 0.0 and 1.0.
abbrev pub InUnit : Float → Type 0
InUnit x = (leb_float zero_float x ≡ true) × (leb_float x (of_ℕ 1) ≡ true)

pub clamp_unit-InUnit : (x : Float) → InUnit (clamp_unit x)
unfolding clamp_unit
clamp_unit-InUnit nan = ground (arith, unit-pos)
clamp_unit-InUnit neg_inf = ground (arith, unit-pos)
clamp_unit-InUnit pos_inf = ground (arith, unit-pos)
clamp_unit-InUnit (finite x) = ground (arith, unit-pos)
