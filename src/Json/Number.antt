-- ===== src/Json/Number.antt =====
-- Python's numbers as decoded values, and the tests that the program makes of them.
use mc_ai_bt.Common.{◌*◌, ◌+◌, ◌-◌, Bool, true, false, ◌||◌, ◌&&◌, Option, none, some}
use mc_ai_bt.Common.Int.{ℤ, pos, negsuc}
use mc_ai_bt.Common.Float.{Float, finite, unit, ltb_float, leb_float, of_ℕ}
use mc_ai_bt.Json.{Value, bool, int, float}

unfoldable pub of_ℤ : ℤ → Float
unfolding unit
of_ℤ (pos n) = finite (pos (n * unit))
of_ℤ (negsuc n) = finite (negsuc ((n + 1) * unit - 1))

-- The number, if `isinstance(v, (int, float)) and not isinstance(v, bool)`.
unfoldable pub number : Option Value → Option Float
unfolding of_ℤ
number (some (int n)) = some (of_ℤ n)
number (some (float x)) = some x
number v = none

-- The number, if `isinstance(v, (int, float))`: `True` is 1 and `False` is 0.
unfoldable pub number_or_bool : Option Value → Option Float
unfolding number
number_or_bool (some (bool true)) = some (of_ℕ 1)
number_or_bool (some (bool false)) = some (of_ℕ 0)
number_or_bool v = number v

-- `not isinstance(v, …) or v <= low or v > high`.
unfoldable pub outside : Float → Float → Option Float → Bool
outside low high none = true
outside low high (some x) = leb_float x low || ltb_float high x

-- `low <= v <= high`.
unfoldable pub within : Float → Float → Option Float → Bool
within low high none = false
within low high (some x) = leb_float low x && leb_float x high
