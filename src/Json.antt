-- ===== src/Json.antt =====
-- The Python values that `json.loads` yields, the dictionary reads that the program makes of them,
-- and the runtime that turns them into text.
pub mod Number
pub mod Builtins
use mc_ai_bt.Common.{ℕ, String, Bool, true, false, not, Option, none, some, if◌then◌else◌, ◌==◌}
use mc_ai_bt.Common.Int.{ℤ, pos}
use mc_ai_bt.Common.Float.{Float, finite}

mutual
  pub data Value : Type 0 where
    null : Value
    bool : Bool → Value
    int : ℤ → Value
    float : Float → Value
    str : String → Value
    list : Items → Value
    dict : Fields → Value

  pub data Items : Type 0 where
    nil : Items
    cons : Value → Items → Items

  pub data Fields : Type 0 where
    end : Fields
    field : String → Value → Fields → Fields

-- `json` and `str` of the Python runtime, which the program only calls.
pub record Runtime : Type 0 where
  -- `json.loads`, with `none` where it raises.
  pub loads : String → Option Value
  -- `json.dumps(value, sort_keys=True, separators=(",", ":"))`.
  pub dumps : Value → String
  -- `str(value)` of what is not a text.
  pub show : Value → String
  -- `repr(text)`.
  pub quote : String → String

-- `d.get(key)`.
unfoldable pub get : String → Fields → Option Value
get key end = none
get key (field k v rest) = if k == key then some v else get key rest

-- `bool(value)`.
unfoldable pub truthy : Value → Bool
truthy null = false
truthy (bool b) = b
truthy (int (pos ℕ.zero)) = false
truthy (int n) = true
truthy (float (finite (pos ℕ.zero))) = false
truthy (float x) = true
truthy (str s) = not (s == "")
truthy (list Items.nil) = false
truthy (list xs) = true
truthy (dict Fields.end) = false
truthy (dict d) = true

-- `value if isinstance(value, dict) else None`, then `.get(key)`.
unfoldable pub get_in : String → Option Value → Option Value
unfolding get
get_in key (some (dict d)) = get key d
get_in key v = none

-- `str(value)`.
unfoldable pub text_of : Runtime → Value → String
text_of rt (str s) = s
text_of rt v = rt.show v

-- `str(value or "")`, where `none` is a missing key.
unfoldable pub text_or_empty : Runtime → Option Value → String
unfolding truthy text_of
text_or_empty rt none = ""
text_or_empty rt (some v) = if truthy v then text_of rt v else ""
