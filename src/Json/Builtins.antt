-- ===== src/Json/Builtins.antt =====
-- The parts of Python's runtime that the fact checks call: letter case, conversions of decoded values
-- to numbers, and float arithmetic; and the reads of a dictionary that these checks make.
use mc_ai_bt.Common.{String, Bool, true, false, Option, none, some, if◌then◌else◌, List, [], ◌∷◌}
use mc_ai_bt.Common.Int.{ℤ}
use mc_ai_bt.Common.Float.{Float}
use mc_ai_bt.Json.{Value, null, dict, Fields, end, Runtime, get, truthy, text_or_empty}

pub record Builtins : Type 0 where
  pub rt : Runtime
  -- `text.lower()` and `text.upper()`
  pub lower : String → String
  pub upper : String → String
  -- `unicodedata.normalize("NFKC", text)` and `text.casefold()`
  pub nfkc : String → String
  pub casefold : String → String
  -- `float(value)` and `int(value)`, with `none` where they raise a TypeError or a ValueError.
  pub to_float : Value → Option Float
  pub to_int : Value → Option ℤ
  -- `abs(a - b) > 1e-6`
  pub apart : Float → Float → Bool
  -- `f"{value:g}"`
  pub format : Float → String

-- `d.get(key)`, with `None` for a missing key.
unfoldable pub get_or_null : String → Fields → Value
unfolding get
get_or_null key d = elim (get key d) [ none ↦ null | some v ↦ v ]

-- `key in d`
unfoldable pub has_key : String → Fields → Bool
unfolding get
has_key key d = elim (get key d) [ none ↦ false | some v ↦ true ]

-- `value if isinstance(value, dict) else {}`, where `none` is a missing key.
abbrev pub if_dict : Option Value → Fields
if_dict (some (dict d)) = d
if_dict v = end

-- `value or {}`, with `none` for what is neither empty nor an object.
unfoldable pub dict_or_empty : Option Value → Option Fields
unfolding truthy
dict_or_empty none = some end
dict_or_empty (some (dict d)) = some d
dict_or_empty (some v) = if truthy v then none else some end

-- `str(d.get(k1) or d.get(k2) or … or "")`
unfoldable pub text_of_keys : Builtins → List String → Fields → String
unfolding get truthy text_or_empty
text_of_keys py [] d = ""
text_of_keys py (key ∷ keys) d =
    let rest = text_of_keys py keys d in
    elim (get key d) [
      | none ↦ rest
      | some v ↦ if truthy v then text_or_empty py.rt (some v) else rest
    ]
