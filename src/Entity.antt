-- ===== src/Entity.antt =====
-- mc_ai_bt/entity_facts.py: names of entities, and what a fact says of an object that is looked for.
-- People has the counts of visible people.
pub mod People
pub mod Seen
mod Tests
use mc_ai_bt.Common.{
  ℕ, String, Bool, true, false, not, ◌&&◌, ◌||◌, ◌==◌, Option, none, some, List, [], ◌∷◌,
  if◌then◌else◌, ◌=ℕ◌,
}
use mc_ai_bt.Common.Int.{ℤ, pos, ltb_ℤ}
use mc_ai_bt.Common.Float.{Float, zero_float, ltb_float, clamp_unit}
use mc_ai_bt.Common.Text.{strip, squeeze, is_space, remove_prefix, ◌<>◌}
use mc_ai_bt.Json.{
  Value, null, bool, int, float, str, dict, Fields, end, field, get, truthy, text_or_empty,
}
use mc_ai_bt.Json.Builtins.{Builtins, get_or_null, text_of_keys}

-- `[_-]`
abbrev is_joiner : ℕ → Bool
is_joiner c = c =ℕ 95 || c =ℕ 45

-- `normalise_entity_name`, of a text.
unfoldable pub normalise_entity_name : Builtins → String → String
normalise_entity_name py raw = strip (squeeze is_space (squeeze is_joiner (py.lower (strip raw))))

-- `normalise_entity_name`, of a value.
unfoldable pub normalise_entity_value : Builtins → Option Value → String
normalise_entity_value py raw = normalise_entity_name py (text_or_empty py.rt raw)

unfoldable pub object_fact_key : Builtins → String → String
object_fact_key py name = "object:" <> normalise_entity_name py name

unfoldable pub object_name_from_args : Builtins → Fields → String
object_name_from_args py args =
    strip (text_of_keys py ("name" ∷ "object_name" ∷ "object" ∷ "target" ∷ []) args)

unfoldable pub person_id_from_args : Builtins → Fields → String
person_id_from_args py args =
    strip (text_of_keys py ("id" ∷ "person_id" ∷ "name" ∷ "person" ∷ []) args)

-- `float(value or 0.0)`, with `none` where it raises.
abbrev pub score_or_zero : Builtins → Option Value → Option Float
score_or_zero py none = some zero_float
score_or_zero py (some v) = if truthy v then py.to_float v else some zero_float

abbrev pub clamped_score : Option Float → Float
clamped_score none = zero_float
clamped_score (some x) = clamp_unit x

unfoldable pub min_score_from_args : Builtins → Fields → Float
min_score_from_args py args = clamped_score (score_or_zero py (get "min_score" args))

-- `int(value or 1)`, with `none` where it raises.
abbrev pub count_or_one : Builtins → Option Value → Option ℤ
count_or_one py none = some (pos 1)
count_or_one py (some v) = if truthy v then py.to_int v else some (pos 1)

-- `max(1, min(20, value))`
unfoldable pub clamp_count : ℤ → ℤ
clamp_count n =
    let low = if ltb_ℤ n (pos 20) then n else pos 20 in if ltb_ℤ (pos 1) low then low else pos 1

abbrev pub clamped_count : Option ℤ → ℤ
clamped_count none = pos 1
clamped_count (some n) = clamp_count n

unfoldable pub min_count_from_args : Builtins → Fields → ℤ
min_count_from_args py args = clamped_count (count_or_one py (get "min_count" args))

-- `entry["value"]` where `entry` is an object with that key.
unfoldable pub fact_value : Value → Value
fact_value (dict d) = elim (get "value" d) [ none ↦ dict d | some v ↦ v ]
fact_value v = v

abbrev pub is_named : Builtins → String → Option Value → Bool
is_named py wanted (some (dict value)) =
    let observed = normalise_entity_value py (get "object_name" value) in
    not (observed == "") && observed == wanted
is_named py wanted v = false

unfoldable pub object_fact_refers_to : Builtins → String → Value → String → Bool
object_fact_refers_to py key entry object_name =
    let wanted = normalise_entity_name py object_name in
    if wanted == ""
    then false
    else if normalise_entity_name py (remove_prefix "object:" key) == wanted
    then true
    else is_named py wanted (some (fact_value entry))

-- The loop of `find_object_fact`.
unfoldable pub search_objects : Builtins → String → Fields → Option Value
search_objects py object_name end = none
search_objects py object_name (field key entry rest) =
    let later = search_objects py object_name rest in
    if object_fact_refers_to py key entry object_name then some entry else later

unfoldable pub find_object_fact : Builtins → Fields → String → Option Value
find_object_fact py objects object_name =
    if normalise_entity_name py object_name == ""
    then none
    else elim (get (object_fact_key py object_name) objects) [
      | some entry ↦ some entry
      | none ↦ search_objects py object_name objects
    ]

-- What `object_visibility_evidence` returns; `matched` is `none` for None.
pub record Evidence : Type 0 where
  pub expected : String
  pub observed : Value
  pub min_score : Float
  pub matched : Option Bool
  pub reason : String

abbrev optional_score : Option Float → Value
optional_score none = null
optional_score (some x) = float x

abbrev observed_object : String → Value → Option Float → Value
observed_object name visible score = dict (
    field "object_name" (str name)
      (field "visible" visible (field "score" (optional_score score) end)))

-- The value as an object: a text names what is seen, a truth value says whether it is.
unfoldable pub seen_object : String → Value → Option Fields
seen_object object_name (str s) =
    some (field "object_name" (str s) (field "visible" (bool true) end))
seen_object object_name (bool b) =
    some (field "object_name" (str object_name) (field "visible" (bool b) end))
seen_object object_name (dict d) = some d
seen_object object_name v = none

abbrev pub is_false : Value → Bool
is_false (bool b) = not b
is_false v = false

abbrev pub visible_of : Option Value → Value
visible_of none = bool true
visible_of (some v) = v

abbrev pub below : Option Float → Float → Bool
below none low = false
below (some x) low = ltb_float x low

abbrev pub is_absent : Option Float → Bool
is_absent none = true
is_absent x = false

-- The tests of the score, the visibility and the name, in the order of the code.
unfoldable pub judge : Bool → Bool → Option Float → Float → Option Bool × String
judge named hidden score min_score =
    if not named
    then (some false, "object_name_mismatch")
    else if hidden
    then (some false, "not_visible")
    else if ltb_float zero_float min_score && is_absent score
    then (none, "score_missing")
    else if below score min_score
    then (some false, "score_below_min")
    else (some true, "visible")

-- `str(value.get("object_name") or object_name).strip()`
unfoldable pub observed_name : Builtins → String → Fields → String
observed_name py object_name value = strip (elim (get "object_name" value) [
  | none ↦ object_name
  | some v ↦ if truthy v then text_or_empty py.rt (some v) else object_name
])

-- The part of `object_visibility_evidence` that has an object to look at.
unfoldable pub object_evidence : Builtins → String → Float → Fields → Evidence
object_evidence py object_name min_score value =
    let name = observed_name py object_name value in
    let visible = visible_of (get "visible" value) in
    let score = py.to_float (get_or_null "score" value) in
    let named = normalise_entity_name py name == normalise_entity_name py object_name in
    let verdict = judge named (is_false visible) score min_score in
    record {
      expected = object_name;
      observed = observed_object name visible score;
      min_score = min_score;
      matched = verdict.0;
      reason = verdict.1;
    }

abbrev no_evidence : String → Value → Float → String → Evidence
no_evidence object_name observed min_score reason = record {
  expected = object_name;
  observed = observed;
  min_score = min_score;
  matched = none;
  reason = reason;
}

abbrev pub evidence_of : Builtins → String → Float → Value → Option Fields → Evidence
evidence_of py object_name min_score seen none =
    no_evidence object_name seen min_score "unknown_shape"
evidence_of py object_name min_score seen (some value) =
    object_evidence py object_name min_score value

abbrev pub evidence_of_entry : Builtins → String → Float → Option Value → Evidence
evidence_of_entry py object_name min_score none =
    no_evidence object_name null min_score "missing_fact"
evidence_of_entry py object_name min_score (some null) =
    no_evidence object_name null min_score "missing_fact"
evidence_of_entry py object_name min_score (some entry) =
    evidence_of py object_name min_score (fact_value entry)
      (seen_object object_name (fact_value entry))

unfoldable pub object_visibility_evidence : Builtins → Option Value → String → Float → Evidence
object_visibility_evidence py entry object_name min_score =
    if normalise_entity_name py object_name == ""
    then no_evidence object_name null min_score "missing_expected_object"
    else evidence_of_entry py object_name min_score entry
