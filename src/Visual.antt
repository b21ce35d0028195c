-- ===== src/Visual.antt =====
-- mc_ai_bt/visual_check.py: the goal that a visual check stands for. `extract`, an argument, is the
-- search of the query by regular expressions (`_extract_object_name`).
pub mod Client
pub mod Fallback
mod Tests
use mc_ai_bt.Common.{
  ℕ, String, Bool, true, false, not, ◌&&◌, ◌||◌, ◌==◌, ◌=ℕ◌, Option, none, some, List, [], ◌∷◌,
  if◌then◌else◌,
}
use mc_ai_bt.Common.Int.{pos}
use mc_ai_bt.Common.Text.{strip, squeeze, is_space, contains}
use mc_ai_bt.Json.{Value, null, int, str, dict, Fields, end, field, get, truthy, text_or_empty}
use mc_ai_bt.Json.Builtins.{Builtins, get_or_null, has_key, if_dict}
use mc_ai_bt.Executor.{put_fact, update, value_or}
use mc_ai_bt.Validator.Checks.{is_filled}

-- `value == text`
abbrev pub is_str : String → Option Value → Bool
is_str text (some (str s)) = s == text
is_str text v = false

-- `[?!.,;:？！。，；：]`
abbrev is_mark : ℕ → Bool
is_mark c =
    c =ℕ 63
    || c =ℕ 33
    || c =ℕ 46
    || c =ℕ 44
    || c =ℕ 59
    || c =ℕ 58
    || c =ℕ 65311
    || c =ℕ 65281
    || c =ℕ 12290
    || c =ℕ 65292
    || c =ℕ 65307
    || c =ℕ 65306

-- `_normalise`
unfoldable pub normalise : Builtins → String → String
normalise py text = strip (squeeze is_space (squeeze is_mark (py.lower (strip text))))

abbrev phrases : List String
phrases =
    "do you see anyone" ∷ "can you see anyone" ∷ "do you see a person" ∷ "can you see a person"
    ∷ "do you see people" ∷ "can you see people" ∷ "how many people" ∷ "visible people"
    ∷ "anyone here" ∷ "有人吗" ∷ "有没有人" ∷ "看到人" ∷ "几个人" ∷ []

abbrev any_phrase : List String → String → Bool
any_phrase [] text = false
any_phrase (p ∷ ps) text = contains p text || any_phrase ps text

-- `_looks_like_people_query`
unfoldable pub looks_like_people_query : String → Bool
looks_like_people_query text = any_phrase phrases text

abbrev or_visual_mode : Value
or_visual_mode = dict (field "mode" (str "world_state_or_visual_check") end)

abbrev visible_goal : String → Fields → String → Fields
visible_goal predicate args query = field "type" (str "structured") (
    field "predicate" (str predicate) (
      field "args" (dict args)
        (field "verification" or_visual_mode (field "summary" (str query) end))))

-- `visual_query_goal_spec`
unfoldable pub visual_query_goal_spec : Builtins → (String → String) → String → Fields
visual_query_goal_spec py extract query =
    let text = normalise py query in
    let object_name = extract text in
    if looks_like_people_query text
    then visible_goal "person_visible" (field "min_count" (int (pos 1)) end) query
    else if object_name == ""
    then end
    else visible_goal "object_visible" (field "name" (str object_name) end) query

-- `isinstance(value, dict) and value`
abbrev filled_dict : Option Value → Option Fields
filled_dict (some (dict d)) = if truthy (dict d) then some d else none
filled_dict v = none

abbrev put_if : String → Option Fields → Fields → Fields
put_if key none d = d
put_if key (some v) d = put_fact key (dict v) d

-- The arguments of the check replace those that the query gives.
abbrev with_args : Option Fields → Fields → Fields
with_args none parsed = parsed
with_args (some extra) parsed =
    put_fact "args" (dict (update (if_dict (get "args" parsed)) extra)) parsed

abbrev parsed_visual : Fields → String → Fields → Fields
parsed_visual check query parsed =
    let verified = put_if "verification" (filled_dict (get "verification" check)) parsed in
    put_fact "summary" (value_or (get "summary" check) (str query))
      (with_args (filled_dict (get "args" check)) verified)

abbrev or_else : Fields → Fields → Fields → Fields
or_else end found missing = missing
or_else d found missing = found

abbrev or_empty_text : Option Value → Value
or_empty_text none = str ""
or_empty_text (some v) = v

abbrev predicate_goal : Fields → Fields
predicate_goal check = field "type" (str "structured") (
    field "predicate" (get_or_null "predicate" check) (
      field "args" (value_or (get "args" check) (dict end)) (
        field "verification" (value_or (get "verification" check) or_visual_mode)
          (field "summary" (or_empty_text (get "summary" check)) end))))

-- `visual_check_goal_spec`
unfoldable pub visual_check_goal_spec : Builtins → (String → String) → Fields → Fields
visual_check_goal_spec py extract check =
    let query = strip (text_or_empty py.rt (get "query" check)) in
    let parsed = visual_query_goal_spec py extract query in
    if is_str "visual" (get "type" check)
    then or_else parsed (parsed_visual check query parsed) check
    else if has_key "type" check
    then check
    else if is_filled (get "predicate" check)
    then predicate_goal check
    else if query == ""
    then end
    else or_else parsed (with_args (filled_dict (get "args" check)) parsed) end
