-- ===== src/Validator/Checks.antt =====
-- The checks of single fields in mc_ai_bt/validator.py: each appends its errors to a report.
use mc_ai_bt.Common.{
  ◌^◌, String, Bool, true, false, not, ◌&&◌, ◌||◌, ◌==◌, Option, none, some, List, [], ◌∷◌, ◌++◌,
  if◌then◌else◌, ⊤,
}
use mc_ai_bt.Common.Int.{pos, ltb_ℤ}
use mc_ai_bt.Common.Float.{finite, unit, zero_float, of_ℕ}
use mc_ai_bt.Common.Text.{strip, ◌<>◌}
use mc_ai_bt.Json.{Value, null, bool, int, str, list, dict, Fields, get, Runtime}
use mc_ai_bt.Json.Number.{number, outside, within}
use mc_ai_bt.Validator.Resources.{among, Skills}

-- `KNOWN_PREDICATE_NAMES`: the keys of goal_check.py's registry and one more.
abbrev pub known_predicate_names : List String
known_predicate_names =
    "robot_at_place" ∷ "robot_near_interaction_owner" ∷ "relative_motion_completed"
    ∷ "animation_played" ∷ "object_visible" ∷ "person_visible" ∷ "person_at_place"
    ∷ "object_at_place" ∷ "entity_following" ∷ "person_following" ∷ "entity_at_place"
    ∷ "reach_completed" ∷ "track_entity_arm_completed" ∷ "contact_detected" ∷ "target_state_changed"
    ∷ "axis_aligned" ∷ "axis_motion_completed" ∷ "distance_maintained" ∷ "pose_held"
    ∷ "oscillation_completed" ∷ "retracted" ∷ "touch_completed" ∷ "human_confirmation"
    ∷ "entity_located" ∷ "pose_available" ∷ "relation_checked" ∷ "search_for_entity_completed"
    ∷ "entity_approached" ∷ "participant_ready" ∷ "entity_faced" ∷ "person_named" ∷ "room_scanned"
    ∷ "entity_alias_bound" ∷ "visual_check_completed" ∷ "place_remembered" ∷ []

-- The errors that a check appends, or `none` where it raises a TypeError.
abbrev pub Report : Type 0
Report = Option (List String)

abbrev pub fine : Report
fine = some []

abbrev pub say : String → Report
say message = some (message ∷ [])

unfoldable pub also : Report → Report → Report
also (some a) (some b) = some (a ++ b)
also a b = none

-- A message that is appended under a condition.
abbrev pub say_if : Bool → String → Report
say_if bad message = if bad then say message else fine

-- `EXECUTABLE_NODE_TYPES`; there are no others.
pub data NodeKind : Type 0 where
  sequence fallback condition action goal_check visual_check : NodeKind
  wait retry parallel timeout no_action wait_for_event : NodeKind

unfoldable pub kind_of : String → Option NodeKind
kind_of t =
    if t == "Sequence"
    then some sequence
    else if t == "Fallback"
    then some fallback
    else if t == "Condition"
    then some condition
    else if t == "Action"
    then some action
    else if t == "GoalCheck"
    then some goal_check
    else if t == "VisualCheck"
    then some visual_check
    else if t == "Wait"
    then some wait
    else if t == "Retry"
    then some retry
    else if t == "Parallel"
    then some parallel
    else if t == "Timeout"
    then some timeout
    else if t == "NoAction"
    then some no_action
    else if t == "WaitForEvent"
    then some wait_for_event
    else none

-- The membership test of a value in a set of texts; a list or an object cannot be hashed.
pub data Found (A : Type 0) : Type 0 where
  known : A → Found A
  unknown raises : Found A

abbrev pub found_text : {A : Type 0} → Option A → Found A
found_text none = unknown
found_text (some a) = known a

unfoldable pub find : {A : Type 0} → (String → Option A) → Option Value → Found A
find table none = unknown
find table (some (str t)) = found_text (table t)
find table (some (list xs)) = raises
find table (some (dict d)) = raises
find table (some v) = unknown

-- `repr(value)`, where `none` is `None`.
unfoldable pub repr : Runtime → Option Value → String
repr rt none = rt.show null
repr rt (some (str s)) = rt.quote s
repr rt (some v) = rt.show v

abbrev pub is_missing : Option Value → Bool
is_missing none = true
is_missing (some null) = true
is_missing v = false

abbrev pub is_dict : Option Value → Bool
is_dict (some (dict d)) = true
is_dict v = false

abbrev pub is_bool : Option Value → Bool
is_bool (some (bool b)) = true
is_bool v = false

abbrev pub is_text : Option Value → Bool
is_text (some (str s)) = true
is_text v = false

-- `isinstance(v, str) and v.strip()`.
unfoldable pub is_filled : Option Value → Bool
unfolding strip
is_filled (some (str s)) = not (strip s == "")
is_filled v = false

-- The check of `args`, which may be missing but not null.
abbrev pub args_report : String → Option Value → Report
args_report path none = fine
args_report path args = say_if (not (is_dict args)) (path <> ".args must be an object")

unfoldable pub predicate_name_report : Runtime → String → Option Value → Report
unfolding among repr
predicate_name_report rt path (some (str p)) =
    say_if (not (among p known_predicate_names))
      (path <> " is not a known predicate: " <> repr rt (some (str p)))
predicate_name_report rt path v = fine

-- The check of the `predicate` of Condition and WaitForEvent.
unfoldable pub predicate_report : Runtime → String → Option Value → Report
unfolding is_filled predicate_name_report
predicate_report rt path predicate =
    if is_filled predicate
    then predicate_name_report rt (path <> ".predicate") predicate
    else say (path <> ".predicate is required")

-- The check of `timeout_sec` against (0, 600] where it is not null.
unfoldable pub timeout_report : String → Option Value → Report
unfolding outside number
timeout_report path t =
    say_if (not (is_missing t) && outside zero_float (of_ℕ 600) (number t))
      (path <> ".timeout_sec must be in (0, 600]")

-- The own check of a Timeout node, where it is required.
unfoldable pub own_timeout_report : String → Option Value → Report
unfolding outside number
own_timeout_report path t =
    say_if (outside zero_float (of_ℕ 600) (number t)) (path <> ".timeout_sec must be in (0, 600]")

-- An integer from 1 to 5; `True` is an integer too.
abbrev pub is_attempts : Option Value → Bool
is_attempts (some (int n)) = not (ltb_ℤ n (pos 1)) && not (ltb_ℤ (pos 5) n)
is_attempts (some (bool b)) = b
is_attempts v = false

-- The check of `max_attempts`.
unfoldable pub attempts_report : String → Option Value → Report
attempts_report path v =
    say_if (not (is_attempts v)) (path <> ".max_attempts must be an integer in [1, 5]")

-- The check of `poll_interval_sec`, 2.0 where it is missing.
unfoldable pub poll_report : String → Option Value → Report
unfolding within number unit
poll_report path none = fine
poll_report path v =
    say_if (not (within (finite (pos (2 ^ 1073))) (of_ℕ 30) (number v)))
      (path <> ".poll_interval_sec must be in [0.5, 30]")

unfoldable pub looks_like_goal_check : Fields → Bool
unfolding get is_filled
looks_like_goal_check check = is_filled (get "type" check) || is_filled (get "predicate" check)

unfoldable pub looks_like_visual_check : Fields → Bool
unfolding looks_like_goal_check get is_filled
looks_like_visual_check check = looks_like_goal_check check || is_filled (get "query" check)

-- The check of a predicate that may be of any type: a text that is not blank must be known.
unfoldable pub known_predicate_report : Runtime → String → Option Value → Report
unfolding is_filled predicate_name_report
known_predicate_report rt path predicate =
    if is_filled predicate then predicate_name_report rt path predicate else fine

unfoldable pub goal_check_report : Runtime → String → Option Value → Report
unfolding looks_like_goal_check known_predicate_report get
goal_check_report rt path (some (dict check)) =
    if looks_like_goal_check check
    then known_predicate_report rt (path <> ".check.predicate") (get "predicate" check)
    else say (path <> ".check must include a goal type or predicate")
goal_check_report rt path v = say (path <> ".check must be an object")

unfoldable pub visual_check_report : String → Option Value → Report
unfolding looks_like_visual_check
visual_check_report path (some (dict check)) =
    say_if (not (looks_like_visual_check check))
      (path <> ".check must include a query, goal type, or predicate")
visual_check_report path v = say (path <> ".check must be an object")

-- `VISUAL_CHECK_MODES`.
abbrev mode_of : String → Option ⊤
mode_of t = if t == "condition" || t == "observe" then some tt else none

unfoldable pub mode_report : String → Option Value → Report
unfolding find
mode_report path none = fine
mode_report path mode = elim (find mode_of mode) [
  | known _ ↦ fine
  | unknown ↦ say (path <> ".mode must be one of ['condition', 'observe']")
  | raises ↦ none
]

unfoldable pub skill_report : Skills → String → Option Value → Report
unfolding is_filled
skill_report skills path (some (str skill)) =
    if not (is_filled (some (str skill)))
    then say (path <> ".skill is required")
    else say_if (not (skills.has skill)) (path <> ".skill is unknown: " <> skill)
skill_report skills path v = say (path <> ".skill is required")

-- The check of `timeout_sec` that every node but WaitForEvent has.
abbrev pub generic_timeout_report : NodeKind → String → Fields → Report
generic_timeout_report NodeKind.wait_for_event path d = fine
generic_timeout_report kind path d = timeout_report path (get "timeout_sec" d)

-- `ALLOWED_GOAL_TYPES`.
pub data GoalType : Type 0 where
  structured visual human hybrid : GoalType

abbrev pub goal_type_of : String → Option GoalType
goal_type_of t =
    if t == "structured"
    then some structured
    else if t == "visual"
    then some visual
    else if t == "human"
    then some human
    else if t == "hybrid"
    then some hybrid
    else none
