-- ===== src/Goal.antt =====
-- mc_ai_bt/goal_check.py: `GoalChecker`, for the snapshots of the world state that a provider gives.
-- `none` stands for an AttributeError, of a `get` on what is no object; it also stands for every goal
-- whose `args` are neither empty nor an object, which the annotated types exclude.
pub mod Registry
pub mod Direct
pub mod Bespoke
pub mod Place
pub mod World
pub mod Snapshot
pub mod Backed
pub mod Evidence
pub mod Precedence
pub mod Known
pub mod Written
pub mod ReadBack
pub mod Observation
mod Tests
use mc_ai_bt.Common.{
  String, Bool, true, false, not, ◌&&◌, ◌||◌, ◌==◌, Option, none, some, List, [], ◌∷◌,
  if◌then◌else◌,
}
use mc_ai_bt.Common.Text.{strip, starts_with, ◌<>◌}
use mc_ai_bt.Json.{Value, null, str, dict, Fields, end, get, truthy, text_or_empty, text_of}
use mc_ai_bt.Json.Builtins.{Builtins, if_dict, dict_or_empty, text_of_keys, get_or_null}
use mc_ai_bt.Executor.{ExecutionResult, yes, no, unknown}
use mc_ai_bt.Validator.Resources.{among}
use mc_ai_bt.Visual.{is_str, visual_check_goal_spec}
use mc_ai_bt.Goal.Registry.{scopes_for_predicate}
use mc_ai_bt.Goal.Direct.{CheckResult, result}
use mc_ai_bt.Goal.Bespoke.{human_confirmation_result, text_at}
use mc_ai_bt.Goal.World.{Tools, check_execution_facts, decided, or_later}
use mc_ai_bt.Goal.Snapshot.{check_snapshot, snapshot_value}

-- `snapshot_provider(scopes, 5.0)`; the call gives `none` where it raises.
abbrev pub Provider : Type 0
Provider = List String → Option String

abbrev read_snapshot : Tools → Option String → Value
read_snapshot t none = dict end
read_snapshot t (some raw) =
    if raw == "" then dict end else elim (t.py.rt.loads raw) [ none ↦ dict end | some v ↦ v ]

-- `_snapshot`
unfoldable pub snapshot : Tools → Option Provider → String → Value
snapshot t none predicate = dict end
snapshot t (some provider) predicate = read_snapshot t (provider (scopes_for_predicate predicate))

-- The answer of the world state if it decides, or the one that remains.
abbrev pub or_remaining : Option CheckResult → CheckResult → Option CheckResult
or_remaining none remaining = none
or_remaining (some r) remaining = some (or_later r remaining)

abbrev pub world_answer : Tools → String → Fields → Value → CheckResult → Option CheckResult
world_answer t predicate args (dict end) remaining = some remaining
world_answer t predicate args (dict d) remaining =
    or_remaining (check_snapshot t predicate args d) remaining
world_answer t predicate args v remaining = if truthy v then none else some remaining

abbrev pub structured_args :
    Tools → Option Provider → String → Option Fields → Fields → Option CheckResult
structured_args t provider predicate none facts = none
structured_args t provider predicate (some args) facts =
    let first = check_execution_facts t predicate args facts in
    if decided first.state
    then some first
    else world_answer t predicate args (snapshot t provider predicate)
        (result unknown ("no verification evidence for " <> predicate))

-- `_check_structured`
unfoldable pub check_structured : Tools → Option Provider → Fields → Fields → Option CheckResult
check_structured t provider goal facts =
    structured_args t provider (text_at t.py "predicate" goal) (dict_or_empty (get "args" goal))
      facts

-- `d.get(key, {})` where the value is read further; `none` where it is no object.
abbrev object_at : String → Fields → Option Fields
object_at key d = elim (get key d) [
  | none ↦ some end
  | some v ↦ elim v [ dict fields ↦ some fields | _ ↦ none ]
]

abbrev tasks_in : Option Fields → Option Fields
tasks_in none = none
tasks_in (some facts) = object_at "tasks" facts

abbrev human_world : Tools → Fields → CheckResult → Option Fields → Option CheckResult
human_world t goal remaining none = none
human_world t goal remaining (some tasks) = some (
    or_later
      (human_confirmation_result t.py (snapshot_value (get "last_human_confirmation" tasks)) goal
        "world state")
      remaining)

abbrev pub human_answer : Tools → Fields → Value → CheckResult → Option CheckResult
human_answer t goal (dict end) remaining = some remaining
human_answer t goal (dict d) remaining =
    human_world t goal remaining (tasks_in (object_at "facts" d))
human_answer t goal v remaining = if truthy v then none else some remaining

-- `str(verification.get("mode") or "implicit").strip().lower()`
abbrev pub human_mode : Builtins → Fields → String
human_mode py goal =
    let mode = text_at py "mode" (if_dict (get "verification" goal)) in
    py.lower (strip (if mode == "" then "implicit" else mode))

abbrev pub confirmation_modes : List String
confirmation_modes =
    "confirmation" ∷ "human_confirmation" ∷ "operator_confirmation" ∷ "explicit" ∷ []

-- `_check_human`
unfoldable pub check_human : Tools → Option Provider → Fields → Fields → Option CheckResult
check_human t provider goal facts =
    let mode = human_mode t.py goal in
    if starts_with "implicit" mode
    then some (result yes "human/implicit goal accepted after execution")
    else if not (among mode confirmation_modes)
    then some (result unknown ("unknown human verification mode: " <> mode))
    else (let direct =
          human_confirmation_result t.py (get "human_confirmation" facts) goal "execution facts" in
        if decided direct.state
        then some direct
        else human_answer t goal (snapshot t provider "human_confirmation")
            (result unknown "human confirmation evidence missing"))

abbrev pub visual_goal : Tools → Option Provider → Fields → Fields → Option CheckResult
visual_goal t provider end facts =
    some (result unknown "visual goal check is not wired for this query")
visual_goal t provider parsed facts =
    if is_str "visual" (get "type" parsed)
    then some (result unknown "visual goal check is not wired for this query")
    else check_structured t provider parsed facts

-- `GoalChecker.check`
unfoldable pub check : Tools → Option Provider → Fields → ExecutionResult → Option CheckResult
check t provider goal execution =
    let type_ = get "type" goal in
    if not execution.success
    then some (result no ("execution failed: " <> execution.message))
    else if is_str "human" type_
    then check_human t provider goal execution.facts
    else if is_str "visual" type_
    then visual_goal t provider (visual_check_goal_spec t.py t.extract goal) execution.facts
    else if is_str "hybrid" type_ || is_str "structured" type_
    then check_structured t provider goal execution.facts
    else some (result no ("unknown goal type: " <> text_of t.py.rt (get_or_null "type" goal)))
