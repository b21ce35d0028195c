-- ===== src/Executor.antt =====
-- mc_ai_bt/executor.py: what the nodes of a behaviour tree make of the answers of skills, checks and
-- the decision resolver. Run has the execution of a tree, Outcome what holds of its results.
pub mod Leaf
pub mod Run
pub mod Sound
pub mod Outcome
pub mod Success
pub mod Accepted
pub mod Unrefused
pub mod Visual
pub mod Observed
pub mod Seen
mod Tests
use mc_ai_bt.Common.{
  ℕ, String, Bool, true, false, not, ◌&&◌, ◌||◌, ◌==◌, Option, none, some, List, [], ◌∷◌,
  if◌then◌else◌,
}
use mc_ai_bt.Common.Float.{Float, zero_float, of_ℕ}
use mc_ai_bt.Common.Text.{◌<>◌}
use mc_ai_bt.Json.{
  Value, null, bool, int, float, str, list, dict, Items, nil, cons, Fields, end, field, Runtime,
  get, get_in, truthy, text_or_empty,
}
use mc_ai_bt.Json.Number.{number_or_bool, outside}

pub record ExecutionResult : Type 0 where
  pub success : Bool
  pub message : String
  pub facts : Fields
  pub blocked : Bool
  pub needs_decision : Bool

-- The states that a check and a resolver answer with; every other state is read as UNKNOWN.
pub data TriState : Type 0 where
  yes no unknown : TriState

-- `ExecutionResult(True, message, facts)`
abbrev pub succeeded : String → Fields → ExecutionResult
succeeded message facts = record {
  success = true;
  message = message;
  facts = facts;
  blocked = false;
  needs_decision = false;
}

-- `ExecutionResult(False, message, facts, blocked, needs_decision)`
abbrev pub failed : String → Fields → Bool → Bool → ExecutionResult
failed message facts blocked needs_decision = record {
  success = false;
  message = message;
  facts = facts;
  blocked = blocked;
  needs_decision = needs_decision;
}

-- `ExecutionResult(False, message)`
abbrev pub failure : String → ExecutionResult
failure message = failed message end false false

-- `facts[key] = value`
unfoldable pub put_fact : String → Value → Fields → Fields
put_fact key v end = field key v end
put_fact key v (field k w rest) =
    if k == key then field k v rest else field k w (put_fact key v rest)

-- `facts.update(more)`
unfoldable pub update : Fields → Fields → Fields
unfolding put_fact
update facts end = facts
update facts (field k v more) = update (put_fact k v facts) more

-- `value or default`, where `none` is a missing key.
abbrev pub value_or : Option Value → Value → Value
value_or none default = default
value_or (some v) default = if truthy v then v else default

abbrev world_state_mode : Value
world_state_mode = dict (field "mode" (str "world_state") end)

abbrev pub optional : Option Value → Value
optional none = null
optional (some v) = v

-- The goal that Condition and WaitForEvent check.
unfoldable pub condition_spec : Fields → Fields
unfolding get truthy
condition_spec node = field "type" (str "structured") (
    field "predicate" (optional (get "predicate" node)) (
      field "args" (value_or (get "args" node) (dict end))
        (field "verification" (value_or (get "verification" node) world_state_mode) end)))

abbrev spec_or : Option Value → Fields → Fields → Fields
spec_or none check built = built
spec_or (some v) check built = check

abbrev or_empty_text : Option Value → Value
or_empty_text none = str ""
or_empty_text (some v) = v

-- `_normalise_goal_check_spec`
unfoldable pub normalise_goal_check_spec : Fields → Fields
unfolding get truthy
normalise_goal_check_spec check = spec_or (get "type" check) check (
    field "type" (str "structured") (
      field "predicate" (optional (get "predicate" check)) (
        field "args" (value_or (get "args" check) (dict end)) (
          field "verification" (value_or (get "verification" check) world_state_mode)
            (field "summary" (or_empty_text (get "summary" check)) end)))))

-- The end of `_check_as_execution_result` and `_visual_check_as_execution_result`: what an answer of a
-- check amounts to.
unfoldable pub check_outcome : String → Fields → TriState → String → ExecutionResult
check_outcome label facts yes message = succeeded (label <> " TRUE: " <> message) facts
check_outcome label facts no message = failed (label <> " FALSE: " <> message) facts false false
check_outcome label facts unknown message =
    failed (label <> " UNKNOWN: " <> message) facts true true

-- The same after the resolver was asked about an UNKNOWN answer.
unfoldable pub resolved_outcome : String → Fields → String → TriState → String → ExecutionResult
unfolding check_outcome
resolved_outcome label facts message yes answer =
    succeeded (label <> " TRUE (resolved): " <> answer) facts
resolved_outcome label facts message no answer =
    failed (label <> " FALSE (resolved): " <> answer) facts false false
resolved_outcome label facts message unknown answer = check_outcome label facts unknown message

-- `predicate in ACTION_POSTCONDITION_POLICY.get(skill)`
abbrev pub approved : String → String → Bool
approved skill predicate = skill == "approach_entity" && predicate == "entity_approached"

abbrev is_kind : Option Value → Bool
is_kind (some (str kind)) = kind == "postcondition_unknown"
is_kind v = false

-- The first tests of `_resolve_action_postcondition`: the result asks for a resolution that is approved
-- for this skill.
unfoldable pub asks_resolution : Runtime → String → ExecutionResult → Bool
unfolding get get_in text_or_empty
asks_resolution rt skill result =
    let request = get "_resolution_request" result.facts in
    result.blocked
    && is_kind (get_in "kind" request)
    && approved skill (text_or_empty rt (get_in "predicate" request))

-- The rest of `_resolve_action_postcondition`, after the resolver's answer.
unfoldable pub postcondition_outcome :
    String → ExecutionResult → TriState → String → ExecutionResult
postcondition_outcome skill result yes message =
    succeeded (skill <> " succeeded (resolved): " <> message) result.facts
postcondition_outcome skill result no message =
    failed (skill <> " failed (resolved): " <> message) result.facts false false
postcondition_outcome skill result unknown message =
    failed
      (skill <> " blocked, postcondition unresolved after side effect "
        <> "(POSTCONDITION_UNRESOLVED_AFTER_SIDE_EFFECT): " <> result.message)
      result.facts true false

-- `_optional_positive_timeout`: whether the timeout is refused.
unfoldable pub timeout_refused : Option Value → Bool
unfolding outside number_or_bool
timeout_refused none = false
timeout_refused (some null) = false
timeout_refused v = outside zero_float (of_ℕ 600) (number_or_bool v)

-- What a failing child makes of its Sequence.
unfoldable pub sequence_stops : Fields → ExecutionResult → ExecutionResult
unfolding update
sequence_stops facts r = failed r.message (update facts r.facts) r.blocked r.needs_decision

-- What a blocked child makes of its Fallback or Retry.
unfoldable pub escalates : Fields → ExecutionResult → ExecutionResult
unfolding update
escalates facts r = failed r.message (update facts r.facts) true r.needs_decision

-- The loop of `_execute_parallel` over the results; `none` is a thread that did not report.
unfoldable pub merge_facts : Fields → List (Option ExecutionResult) → Fields
unfolding update
merge_facts facts [] = facts
merge_facts facts (none ∷ rest) = merge_facts facts rest
merge_facts facts (some r ∷ rest) = merge_facts (update facts r.facts) rest

unfoldable pub failures : List (Option ExecutionResult) → List ExecutionResult
failures [] = []
failures (none ∷ rest) =
    failed "parallel child did not report a result" end true false ∷ failures rest
failures (some r ∷ rest) = let others = failures rest in if r.success then others else r ∷ others

unfoldable pub any_blocked : List ExecutionResult → Bool
any_blocked [] = false
any_blocked (r ∷ rest) = r.blocked || any_blocked rest

unfoldable pub any_needs_decision : List ExecutionResult → Bool
any_needs_decision [] = false
any_needs_decision (r ∷ rest) = r.needs_decision || any_needs_decision rest

-- `"; ".join(result.message for result in failures)`
unfoldable pub join_messages : List ExecutionResult → String
join_messages [] = ""
join_messages (r ∷ []) = r.message
join_messages (r ∷ q ∷ rest) = r.message <> "; " <> join_messages (q ∷ rest)

abbrev joined : Fields → List ExecutionResult → ExecutionResult
joined facts [] = succeeded "parallel succeeded" facts
joined facts (r ∷ rest) =
    failed ("parallel failed: " <> join_messages (r ∷ rest)) facts (any_blocked (r ∷ rest))
      (any_needs_decision (r ∷ rest))

-- The end of `_execute_parallel`.
unfoldable pub parallel_outcome : Fields → List (Option ExecutionResult) → ExecutionResult
unfolding merge_facts failures join_messages any_blocked any_needs_decision
parallel_outcome facts results = joined (merge_facts facts results) (failures results)
