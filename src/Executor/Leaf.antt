-- ===== src/Executor/Leaf.antt =====
-- The leaves of a behaviour tree in mc_ai_bt/executor.py: what `execute` is given, which nodes it
-- refuses, and the checks and actions with the decision resolver.
use mc_ai_bt.Common.{
  String, Bool, true, false, not, ◌&&◌, ◌||◌, ◌==◌, Option, none, some, ◌≡◌, if◌then◌else◌, ltb,
}
use mc_ai_bt.Common.Int.{ℤ, pos}
use mc_ai_bt.Common.Float.{Float, zero_float, of_ℕ, ltb_float, leb_float}
use mc_ai_bt.Common.Text.{◌<>◌}
use mc_ai_bt.Json.{
  Value, str, list, dict, Items, nil, cons, Fields, end, Runtime, get, get_in, truthy,
  text_or_empty,
}
use mc_ai_bt.Executor.{
  ExecutionResult, TriState, failed, value_or, check_outcome, resolved_outcome, asks_resolution,
  postcondition_outcome, timeout_refused,
}
use mc_ai_bt.Json.{text_of}
use mc_ai_bt.Validator.Checks.{NodeKind, kind_of}

-- What `execute` is given besides the node: a relation says which answers a call can have.
pub record Env : Type 1 where
  pub rt : Runtime
  -- `int(value)` and `float(value)`, with `none` where they raise a TypeError or a ValueError.
  pub to_int : Option Value → Option ℤ
  pub to_float : Option Value → Option Float
  -- `f"{value:g}"`
  pub format : Float → String
  -- `skills.execute_skill(name, args, …)`
  pub skill : String → Value → ExecutionResult → Type 0
  -- `checks is not None`, and `checks.check(goal_spec, …)`
  pub has_checks : Bool
  pub check : Fields → Fields → TriState → String → Type 0
  -- `decision_resolver is not None`, and `decision_resolver.resolve(predicate, args, reason, facts)`
  pub has_resolver : Bool
  pub resolve : String → Value → String → Fields → TriState → String → Type 0
  -- `_execute_visual_check`
  pub visual_check : Fields → Fields → ExecutionResult → Type 0

-- `node.get("children", [])`, where a value that is no list is not looped over.
abbrev pub children_of : Option Value → Option Items
children_of none = some nil
children_of (some (list xs)) = some xs
children_of v = none

-- `isinstance(skill, str) and skill` and what else `_execute_action` refuses.
abbrev pub is_name : Option Value → Bool
is_name (some (str s)) = not (s == "")
is_name v = false

abbrev pub is_absent : Option Value → Bool
is_absent none = true
is_absent v = false

abbrev pub is_unread : Option Float → Bool
is_unread none = true
is_unread x = false

abbrev pub is_object : Value → Bool
is_object (dict d) = true
is_object v = false

unfoldable pub action_error : Fields → Option String
unfolding get truthy timeout_refused
action_error node =
    if not (is_name (get "skill" node))
    then some "action skill is required"
    else if not (is_object (value_or (get "args" node) (dict end)))
    then some "action args must be an object"
    else if timeout_refused (get "timeout_sec" node)
    then some "action timeout_sec must be in (0, 600]"
    else none

-- `request.get("args") if isinstance(request.get("args"), dict) else args`
unfoldable pub resolver_args : Option Value → Value → Value
resolver_args (some (dict d)) args = dict d
resolver_args v args = args

-- `max_attempts < 1 or max_attempts > 5`
abbrev pub attempts_error : Option ℤ → Option String
attempts_error none = some "retry max_attempts must be an integer"
attempts_error (some (pos n)) =
    if ltb n 1 || ltb 5 n then some "retry max_attempts must be in [1, 5]" else none
attempts_error (some n) = some "retry max_attempts must be in [1, 5]"

abbrev pub limit_error : String → String → Float → Option Float → Option String
limit_error numeric range high none = some numeric
limit_error numeric range high (some x) =
    if leb_float x zero_float || ltb_float high x then some range else none

unfoldable pub reason_text : Runtime → Option Value → String
unfolding truthy text_or_empty
reason_text rt v = let text = text_or_empty rt v in if text == "" then "no action" else text

abbrev pub known_kind : Option Value → Option NodeKind
known_kind (some (str t)) = kind_of t
known_kind v = none

-- `node.get("type")`, if it is one of the types that `execute` knows.
unfoldable pub node_kind : Fields → Option NodeKind
unfolding get kind_of
node_kind node = known_kind (get "type" node)

abbrev unsupported_type : Runtime → Option Value → String
unsupported_type rt none = "unsupported executor node type: None"
unsupported_type rt (some v) = "unsupported executor node type: " <> text_of rt v

-- The message, unless a value is an object.
abbrev pub object_or : String → Option String → Option Value → Option String
object_or message later (some (dict d)) = later
object_or message later v = some message

abbrev pub branches_error : Option Value → Option String
branches_error (some (list (cons x xs))) = none
branches_error v = some "parallel children must be a non-empty list"

abbrev pub event_error : Env → Option Value → Option Value → Option String
event_error env interval limit =
    if not env.has_checks
    then none
    else if not (is_absent interval) && is_unread (env.to_float interval)
    then some "wait_for_event poll_interval_sec must be numeric"
    else if is_unread (env.to_float limit)
    then some "wait_for_event timeout_sec must be numeric"
    else none

-- The message with which a node of this type fails before it does anything.
unfoldable pub refusal_of : Env → NodeKind → Fields → Option String
unfolding get action_error
refusal_of env NodeKind.action node = action_error node
refusal_of env NodeKind.wait node =
    limit_error "wait duration_sec must be numeric" "wait duration_sec must be in (0, 300]"
      (of_ℕ 300) (env.to_float (get "duration_sec" node))
refusal_of env NodeKind.retry node =
    object_or "retry child must be an object"
      (attempts_error (env.to_int (get "max_attempts" node))) (get "child" node)
refusal_of env NodeKind.parallel node = branches_error (get "children" node)
refusal_of env NodeKind.timeout node =
    object_or "timeout child must be an object"
      (limit_error "timeout timeout_sec must be numeric" "timeout timeout_sec must be in (0, 600]"
        (of_ℕ 600) (env.to_float (get "timeout_sec" node)))
      (get "child" node)
refusal_of env NodeKind.goal_check node =
    object_or "goal check requires check object" none (get "check" node)
refusal_of env NodeKind.visual_check node =
    object_or "visual check requires check object" none (get "check" node)
refusal_of env NodeKind.wait_for_event node =
    event_error env (get "poll_interval_sec" node) (get "timeout_sec" node)
refusal_of env kind node = none

abbrev pub refusal_known : Env → Option NodeKind → Fields → Option String
refusal_known env none node = some (unsupported_type env.rt (get "type" node))
refusal_known env (some kind) node = refusal_of env kind node

-- The message with which a node fails before it does anything.
unfoldable pub refusal : Env → Fields → Option String
unfolding node_kind get text_of refusal_of
refusal env node = refusal_known env (node_kind node) node

module _ (env : Env) where
  -- `_check_as_execution_result`
  pub data Checked (inline : Bool) (label : String) (spec facts : Fields) (q : ExecutionResult)
      : Type 0 where
    unconfigured :
        env.has_checks ≡ false
        → q ≡ failed (label <> " checker is not configured") facts true false
        → Checked inline label spec facts q
    answered :
        (state : TriState) (message : String)
        → env.has_checks ≡ true
        → env.check spec facts state message
        → (state ≡ TriState.unknown → (inline && env.has_resolver) ≡ false)
        → q ≡ check_outcome label facts state message
        → Checked inline label spec facts q
    asked :
        (message : String) (state : TriState) (answer : String)
        → env.has_checks ≡ true
        → env.check spec facts TriState.unknown message
        → (inline && env.has_resolver) ≡ true
        → env.resolve
            (text_or_empty env.rt (get "predicate" spec))
            (value_or (get "args" spec) (dict end))
            message
            facts
            state
            answer
        → q ≡ resolved_outcome label facts message state answer
        → Checked inline label spec facts q

  -- `_execute_action` of a node that is not refused: the skill is executed once.
  pub data Acted (inline : Bool) (node : Fields) (q : ExecutionResult) : Type 0 where
    returned :
        (skill : String)
        → get "skill" node ≡ some (str skill)
        → env.skill skill (value_or (get "args" node) (dict end)) q
        → (asks_resolution env.rt skill q && inline && env.has_resolver) ≡ false
        → Acted inline node q
    asked :
        (skill : String) (r : ExecutionResult) (state : TriState) (message : String)
        → get "skill" node ≡ some (str skill)
        → env.skill skill (value_or (get "args" node) (dict end)) r
        → (asks_resolution env.rt skill r && inline && env.has_resolver) ≡ true
        → env.resolve
            (text_or_empty env.rt (get_in "predicate" (get "_resolution_request" r.facts)))
            (resolver_args
              (get_in "args" (get "_resolution_request" r.facts))
              (value_or (get "args" node) (dict end)))
            r.message
            r.facts
            state
            message
        → q ≡ postcondition_outcome skill r state message
        → Acted inline node q
