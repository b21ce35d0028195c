-- ===== src/Executor/Visual.antt =====
-- mc_ai_bt/executor.py: `_execute_visual_check`, with the answer that it records in observe mode.
use mc_ai_bt.Common.{String, Bool, true, false, not, ◌==◌, Option, none, some, ◌≡◌, if◌then◌else◌}
use mc_ai_bt.Common.Float.{Float}
use mc_ai_bt.Common.Text.{◌<>◌}
use mc_ai_bt.Json.{Value, bool, float, dict, str, Fields, end, field, get, text_or_empty}
use mc_ai_bt.Json.Builtins.{Builtins}
use mc_ai_bt.Visual.{is_str, visual_check_goal_spec}
use mc_ai_bt.Visual.Client.{Observation, observed}
use mc_ai_bt.Executor.{
  ExecutionResult, TriState, yes, no, unknown, succeeded, failed, put_fact, check_outcome,
}
use mc_ai_bt.Executor.Leaf.{Env, Checked}

abbrev pub add_number : String → Option Float → Fields → Fields
add_number key none d = d
add_number key (some x) d = put_fact key (float x) d

abbrev pub add_text : String → String → Fields → Fields
add_text key text d = if text == "" then d else put_fact key (str text) d

abbrev pub add_flag : String → Bool → Fields → Fields
add_flag key false d = d
add_flag key true d = put_fact key (bool true) d

-- `float(observed_at) if observed_at is not None else time()`
abbrev or_now : Option Float → Float → Float
or_now none now = now
or_now (some x) now = x

abbrev recorded_query : Env → Fields → Value
recorded_query env check = str (text_or_empty env.rt (get "query" check))

-- The first fields of the entry.
abbrev pub base_entry : Env → Fields → Float → Bool → Observation → Fields
base_entry env check now value o = field "completed" (bool true) (
    field "value" (bool value) (
      field "query" (recorded_query env check)
        (field "observed_at" (float (or_now o.observed_at now)) end)))

-- The entry of `_record_visual_check_result`.
unfoldable pub visual_entry : Env → Fields → Float → Bool → Observation → Fields
visual_entry env check now value o = add_flag "stale" o.stale (
    add_text "model_name" o.model_name (
      add_text "provider_name" o.provider_name
        (add_number "confidence" o.confidence (base_entry env check now value o))))

-- `_record_visual_check_result`
unfoldable pub record_visual_check_result :
    Env → Fields → Fields → Float → Bool → Observation → Fields
record_visual_check_result env facts check now value o =
    put_fact "visual_check_result" (dict (visual_entry env check now value o)) facts

abbrev truth_word : Bool → String
truth_word true = "TRUE"
truth_word false = "FALSE"

abbrev pub seen_outcome : Env → Fields → Fields → Float → Bool → Observation → ExecutionResult
seen_outcome env facts check now value o =
    succeeded ("visual check " <> truth_word value <> ": " <> o.message)
      (record_visual_check_result env facts check now value o)

-- The end of `_execute_visual_check` in observe mode.
unfoldable pub observe_outcome :
    Env → Fields → Fields → Float → Observation → TriState → ExecutionResult
observe_outcome env facts check now o yes = seen_outcome env facts check now true o
observe_outcome env facts check now o no = seen_outcome env facts check now false o
observe_outcome env facts check now o unknown =
    failed ("visual check UNKNOWN: " <> o.message) facts true true

-- What the node is given besides the environment of `execute`: the search of the query, the clock, and
-- the answers of `checks.visual_check`, if there is such a method.
pub record Eyes : Type 1 where
  pub py : Builtins
  pub extract : String → String
  pub now : Float
  pub has_look : Bool
  pub look : Fields → Fields → Observation → Type 0

abbrev lacks_object : Option Value → Bool
lacks_object (some (dict d)) = false
lacks_object v = true

abbrev pub observes : Fields → Bool
observes node = is_str "observe" (get "mode" node)

-- Whether the check stands for a goal that a goal checker can judge.
abbrev is_structured : Fields → Bool
is_structured end = false
is_structured goal = not (is_str "visual" (get "type" goal))

-- What a judged goal makes of the node.
abbrev pub judged_outcome :
    Env → Fields → Fields → Float → Bool → ExecutionResult → Observation → ExecutionResult
judged_outcome env facts check now false r o = r
judged_outcome env facts check now true r o =
    succeeded r.message (record_visual_check_result env facts check now r.success o)

-- The result of a visual check that was called.
abbrev pub look_outcome : Env → Fields → Fields → Float → Bool → Observation → ExecutionResult
look_outcome env facts check now false o = check_outcome "visual check" facts o.state o.message
look_outcome env facts check now true o = observe_outcome env facts check now o o.state

abbrev pub unconfigured : Fields → ExecutionResult
unconfigured facts =
    failed "visual check UNKNOWN: VisualCheck service is not configured" facts true false

module _ (env : Env) (eyes : Eyes) where
  abbrev visual_goal_of : Fields → Fields
  visual_goal_of check = visual_check_goal_spec eyes.py eyes.extract check

  -- The visual check itself, where the goal checker has not settled the goal.
  pub data Looked (observe : Bool) (check facts : Fields) (q : ExecutionResult) : Type 0 where
    blind : eyes.has_look ≡ false → q ≡ unconfigured facts → Looked observe check facts q
    saw :
        (o : Observation)
        → eyes.has_look ≡ true
        → eyes.look check facts o
        → q ≡ look_outcome env facts check eyes.now observe o
        → Looked observe check facts q

  -- `_execute_visual_check`
  pub data VisuallyChecked (node facts : Fields) (q : ExecutionResult) : Type 0 where
    malformed :
        lacks_object (get "check" node) ≡ true
        → q ≡ failed "visual check requires check object" end false false
        → VisuallyChecked node facts q
    judged :
        (check : Fields) (r : ExecutionResult)
        → get "check" node ≡ some (dict check)
        → is_structured (visual_goal_of check) ≡ true
        → Checked env false "visual check" (visual_goal_of check) facts r
        → r.blocked ≡ false
        → q ≡ judged_outcome env facts check eyes.now (observes node) r (observed unknown "")
        → VisuallyChecked node facts q
    undecided :
        (check : Fields) (r : ExecutionResult)
        → get "check" node ≡ some (dict check)
        → is_structured (visual_goal_of check) ≡ true
        → Checked env false "visual check" (visual_goal_of check) facts r
        → r.blocked ≡ true
        → Looked (observes node) check facts q
        → VisuallyChecked node facts q
    unjudged :
        (check : Fields)
        → get "check" node ≡ some (dict check)
        → is_structured (visual_goal_of check) ≡ false
        → Looked (observes node) check facts q
        → VisuallyChecked node facts q
