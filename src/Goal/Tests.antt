-- ===== src/Goal/Tests.antt =====
-- The goal checker on concrete goals, facts and snapshots, and its theorems there.
use mc_ai_bt.Common.{true, false, Option, none, some, ◌≡◌, refl}
use mc_ai_bt.Common.Float.{zero_float}
use mc_ai_bt.Common.Text.{strip}
use mc_ai_bt.Json.{bool, str, dict, Fields, end, field, get, Runtime, truthy, text_or_empty}
use mc_ai_bt.Json.Builtins.{Builtins, dict_or_empty, text_of_keys}
use mc_ai_bt.Json.Number.{number}
use mc_ai_bt.Executor.{ExecutionResult, yes, no, unknown, succeeded}
use mc_ai_bt.Entity.{fact_value}
use mc_ai_bt.Facts.{world_fact_updates_for_execution}
use mc_ai_bt.Goal.Registry.{spec_of}
use mc_ai_bt.Goal.Direct.{
  CheckResult, result, direct_predicate_result, direct_object, truthy_state, field_state, differ,
}
use mc_ai_bt.Goal.Bespoke.{compare_names}
use mc_ai_bt.Goal.World.{Tools, check_execution_facts, branch_of, execution_branch}
use mc_ai_bt.Goal.Snapshot.{check_snapshot}
use mc_ai_bt.Goal.{Provider, check, check_structured}
use mc_ai_bt.Goal.Precedence.{facts_come_first}
use mc_ai_bt.Goal.Written.{place}
use mc_ai_bt.Goal.ReadBack.{written_facts_are_read_back}
use mc_ai_bt.Goal.Observation.{observation_reaches_goal}
use mc_ai_bt.Common.Text.{squeeze, is_space, contains, starts_with}
use mc_ai_bt.Executor.Leaf.{Env}
use mc_ai_bt.Executor.Visual.{Eyes, VisuallyChecked, Looked, observe_outcome}
use mc_ai_bt.Visual.{
  normalise, looks_like_people_query, visual_query_goal_spec, visual_check_goal_spec,
}
use mc_ai_bt.Visual.Client.{observed}

abbrev runtime : Runtime
runtime = record { loads = λ raw. none; dumps = λ v. "{}"; show = λ v. "value"; quote = λ s. s }

-- Letters are lower case already.
abbrev builtins : Builtins
builtins = record {
  rt = runtime;
  lower = λ s. s;
  upper = λ s. s;
  nfkc = λ s. s;
  casefold = λ s. s;
  to_float = λ v. number (some v);
  to_int = λ v. none;
  apart = λ a b. false;
  format = λ x. "1";
}

abbrev tools : Tools
tools = record {
  py = builtins;
  evaluate = λ facts predicate args. record {
    state = "UNKNOWN";
    reason = "no region";
    confidence = zero_float;
  };
  extract = λ query. "";
}

abbrev goal : Fields
goal = field "type" (str "structured") (field "predicate" (str "entity_located") end)

abbrev located : Fields
located = field "entity_located" (dict (field "matched" (bool true) end)) end

abbrev verdict : CheckResult
verdict = result yes "execution facts confirms entity_located"

abbrev broken : Option Provider
broken = some (λ scopes. none)

checked :
    (provider : Option Provider)
    → check tools provider goal (succeeded "done" located) ≡ some verdict
unfolding get truthy text_or_empty dict_or_empty text_of_keys strip check check_structured
    check_execution_facts branch_of execution_branch spec_of direct_predicate_result direct_object
    fact_value truthy_state differ field_state
checked provider = refl

facts_come_first_example : check tools broken goal (succeeded "done" located) ≡ some verdict
facts_come_first_example =
    facts_come_first tools broken {r = verdict} refl goal (succeeded "done" located) (checked none)

-- The robot is in the kitchen, and the world state says so.
abbrev arrived : Fields
arrived = field "robot_at_place" (str "kitchen") end

abbrev kitchen : Fields
kitchen = field "name" (str "kitchen") end

abbrev world : Fields
world =
    field "navigation" (dict (field "current_place" (dict (field "value" (str "kitchen") end)) end))
      end

abbrev top : Fields
top = field "facts" (dict world) end

written_facts_are_read_back_example :
    (r : CheckResult) × (check_snapshot tools "robot_at_place" kitchen top ≡ some r)
    × (r.state ≡ yes)
unfolding get truthy text_or_empty dict_or_empty strip check_execution_facts branch_of
    execution_branch compare_names fact_value world_fact_updates_for_execution
written_facts_are_read_back_example =
    written_facts_are_read_back tools place kitchen arrived top world refl
      ((dict (field "value" (str "kitchen") end), refl, refl), tt) refl refl

abbrev marked : Fields
marked =
    field "objects" (dict (field "visual_check_completed" (bool false) end))
      (field "entities" (dict (field "entity_at_place" (bool true) end)) end)

-- An observation that saw nothing, which completes the goal all the same.
abbrev env : Env
env = record {
  rt = runtime;
  to_int = λ v. none;
  to_float = λ v. none;
  format = λ x. "1";
  skill = λ name args r. r ≡ succeeded "done" end;
  has_checks = true;
  check = λ spec facts state message. state ≡ unknown;
  has_resolver = false;
  resolve = λ predicate args reason facts state message. state ≡ unknown;
  visual_check = λ node facts r. r ≡ succeeded "seen" facts;
}

abbrev eyes : Eyes
eyes = record {
  py = builtins;
  extract = λ query. "";
  now = zero_float;
  has_look = true;
  look = λ check facts o. o ≡ observed no "no cup";
}

abbrev question : Fields
question = field "type" (str "visual") (field "query" (str "is it red?") end)

abbrev observing : Fields
observing = field "mode" (str "observe") (field "check" (dict question) end)

abbrev seen : ExecutionResult
seen = observe_outcome env end question zero_float (observed no "no cup") no

saw_nothing : VisuallyChecked env eyes observing end seen
unfolding get truthy text_or_empty strip squeeze is_space contains starts_with normalise
    looks_like_people_query visual_query_goal_spec visual_check_goal_spec
saw_nothing =
    VisuallyChecked.unjudged question refl refl (Looked.saw (observed no "no cup") refl refl refl)

abbrev completed_goal : Fields
completed_goal =
    field "type" (str "structured") (field "predicate" (str "visual_check_completed") end)

observation_reaches_goal_example :
    (r : CheckResult) × (check tools broken completed_goal seen ≡ some r) × (r.state ≡ yes)
unfolding get truthy text_or_empty dict_or_empty observe_outcome
observation_reaches_goal_example =
    observation_reaches_goal env eyes observing end question seen refl refl saw_nothing refl tools
      broken completed_goal end refl refl refl
