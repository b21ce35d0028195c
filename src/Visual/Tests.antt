-- ===== src/Visual/Tests.antt =====
-- The visual client on concrete sessions, and the checks of a mission with it.
use mc_ai_bt.Common.{String, true, false, ◌==◌, none, some, ◌≡◌, refl}
use mc_ai_bt.Common.Float.{zero_float, of_ℕ}
use mc_ai_bt.Common.Text.{strip}
use mc_ai_bt.Json.{str, dict, Fields, end, field, get, Runtime, truthy, text_or_empty}
use mc_ai_bt.Json.Builtins.{Builtins, dict_or_empty, text_of_keys}
use mc_ai_bt.Executor.{yes, unknown, succeeded}
use mc_ai_bt.Visual.Client.{
  Observation, observed, Session, VisualMessage, client_check, visual_query, Completed,
  answer_needs_message, check_result_from_msg,
}
use mc_ai_bt.Visual.Fallback.{mission_check, structured_is_not_seen}
use mc_ai_bt.Goal.Registry.{spec_of}
use mc_ai_bt.Goal.Direct.{CheckResult, result, direct_predicate_result}
use mc_ai_bt.Goal.World.{Tools, check_execution_facts, branch_of, execution_branch}
use mc_ai_bt.Goal.{check, check_structured, snapshot}

abbrev runtime : Runtime
runtime = record { loads = λ raw. none; dumps = λ v. "{}"; show = λ v. "value"; quote = λ s. s }

abbrev builtins : Builtins
builtins = record {
  rt = runtime;
  lower = λ s. s;
  upper = λ s. s;
  nfkc = λ s. s;
  casefold = λ s. s;
  to_float = λ v. none;
  to_int = λ v. none;
  apart = λ a b. false;
  format = λ x. "1";
}

abbrev tools : Tools
tools = record {
  py = builtins;
  evaluate = λ facts predicate args. record {
    state = "UNKNOWN";
    reason = "no region";
    confidence = zero_float;
  };
  extract = λ query. "";
}

abbrev message : VisualMessage
message = record {
  state = yes;
  reason = "a cup";
  confidence = of_ℕ 1;
  observed_at = none;
  provider_name = "";
  model_name = "";
  stale = false;
}

abbrev session : Session
session = record {
  ready = true;
  send_error = none;
  accepted = true;
  result_error = none;
  ended_with = none;
  message = some message;
}

abbrev question : Fields
question = field "query" (str "do you see a cup?") end

answer_needs_message_example :
    ((visual_query builtins question == "") ≡ false)
    × Completed session (client_check builtins (λ x. "1.00") session question).state
unfolding client_check check_result_from_msg visual_query get truthy text_or_empty text_of_keys
    strip
answer_needs_message_example =
    answer_needs_message builtins (λ x. "1.00") session question (λ e. cc)

abbrev mode : Fields
mode = field "mode" (str "visual_check") end

abbrev goal : String → Fields
goal type_ =
    field "type" (str type_)
      (field "predicate" (str "entity_approached") (field "verification" (dict mode) end))

abbrev open_end : CheckResult
open_end = result unknown "no verification evidence for entity_approached"

abbrev look : Fields → Fields → Observation
look check facts = observed yes "it is there"

structured_is_not_seen_example :
    mission_check tools none look (goal "structured") (succeeded "done" end)
    ≡ some (observed unknown "no verification evidence for entity_approached")
unfolding get truthy text_or_empty dict_or_empty check check_structured check_execution_facts
    branch_of execution_branch spec_of direct_predicate_result snapshot
structured_is_not_seen_example =
    structured_is_not_seen tools none look (goal "structured") (succeeded "done" end) {r = open_end}
      refl refl
