-- ===== src/Trigger/Tests.antt =====
-- Two world events, and the theorems on them.
use mc_ai_bt.Common.{Option, none, some}
use mc_ai_bt.Common.Int.{ℤ, pos}
use mc_ai_bt.Json.{Value, int, str, Fields, end, field, Runtime}
use mc_ai_bt.Trigger.{TriggerAction, TriggerDecision}

abbrev runtime : Runtime
runtime = record { loads = λ raw. none; dumps = λ v. "{}"; show = λ v. "value"; quote = λ s. s }

abbrev named : Fields
named = field "mission_id" (str "a") (field "plan_version" (int (pos 2)) end)

abbrev decision : TriggerDecision
decision = record {
  action = TriggerAction.replan;
  message = "mission-relevant world event requests replan";
  reason = "MISSION_RELEVANT_FACT_CHANGED";
  snapshot_id = "s1";
  payload = named;
}

abbrev to_int : Value → Option ℤ
to_int (int n) = some n
to_int v = none
