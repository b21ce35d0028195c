-- ===== src/Manager/Plan.antt =====
-- MissionManager.set_plan and request_replan of mc_ai_bt/mission.py.
use mc_ai_bt.Common.{String, not, ◌||◌, Option, if◌then◌else◌, ◌==◌, ◌=ℕ◌}
use mc_ai_bt.Common.Text.{or_text}
use mc_ai_bt.Common.Dict.{insert}
use mc_ai_bt.Identity.{Identity, next_plan, for_execution}
use mc_ai_bt.Mission.{State, Mission, MissionEvent, EventKind}
use mc_ai_bt.Manager.Monad.{Action, pure, modify, ◌>>=◌, ◌>>◌, event_of}
use mc_ai_bt.Manager.Slot.{
  put_active, require, check_can_update, refuse_terminal, resolve_control_id,
}

abbrev planned_identity : Mission → Identity
planned_identity m =
    let i = m.identity in
    if not (m.bt_json == "") || not (i.execution_id == "") || i.plan_version =ℕ 0
    then next_plan i
    else i

-- The mission that `set_plan` stores.
unfoldable pub planned_mission : String → String → String → Mission → Mission
unfolding next_plan for_execution
planned_mission bt_json goal_spec_json fresh m = record m {
  identity = for_execution fresh (planned_identity m);
  state = State.running;
  bt_json = bt_json;
  goal_spec_json = goal_spec_json;
  status_text = "running";
}

-- `set_plan`
unfoldable pub set_plan : String → String → String → Option Identity → String → Action MissionEvent
unfolding require check_can_update planned_mission insert
set_plan id bt_json goal_spec_json expected fresh = do
  m ← require id
  check_can_update m expected
  let planned = planned_mission bt_json goal_spec_json fresh m
  modify (put_active id planned)
  pure (event_of EventKind.planned planned "planned" "")

-- The mission that `request_replan` stores.
unfoldable pub replanning_mission : String → Mission → Mission
unfolding next_plan
replanning_mission reason m = record m {
  identity = next_plan m.identity;
  state = State.planning;
  active_node = "";
  status_text = or_text reason "replanning";
  bt_json = "";
  goal_spec_json = "";
}

-- `request_replan`
unfoldable pub request_replan : String → String → String → Action MissionEvent
unfolding resolve_control_id require refuse_terminal replanning_mission insert
request_replan target reason payload_json = do
  id ← resolve_control_id target
  m ← require id
  refuse_terminal id m
  let replanning = replanning_mission reason m
  modify (put_active id replanning)
  pure (event_of EventKind.preempted replanning replanning.status_text payload_json)
