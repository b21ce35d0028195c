-- ===== src/Manager/Finish.antt =====
-- The methods of MissionManager in mc_ai_bt/mission.py that report on a mission or end it: mark_terminal,
-- cancel, update_status, and the test of asynchronous results.
use mc_ai_bt.Common.{
  String, Bool, true, false, not, ◌&&◌, ◌||◌, Option, none, some, if◌then◌else◌, ◌==◌, ◌=ℕ◌,
}
use mc_ai_bt.Common.Float.{Float, of_ℕ, clamp_unit}
use mc_ai_bt.Common.Text.{or_text}
use mc_ai_bt.Common.Dict.{lookup, insert}
use mc_ai_bt.Json.{Fields, Runtime}
use mc_ai_bt.Identity.{Identity}
use mc_ai_bt.Mission.{State, Mission, MissionEvent, EventKind, is_terminal, is_paused}
use mc_ai_bt.Mission.Outcome.{build_mission_outcome_envelope}
use mc_ai_bt.Manager.Monad.{
  Manager, value_error, Action, pure, modify, ◌>>=◌, ◌>>◌, raise_if, event_of,
}
use mc_ai_bt.Manager.Slot.{
  put, require, check_can_update, refuse_terminal, resolve_control_id, settle,
}

abbrev pub is_outcome : State → Bool
is_outcome State.succeeded = true
is_outcome State.failed = true
is_outcome State.blocked = true
is_outcome s = false

abbrev pub outcome_event : State → EventKind
outcome_event State.succeeded = EventKind.succeeded
outcome_event State.failed = EventKind.failed
outcome_event s = EventKind.blocked

abbrev is_succeeded : State → Bool
is_succeeded State.succeeded = true
is_succeeded s = false

-- The mission that `mark_terminal` stores.
unfoldable pub finished_mission : State → String → Mission → Mission
finished_mission state message m = record m {
  state = state;
  status_text = message;
  progress = if is_succeeded state then of_ℕ 1 else m.progress;
}

-- `mark_terminal`
unfoldable pub mark_terminal :
    Runtime → String → State → String → Option Identity → Option Fields → Action MissionEvent
unfolding require check_can_update finished_mission settle
mark_terminal rt id state message expected result_facts = do
  raise_if (not (is_outcome state))
      (value_error "terminal state must be succeeded, failed or blocked")
  m ← require id
  check_can_update m expected
  let done = finished_mission state message m
  modify (settle id done)
  pure (
      event_of (outcome_event state) done message
        (build_mission_outcome_envelope rt done result_facts))

-- The mission that `cancel` stores.
unfoldable pub canceled_mission : String → Mission → Mission
canceled_mission reason m = record m {
  state = State.canceled;
  status_text = or_text reason "canceled";
}

-- `cancel`
unfoldable pub cancel : Runtime → String → String → Action MissionEvent
unfolding resolve_control_id require refuse_terminal canceled_mission settle
cancel rt target reason = do
  id ← resolve_control_id target
  m ← require id
  refuse_terminal id m
  let canceled = canceled_mission reason m
  modify (settle id canceled)
  pure (
      event_of EventKind.canceled canceled canceled.status_text
        (build_mission_outcome_envelope rt canceled none))

abbrev progress_or : Option Float → Float → Float
progress_or none old = old
progress_or (some x) old = clamp_unit x

-- The mission that `update_status` stores.
unfoldable pub updated_mission : String → String → Option Float → Mission → Mission
unfolding clamp_unit
updated_mission active_node status_text progress m = record m {
  active_node = or_text active_node m.active_node;
  status_text = or_text status_text m.status_text;
  progress = progress_or progress m.progress;
}

-- `update_status`
unfoldable pub update_status :
    String → String → String → Option Float → Option Identity → Action Mission
unfolding require check_can_update updated_mission insert
update_status id active_node status_text progress expected = do
  m ← require id
  check_can_update m expected
  let updated = updated_mission active_node status_text progress m
  modify (put id updated)
  pure updated

abbrev pub accepts_for : Identity → Option Mission → Bool
accepts_for i none = false
accepts_for i (some m) =
    if is_paused m.state || is_terminal m.state
    then false
    else if not (m.identity.plan_version =ℕ i.plan_version)
    then false
    else if not (i.execution_id == "") && not (m.identity.execution_id == "")
    then m.identity.execution_id == i.execution_id
    else true

-- `accepts_async_result`
unfoldable pub accepts_async_result : Identity → Manager → Bool
unfolding lookup
accepts_async_result i s = accepts_for i (lookup i.mission_id s.missions)
