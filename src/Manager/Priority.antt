-- ===== src/Manager/Priority.antt =====
-- MissionManager.reprioritize of mc_ai_bt/mission.py.
use mc_ai_bt.Common.{String, Bool, not, ◌&&◌, Option, none, some, if◌then◌else◌, ◌==◌}
use mc_ai_bt.Common.Int.{ℤ, ltb_ℤ, clamp_byte}
use mc_ai_bt.Common.Text.{◌<>◌, or_text}
use mc_ai_bt.Common.Dict.{lookup, insert}
use mc_ai_bt.Identity.{next_plan}
use mc_ai_bt.Mission.{State, Mission, MissionEvent, EventKind, is_terminal, is_queued}
use mc_ai_bt.Manager.Monad.{ok, Action, gets, modify, ◌>>=◌, ◌>>◌, event_of}
use mc_ai_bt.Manager.Slot.{
  text_or_none, put, put_active, require, refuse_terminal, resolve_control_id,
}

-- The active mission that a preemption sends back to the queue.
unfoldable pub demoted_mission : String → Mission → Mission
unfolding next_plan
demoted_mission id active = record active {
  identity = next_plan active.identity;
  state = State.queued;
  active_node = "";
  status_text = "preempted by higher priority mission " <> id;
  bt_json = "";
  goal_spec_json = "";
}

unfoldable pub promoted_mission : String → Mission → Mission
promoted_mission reason updated = record updated {
  state = State.planning;
  active_node = "";
  status_text = or_text reason "planning";
  bt_json = "";
  goal_spec_json = "";
}

-- The condition under which `updated` takes the slot of the mission that holds it.
unfoldable pub preempts : Bool → String → Mission → Mission → Bool
preempts preempt_if_needed id updated active =
    preempt_if_needed
    && is_queued updated.state
    && not (active.identity.mission_id == id)
    && not (is_terminal active.state)
    && ltb_ℤ active.priority updated.priority

-- The rest of `reprioritize`, after the new priority is stored.
unfoldable pub settle_priority :
    Bool → String → String → Mission → Option Mission → Action MissionEvent
unfolding insert
settle_priority preempt_if_needed id reason updated none s =
    (ok (event_of EventKind.accepted updated (or_text reason "priority updated") ""), s)
settle_priority preempt_if_needed id reason updated (some active) s =
    let demoted = demoted_mission id active in
    let promoted = promoted_mission reason updated in
    if preempts preempt_if_needed id updated active
    then (
      ok (
          event_of EventKind.preempted promoted promoted.status_text
            ("{\"preempted_mission_id\":\"" <> demoted.identity.mission_id <> "\"}")),
      put_active id promoted (put demoted.identity.mission_id demoted s),
    )
    else (ok (event_of EventKind.accepted updated (or_text reason "priority updated") ""), s)

-- The mission that `reprioritize` stores first.
unfoldable pub reprioritized_mission : ℤ → String → Mission → Mission
unfolding clamp_byte
reprioritized_mission priority reason m = record m {
  priority = clamp_byte priority;
  status_text = or_text reason m.status_text;
}

-- `reprioritize`
unfoldable pub reprioritize : String → ℤ → Bool → String → Action MissionEvent
unfolding resolve_control_id require refuse_terminal reprioritized_mission settle_priority lookup
    insert
reprioritize target priority preempt_if_needed reason = do
  id ← resolve_control_id target
  m ← require id
  refuse_terminal id m
  let updated = reprioritized_mission priority reason m
  modify (put id updated)
  active ← gets (λ s. lookup (text_or_none s.active_id) s.missions)
  settle_priority preempt_if_needed id reason updated active
