-- ===== src/Manager/Submit.antt =====
-- MissionManager.submit of mc_ai_bt/mission.py.
use mc_ai_bt.Common.{String, Bool, true, false, not, ◌&&◌, some, if◌then◌else◌, ◌==◌}
use mc_ai_bt.Common.Int.{ℤ, pos, clamp_byte}
use mc_ai_bt.Common.Float.{zero_float}
use mc_ai_bt.Common.Text.{strip, prefix}
use mc_ai_bt.Common.Dict.{insert}
use mc_ai_bt.Identity
use mc_ai_bt.Identity.{Identity, next_plan, for_execution, same_identity}
use mc_ai_bt.Mission.{State, Mission, MissionEvent, EventKind}
use mc_ai_bt.Manager.Monad.{ok, Action, event_of}
use mc_ai_bt.Manager.Slot.{put, slot_busy}

-- `_synthetic_rejected`: a failed mission that is never stored.
unfoldable pub synthetic_rejected : String → String → String → String → Mission
unfolding Identity.new
synthetic_rejected fresh source operator_id parent_mission_id = record {
  identity = Identity.new fresh parent_mission_id source operator_id;
  intent_text = "";
  source = source;
  operator_id = operator_id;
  priority = pos 0;
  allow_queue = false;
  context_json = "";
  state = State.failed;
  title = "";
  active_node = "";
  status_text = "rejected";
  progress = zero_float;
  bt_json = "";
  goal_spec_json = "";
  error_code = "";
}

-- What `submit` is given; `fresh` is the `uuid4` that it draws.
pub record Submission : Type 0 where
  pub fresh : String
  pub intent_text : String
  pub source : String
  pub operator_id : String
  pub parent_mission_id : String
  pub priority : ℤ
  pub allow_queue : Bool
  pub context_json : String

pub record Receipt : Type 0 where
  pub accepted : Bool
  pub reason : String
  pub mission : Mission
  pub event : MissionEvent

abbrev reject : Submission → String → Receipt
reject r reason =
    let m = synthetic_rejected r.fresh r.source r.operator_id r.parent_mission_id in
    record {
      accepted = false;
      reason = reason;
      mission = m;
      event = event_of EventKind.rejected m "" "";
    }

-- The mission that an accepted submission stores.
unfoldable pub submitted_mission : Submission → Bool → Mission
unfolding Identity.new clamp_byte prefix strip
submitted_mission r slot_busy = record {
  identity = Identity.new r.fresh r.parent_mission_id r.source r.operator_id;
  intent_text = r.intent_text;
  source = r.source;
  operator_id = r.operator_id;
  priority = clamp_byte r.priority;
  allow_queue = r.allow_queue;
  context_json = r.context_json;
  state = if slot_busy then State.queued else State.planning;
  title = prefix 80 (strip r.intent_text);
  active_node = "";
  status_text = if slot_busy then "queued" else "planning";
  progress = zero_float;
  bt_json = "";
  goal_spec_json = "";
  error_code = "";
}

abbrev accept : Mission → Receipt
accept m = record {
  accepted = true;
  reason = "accepted";
  mission = m;
  event = event_of EventKind.accepted m "accepted" "";
}

-- `submit`
unfoldable pub submit : Submission → Action Receipt
unfolding slot_busy synthetic_rejected insert
submit r s =
    let busy = slot_busy s in
    let m = submitted_mission r busy in
    let stored = put r.fresh m s in
    if strip r.intent_text == ""
    then (ok (reject r "intent_text is required"), s)
    else if busy && not r.allow_queue
    then (ok (reject r "another mission is active"), s)
    else (ok (accept m), if busy then stored else record stored { active_id = some r.fresh })
