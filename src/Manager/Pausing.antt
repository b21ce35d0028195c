-- ===== src/Manager/Pausing.antt =====
-- MissionManager.pause and resume of mc_ai_bt/mission.py.
use mc_ai_bt.Common.{String, Bool, true, false, not, ◌&&◌, ◌||◌, none, if◌then◌else◌, ◌==◌}
use mc_ai_bt.Common.Text.{◌<>◌, or_text}
use mc_ai_bt.Common.Dict.{lookup, insert, erase}
use mc_ai_bt.Json.{Runtime}
use mc_ai_bt.Identity.{for_execution}
use mc_ai_bt.Mission.{State, Mission, MissionEvent, EventKind, is_paused}
use mc_ai_bt.Manager.Monad.{
  Manager, key_error, Action, pure, gets, modify, ◌>>=◌, ◌>>◌, raise_if, event_of,
}
use mc_ai_bt.Manager.Slot.{
  active_is, no_active, text_is, put, put_active, note_resume, forget_resume, require,
  refuse_terminal, resolve_control_id, release_slot_for_pause,
}
use mc_ai_bt.Manager.Finish.{mark_terminal}

-- The message of a mission that pauses again on the reason that it was resumed from.
unfoldable pub repause_message : Runtime → String → String
repause_message rt reason =
    "resumed, but immediately re-paused on the identical reason: "
    <> rt.quote reason
    <> " -- resuming again will not resolve this; a different approach is needed"

-- The mission that `pause` stores.
unfoldable pub paused_mission : String → Mission → Mission
paused_mission reason m = record m { state = State.paused; status_text = or_text reason "paused" }

-- The state after a mission pauses: if it held the slot, the next queued mission gets it.
unfoldable pub pause_slot : String → Mission → Manager → Manager
unfolding release_slot_for_pause insert
pause_slot id paused s =
    let stored = put id paused s in
    if active_is s.active_id id then release_slot_for_pause stored else stored

-- The last lines of `pause`, for a mission that really pauses.
unfoldable pub pause_now : String → String → Mission → Action MissionEvent
unfolding paused_mission pause_slot
pause_now id reason m = do
  let paused = paused_mission reason m
  modify (pause_slot id paused)
  pure (event_of EventKind.paused paused paused.status_text "")

-- `pause`
unfoldable pub pause : Runtime → String → String → Action MissionEvent
unfolding resolve_control_id require refuse_terminal pause_now mark_terminal repause_message lookup
    erase
pause rt target reason = do
  id ← resolve_control_id target
  m ← require id
  refuse_terminal id m
  again ← gets (λ s. text_is (lookup id s.resumed_from) reason)
  if is_paused m.state
      then pure (event_of EventKind.paused m m.status_text "")
      else if again
      then (do
        modify (forget_resume id)
        mark_terminal rt id State.blocked (repause_message rt reason) none none)
      else pause_now id reason m

-- The state that a resumed mission enters.
unfoldable pub resumed_state : Bool → Mission → State
resumed_state slot_free m =
    if slot_free then (if m.bt_json == "" then State.planning else State.running) else State.queued

abbrev state_text : State → String
state_text State.running = "running"
state_text State.planning = "planning"
state_text s = "queued"

-- The mission that `resume` stores.
unfoldable pub resumed_mission : Bool → String → String → Mission → Mission
unfolding resumed_state for_execution
resumed_mission slot_free fresh reason m =
    let state = resumed_state slot_free m in
    record m {
      identity =
          if not (m.bt_json == "") && slot_free then for_execution fresh m.identity else m.identity;
      state = state;
      status_text = or_text reason (state_text state);
    }

abbrev pub is_running : State → Bool
is_running State.running = true
is_running s = false

-- The state after a mission resumes.
unfoldable pub resume_slot : Bool → String → Mission → Mission → Manager → Manager
unfolding insert erase
resume_slot slot_free id m resumed s =
    let stored = if slot_free then put_active id resumed s else put id resumed s in
    if is_running resumed.state
    then note_resume id m.status_text stored
    else forget_resume id stored

-- `resume`
unfoldable pub resume : String → String → String → Action MissionEvent
unfolding resolve_control_id require refuse_terminal resumed_mission resume_slot
resume target reason fresh = do
  id ← resolve_control_id target
  m ← require id
  refuse_terminal id m
  raise_if (not (is_paused m.state)) (key_error ("mission is not paused: " <> id))
  slot_free ← gets (λ s. no_active s.active_id || active_is s.active_id id)
  let resumed = resumed_mission slot_free fresh reason m
  modify (resume_slot slot_free id m resumed)
  pure (event_of EventKind.resumed resumed resumed.status_text "")
