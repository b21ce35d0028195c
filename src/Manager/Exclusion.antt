-- ===== src/Manager/Exclusion.antt =====
-- The single slot under polite calls: `resume`, and any sequence of calls.
use mathlib.Core.Path.{subst}
use mc_ai_bt.Common.{String, Bool, true, false, some, ◌≡◌, refl, sym, ◌∙◌, ◌||◌}
use mc_ai_bt.Common.Dict.{lookup}
use mc_ai_bt.Json.{Runtime}
use mc_ai_bt.Mission.{Mission, is_queued, is_paused}
use mc_ai_bt.Manager
use mc_ai_bt.Manager.{
  Manager, Result, Action, ◌>>◌, pure, put, put_active, settle, active_is, no_active, text_or_none,
  slot_busy, resolve_control_id, is_outcome, is_running, resumed_state, resume_slot,
  resumed_mission, planned_mission, replanning_mission, reprioritized_mission, demoted_mission,
  promoted_mission, updated_mission, submitted_mission, finished_mission, canceled_mission,
  paused_mission, repause_message, forget_resume, preempts, Submission,
}
use mc_ai_bt.Manager.Effects.{Ends}
use mc_ai_bt.Manager.Methods.{Ends-resume}
use mc_ai_bt.Manager.Continues.{Evolves-resumed, live_of_paused}
use mc_ai_bt.Manager.History.{Ends-drop}
use mc_ai_bt.Manager.Sharing.{SlotsOk, Occupied-busy, SlotsOk-enter, SlotsOk-queue}
use mc_ai_bt.Manager.Request.{Request, handle, IsFresh}
use mc_ai_bt.Manager.Polite.{
  Polite, Idle-slot_free, slot_taken, SlotsOk-resume_slot, occupies_resumed, Ok-mark_terminal,
  Ok-cancel, Ok-update_status, Ok-set_plan, Ok-request_replan, Ok-pause, Ok-submit, Ok-reprioritize,
}

resume_ok :
    (s : Manager) (good : SlotsOk s) (id : String) (m : Mission) (fresh reason : String)
    (slot_free : Bool)
    → lookup id s.missions ≡ some m
    → is_paused m.state ≡ true
    → (no_active s.active_id || active_is s.active_id id) ≡ slot_free
    → (slot_free ≡ false → slot_busy s ≡ true)
    → SlotsOk (resume_slot slot_free id m (resumed_mission slot_free fresh reason m) s)
unfolding resumed_mission
resume_ok s good id m fresh reason true found paused e polite =
    let n = resumed_mission true fresh reason m in
    SlotsOk-resume_slot s id m n true (
      SlotsOk-enter s good id m n found
        (Evolves-resumed m (live_of_paused m paused) true fresh reason).same_id
        (Idle-slot_free s id good e) (occupies_resumed m))
resume_ok s good id m fresh reason false found paused e polite =
    let n = resumed_mission false fresh reason m in
    SlotsOk-resume_slot s id m n false (
      SlotsOk-queue s good id m n found
        (Evolves-resumed m (live_of_paused m paused) false fresh reason).same_id
        (slot_taken s.active_id id e) (unfold resumed_state is_queued in refl)
        (Occupied-busy s good (polite refl)))

module _ (rt : Runtime) (s : Manager) (good : SlotsOk s) where
  Ok-resume :
      (target reason fresh : String)
      → Polite (Request.resume target reason fresh) s
      → Ends SlotsOk s (Manager.resume target reason fresh)
  Ok-resume target reason fresh polite =
      Ends-resume good target reason fresh λ id m slot_free resolved found paused e.
        resume_ok s good id m fresh reason slot_free found paused e
          λ taken. polite id resolved (e ∙ taken)

  Ok-handle : (r : Request) → IsFresh r s → Polite r s → SlotsOk (handle rt r s).1
  unfolding handle
  Ok-handle (Request.submit r) fresh polite = Ends-drop _ (Ok-submit rt s good r fresh)
  Ok-handle (Request.set_plan id bt goal expected new_id) fresh polite =
      Ends-drop _ (Ok-set_plan rt s good id bt goal expected new_id polite)
  Ok-handle (Request.request_replan target reason payload) fresh polite =
      Ends-drop _ (Ok-request_replan rt s good target reason payload polite)
  Ok-handle (Request.pause target reason) fresh polite =
      Ends-drop _ (Ok-pause rt s good target reason)
  Ok-handle (Request.resume target reason new_id) fresh polite =
      Ends-drop _ (Ok-resume target reason new_id polite)
  Ok-handle (Request.reprioritize target priority preempt reason) fresh polite =
      Ends-drop _ (Ok-reprioritize rt s good target priority preempt reason)
  Ok-handle (Request.cancel target reason) fresh polite =
      Ends-drop _ (Ok-cancel rt s good target reason)
  Ok-handle (Request.mark_terminal id state message expected facts) fresh polite =
      Ends-drop _ (Ok-mark_terminal rt s good id state message expected facts)
  Ok-handle (Request.update_status id node text progress expected) fresh polite =
      Ends-drop _ (Ok-update_status rt s good id node text progress expected)

-- The managers that polite calls can reach.
pub data PoliteReach (rt : Runtime) (s : Manager) : Manager → Type 0 where
  start : PoliteReach rt s s
  after :
      {t u : Manager} (r : Request)
      → PoliteReach rt s t
      → IsFresh r t
      → Polite r t
      → u ≡ (handle rt r t).1
      → PoliteReach rt s u

pub Reach-SlotsOk : (rt : Runtime) (s t : Manager) → SlotsOk s → PoliteReach rt s t → SlotsOk t
Reach-SlotsOk rt s t good start = good
Reach-SlotsOk rt s t good (after {t = u} r reach fresh polite e) =
    subst SlotsOk (sym e) (Ok-handle rt u (Reach-SlotsOk rt s u good reach) r fresh polite)
