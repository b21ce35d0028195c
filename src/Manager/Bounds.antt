-- ===== src/Manager/Bounds.antt =====
-- The range of the priority and of the progress of the missions of mc_ai_bt/mission.py.
use mathlib.Core.Path.{subst, sym}
use mc_ai_bt.Common.{
  String, Bool, true, false, Option, none, some, ◌≡◌, refl, ◌∙◌, arith, ◌==◌, inl, inr, Bool-cases,
  Option-cases,
}
use mc_ai_bt.Common.Sort.{some_eq}
use mc_ai_bt.Common.Int.{ℤ, pos, ◌≤ℤ◌, clamp_byte_bounds}
use mc_ai_bt.Common.Float.{Float, unit-pos, InUnit, clamp_unit-InUnit}
use mc_ai_bt.Common.Dict.{Dict, lookup, insert, lookup-insert}
use mc_ai_bt.Json.{Runtime, Fields}
use mc_ai_bt.Identity.{Identity}
use mc_ai_bt.Mission.{State, Mission}
use mc_ai_bt.Manager
use mc_ai_bt.Manager.{
  Manager, put, put_active, demoted_mission, promoted_mission, reprioritized_mission,
  submitted_mission, planned_mission, replanning_mission, finished_mission, canceled_mission,
  updated_mission, paused_mission, resumed_mission, planning_mission, promote, promote_next_queued,
  release_slot_for_pause, settle, pause_slot, resume_slot, next_queued_id, active_is, Submission,
  repause_message, forget_resume, text_or_none,
}
use mc_ai_bt.Manager.Effects.{Ends}
use mc_ai_bt.Manager.Methods.{
  Ends-set_plan, Ends-request_replan, Ends-mark_terminal, Ends-cancel, Ends-update_status,
  Ends-resume, Ends-reprioritize, Ends-pause, Ends-submit,
}
use mc_ai_bt.Manager.History.{Ends-drop}
use mc_ai_bt.Manager.Request.{Request, handle, call, Reach, here, next}

abbrev pub InBounds : Mission → Type 0
InBounds m = ((pos 0 ≤ℤ m.priority) × (m.priority ≤ℤ pos 255)) × InUnit m.progress

-- Every stored mission is in bounds.
abbrev pub AllInBounds : Dict Mission → Type 0
AllInBounds d = (k : String) (m : Mission) → lookup k d ≡ some m → InBounds m

AllInBounds-insert :
    (d : Dict Mission) (id : String) (n : Mission)
    → AllInBounds d
    → InBounds n
    → AllInBounds (insert id n d)
AllInBounds-insert d id n h b k m e =
    let f = lookup-insert id k n d in
    elim (Bool-cases (id == k)) [
      | inl same ↦ subst InBounds {x = n} (some_eq (sym (f ∙ rw same refl) ∙ e)) b
      | inr other ↦ h k m (sym (f ∙ rw other refl) ∙ e)
    ]

module _ (s : Manager) (h : AllInBounds s.missions) where
  AllInBounds-promote : (id : String) → AllInBounds (promote id s).missions
  unfolding promote planning_mission
  AllInBounds-promote id = elim (Option-cases (lookup id s.missions)) [
    | inl missing ↦ rw missing h
    | inr (m, found) ↦
        rw found (AllInBounds-insert s.missions id (planning_mission m) h (h id m found))
  ]

  AllInBounds-promote_next_queued : AllInBounds (promote_next_queued s).missions
  unfolding promote_next_queued
  AllInBounds-promote_next_queued = elim (Option-cases (next_queued_id s.missions)) [
    | inl nothing ↦ rw (nothing, promote_next_queued) h
    | inr (id, e) ↦ rw (e, promote_next_queued) (AllInBounds-promote id)
  ]

  AllInBounds-release : AllInBounds (release_slot_for_pause s).missions
  unfolding release_slot_for_pause
  AllInBounds-release = elim (Option-cases (next_queued_id s.missions)) [
    | inl nothing ↦ rw (nothing, release_slot_for_pause) h
    | inr (id, e) ↦ rw (e, release_slot_for_pause) (AllInBounds-promote id)
  ]

module _ (s : Manager) (h : AllInBounds s.missions) (id : String) (n : Mission)
    (b : InBounds n) where
  stored : AllInBounds (put id n s).missions
  stored = AllInBounds-insert s.missions id n h b

  AllInBounds-settle : AllInBounds (settle id n s).missions
  unfolding settle
  AllInBounds-settle = elim (Bool-cases (active_is s.active_id id)) [
    | inl holds ↦ rw holds (AllInBounds-promote_next_queued (put id n s) stored)
    | inr other ↦ rw other stored
  ]

  AllInBounds-pause_slot : AllInBounds (pause_slot id n s).missions
  unfolding pause_slot
  AllInBounds-pause_slot = elim (Bool-cases (active_is s.active_id id)) [
    | inl holds ↦ rw holds (AllInBounds-release (put id n s) stored)
    | inr other ↦ rw other stored
  ]

InBounds-finished :
    (m : Mission) (state : State) (message : String)
    → InBounds m
    → InBounds (finished_mission state message m)
unfolding finished_mission
InBounds-finished m state message b = ground (arith, unit-pos)

InBounds-updated :
    (m : Mission) (node text : String) (progress : Option Float)
    → InBounds m
    → InBounds (updated_mission node text progress m)
unfolding updated_mission
InBounds-updated m node text none b = b
InBounds-updated m node text (some x) b = (b.0, clamp_unit-InUnit x)

InBounds-submitted : (r : Submission) (busy : Bool) → InBounds (submitted_mission r busy)
unfolding submitted_mission
InBounds-submitted r busy = (clamp_byte_bounds r.priority, ground (arith, unit-pos))

resume_slot-missions :
    (s : Manager) (id : String) (m n : Mission) (slot_free : Bool)
    → (resume_slot slot_free id m n s).missions ≡ insert id n s.missions
unfolding resume_slot
resume_slot-missions s id m n slot_free = ground arith

abbrev After : Manager → Type 0
After t = AllInBounds t.missions

module _ (rt : Runtime) (s : Manager) (h : AllInBounds s.missions) where
  After-mark_terminal :
      (id : String) (state : State) (message : String) (expected : Option Identity)
      (facts : Option Fields)
      → Ends After s (Manager.mark_terminal rt id state message expected facts)
  After-mark_terminal id state message expected facts =
      Ends-mark_terminal {R = After} h rt id state message expected facts λ m found live outcome.
        AllInBounds-settle s h id _ (InBounds-finished m state message (h id m found))

  After-pause : (target reason : String) → Ends After s (Manager.pause rt target reason)
  unfolding paused_mission
  After-pause target reason =
      Ends-pause {R = After} h rt target reason
        (λ id m found live running again.
          Ends-mark_terminal {R = After} h rt id State.blocked (repause_message rt reason) none none
            λ n found' live' outcome.
              AllInBounds-settle (forget_resume id s) h id _
                (InBounds-finished n State.blocked (repause_message rt reason) (h id n found')))
        λ id m found live running first_time.
          AllInBounds-pause_slot s h id (paused_mission reason m) (h id m found)

  After-resume : (target reason fresh : String) → Ends After s (Manager.resume target reason fresh)
  unfolding resumed_mission
  After-resume target reason fresh =
      Ends-resume {R = After} h target reason fresh λ id m slot_free resolved found paused e.
        subst AllInBounds
          (sym (resume_slot-missions s id m (resumed_mission slot_free fresh reason m) slot_free))
          (AllInBounds-insert s.missions id (resumed_mission slot_free fresh reason m) h
            (h id m found))

  After-reprioritize :
      (target : String) (priority : ℤ) (preempt : Bool) (reason : String)
      → Ends After s (Manager.reprioritize target priority preempt reason)
  unfolding reprioritized_mission demoted_mission promoted_mission
  After-reprioritize target priority preempt reason =
      Ends-reprioritize {R = After} h target priority preempt reason
        (λ id m found live.
          AllInBounds-insert s.missions id (reprioritized_mission priority reason m) h
            (clamp_byte_bounds priority, (h id m found).1))
        λ id m active found live e p.
          let updated = reprioritized_mission priority reason m in
          let b : InBounds updated = (clamp_byte_bounds priority, (h id m found).1) in
          let first = AllInBounds-insert s.missions id updated h b in
          AllInBounds-insert _ id (promoted_mission reason updated)
            (AllInBounds-insert (insert id updated s.missions) _ (demoted_mission id active) first
              (first (text_or_none s.active_id) active e))
            b

  After-handle : (r : Request) → After (handle rt r s).1
  unfolding handle planned_mission replanning_mission canceled_mission
  After-handle (Request.submit r) = Ends-drop _ (
      Ends-submit {R = After} h r
        (λ busy allowed. AllInBounds-insert s.missions r.fresh _ h (InBounds-submitted r true))
        λ free. AllInBounds-insert s.missions r.fresh _ h (InBounds-submitted r false))
  After-handle (Request.set_plan id bt goal expected new_id) = Ends-drop _ (
      Ends-set_plan {R = After} h id bt goal expected new_id λ m found live kept.
        AllInBounds-insert s.missions id (planned_mission bt goal new_id m) h (h id m found))
  After-handle (Request.request_replan target reason payload) = Ends-drop _ (
      Ends-request_replan {R = After} h target reason payload λ id m resolved found live.
        AllInBounds-insert s.missions id (replanning_mission reason m) h (h id m found))
  After-handle (Request.pause target reason) = Ends-drop _ (After-pause target reason)
  After-handle (Request.resume target reason new_id) =
      Ends-drop _ (After-resume target reason new_id)
  After-handle (Request.reprioritize target priority preempt reason) =
      Ends-drop _ (After-reprioritize target priority preempt reason)
  After-handle (Request.cancel target reason) = Ends-drop _ (
      Ends-cancel {R = After} h rt target reason
        λ id m found live. AllInBounds-settle s h id (canceled_mission reason m) (h id m found))
  After-handle (Request.mark_terminal id state message expected facts) =
      Ends-drop _ (After-mark_terminal id state message expected facts)
  After-handle (Request.update_status id node text progress expected) = Ends-drop _ (
      Ends-update_status {R = After} h id node text progress expected λ m found live.
        AllInBounds-insert s.missions id _ h (InBounds-updated m node text progress (h id m found)))

-- If every stored priority is from 0 to 255 and every progress from 0.0 to 1.0, this holds after any
-- calls, whatever priorities and progress they pass.
pub numbers_stay_in_bounds :
    (rt : Runtime) (s t : Manager) → AllInBounds s.missions → Reach rt s t → AllInBounds t.missions
numbers_stay_in_bounds rt s t h here = h
numbers_stay_in_bounds rt s t h (next r (call u w request fresh e)) =
    subst (λ x. AllInBounds x.missions) (sym e)
      (After-handle rt u (numbers_stay_in_bounds rt s u h r) request)
