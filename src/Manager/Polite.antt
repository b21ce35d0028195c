-- ===== src/Manager/Polite.antt =====
-- Polite calls of mc_ai_bt/mission.py, and what the methods but `resume` do to the single slot on them.
use mathlib.Core.Path.{subst}
use mc_ai_bt.Common.{
  String, Bool, true, false, Option, none, some, ◌≡◌, refl, sym, ap, ◌∙◌, inl, inr, Bool-cases,
  eq_iff, ◌==◌, arith, ◌||◌, ⊤, if◌then◌else◌,
}
use mc_ai_bt.Common.Int.{ℤ}
use mc_ai_bt.Common.Float.{Float}
use mc_ai_bt.Common.Dict.{lookup, insert, lookup-insert_self, lookup-insert_ne}
use mc_ai_bt.Json.{Runtime, Fields}
use mc_ai_bt.Identity.{Identity}
use mc_ai_bt.Mission.{State, Mission, is_terminal, is_queued, is_paused}
use mc_ai_bt.Manager
use mc_ai_bt.Manager.{
  Manager, Result, Action, ◌>>◌, pure, put, put_active, settle, active_is, no_active, text_or_none,
  slot_busy, resolve_control_id, is_outcome, is_running, resumed_state, resume_slot,
  resumed_mission, planned_mission, replanning_mission, reprioritized_mission, demoted_mission,
  promoted_mission, updated_mission, submitted_mission, finished_mission, canceled_mission,
  paused_mission, repause_message, forget_resume, preempts, Submission,
}
use mc_ai_bt.Manager.Effects.{Ends}
use mc_ai_bt.Manager.Methods.{
  Ends-set_plan, Ends-request_replan, Ends-mark_terminal, Ends-cancel, Ends-update_status,
  Ends-reprioritize, Ends-pause, Ends-submit,
}
use mc_ai_bt.Manager.Keyed.{Keyed-insert, lookup-Keyed}
use mc_ai_bt.Manager.Continues.{preempts-facts}
use mc_ai_bt.Manager.Slots.{
  occupies, SlotOk, Occupied, Idle, SlotOk-enter, SlotOk-outside, stored_self,
}
use mc_ai_bt.Manager.Sharing.{
  SlotsOk, active_is-eq, Occupied-busy, Quiet-free, quiet_of_queued, Idle-Quiet, SlotsOk-settle,
  SlotsOk-pause_slot, SlotsOk-in_slot, SlotsOk-same_state,
}
use mc_ai_bt.Manager.Request.{Request}

-- The node plans and replans the mission in the slot, and resumes a mission only where the slot is
-- free, its own, or taken by a mission that is not paused.
abbrev pub Polite : Request → Manager → Type 0
Polite (Request.set_plan id bt goal expected fresh) s = s.active_id ≡ some id
Polite (Request.request_replan target reason payload) s =
    (id : String) → resolve_control_id target s ≡ (Result.ok id, s) → s.active_id ≡ some id
Polite (Request.resume target reason fresh) s =
    (id : String)
    → resolve_control_id target s ≡ (Result.ok id, s)
    → (no_active s.active_id || active_is s.active_id id) ≡ false
    → slot_busy s ≡ true
Polite r s = ⊤

-- A preemption: the mission in the slot is demoted, and the queued one takes the slot.
SlotsOk-preempt :
    (s : Manager) (id : String) (updated active demoted promoted : Mission)
    → SlotsOk s
    → lookup id s.missions ≡ some updated
    → lookup (text_or_none s.active_id) s.missions ≡ some active
    → is_queued updated.state ≡ true
    → (active.identity.mission_id == id) ≡ false
    → demoted.identity.mission_id ≡ active.identity.mission_id
    → is_queued demoted.state ≡ true
    → promoted.identity.mission_id ≡ updated.identity.mission_id
    → occupies promoted.state ≡ true
    → SlotsOk (put_active id promoted (put demoted.identity.mission_id demoted s))
SlotsOk-preempt s id updated active demoted promoted good found held queued other same_d down same_p
      up =
    let (a, n, e, at_a, busy) = good.working id updated found queued in
    let key : active.identity.mission_id ≡ a =
      lookup-Keyed a active s.missions good.keyed
        (subst (λ o. lookup (text_or_none o) s.missions ≡ some active) e held) in
    SlotOk-enter (insert demoted.identity.mission_id demoted s.missions) id promoted
      (Keyed-insert demoted.identity.mission_id demoted s.missions refl good.keyed)
      (same_p ∙ lookup-Keyed id updated s.missions good.keyed found) up
      λ k m f apart. elim (Bool-cases (demoted.identity.mission_id == k)) [
        | inl is ↦
            ap (λ (x : Mission). occupies x.state)
              (sym (stored_self s.missions demoted.identity.mission_id k demoted m f is))
            ∙ quiet_of_queued demoted.state down
        | inr elsewhere ↦ elim (Bool-cases (occupies m.state)) [
          | inl runs ↦
              let p =
                good.exclusive k m
                  (rw (lookup-insert_ne demoted.identity.mission_id k demoted s.missions elsewhere)
                    at f)
                  runs in
              absurd (ground (arith, p, e, key, same_d, eq_iff demoted.identity.mission_id k))
          | inr quiet ↦ quiet
        ]
      ]

terminal_outcome : (state : State) → is_outcome state ≡ true → is_terminal state ≡ true
unfolding is_terminal
terminal_outcome state h = ground arith

fresh_outside :
    (s : Manager) (id : String)
    → lookup id s.missions ≡ none
    → Occupied s.missions s.active_id
    → active_is s.active_id id ≡ false
fresh_outside s id fresh (a, m, e, found, busy) = elim (Bool-cases (active_is s.active_id id)) [
  | inl holds ↦ absurd (ground (arith, active_is-eq s.active_id id holds))
  | inr outside ↦ outside
]

-- The slot is free, or this mission's own: no other mission plans or runs.
pub Idle-slot_free :
    (s : Manager) (id : String)
    → SlotsOk s
    → (no_active s.active_id || active_is s.active_id id) ≡ true
    → Idle id s.missions
Idle-slot_free s id good free k m found other = elim (Bool-cases (occupies m.state)) [
  | inl busy ↦ absurd (ground (arith, good.exclusive k m found busy, eq_iff k id, eq_iff id k))
  | inr quiet ↦ quiet
]

pub slot_taken :
    (o : Option String) (id : String)
    → (no_active o || active_is o id) ≡ false
    → active_is o id ≡ false
slot_taken none id h = cc
slot_taken (some a) id h = h

-- What `resume` does to the dictionary and the slot.
pub SlotsOk-resume_slot :
    (s : Manager) (id : String) (m n : Mission) (slot_free : Bool)
    → SlotOk (insert id n s.missions) (if slot_free then some id else s.active_id)
    → SlotsOk (resume_slot slot_free id m n s)
unfolding resume_slot
SlotsOk-resume_slot s id m n true h = elim (Bool-cases (is_running n.state)) [
  | inl e ↦ rw e h
  | inr e ↦ rw e h
]
SlotsOk-resume_slot s id m n false h = elim (Bool-cases (is_running n.state)) [
  | inl e ↦ rw e h
  | inr e ↦ rw e h
]

pub occupies_resumed : (m : Mission) → occupies (resumed_state true m) ≡ true
unfolding resumed_state occupies
occupies_resumed m = ground arith

module _ (rt : Runtime) (s : Manager) (good : SlotsOk s) where
  pub Ok-mark_terminal :
      (id : String) (state : State) (message : String) (expected : Option Identity)
      (facts : Option Fields)
      → Ends SlotsOk s (Manager.mark_terminal rt id state message expected facts)
  unfolding finished_mission
  Ok-mark_terminal id state message expected facts =
      Ends-mark_terminal good rt id state message expected facts λ m found live outcome.
        SlotsOk-settle s good id m (finished_mission state message m) found refl
          (terminal_outcome state outcome)

  pub Ok-cancel : (target reason : String) → Ends SlotsOk s (Manager.cancel rt target reason)
  unfolding canceled_mission is_terminal
  Ok-cancel target reason =
      Ends-cancel good rt target reason
        λ id m found live. SlotsOk-settle s good id m (canceled_mission reason m) found refl refl

  pub Ok-update_status :
      (id node text : String) (progress : Option Float) (expected : Option Identity)
      → Ends SlotsOk s (Manager.update_status id node text progress expected)
  unfolding updated_mission
  Ok-update_status id node text progress expected =
      Ends-update_status good id node text progress expected λ m found live.
        SlotsOk-same_state s good id m (updated_mission node text progress m) found refl refl

  pub Ok-set_plan :
      (id bt goal : String) (expected : Option Identity) (fresh : String)
      → s.active_id ≡ some id
      → Ends SlotsOk s (Manager.set_plan id bt goal expected fresh)
  unfolding planned_mission occupies
  Ok-set_plan id bt goal expected fresh active =
      Ends-set_plan good id bt goal expected fresh λ m found live kept.
        SlotsOk-in_slot s good id m (planned_mission bt goal fresh m) found (ground arith) active
          refl

  pub Ok-request_replan :
      (target reason payload : String)
      → ((id : String) → resolve_control_id target s ≡ (Result.ok id, s) → s.active_id ≡ some id)
      → Ends SlotsOk s (Manager.request_replan target reason payload)
  unfolding replanning_mission occupies
  Ok-request_replan target reason payload active =
      Ends-request_replan good target reason payload λ id m resolved found live.
        SlotsOk-in_slot s good id m (replanning_mission reason m) found refl (active id resolved)
          refl

  pub Ok-pause : (target reason : String) → Ends SlotsOk s (Manager.pause rt target reason)
  unfolding paused_mission finished_mission is_terminal is_paused
  Ok-pause target reason =
      Ends-pause good rt target reason
        (λ id m found live running again.
          Ends-mark_terminal good rt id State.blocked (repause_message rt reason) none none
            λ n found' live' outcome.
              SlotsOk-settle (forget_resume id s) good id n
                (finished_mission State.blocked (repause_message rt reason) n) found' refl refl)
        λ id m found live running first_time.
          SlotsOk-pause_slot s good id m (paused_mission reason m) found refl refl

  pub Ok-submit :
      (r : Submission) → lookup r.fresh s.missions ≡ none → Ends SlotsOk s (Manager.submit r)
  unfolding submitted_mission occupies is_queued
  Ok-submit r fresh =
      Ends-submit good r
        (λ busy allowed.
          let occupied = Occupied-busy s good busy in
          SlotOk-outside s.missions s.active_id r.fresh (submitted_mission r true) good refl
            (fresh_outside s r.fresh fresh occupied) refl λ _. occupied)
        λ free.
          SlotOk-enter s.missions r.fresh (submitted_mission r false) good.keyed refl refl
            (Idle-Quiet s.missions r.fresh (Quiet-free s good free))

  pub Ok-reprioritize :
      (target : String) (priority : ℤ) (preempt : Bool) (reason : String)
      → Ends SlotsOk s (Manager.reprioritize target priority preempt reason)
  unfolding reprioritized_mission demoted_mission promoted_mission occupies is_queued
  Ok-reprioritize target priority preempt reason =
      Ends-reprioritize good target priority preempt reason
        (λ id m found live.
          SlotsOk-same_state s good id m (reprioritized_mission priority reason m) found refl refl)
        λ id m active found live e p.
          let updated = reprioritized_mission priority reason m in
          let (queued, other, running, higher) = preempts-facts preempt id updated active p in
          SlotsOk-preempt (put id updated s) id updated active (demoted_mission id active)
            (promoted_mission reason updated)
            (SlotsOk-same_state s good id m updated found refl refl)
            (lookup-insert_self id updated s.missions) e queued other refl refl refl refl
