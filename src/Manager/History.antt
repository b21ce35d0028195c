-- ===== src/Manager/History.antt =====
-- What calls of mc_ai_bt/mission.py leave of a stored mission.
use mc_ai_bt.Common.{String, Bool, true, Option, none, some, ◌≡◌, refl, ap, arith, ◌≤◌}
use mathlib.Core.Path.{subst, sym}
use mc_ai_bt.Common.Int.{ℤ}
use mc_ai_bt.Common.Float.{Float}
use mc_ai_bt.Common.Dict.{lookup, insert, lookup-insert_self}
use mc_ai_bt.Json.{Runtime, Fields}
use mc_ai_bt.Identity.{Identity}
use mc_ai_bt.Mission.{State, Mission, is_terminal}
use mc_ai_bt.Manager
use mc_ai_bt.Manager.{
  Manager, Action, ◌>>=◌, ◌>>◌, pure, put, put_active, demoted_mission, promoted_mission,
  reprioritized_mission, submitted_mission, preempts, text_or_none, no_active, active_is,
  Submission, repause_message, forget_resume,
}
use mc_ai_bt.Manager.Effects.{Ends}
use mc_ai_bt.Manager.Methods.{
  Ends-set_plan, Ends-request_replan, Ends-mark_terminal, Ends-cancel, Ends-update_status,
  Ends-resume, Ends-reprioritize, Ends-pause, Ends-submit,
}
use mc_ai_bt.Manager.Keyed.{Keyed, lookup-Keyed}
use mc_ai_bt.Manager.Continues.{
  Continues, Continues-refl, Continues-trans, Continues-insert, Continues-insert_new,
  Evolves-planned, Evolves-replanning, Evolves-finished, Evolves-canceled, Evolves-updated,
  Evolves-paused, Evolves-resumed, Evolves-reprioritized, Evolves-demoted, Evolves-promoted,
  live_of_queued, live_of_paused, preempts-facts, Continues-preempt, Continues-settle,
  Continues-pause_slot, missions-resume_slot,
}
use mc_ai_bt.Manager.Request.{Request, handle, IsFresh, call, Reach, here, next}

-- The missions after the call continue those of `s`.
abbrev After : Manager → Manager → Type 0
After s t = Continues s.missions t.missions

state-drop : {A : Type 0} (m : Action A) (s : Manager) → ((m >> pure tt) s).1 ≡ (m s).1
unfolding ◌>>◌
state-drop m s = ground arith

-- Dropping a return value changes no state.
pub Ends-drop :
    {A : Type 0} {R : Manager → Type 0} {s : Manager} (m : Action A)
    → Ends R s m
    → R ((m >> pure tt) s).1
unfolding ◌>>◌
Ends-drop {R = R} {s = s} m h = subst R (sym (state-drop m s)) h.after

module _ (rt : Runtime) (s : Manager) (keyed : Keyed s.missions) where
  same : After s s
  same = Continues-refl s.missions keyed

  After-mark_terminal :
      (id : String) (state : State) (message : String) (expected : Option Identity)
      (facts : Option Fields)
      → Ends (After s) s (Manager.mark_terminal rt id state message expected facts)
  After-mark_terminal id state message expected facts =
      Ends-mark_terminal same rt id state message expected facts λ m found live outcome.
        Continues-settle s keyed id m _ found (Evolves-finished m live state message)

  After-pause : (target reason : String) → Ends (After s) s (Manager.pause rt target reason)
  After-pause target reason =
      Ends-pause same rt target reason
        (λ id m found live running again.
          Ends-mark_terminal same rt id State.blocked (repause_message rt reason) none none
            λ n found' live' outcome.
              Continues-settle (forget_resume id s) keyed id n _ found'
                (Evolves-finished n live' State.blocked (repause_message rt reason)))
        λ id m found live running first_time.
          Continues-pause_slot s keyed id m _ found (Evolves-paused m live reason)

  After-resume :
      (target reason fresh : String) → Ends (After s) s (Manager.resume target reason fresh)
  After-resume target reason fresh =
      Ends-resume same target reason fresh λ id m slot_free resolved found paused e.
        rw
          (missions-resume_slot s keyed id m _ found
            (Evolves-resumed m (live_of_paused m paused) slot_free fresh reason) slot_free)
          (Continues-insert s.missions keyed id m _ found
            (Evolves-resumed m (live_of_paused m paused) slot_free fresh reason))

  After-reprioritize :
      (target : String) (priority : ℤ) (preempt : Bool) (reason : String)
      → Ends (After s) s (Manager.reprioritize target priority preempt reason)
  After-reprioritize target priority preempt reason =
      Ends-reprioritize same target priority preempt reason
        (λ id m found live.
          Continues-insert s.missions keyed id m _ found
            (Evolves-reprioritized m live priority reason))
        λ id m active found live e p.
          let updated = reprioritized_mission priority reason m in
          let stored =
            Continues-insert s.missions keyed id m updated found
              (Evolves-reprioritized m live priority reason) in
          let (queued, other, running, higher) = preempts-facts preempt id updated active p in
          Continues-trans stored (
            Continues-preempt (insert id updated s.missions) id (text_or_none s.active_id) updated
              active (demoted_mission id active) (promoted_mission reason updated) stored.keyed
              (lookup-insert_self id updated s.missions) e other (Evolves-demoted active running id)
              (Evolves-promoted updated (live_of_queued updated queued) reason))

  After-submit :
      (r : Submission) → lookup r.fresh s.missions ≡ none → Ends (After s) s (Manager.submit r)
  unfolding submitted_mission
  After-submit r fresh =
      Ends-submit same r
        (λ busy allowed. Continues-insert_new s.missions keyed r.fresh _ fresh refl)
        λ free. Continues-insert_new s.missions keyed r.fresh _ fresh refl

  After-set_plan :
      (id bt goal : String) (expected : Option Identity) (new_id : String)
      → Ends (After s) s (Manager.set_plan id bt goal expected new_id)
  After-set_plan id bt goal expected new_id =
      Ends-set_plan same id bt goal expected new_id λ m found live kept.
        Continues-insert s.missions keyed id m _ found (Evolves-planned m live bt goal new_id)

  After-request_replan :
      (target reason payload : String)
      → Ends (After s) s (Manager.request_replan target reason payload)
  After-request_replan target reason payload =
      Ends-request_replan same target reason payload λ id m resolved found live.
        Continues-insert s.missions keyed id m _ found (Evolves-replanning m live reason)

  After-cancel : (target reason : String) → Ends (After s) s (Manager.cancel rt target reason)
  After-cancel target reason =
      Ends-cancel same rt target reason
        λ id m found live. Continues-settle s keyed id m _ found (Evolves-canceled m live reason)

  After-update_status :
      (id node text : String) (progress : Option Float) (expected : Option Identity)
      → Ends (After s) s (Manager.update_status id node text progress expected)
  After-update_status id node text progress expected =
      Ends-update_status same id node text progress expected λ m found live.
        Continues-insert s.missions keyed id m _ found (Evolves-updated m live node text progress)

  After-handle : (r : Request) → IsFresh r s → After s (handle rt r s).1
  unfolding handle
  After-handle (Request.submit r) fresh = Ends-drop _ (After-submit r fresh)
  After-handle (Request.set_plan id bt goal expected new_id) fresh =
      Ends-drop _ (After-set_plan id bt goal expected new_id)
  After-handle (Request.request_replan target reason payload) fresh =
      Ends-drop _ (After-request_replan target reason payload)
  After-handle (Request.pause target reason) fresh = Ends-drop _ (After-pause target reason)
  After-handle (Request.resume target reason new_id) fresh =
      Ends-drop _ (After-resume target reason new_id)
  After-handle (Request.reprioritize target priority preempt reason) fresh =
      Ends-drop _ (After-reprioritize target priority preempt reason)
  After-handle (Request.cancel target reason) fresh = Ends-drop _ (After-cancel target reason)
  After-handle (Request.mark_terminal id state message expected facts) fresh =
      Ends-drop _ (After-mark_terminal id state message expected facts)
  After-handle (Request.update_status id node text progress expected) fresh =
      Ends-drop _ (After-update_status id node text progress expected)

-- Every sequence of calls, whether they return or raise.
pub Reach-Continues :
    (rt : Runtime) (s t : Manager)
    → Keyed s.missions
    → Reach rt s t
    → Continues s.missions t.missions
Reach-Continues rt s t keyed here = Continues-refl s.missions keyed
Reach-Continues rt s t keyed (next {t = u} r (call _ _ request fresh e)) =
    let before = Reach-Continues rt s u keyed r in
    Continues-trans before (
      subst (λ w. Continues u.missions w.missions) (sym e)
        (After-handle rt u before.keyed request fresh))

-- Whatever calls are made of the manager, a mission that has reached a terminal state is stored for
-- ever as it then was, from any manager whose missions are stored under their own ids.
pub terminal_is_final :
    (rt : Runtime) (s t : Manager) (id : String) (m : Mission)
    → Keyed s.missions
    → lookup id s.missions ≡ some m
    → is_terminal m.state ≡ true
    → Reach rt s t
    → lookup id t.missions ≡ some m
terminal_is_final rt s t id m keyed found done r =
    let (n, stored, e) = (Reach-Continues rt s t keyed r).extends id m found in
    rw stored (ap some (e.final done))

-- Whatever calls are made of the manager, a stored mission stays stored under its id, and its plan
-- version never falls, from any manager whose missions are stored under their own ids.
pub plan_version_grows :
    (rt : Runtime) (s t : Manager) (id : String) (m : Mission)
    → Keyed s.missions
    → lookup id s.missions ≡ some m
    → Reach rt s t
    → (n : Mission) × (lookup id t.missions ≡ some n)
      × (n.identity.mission_id ≡ id)
      × (m.identity.plan_version ≤ n.identity.plan_version)
plan_version_grows rt s t id m keyed found r =
    let c = Reach-Continues rt s t keyed r in
    let (n, stored, e) = c.extends id m found in
    (n, stored, lookup-Keyed id n t.missions c.keyed stored, e.newer)
