-- ===== src/Manager/Methods.antt =====
-- What each method of the manager does to the state, as a rule for any predicate on the state after
-- the call: it holds if it holds of the state before, and of each new state that the method makes.
use mc_ai_bt.Common.{
  String, Bool, true, false, not, Option, none, some, ◌≡◌, refl, inl, inr, Bool-cases, ◌==◌, ◌||◌,
}
use mc_ai_bt.Common.Int.{ℤ}
use mc_ai_bt.Common.Float.{Float}
use mc_ai_bt.Common.Text.{strip}
use mc_ai_bt.Common.Dict.{lookup}
use mc_ai_bt.Json.{Fields, Runtime}
use mc_ai_bt.Identity.{Identity}
use mc_ai_bt.Mission.{State, Mission, is_terminal, is_paused}
use mc_ai_bt.Manager.{
  Manager, ok, put, put_active, settle, forget_resume, active_is, no_active, text_is, text_or_none,
  identity_changed, set_plan, planned_mission, request_replan, replanning_mission, mark_terminal,
  finished_mission, is_outcome, cancel, canceled_mission, update_status, updated_mission, pause,
  pause_now, pause_slot, paused_mission, repause_message, resume, resume_slot, resumed_mission,
  reprioritize, reprioritized_mission, settle_priority, preempts, demoted_mission, promoted_mission,
  Submission, submit, submitted_mission, slot_busy, resolve_control_id,
}
use mc_ai_bt.Manager.Effects.{
  Ends, Ends-require, Ends-resolve, Ends-raise_if, Ends-refuse, Ends-check, Ends-pure, Ends-modify,
  Ends-if, Ends-gets,
}

not-false : (b : Bool) → not b ≡ false → b ≡ true
not-false true h = refl
not-false false h = cc

Ends-settle_priority :
    {R : Manager → Type 0} {s : Manager} (preempt : Bool) (id reason : String) (updated : Mission)
    (o : Option Mission)
    → R s
    → ((active : Mission)
        → o ≡ some active
        → preempts preempt id updated active ≡ true
        → R (
            put_active id
              (promoted_mission reason updated)
              (put (demoted_mission id active).identity.mission_id (demoted_mission id active) s)))
    → Ends R s (settle_priority preempt id reason updated o)
unfolding settle_priority
Ends-settle_priority preempt id reason updated none same h = record { after = same }
Ends-settle_priority preempt id reason updated (some active) same h =
    elim (Bool-cases (preempts preempt id updated active)) [
      | inl e ↦ record { after = rw e (h active refl e) }
      | inr e ↦ record { after = rw e same }
    ]

module _ {R : Manager → Type 0} {s : Manager} (same : R s) where
  pub Ends-set_plan :
      (id bt goal : String) (expected : Option Identity) (fresh : String)
      → ((m : Mission)
          → lookup id s.missions ≡ some m
          → is_terminal m.state ≡ false
          → identity_changed m expected ≡ false
          → R (put_active id (planned_mission bt goal fresh m) s))
      → Ends R s (set_plan id bt goal expected fresh)
  unfolding set_plan
  Ends-set_plan id bt goal expected fresh h = Ends-require same id _ λ m found.
      Ends-check same m expected _ λ live kept. Ends-modify _ _ (Ends-pure _ (h m found live kept))

  pub Ends-request_replan :
      (target reason payload : String)
      → ((id : String) (m : Mission)
          → resolve_control_id target s ≡ (ok id, s)
          → lookup id s.missions ≡ some m
          → is_terminal m.state ≡ false
          → R (put_active id (replanning_mission reason m) s))
      → Ends R s (request_replan target reason payload)
  unfolding request_replan
  Ends-request_replan target reason payload h = Ends-resolve same target _ λ id resolved.
      Ends-require same id _ λ m found.
        Ends-refuse same id m _ λ live. Ends-modify _ _ (Ends-pure _ (h id m resolved found live))

  pub Ends-mark_terminal :
      (rt : Runtime) (id : String) (state : State) (message : String) (expected : Option Identity)
      (facts : Option Fields)
      → ((m : Mission)
          → lookup id s.missions ≡ some m
          → is_terminal m.state ≡ false
          → is_outcome state ≡ true
          → R (settle id (finished_mission state message m) s))
      → Ends R s (mark_terminal rt id state message expected facts)
  unfolding mark_terminal
  Ends-mark_terminal rt id state message expected facts h =
      Ends-raise_if same (not (is_outcome state)) _ _ λ outcome. Ends-require same id _ λ m found.
        Ends-check same m expected _
          λ live kept. Ends-modify _ _ (Ends-pure _ (h m found live (not-false _ outcome)))

  pub Ends-cancel :
      (rt : Runtime) (target reason : String)
      → ((id : String) (m : Mission)
          → lookup id s.missions ≡ some m
          → is_terminal m.state ≡ false
          → R (settle id (canceled_mission reason m) s))
      → Ends R s (cancel rt target reason)
  unfolding cancel
  Ends-cancel rt target reason h = Ends-resolve same target _ λ id resolved.
      Ends-require same id _
        λ m found. Ends-refuse same id m _ λ live. Ends-modify _ _ (Ends-pure _ (h id m found live))

  pub Ends-update_status :
      (id node text : String) (progress : Option Float) (expected : Option Identity)
      → ((m : Mission)
          → lookup id s.missions ≡ some m
          → is_terminal m.state ≡ false
          → R (put id (updated_mission node text progress m) s))
      → Ends R s (update_status id node text progress expected)
  unfolding update_status
  Ends-update_status id node text progress expected h = Ends-require same id _ λ m found.
      Ends-check same m expected _ λ live kept. Ends-modify _ _ (Ends-pure _ (h m found live))

  pub Ends-resume :
      (target reason fresh : String)
      → ((id : String) (m : Mission) (slot_free : Bool)
          → resolve_control_id target s ≡ (ok id, s)
          → lookup id s.missions ≡ some m
          → is_paused m.state ≡ true
          → (no_active s.active_id || active_is s.active_id id) ≡ slot_free
          → R (resume_slot slot_free id m (resumed_mission slot_free fresh reason m) s))
      → Ends R s (resume target reason fresh)
  unfolding resume
  Ends-resume target reason fresh h = Ends-resolve same target _ λ id resolved.
      Ends-require same id _ λ m found. Ends-refuse same id m _ λ live.
        Ends-raise_if same (not (is_paused m.state)) _ _ λ paused.
          Ends-gets _ _
            (Ends-modify _ _ (Ends-pure _ (h id m _ resolved found (not-false _ paused) refl)))

  pub Ends-reprioritize :
      (target : String) (priority : ℤ) (preempt : Bool) (reason : String)
      → ((id : String) (m : Mission)
          → lookup id s.missions ≡ some m
          → is_terminal m.state ≡ false
          → R (put id (reprioritized_mission priority reason m) s))
      → ((id : String) (m active : Mission)
          → lookup id s.missions ≡ some m
          → is_terminal m.state ≡ false
          → let updated = reprioritized_mission priority reason m in
            let stored = put id updated s in
            lookup (text_or_none s.active_id) stored.missions ≡ some active
            → preempts preempt id updated active ≡ true
            → R (
                put_active id (promoted_mission reason updated) (
                  put
                    (demoted_mission id active).identity.mission_id
                    (demoted_mission id active)
                    stored)))
      → Ends R s (reprioritize target priority preempt reason)
  unfolding reprioritize
  Ends-reprioritize target priority preempt reason h hp = Ends-resolve same target _ λ id resolved.
      Ends-require same id _ λ m found. Ends-refuse same id m _ λ live. Ends-modify _ _ (
        Ends-gets _ _ (
          Ends-settle_priority preempt id reason _ _ (h id m found live)
            λ active e p. hp id m active found live e p))

  pub Ends-pause :
      (rt : Runtime) (target reason : String)
      → ((id : String) (m : Mission)
          → lookup id s.missions ≡ some m
          → is_terminal m.state ≡ false
          → is_paused m.state ≡ false
          → text_is (lookup id s.resumed_from) reason ≡ true
          → Ends R
              (forget_resume id s)
              (mark_terminal rt id State.blocked (repause_message rt reason) none none))
      → ((id : String) (m : Mission)
          → lookup id s.missions ≡ some m
          → is_terminal m.state ≡ false
          → is_paused m.state ≡ false
          → text_is (lookup id s.resumed_from) reason ≡ false
          → R (pause_slot id (paused_mission reason m) s))
      → Ends R s (pause rt target reason)
  unfolding pause pause_now
  Ends-pause rt target reason hb hp = Ends-resolve same target _ λ id resolved.
      Ends-require same id _ λ m found. Ends-refuse same id m _ λ live. Ends-gets _ _ (
        Ends-if (is_paused m.state) _ _ (λ _. Ends-pure _ same)
          λ running.
            Ends-if (text_is (lookup id s.resumed_from) reason) _ _
              (λ again. Ends-modify _ _ (hb id m found live running again))
              λ first_time. Ends-modify _ _ (Ends-pure _ (hp id m found live running first_time)))

  pub Ends-submit :
      (r : Submission)
      → (slot_busy s ≡ true → r.allow_queue ≡ true → R (put r.fresh (submitted_mission r true) s))
      → (slot_busy s ≡ false → R (put_active r.fresh (submitted_mission r false) s))
      → Ends R s (submit r)
  unfolding submit
  Ends-submit r hb hf = elim (Bool-cases (strip r.intent_text == "")) [
    | inl empty ↦ record { after = rw empty same }
    | inr full ↦ elim (Bool-cases (slot_busy s)) [
      | inl busy ↦ elim (Bool-cases r.allow_queue) [
        | inl allowed ↦ record { after = simp (full, busy, allowed) (hb busy allowed) }
        | inr refused ↦ record { after = simp (full, busy, refused) same }
      ]
      | inr free ↦ record { after = simp (full, free) (hf free) }
    ]
  ]
