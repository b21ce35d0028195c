-- ===== src/Manager/Runs.antt =====
-- The methods where they do not raise: the whole result of each call.
use mc_ai_bt.Common.{String, true, false, Option, none, some, ◌≡◌, refl, ◌∙◌, ◌||◌}
use mc_ai_bt.Common.Dict.{lookup}
use mc_ai_bt.Json.{Runtime, Fields}
use mc_ai_bt.Identity.{Identity}
use mc_ai_bt.Mission.{Mission, EventKind, State, is_terminal, is_paused}
use mc_ai_bt.Mission.Outcome.{build_mission_outcome_envelope}
use mc_ai_bt.Manager.{
  Manager, ok, Action, ◌>>=◌, ◌>>◌, pure, raise_if, modify, gets, put_active, settle, active_is,
  no_active, forget_resume, text_is, event_of, resolve_control_id, is_alias, require,
  refuse_terminal, check_can_update, identity_changed, set_plan, planned_mission, request_replan,
  replanning_mission, resume, resumed_mission, resume_slot, pause, pause_now, paused_mission,
  pause_slot, mark_terminal, finished_mission, is_outcome, outcome_event, cancel, canceled_mission,
  repause_message,
}
use mc_ai_bt.Manager.Effects.{bind-ok, then-ok, require-found, check_passes}

pub resolve-own :
    (id : String) (s : Manager) → is_alias id ≡ false → resolve_control_id id s ≡ (ok id, s)
unfolding resolve_control_id
resolve-own id s own = rw own

refuse_passes :
    (id : String) (m : Mission) (s : Manager)
    → is_terminal m.state ≡ false
    → refuse_terminal id m s ≡ (ok tt, s)
unfolding refuse_terminal
refuse_passes id m s live = rw live

modify-then :
    {A : Type 0} (g : Manager → Manager) (a : A) (s : Manager)
    → (modify g >> pure a) s ≡ (ok a, g s)
unfolding ◌>>◌
modify-then g a s = refl

drop-step :
    {A : Type 0} (g : Manager → Manager) (k : Action A) (s : Manager) → (modify g >> k) s ≡ k (g s)
unfolding ◌>>◌
drop-step g k s = refl

gets-then :
    {A B : Type 0} (g : Manager → B) (f : B → Action A) (s : Manager) → (gets g >>= f) s ≡ f (g s) s
unfolding ◌>>=◌
gets-then g f s = refl

module _ (s : Manager) (id : String) (m : Mission) (found : lookup id s.missions ≡ some m)
    (live : is_terminal m.state ≡ false) where
  pub set_plan_runs :
      (bt goal : String) (expected : Option Identity) (fresh : String)
      → identity_changed m expected ≡ false
      → let planned = planned_mission bt goal fresh m in
        set_plan id bt goal expected fresh s
        ≡ (ok (event_of EventKind.planned planned "planned" ""), put_active id planned s)
  unfolding set_plan
  set_plan_runs bt goal expected fresh kept =
      bind-ok (require id) s _ (require-found id s m found)
      ∙ then-ok (check_can_update m expected) s _ (check_passes m expected s live kept)
      ∙ modify-then _ _ s

  pub request_replan_runs :
      (reason payload : String)
      → is_alias id ≡ false
      → let replanning = replanning_mission reason m in
        request_replan id reason payload s ≡ (
          ok (event_of EventKind.preempted replanning replanning.status_text payload),
          put_active id replanning s,
        )
  unfolding request_replan
  request_replan_runs reason payload own =
      bind-ok (resolve_control_id id) s _ (resolve-own id s own)
      ∙ bind-ok (require id) s _ (require-found id s m found)
      ∙ then-ok (refuse_terminal id m) s _ (refuse_passes id m s live)
      ∙ modify-then _ _ s

  pub mark_terminal_runs :
      (rt : Runtime) (state : State) (message : String) (expected : Option Identity)
      (facts : Option Fields)
      → is_outcome state ≡ true
      → identity_changed m expected ≡ false
      → let done = finished_mission state message m in
        mark_terminal rt id state message expected facts s ≡ (
          ok (
              event_of
                (outcome_event state)
                done
                message
                (build_mission_outcome_envelope rt done facts)),
          settle id done s,
        )
  unfolding mark_terminal
  mark_terminal_runs rt state message expected facts outcome kept =
      then-ok (raise_if _ _) s _ (rw outcome)
      ∙ bind-ok (require id) s _ (require-found id s m found)
      ∙ then-ok (check_can_update m expected) s _ (check_passes m expected s live kept)
      ∙ modify-then _ _ s

  pub cancel_runs :
      (rt : Runtime) (reason : String)
      → is_alias id ≡ false
      → let canceled = canceled_mission reason m in
        cancel rt id reason s ≡ (
          ok (
              event_of EventKind.canceled canceled canceled.status_text
                (build_mission_outcome_envelope rt canceled none)),
          settle id canceled s,
        )
  unfolding cancel
  cancel_runs rt reason own =
      bind-ok (resolve_control_id id) s _ (resolve-own id s own)
      ∙ bind-ok (require id) s _ (require-found id s m found)
      ∙ then-ok (refuse_terminal id m) s _ (refuse_passes id m s live)
      ∙ modify-then _ _ s

  pub resume_runs :
      (reason fresh : String)
      → is_alias id ≡ false
      → is_paused m.state ≡ true
      → let slot_free = no_active s.active_id || active_is s.active_id id in
        let resumed = resumed_mission slot_free fresh reason m in
        resume id reason fresh s ≡ (
          ok (event_of EventKind.resumed resumed resumed.status_text ""),
          resume_slot slot_free id m resumed s,
        )
  unfolding resume
  resume_runs reason fresh own paused =
      bind-ok (resolve_control_id id) s _ (resolve-own id s own)
      ∙ bind-ok (require id) s _ (require-found id s m found)
      ∙ then-ok (refuse_terminal id m) s _ (refuse_passes id m s live)
      ∙ then-ok (raise_if _ _) s _ (rw paused)
      ∙ gets-then _ _ s
      ∙ modify-then _ _ s

-- A mission that pauses on the reason that it was resumed from is blocked.
pub pause_blocks :
    (rt : Runtime) (s : Manager) (id reason : String) (m : Mission)
    → lookup id s.missions ≡ some m
    → is_terminal m.state ≡ false
    → is_alias id ≡ false
    → is_paused m.state ≡ false
    → text_is (lookup id s.resumed_from) reason ≡ true
    → let message = repause_message rt reason in
      let done = finished_mission State.blocked message m in
      pause rt id reason s ≡ (
        ok (event_of EventKind.blocked done message (build_mission_outcome_envelope rt done none)),
        settle id done (forget_resume id s),
      )
unfolding pause
pause_blocks rt s id reason m found live own running again =
    bind-ok (resolve_control_id id) s _ (resolve-own id s own)
    ∙ bind-ok (require id) s _ (require-found id s m found)
    ∙ then-ok (refuse_terminal id m) s _ (refuse_passes id m s live)
    ∙ gets-then _ _ s
    ∙ rw (running, again)
        (drop-step _ _ s
          ∙ mark_terminal_runs (forget_resume id s) id m found live rt State.blocked
              (repause_message rt reason) none none refl refl)

-- Any other mission that is not finished or paused yet pauses.
pub pause_pauses :
    (rt : Runtime) (s : Manager) (id reason : String) (m : Mission)
    → lookup id s.missions ≡ some m
    → is_terminal m.state ≡ false
    → is_alias id ≡ false
    → is_paused m.state ≡ false
    → text_is (lookup id s.resumed_from) reason ≡ false
    → let paused = paused_mission reason m in
      pause rt id reason s
      ≡ (ok (event_of EventKind.paused paused paused.status_text ""), pause_slot id paused s)
unfolding pause pause_now
pause_pauses rt s id reason m found live own running first_time =
    bind-ok (resolve_control_id id) s _ (resolve-own id s own)
    ∙ bind-ok (require id) s _ (require-found id s m found)
    ∙ then-ok (refuse_terminal id m) s _ (refuse_passes id m s live)
    ∙ gets-then _ _ s
    ∙ rw (running, first_time) (modify-then _ _ s)
