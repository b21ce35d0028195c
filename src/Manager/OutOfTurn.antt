-- ===== src/Manager/OutOfTurn.antt =====
-- Calls that come out of turn: what the manager does where another call has moved the slot, or the
-- plan, in the meantime.
use mc_ai_bt.Common.{
  String, true, false, not, none, some, ◌≡◌, refl, ap, ◌∙◌, arith, eq_refl, ◌==◌, ◌||◌, ◌+◌,
}
use mc_ai_bt.Common.Dict.{lookup, insert, lookup-insert_self, lookup-insert_ne, ==_comm}
use mc_ai_bt.Json.{Runtime}
use mc_ai_bt.Identity.{Identity, same_identity, next_plan, for_execution}
use mc_ai_bt.Mission.{Mission, MissionEvent, State, EventKind, is_terminal, is_paused}
use mc_ai_bt.Manager.{
  Manager, ok, put, put_active, request_replan, replanning_mission, set_plan, planned_mission,
  pause, finished_mission, forget_resume, resume, resumed_mission, resumed_state, resume_slot,
  is_alias, active_is, no_active, slot_busy, text_is,
}
use mc_ai_bt.Manager.Slots.{occupies}
use mc_ai_bt.Manager.Continues.{live_of_paused}
use mc_ai_bt.Manager.Runs.{request_replan_runs, resume_runs, set_plan_runs, pause_blocks}

same_identity_refl : (i : Identity) → same_identity i i ≡ true
unfolding same_identity
same_identity_refl i = simp eq_refl (ground arith)

paused_slot :
    (s : Manager) (a : String) (n : Mission)
    → s.active_id ≡ some a
    → lookup a s.missions ≡ some n
    → is_paused n.state ≡ true
    → slot_busy s ≡ false
unfolding slot_busy
paused_slot s a n active held still = ground arith

-- The plan of a mission that was paused while it was being planned arrives: the mission runs, and it
-- takes the slot from the mission that plans or runs in it, which goes on too.
pub set_plan_overrides_pause :
    (s : Manager) (id a bt goal fresh : String) (m n : Mission)
    → lookup id s.missions ≡ some m
    → is_paused m.state ≡ true
    → s.active_id ≡ some a
    → (id == a) ≡ false
    → lookup a s.missions ≡ some n
    → occupies n.state ≡ true
    → let t = (set_plan id bt goal (some m.identity) fresh s).1 in
      (p : Mission) × (lookup id t.missions ≡ some p)
      × (p.state ≡ State.running)
      × (t.active_id ≡ some id)
      × (lookup a t.missions ≡ some n)
unfolding planned_mission
set_plan_overrides_pause s id a bt goal fresh m n found paused active apart held busy =
    let planned = planned_mission bt goal fresh m in
    let e =
      ap (λ p. p.1)
        (set_plan_runs s id m found (live_of_paused m paused) bt goal (some m.identity) fresh
          (ap not (same_identity_refl m.identity))) in
    rw e (
      planned,
      lookup-insert_self id planned s.missions,
      refl,
      refl,
      lookup-insert_ne id a planned s.missions apart ∙ held,
    )

behind :
    (s : Manager) (id a reason fresh : String) (m n : Mission)
    → s.active_id ≡ some a
    → (id == a) ≡ false
    → lookup a s.missions ≡ some n
    → is_paused n.state ≡ true
    → let t = resume_slot false id m (resumed_mission false fresh reason m) s in
      (p : Mission) × (lookup id t.missions ≡ some p)
      × (p.state ≡ State.queued)
      × (t.active_id ≡ some a)
      × (slot_busy t ≡ false)
unfolding resume_slot resumed_mission resumed_state
behind s id a reason fresh m n active apart held still =
    let q = resumed_mission false fresh reason m in
    let kept : lookup a (insert id q s.missions) ≡ some n =
      lookup-insert_ne id a q s.missions apart ∙ held in
    (
      q,
      lookup-insert_self id q s.missions,
      refl,
      active,
      paused_slot (forget_resume id (put id q s)) a n active kept still,
    )

-- A mission is resumed while another one is paused in the slot: it is queued, and nothing works in
-- the slot that it waits for.
pub resume_behind_paused :
    (s : Manager) (id a reason fresh : String) (m n : Mission)
    → lookup id s.missions ≡ some m
    → is_paused m.state ≡ true
    → is_alias id ≡ false
    → s.active_id ≡ some a
    → (id == a) ≡ false
    → lookup a s.missions ≡ some n
    → is_paused n.state ≡ true
    → let t = (resume id reason fresh s).1 in
      (p : Mission) × (lookup id t.missions ≡ some p)
      × (p.state ≡ State.queued)
      × (t.active_id ≡ some a)
      × (slot_busy t ≡ false)
resume_behind_paused s id a reason fresh m n found paused own active apart held still =
    let q = resumed_mission false fresh reason m in
    let taken : (no_active s.active_id || active_is s.active_id id) ≡ false =
      ap (λ o. no_active o || active_is o id) active ∙ ==_comm a id ∙ apart in
    let e : (resume id reason fresh s).1 ≡ resume_slot false id m q s =
      ap (λ p. p.1) (resume_runs s id m found (live_of_paused m paused) reason fresh own paused)
      ∙ ap (λ b. resume_slot b id m (resumed_mission b fresh reason m) s) taken in
    rw e (behind s id a reason fresh m n active apart held still)

-- The plan of a mission that was sent back to planning keeps the version of the replan.
replanned_version :
    (bt goal fresh why : String) (m : Mission)
    → (planned_mission bt goal fresh (replanning_mission why m)).identity.plan_version
      ≡ m.identity.plan_version + 1
unfolding planned_mission replanning_mission next_plan for_execution
replanned_version bt goal fresh why m = ground arith

-- The reason of a resume survives a replan: the mission is planned anew, runs the new plan, and the
-- first pause on that reason blocks it, although it has changed its state twice since the resume.
pub replan_keeps_resume_reason :
    (rt : Runtime) (s : Manager) (id reason why payload bt goal fresh : String) (m : Mission)
    → lookup id s.missions ≡ some m
    → is_terminal m.state ≡ false
    → is_alias id ≡ false
    → text_is (lookup id s.resumed_from) reason ≡ true
    → let t = (set_plan id bt goal none fresh (request_replan id why payload s).1).1 in
      (e : MissionEvent) × ((pause rt id reason t).0 ≡ ok e)
      × (e.event ≡ EventKind.blocked)
      × (e.mission.identity.plan_version ≡ m.identity.plan_version + 1)
      × (e.mission.bt_json ≡ bt)
unfolding replanning_mission planned_mission finished_mission is_terminal is_paused
replan_keeps_resume_reason rt s id reason why payload bt goal fresh m found live own again =
    let n = replanning_mission why m in
    let t = put_active id n s in
    let p = planned_mission bt goal fresh n in
    let u = put_active id p t in
    let first : (request_replan id why payload s).1 ≡ t =
      ap (λ q. q.1) (request_replan_runs s id m found live why payload own) in
    let second : (set_plan id bt goal none fresh t).1 ≡ u =
      ap (λ q. q.1)
        (set_plan_runs t id n (lookup-insert_self id n s.missions) refl bt goal none fresh refl) in
    rw (first, second)
      (
        _,
        ap (λ q. q.0)
            (pause_blocks rt u id reason p (lookup-insert_self id p t.missions) refl own refl
              again),
        refl,
        replanned_version bt goal fresh why m,
        refl,
      )
