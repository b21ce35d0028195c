-- ===== src/Manager/Results.antt =====
-- Which asynchronous results the manager of mc_ai_bt/mission.py still takes.
use mathlib.Core.Path.{subst}
use mc_ai_bt.Common.{String, true, false, some, ◌≡◌, sym, ap, ◌∙◌, arith, ◌==◌, ◌||◌, ◌≤◌, ◌+◌}
use mc_ai_bt.Common.Dict.{lookup, lookup-insert_self}
use mc_ai_bt.Json.{Runtime}
use mc_ai_bt.Identity.{Identity, for_execution}
use mc_ai_bt.Mission.{Mission, is_terminal, is_paused}
use mc_ai_bt.Manager.{
  Manager, accepts_async_result, accepts_for, request_replan, replanning_mission, resume,
  resumed_mission, resume_slot, put_active, is_alias, active_is, no_active,
}
use mc_ai_bt.Manager.Keyed.{Keyed, Keyed-insert, lookup-Keyed}
use mc_ai_bt.Manager.Continues.{live_of_paused, missions-resume_slot, Evolves-resumed}
use mc_ai_bt.Manager.History.{plan_version_grows, terminal_is_final}
use mc_ai_bt.Manager.Request.{Reach}
use mc_ai_bt.Manager.Runs.{request_replan_runs, resume_runs}

accepts-stored :
    (i : Identity) (s : Manager) (m : Mission)
    → lookup i.mission_id s.missions ≡ some m
    → accepts_async_result i s ≡ accepts_for i (some m)
unfolding accepts_async_result
accepts-stored i s m found = ap (accepts_for i) found

older_plan :
    (i : Identity) (m : Mission)
    → i.plan_version + 1 ≤ m.identity.plan_version
    → accepts_for i (some m) ≡ false
older_plan i m h = ground arith

-- Once a mission is sent back to planning, no result of the plan that it had is taken any more,
-- whatever calls follow.
pub replan_retires_results :
    (rt : Runtime) (s u : Manager) (id reason payload : String) (m : Mission)
    → Keyed s.missions
    → lookup id s.missions ≡ some m
    → is_terminal m.state ≡ false
    → is_alias id ≡ false
    → Reach rt (request_replan id reason payload s).1 u
    → accepts_async_result m.identity u ≡ false
unfolding replanning_mission
replan_retires_results rt s u id reason payload m keyed found live own reach =
    let n = replanning_mission reason m in
    let same = lookup-Keyed id m s.missions keyed found in
    let t = put_active id n s in
    let r =
      subst (λ w. Reach rt w u)
        (ap (λ p. p.1) (request_replan_runs s id m found live reason payload own)) reach in
    let (o, stored, same_id, newer) =
      plan_version_grows rt t u id n (Keyed-insert id n s.missions same keyed)
        (lookup-insert_self id n s.missions) r in
    accepts-stored m.identity u o (subst (λ k. lookup k u.missions ≡ some o) (sym same) stored)
    ∙ older_plan m.identity o newer

-- No result of a mission that has ended is taken, whatever calls follow.
pub terminal_retires_results :
    (rt : Runtime) (s u : Manager) (i : Identity) (m : Mission)
    → Keyed s.missions
    → lookup i.mission_id s.missions ≡ some m
    → is_terminal m.state ≡ true
    → Reach rt s u
    → accepts_async_result i u ≡ false
terminal_retires_results rt s u i m keyed found done reach =
    accepts-stored i u m (terminal_is_final rt s u i.mission_id m keyed found done reach)
    ∙ ground arith

resumed_identity :
    (fresh reason : String) (m : Mission)
    → (m.bt_json == "") ≡ false
    → (resumed_mission true fresh reason m).identity ≡ for_execution fresh m.identity
unfolding resumed_mission
resumed_identity fresh reason m planned = rw planned

older_execution :
    (i : Identity) (m : Mission)
    → (i.execution_id == "") ≡ false
    → (m.identity.execution_id == "") ≡ false
    → (m.identity.execution_id == i.execution_id) ≡ false
    → accepts_for i (some m) ≡ false
older_execution i m old drawn new = ground arith

-- A resume that starts the stored plan again, by an execution id that is neither empty nor the old
-- one, takes no result of the execution before the pause.
pub resume_retires_results :
    (s : Manager) (id reason fresh : String) (m : Mission)
    → Keyed s.missions
    → lookup id s.missions ≡ some m
    → is_paused m.state ≡ true
    → is_alias id ≡ false
    → (no_active s.active_id || active_is s.active_id id) ≡ true
    → (m.bt_json == "") ≡ false
    → (m.identity.execution_id == "") ≡ false
    → (fresh == "") ≡ false
    → (fresh == m.identity.execution_id) ≡ false
    → accepts_async_result m.identity (resume id reason fresh s).1 ≡ false
resume_retires_results s id reason fresh m keyed found paused own free planned executed drawn new =
    let live = live_of_paused m paused in
    let n = resumed_mission true fresh reason m in
    let same = lookup-Keyed id m s.missions keyed found in
    let t = resume_slot true id m n s in
    let e : n.identity.execution_id ≡ fresh =
      unfold for_execution in
      ap (λ (i : Identity). i.execution_id) (resumed_identity fresh reason m planned) in
    let stored : lookup m.identity.mission_id t.missions ≡ some n =
      subst (λ k. lookup k t.missions ≡ some n) (sym same)
        (ap (lookup id) (
            missions-resume_slot s keyed id m n found (Evolves-resumed m live true fresh reason)
              true)
          ∙ lookup-insert_self id n s.missions) in
    ap (λ p. accepts_async_result m.identity p.1)
      (resume_runs s id m found live reason fresh own paused)
    ∙ ap
        (λ b.
          accepts_async_result m.identity (resume_slot b id m (resumed_mission b fresh reason m) s))
        free
    ∙ accepts-stored m.identity t n stored
    ∙ older_execution m.identity n executed (ap (λ x. x == "") e ∙ drawn)
        (ap (λ x. x == m.identity.execution_id) e ∙ new)
