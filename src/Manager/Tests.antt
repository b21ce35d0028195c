-- ===== src/Manager/Tests.antt =====
-- A run of the mission manager, and its theorems on concrete missions.
use mc_ai_bt.Common.{arith, String, true, false, none, some, [], ◌∷◌, ◌≡◌, refl, ◌≤◌}
use mc_ai_bt.Common.Int.{pos, ◌≤ℤ◌}
use mc_ai_bt.Common.Float.{zero_float, unit-pos}
use mc_ai_bt.Common.Dict.{Dict, lookup, insert, values}
use mc_ai_bt.Common.Sort.{sort, insert_sorted, first}
use mc_ai_bt.Common.Text.{strip}
use mc_ai_bt.Json.{Runtime}
use mc_ai_bt.Mission.{Mission, MissionEvent, State, EventKind, is_queued, is_terminal, is_paused}
use mc_ai_bt.Manager.{
  Manager, Submission, init, pause, set_plan, request_replan, resume, ok, accepts_async_result,
  is_alias, slot_busy, next_queued_id, with_state, before, submit, by_id, select_active_id, ◌>>◌,
  submitted_mission,
}
use mc_ai_bt.Manager.Request.{Request, handle, here, next, call}
use mc_ai_bt.Manager.History.{terminal_is_final, plan_version_grows}
use mc_ai_bt.Manager.OutOfTurn.{
  replan_keeps_resume_reason, set_plan_overrides_pause, resume_behind_paused,
}
use mc_ai_bt.Manager.Results.{
  replan_retires_results, terminal_retires_results, resume_retires_results,
}
use mc_ai_bt.Manager.Bounds.{AllInBounds, InBounds, numbers_stay_in_bounds}
use mc_ai_bt.Manager.Order.{next_queued_id-best}
use mc_ai_bt.Common.Order.{lt_text}
use mc_ai_bt.Manager.Keyed.{Keyed, lookup-All}
use mc_ai_bt.Manager.Slots.{occupies, Occupied}
use mc_ai_bt.Manager.Fairness.{one_mission_runs, queue_waits_for_work}
use mc_ai_bt.Manager.Exclusion.{start, after}

abbrev runtime : Runtime
runtime = record { loads = λ raw. none; dumps = λ v. "{}"; show = λ v. "value"; quote = λ s. s }

abbrev mission : String → State → String → Mission
mission id state bt_json = record {
  identity = record {
    mission_id = id;
    plan_version = 1;
    execution_id = "run 1";
    parent_mission_id = "";
    source = "voice";
    operator_id = "";
  };
  intent_text = "bring water";
  source = "voice";
  operator_id = "";
  priority = pos 10;
  allow_queue = true;
  context_json = "";
  state = state;
  title = "bring water";
  active_node = "";
  status_text = "no path";
  progress = zero_float;
  bt_json = bt_json;
  goal_spec_json = "";
  error_code = "";
}

-- `"a"` has ended and `"b"` runs.
abbrev ended : Mission
ended = mission "a" State.succeeded "{}"

abbrev running : Mission
running = mission "b" State.running "{}"

abbrev working : Manager
working = record {
  missions = ("a", ended) ∷ ("b", running) ∷ [];
  active_id = some "b";
  resumed_from = ("b", "no path") ∷ [];
}

-- `"b"` is paused, and `"c"` has been given its slot.
abbrev held : Mission
held = mission "b" State.paused "{}"

abbrev other : Mission
other = mission "c" State.planning ""

abbrev given : Manager
given = record {
  missions = ("b", held) ∷ ("c", other) ∷ [];
  active_id = some "c";
  resumed_from = [];
}

-- `"b"` is paused in the slot that `"c"` waits for.
abbrev waiting : Mission
waiting = mission "c" State.paused ""

abbrev stuck : Manager
stuck = record {
  missions = ("b", held) ∷ ("c", waiting) ∷ [];
  active_id = some "b";
  resumed_from = [];
}

-- `"b"` alone, paused.
abbrev alone : Manager
alone = record { missions = ("b", held) ∷ []; active_id = some "b"; resumed_from = [] }

abbrev queue : Dict Mission
queue = ("c", mission "c" State.queued "") ∷ ("a", mission "a" State.queued "") ∷ []

abbrev submission : String → Submission
submission id = record {
  fresh = id;
  intent_text = "bring water";
  source = "voice";
  operator_id = "";
  parent_mission_id = "";
  priority = pos 300;
  allow_queue = true;
  context_json = "";
}

abbrev request : String → Request
request id = Request.submit (submission id)

working-Keyed : Keyed working.missions
unfolding lookup
working-Keyed = (refl, refl, (refl, refl, tt))

terminal_is_final_example :
    lookup "a" (handle runtime (Request.cancel "a" "stop") working).1.missions ≡ some ended
unfolding lookup is_terminal
terminal_is_final_example =
    terminal_is_final runtime working _ "a" ended working-Keyed refl refl
      (next here (call working _ (Request.cancel "a" "stop") tt refl))

plan_version_grows_example :
    (n : Mission) × (lookup "b"
        (handle runtime (Request.request_replan "b" "blocked" "") working).1.missions
      ≡ some n)
    × (n.identity.mission_id ≡ "b")
    × (1 ≤ n.identity.plan_version)
unfolding lookup
plan_version_grows_example =
    plan_version_grows runtime working _ "b" running working-Keyed refl
      (next here (call working _ (Request.request_replan "b" "blocked" "") tt refl))

replan_retires_results_example :
    accepts_async_result running.identity (request_replan "b" "blocked" "" working).1 ≡ false
unfolding lookup is_terminal is_alias
replan_retires_results_example =
    replan_retires_results runtime working _ "b" "blocked" "" running working-Keyed refl refl refl
      here

terminal_retires_results_example :
    accepts_async_result ended.identity (handle runtime (Request.cancel "b" "stop") working).1
    ≡ false
unfolding lookup is_terminal
terminal_retires_results_example =
    terminal_retires_results runtime working _ ended.identity ended working-Keyed refl refl
      (next here (call working _ (Request.cancel "b" "stop") tt refl))

resume_retires_results_example :
    accepts_async_result held.identity (resume "b" "go on" "run 2" alone).1 ≡ false
unfolding lookup is_paused is_alias
resume_retires_results_example =
    resume_retires_results alone "b" "go on" "run 2" held (refl, refl, tt) refl refl refl refl refl
      refl refl refl

replan_keeps_resume_reason_example :
    let t = (set_plan "b" "{}" "{}" none "run 2" (request_replan "b" "why" "" working).1).1 in
    (e : MissionEvent) × ((pause runtime "b" "no path" t).0 ≡ ok e)
    × (e.event ≡ EventKind.blocked)
    × (e.mission.identity.plan_version ≡ 2)
    × (e.mission.bt_json ≡ "{}")
unfolding lookup is_terminal is_alias
replan_keeps_resume_reason_example =
    replan_keeps_resume_reason runtime working "b" "no path" "why" "" "{}" "{}" "run 2" running refl
      refl refl refl

set_plan_overrides_pause_example :
    let t = (set_plan "b" "{}" "{}" (some held.identity) "run 2" given).1 in
    (p : Mission) × (lookup "b" t.missions ≡ some p)
    × (p.state ≡ State.running)
    × (t.active_id ≡ some "b")
    × (lookup "c" t.missions ≡ some other)
unfolding lookup is_paused occupies
set_plan_overrides_pause_example =
    set_plan_overrides_pause given "b" "c" "{}" "{}" "run 2" held other refl refl refl refl refl
      refl

resume_behind_paused_example :
    let t = (resume "c" "go on" "run 2" stuck).1 in
    (p : Mission) × (lookup "c" t.missions ≡ some p)
    × (p.state ≡ State.queued)
    × (t.active_id ≡ some "b")
    × (slot_busy t ≡ false)
unfolding lookup is_paused is_alias
resume_behind_paused_example =
    resume_behind_paused stuck "c" "b" "go on" "run 2" waiting held refl refl refl refl refl refl
      refl

next_queued_id-best_example :
    (m : Mission) × (lookup "a" queue ≡ some m)
    × (is_queued m.state ≡ true)
    × (pos 10 ≤ℤ m.priority)
    × (pos 10 ≡ m.priority → lt_text "c" m.identity.mission_id ≡ false)
unfolding lookup next_queued_id with_state values sort insert_sorted first before
next_queued_id-best_example =
    next_queued_id-best queue "a" "c" (mission "c" State.queued "") (refl, refl, (refl, refl, tt))
      refl refl refl

mission-InBounds :
    (id : String) (state : State) (bt_json : String) → InBounds (mission id state bt_json)
mission-InBounds id state bt_json = ground (arith, unit-pos)

working-AllInBounds : AllInBounds working.missions
unfolding values
working-AllInBounds k m e =
    lookup-All InBounds k m working.missions
      (mission-InBounds "a" State.succeeded "{}", (mission-InBounds "b" State.running "{}", tt)) e

numbers_stay_in_bounds_example :
    AllInBounds (handle runtime (Request.reprioritize "b" (pos 999) false "now") working).1.missions
numbers_stay_in_bounds_example =
    numbers_stay_in_bounds runtime working _ working-AllInBounds
      (next here (call working _ (Request.reprioritize "b" (pos 999) false "now") tt refl))

one_mission_runs_example :
    ◌≡◌ {A = String} "b" "b"
    × ((handle runtime (request "b") (init (ended ∷ []))).1.active_id ≡ some "b")
unfolding lookup handle submit init by_id insert slot_busy select_active_id ◌>>◌ strip
    submitted_mission is_queued occupies
one_mission_runs_example =
    one_mission_runs runtime (ended ∷ []) _ (refl, tt) (after (request "b") start refl tt refl) "b"
      "b" (submitted_mission (submission "b") false) (submitted_mission (submission "b") false) refl
      refl refl refl

queue_waits_for_work_example :
    let t = (handle runtime (request "c") (handle runtime (request "b") (init (ended ∷ []))).1).1 in
    (slot_busy t ≡ true) × Occupied t.missions t.active_id
unfolding lookup handle submit init by_id insert slot_busy select_active_id ◌>>◌ strip
    submitted_mission is_queued
queue_waits_for_work_example =
    queue_waits_for_work runtime (ended ∷ []) _ (refl, tt)
      (after (request "c") (after (request "b") start refl tt refl) refl tt refl) "c"
      (submitted_mission (submission "c") true) refl refl
