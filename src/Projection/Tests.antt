-- ===== src/Projection/Tests.antt =====
-- The projection of a manager that has just taken a mission.
use mc_ai_bt.Common.{true, false, none, some, [], ◌∷◌, ◌≡◌, refl}
use mc_ai_bt.Common.Int.{pos}
use mc_ai_bt.Common.Text.{strip}
use mc_ai_bt.Common.Dict.{lookup, insert, values}
use mc_ai_bt.Json.{Runtime}
use mc_ai_bt.Mission.{Mission, State, is_queued}
use mc_ai_bt.Manager.{
  Submission, init, submit, by_id, slot_busy, select_active_id, ◌>>◌, submitted_mission,
}
use mc_ai_bt.Manager.Request.{Request, handle}
use mc_ai_bt.Manager.Exclusion.{start, after}
use mc_ai_bt.Manager.Slots.{occupies}
use mc_ai_bt.Projection.{active_mission, state_counts}
use mc_ai_bt.Projection.Agree.{shows_mission_at_work}

abbrev runtime : Runtime
runtime = record { loads = λ raw. none; dumps = λ v. "{}"; show = λ v. "value"; quote = λ s. s }

abbrev submission : Submission
submission = record {
  fresh = "b";
  intent_text = "bring water";
  source = "voice";
  operator_id = "";
  parent_mission_id = "";
  priority = pos 10;
  allow_queue = true;
  context_json = "";
}

abbrev taken : Mission
taken = submitted_mission submission false

abbrev ended : Mission
ended = record taken {
  identity = record {
    mission_id = "a";
    plan_version = 1;
    execution_id = "run 1";
    parent_mission_id = "";
    source = "voice";
    operator_id = "";
  };
  state = State.succeeded;
}

counts : lookup "succeeded" (state_counts (ended ∷ ended ∷ [])) ≡ some 2
unfolding state_counts lookup
counts = refl

shows_mission_at_work_example :
    active_mission
      (values (handle runtime (Request.submit submission) (init (ended ∷ []))).1.missions)
    ≡ some taken
unfolding lookup handle submit init by_id insert slot_busy select_active_id ◌>>◌ strip
    submitted_mission is_queued occupies
shows_mission_at_work_example =
    shows_mission_at_work runtime (ended ∷ []) _ "b" taken (refl, tt)
      (after (Request.submit submission) start refl tt refl) refl refl
