-- ===== src/Journal/Tests.antt =====
-- A journal of three lines, and its theorems there.
use mc_ai_bt.Common.{String, true, Option, none, some, List, [], ◌∷◌, ◌==◌, if◌then◌else◌}
use mc_ai_bt.Common.Int.{pos}
use mc_ai_bt.Common.Float.{zero_float}
use mc_ai_bt.Mission.{Mission, State}

abbrev mission : State → Mission
mission state = record {
  identity = record {
    mission_id = "a";
    plan_version = 2;
    execution_id = "run 1";
    parent_mission_id = "";
    source = "voice";
    operator_id = "";
  };
  intent_text = "bring water";
  source = "voice";
  operator_id = "";
  priority = pos 10;
  allow_queue = true;
  context_json = "";
  state = state;
  title = "bring water";
  active_node = "root";
  status_text = "running";
  progress = zero_float;
  bt_json = "{}";
  goal_spec_json = "";
  error_code = "";
}

-- What the lines hold; every other line is broken.
abbrev read : String → Option Mission
read line =
    if line == "planned"
    then some (mission State.planning)
    else if line == "started"
    then some (mission State.running)
    else none

abbrev lines : List String
lines = "planned" ∷ "started" ∷ "bro" ∷ []
