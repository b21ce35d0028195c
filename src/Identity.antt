-- ===== src/Identity.antt =====
-- mc_ai_bt/identity.py: who a mission is, and which plan and which execution of it.
use mc_ai_bt.Common.{ℕ, ◌+◌, String, Bool, ◌&&◌, ◌==◌, ◌=ℕ◌}

pub record Identity : Type 0 where
  pub mission_id : String
  pub plan_version : ℕ
  pub execution_id : String
  pub parent_mission_id : String
  pub source : String
  pub operator_id : String

-- `Identity.new`; `fresh` is the `uuid4` that the call draws.
unfoldable pub new : String → String → String → String → Identity
new fresh parent_mission_id source operator_id = record {
  mission_id = fresh;
  plan_version = 0;
  execution_id = "";
  parent_mission_id = parent_mission_id;
  source = source;
  operator_id = operator_id;
}

unfoldable pub next_plan : Identity → Identity
next_plan i = record {
  mission_id = i.mission_id;
  plan_version = i.plan_version + 1;
  execution_id = "";
  parent_mission_id = i.parent_mission_id;
  source = i.source;
  operator_id = i.operator_id;
}

-- `fresh` is again the `uuid4` that the call draws.
unfoldable pub for_execution : String → Identity → Identity
for_execution fresh i = record {
  mission_id = i.mission_id;
  plan_version = i.plan_version;
  execution_id = fresh;
  parent_mission_id = i.parent_mission_id;
  source = i.source;
  operator_id = i.operator_id;
}

-- `==` of the frozen dataclass.
unfoldable pub same_identity : Identity → Identity → Bool
same_identity i j =
    i.mission_id == j.mission_id
    && i.plan_version =ℕ j.plan_version
    && i.execution_id == j.execution_id
    && i.parent_mission_id == j.parent_mission_id
    && i.source == j.source
    && i.operator_id == j.operator_id
