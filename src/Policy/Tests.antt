-- ===== src/Policy/Tests.antt =====
-- The policy guard on concrete plans, and its theorems there.
use mc_ai_bt.Common.{String, false, none, some, [], ◌∷◌, ◌≡◌, refl}
use mc_ai_bt.Common.Int.{◌+ℤ◌, ◌*ℤ◌, ℤ}
use mc_ai_bt.Common.Float.{Float, nan, finite}
use mc_ai_bt.Json.{
  str, list, dict, Items, nil, cons, Fields, end, field, get, Runtime, text_or_empty,
}
use mc_ai_bt.Json.Builtins.{Builtins, dict_or_empty}
use mc_ai_bt.Common.Text.{◌<>◌}
use mc_ai_bt.Json.Number.{number}
use mc_ai_bt.Goal.Registry.{spec_of}
use mc_ai_bt.Validator.Resources.{among}
use mc_ai_bt.Validator.Checks.{fine, NodeKind, find, kind_of}
use mc_ai_bt.Validator.Accepted.{at_head, in_tail, itself, below_list}
use mc_ai_bt.Skill.{SkillSpec, find_skill, default_skills, names_where}
use mc_ai_bt.Policy.Limits.{
  default_limits, base_skills, body_skills, continuous_base_skills, policy_enabled_skills,
  skills_for_predicate, overlap,
}
use mc_ai_bt.Policy.Arguments.{check_go_to_place}
use mc_ai_bt.Policy.Actions.{check_action, registered_report, argument_check}
use mc_ai_bt.Policy.Gates.{is_marked, predicate_of}
use mc_ai_bt.Policy.Totals.{FloatSums}
use mc_ai_bt.Policy.{check}
use mc_ai_bt.Policy.Bounded.{action-IsAvailable, physical_plan_needs_goal}
use mc_ai_bt.Policy.Branches.{no_branch_always_wins}

abbrev runtime : Runtime
runtime = record { loads = λ raw. none; dumps = λ v. "{}"; show = λ v. "value"; quote = λ s. s }

-- Letters are lower case already.
abbrev builtins : Builtins
builtins = record {
  rt = runtime;
  lower = λ s. s;
  upper = λ s. s;
  nfkc = λ s. s;
  casefold = λ s. s;
  to_float = λ v. number (some v);
  to_int = λ v. none;
  apart = λ a b. false;
  format = λ x. "1";
}

abbrev add : Float → Float → Float
add (finite a) (finite b) = finite (a +ℤ b)
add a b = nan

abbrev times : Float → ℤ → Float
times (finite a) n = finite (a *ℤ n)
times a n = nan

-- Exact sums of finite numbers.
abbrev sums : FloatSums
sums = record { add = add; times = times }

abbrev condition : String → Fields
condition predicate = field "type" (str "Condition") (field "predicate" (str predicate) end)

abbrev walk_there : Fields
walk_there =
    field "type" (str "Action") (
      field "skill" (str "go_to_place")
        (field "args" (dict (field "name" (str "kitchen") end)) end))

abbrev branches : String → Items
branches predicate = cons (dict (condition predicate)) (cons (dict walk_there) nil)

abbrev fallback : String → Fields
fallback predicate =
    field "type" (str "Fallback") (field "children" (list (branches predicate)) end)

abbrev goal : String → Fields
goal type = field "type" (str type) (field "predicate" (str "robot_at_place") end)

abbrev plan : String → String → Fields
plan predicate type =
    field "root" (dict (fallback predicate)) (field "goal_spec" (dict (goal type)) end)

accepts :
    check builtins sums default_limits default_skills (dict (plan "robot_at_place" "structured"))
    ≡ fine
unfolding check find kind_of get base_skills body_skills continuous_base_skills
    policy_enabled_skills skills_for_predicate names_where among overlap check_go_to_place
    check_action registered_report argument_check find_skill
accepts = refl

refuses_branch :
    check builtins sums default_limits default_skills
      (dict (plan "visual_check_completed" "structured"))
    ≡ some (
        ("root.children[value] is a Fallback branch gated by a Condition using predicate "
          <> "visual_check_completed, which never resolves FALSE -- this branch would always win "
          <> "regardless of the real, distinct outcome this Fallback exists to distinguish")
        ∷ [])
unfolding check find kind_of get base_skills body_skills continuous_base_skills
    policy_enabled_skills skills_for_predicate names_where among overlap check_go_to_place
    check_action registered_report argument_check find_skill
refuses_branch = refl

no_branch_always_wins_example :
    is_marked (spec_of (predicate_of runtime (condition "robot_at_place"))) ≡ false
unfolding get
no_branch_always_wins_example =
    no_branch_always_wins builtins sums default_limits default_skills
      (plan "robot_at_place" "structured") (fallback "robot_at_place") (condition "robot_at_place")
      (dict (fallback "robot_at_place")) (dict (condition "robot_at_place"))
      (branches "robot_at_place") accepts refl itself refl refl at_head itself refl

action-IsAvailable_example :
    (spec : SkillSpec) × (find_skill "go_to_place" default_skills ≡ some spec)
    × (spec.status ≡ "available")
unfolding get text_or_empty find kind_of
action-IsAvailable_example =
    action-IsAvailable builtins sums default_limits default_skills
      (plan "robot_at_place" "structured") walk_there (dict (fallback "robot_at_place")) accepts
      refl (below_list NodeKind.fallback refl refl refl (in_tail at_head) itself) refl

physical_plan_needs_goal_example :
    (¬ (get "type" (goal "structured") ≡ some (str "human")))
    × ((verification : Fields) × (dict_or_empty (get "verification" (goal "structured"))
          ≡ some verification)
        × (¬ (text_or_empty runtime (get "mode" verification) ≡ "implicit_conversation")))
unfolding get among text_or_empty find kind_of base_skills body_skills names_where overlap
physical_plan_needs_goal_example =
    physical_plan_needs_goal builtins sums default_limits default_skills
      (plan "robot_at_place" "structured") (goal "structured") walk_there
      (dict (fallback "robot_at_place")) accepts refl refl
      (below_list NodeKind.fallback refl refl refl (in_tail at_head) itself) refl refl
