-- ===== src/Validator/Tests.antt =====
-- The validator on concrete plans, and its theorems there.
use mc_ai_bt.Common.{String, true, none, some, [], ◌∷◌, ◌≡◌, refl, ◌==◌, ◌||◌, if◌then◌else◌}
use mc_ai_bt.Common.Text.{strip}
use mc_ai_bt.Json.{str, list, dict, Items, nil, cons, Fields, end, field, get, Runtime}
use mc_ai_bt.Validator.Resources.{Skills}
use mc_ai_bt.Validator.Checks.{NodeKind, fine, find, kind_of, skill_report}
use mc_ai_bt.Validator.{validate}
use mc_ai_bt.Validator.Accepted.{at_head, in_tail, itself, below_list}
use mc_ai_bt.Validator.Guarantees.{action-known}

abbrev runtime : Runtime
runtime = record { loads = λ raw. none; dumps = λ v. "{}"; show = λ v. "value"; quote = λ s. s }

-- `"wave"` takes the left arm, every other skill the body.
abbrev skills : Skills
skills = record {
  has = λ name. name == "wave" || name == "walk" || name == "look";
  resources = λ name.
      if name == "wave"
      then "left_arm" ∷ []
      else if name == "look"
      then "gaze" ∷ []
      else "body" ∷ [];
}

abbrev skill : String → Fields
skill name = field "type" (str "Action") (field "skill" (str name) end)

abbrev branches : String → Items
branches name = cons (dict (skill "wave")) (cons (dict (skill name)) nil)

abbrev both_at_once : String → Fields
both_at_once name = field "type" (str "Parallel") (field "children" (list (branches name)) end)

abbrev goal : Fields
goal =
    field "type" (str "human") (field "verification" (dict (field "by" (str "operator") end)) end)

abbrev plan : String → Fields
plan name = field "root" (dict (both_at_once name)) (field "goal_spec" (dict goal) end)

accepts : validate runtime skills (dict (plan "look")) ≡ fine
unfolding validate find kind_of get strip skill_report
accepts = refl

refuses :
    validate runtime skills (dict (plan "walk"))
    ≡ some ("root.children[value] and root.children[value] have conflicting resources: value" ∷ [])
unfolding validate find kind_of get strip skill_report
refuses = refl

action-known_example :
    (name : String) × (get "skill" (skill "look") ≡ some (str name)) × (skills.has name ≡ true)
unfolding find kind_of get
action-known_example =
    action-known runtime skills (plan "look") (skill "look") (dict (both_at_once "look")) accepts
      refl (below_list NodeKind.parallel refl refl refl (in_tail at_head) itself) refl
