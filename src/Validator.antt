-- ===== src/Validator.antt =====
-- mc_ai_bt/validator.py: the check of a decoded plan before it is stored. Resources has the resources
-- of the branches, Checks the fields of a node; the other children say what an accepted plan
-- guarantees.
pub mod Resources
pub mod Checks
pub mod Parallel
pub mod Accepted
pub mod Guarantees
pub mod Conflict
mod Tests
use mc_ai_bt.Common.{
  ℕ, suc, ◌+◌, String, Bool, true, false, not, ◌&&◌, ◌||◌, ◌==◌, Option, none, some, List, [], ◌∷◌,
  ◌++◌, if◌then◌else◌,
}
use mc_ai_bt.Common.Int.{pos}
use mc_ai_bt.Common.Float.{of_ℕ, zero_float}
use mc_ai_bt.Common.Text.{◌<>◌}
use mc_ai_bt.Common.Order.{lt_text}
use mc_ai_bt.Common.Sort.{sort}
use mc_ai_bt.Json.{
  Value, null, bool, int, float, str, list, dict, Items, nil, cons, Fields, end, field, get,
  Runtime,
}
use mc_ai_bt.Json.Number.{number, number_or_bool, outside}
use mc_ai_bt.Mission.Outcome.{texts}
use mc_ai_bt.Validator.Resources.{
  among, resources_conflict, Skills, Collected, collect, collect_items,
}
use mc_ai_bt.Validator.Checks.{
  Report, fine, say, say_if, also, NodeKind, kind_of, Found, known, unknown, raises, find, repr,
  is_missing, is_dict, is_bool, is_text, is_filled, args_report, predicate_name_report,
  predicate_report, timeout_report, own_timeout_report, attempts_report, poll_report,
  looks_like_goal_check, looks_like_visual_check, known_predicate_report, goal_check_report,
  visual_check_report, mode_report, skill_report, generic_timeout_report, GoalType, structured,
  visual, human, hybrid, goal_type_of,
}
use mc_ai_bt.Validator.Parallel.{parallel_report, child_path}

-- What the code checks of a node whose children it does not check.
unfoldable pub leaf_report : Runtime → Skills → NodeKind → String → Fields → Report
unfolding get is_filled predicate_report predicate_name_report number_or_bool number outside
    poll_report looks_like_goal_check looks_like_visual_check find among repr
leaf_report rt skills NodeKind.no_action path d =
    say_if (not (is_missing (get "reason" d) || is_text (get "reason" d)))
      (path <> ".reason must be a string")
leaf_report rt skills NodeKind.condition path d =
    also (predicate_report rt path (get "predicate" d)) (args_report path (get "args" d))
leaf_report rt skills NodeKind.wait_for_event path d =
    also (predicate_report rt path (get "predicate" d)) (
      also (args_report path (get "args" d)) (
        also
          (say_if (outside zero_float (of_ℕ 1800) (number (get "timeout_sec" d)))
            (path <> ".timeout_sec must be in (0, 1800]"))
          (poll_report path (get "poll_interval_sec" d))))
leaf_report rt skills NodeKind.action path d =
    also (skill_report skills path (get "skill" d)) (args_report path (get "args" d))
leaf_report rt skills NodeKind.wait path d =
    say_if (outside zero_float (of_ℕ 300) (number_or_bool (get "duration_sec" d)))
      (path <> ".duration_sec must be in (0, 300]")
leaf_report rt skills NodeKind.goal_check path d = goal_check_report rt path (get "check" d)
leaf_report rt skills NodeKind.visual_check path d =
    also (visual_check_report path (get "check" d)) (mode_report path (get "mode" d))
leaf_report rt skills k path d = fine

-- The report on a child, which must not be null.
abbrev pub required_child : String → Value → Report → Report
required_child path null report = say (path <> ".child is required")
required_child path v report = report

-- The branches of `_validate_node` on the type, given what the checks of the node's `children` and of
-- its `child` append.
unfoldable pub node_report :
    Runtime → Skills → NodeKind → String → Fields → Report → Report → Report
unfolding get also parallel_report attempts_report own_timeout_report leaf_report
node_report rt skills NodeKind.sequence path d children child = children
node_report rt skills NodeKind.fallback path d children child = children
node_report rt skills NodeKind.parallel path d children child =
    also children (parallel_report rt skills path (get "children" d) d)
node_report rt skills NodeKind.retry path d children child =
    also (attempts_report path (get "max_attempts" d)) child
node_report rt skills NodeKind.timeout path d children child =
    also (own_timeout_report path (get "timeout_sec" d)) child
node_report rt skills kind path d children child = leaf_report rt skills kind path d

module _ (rt : Runtime) (skills : Skills) where
  unfoldable mutual
    unfolding get find kind_of repr timeout_report node_report also

    -- `_validate_node`
    pub validate_node : String → Value → Report
    validate_node path (dict d) = elim (find kind_of (get "type" d)) [
      | known kind ↦
          also (generic_timeout_report kind path d)
            (node_report rt skills kind path d (validate_children path d) (validate_child path d))
      | unknown ↦ say (path <> ".type is not allowed: " <> repr rt (get "type" d))
      | raises ↦ none
    ]
    validate_node path v = say (path <> " must be an object")

    -- The check of the value under `children`.
    pub validate_children : String → Fields → Report
    validate_children path end = say (path <> ".children must be a non-empty list")
    validate_children path (field k v rest) =
        if k == "children" then validate_list path v else validate_children path rest

    pub validate_list : String → Value → Report
    validate_list path (list (cons x xs)) = validate_items path 0 (cons x xs)
    validate_list path v = say (path <> ".children must be a non-empty list")

    -- The loop over the children.
    pub validate_items : String → ℕ → Items → Report
    validate_items path i nil = fine
    validate_items path i (cons v rest) =
        also (validate_node (child_path rt path i) v) (validate_items path (suc i) rest)

    -- The check of the value under `child`.
    pub validate_child : String → Fields → Report
    validate_child path end = say (path <> ".child is required")
    validate_child path (field k v rest) =
        if k == "child"
        then required_child path v (validate_node (path <> ".child") v)
        else validate_child path rest

-- The check of `verification`: an object that is not empty.
unfoldable pub verification_report : Option Value → Report
verification_report (some (dict (field k v rest))) = fine
verification_report v = say "goal_spec.verification must be a non-empty object"

abbrev structured_report : Runtime → Option Value → Report
structured_report rt none = say "structured goal_spec requires predicate"
structured_report rt predicate = known_predicate_report rt "goal_spec.predicate" predicate

abbrev visual_report : Option Value → Report
visual_report none = say "visual goal_spec requires query"
visual_report query = fine

-- `_validate_goal_spec`
unfoldable pub validate_goal_spec : Runtime → Value → Report
unfolding get find repr verification_report known_predicate_report
validate_goal_spec rt (dict d) =
    let verified = verification_report (get "verification" d) in
    elim (find goal_type_of (get "type" d)) [
      | known structured ↦ also verified (structured_report rt (get "predicate" d))
      | known visual ↦ also verified (visual_report (get "query" d))
      | known _ ↦ verified
      | unknown ↦ also (say ("goal_spec.type is not allowed: " <> repr rt (get "type" d))) verified
      | raises ↦ none
    ]
validate_goal_spec rt v = say "goal_spec must be an object"

abbrev pub root_report : Runtime → Skills → Option Value → Report
root_report rt skills none = say "plan.root is required"
root_report rt skills (some null) = say "plan.root is required"
root_report rt skills (some root) = validate_node rt skills "root" root

abbrev goal_report : Runtime → Option Value → Report
goal_report rt none = say "plan.goal_spec is required"
goal_report rt (some null) = say "plan.goal_spec is required"
goal_report rt (some spec) = validate_goal_spec rt spec

-- `validate`: the plan is accepted if the report is empty.
unfoldable pub validate : Runtime → Skills → Value → Report
unfolding get validate_node validate_goal_spec also
validate rt skills (dict plan) =
    also (root_report rt skills (get "root" plan)) (goal_report rt (get "goal_spec" plan))
validate rt skills v = say "plan must be an object"
