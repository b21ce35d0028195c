-- ===== src/Policy.antt =====
-- mc_ai_bt/policy_guard.py: is a plan that the validator accepts bounded enough to run on the robot
-- now? Limits has the limits and the sets of skills, Numbers and Arguments the checks of arguments,
-- Actions their choice, Gates the search of Fallback branches, Totals
-- the counts and Alignment the check of the goal; the other children
-- say what an accepted plan guarantees.
pub mod Limits
pub mod Numbers
pub mod Arguments
pub mod Gates
pub mod Totals
pub mod Alignment
pub mod Visits
pub mod Physical
pub mod Passed
pub mod Bounded
pub mod Branches
mod Tests
pub mod Actions
use mc_ai_bt.Common.{
  ℕ, suc, String, Bool, true, false, not, ◌==◌, ◌||◌, ◌&&◌, Option, none, some, List, [], ◌∷◌, ◌++◌,
  if◌then◌else◌,
}
use mc_ai_bt.Common.Int.{ℤ, pos, ◌*ℤ◌}
use mc_ai_bt.Common.Float.{Float, zero_float, ltb_float, leb_float}
use mc_ai_bt.Common.Order.{lt_text}
use mc_ai_bt.Common.Sort.{sort}
use mc_ai_bt.Common.Text.{◌<>◌, starts_with, contains}
use mc_ai_bt.Json.{
  Value, null, bool, int, float, str, list, dict, Items, nil, cons, Fields, end, field, get,
  Runtime, truthy, text_or_empty,
}
use mc_ai_bt.Json.Builtins.{Builtins, get_or_null, dict_or_empty, if_dict}
use mc_ai_bt.Json.Number.{number_or_bool, within}
use mc_ai_bt.Mission.Outcome.{texts}
use mc_ai_bt.Validator.Resources.{among}
use mc_ai_bt.Validator.Parallel.{child_path}
use mc_ai_bt.Validator.Checks.{
  Report, fine, say, say_if, also, NodeKind, kind_of, Found, known, unknown, raises, find, repr,
}
use mc_ai_bt.Skill.{SkillSpec}
use mc_ai_bt.Policy.Limits.{
  PolicyLimits, physical_skills, skills_for_predicate, allowed_top_level_keys,
}
use mc_ai_bt.Policy.Numbers.{all_of}
use mc_ai_bt.Policy.Arguments.{quoted}
use mc_ai_bt.Policy.Arguments.Pointing.{unknown_keys_report}
use mc_ai_bt.Policy.Gates.{check_fallback_branch_gates, is_text, loop_raises}
use mc_ai_bt.Policy.Totals.{
  FloatSums, Counts, Stats, fresh_stats, count_node, count_condition, count_visual_check,
  count_retry, count_wait, count_action, check_totals,
}
use mc_ai_bt.Policy.Actions.{check_action}
use mc_ai_bt.Policy.Alignment.{check_goal_alignment}

-- The counts after a part of the walk and the errors that it appends, or `none` where it raises.
abbrev pub Visit : Type 0
Visit = Option (Stats × List String)

abbrev pub visited : Stats → Report → Visit
visited s none = none
visited s (some errors) = some (s, errors)

-- Errors in front of those of a later part.
abbrev pub after : List String → Visit → Visit
after errors none = none
after errors (some (s, more)) = some (s, errors ++ more)

unfoldable pub and_then : Visit → (Stats → Visit) → Visit
and_then none next = none
and_then (some (s, errors)) next = after errors (next s)

-- `predicate.startswith("__") or "." in predicate`
abbrev is_unsafe : String → Bool
is_unsafe predicate = starts_with "__" predicate || contains "." predicate

unfoldable pub safe_report : Runtime → String → Option Value → Report
unfolding text_or_empty starts_with contains repr
safe_report rt path v =
    let predicate = text_or_empty rt v in
    say_if (is_unsafe predicate)
      (path <> "predicate is not policy-safe: " <> repr rt (some (str predicate)))

-- `int(node.get("max_attempts", 1) or 1)`, and 1 where this raises a TypeError or a ValueError.
unfoldable pub attempts : Builtins → Option Value → ℤ
unfolding truthy
attempts py none = pos 1
attempts py (some v) = if truthy v then elim (py.to_int v) [ none ↦ pos 1 | some n ↦ n ] else pos 1

-- `float(node.get("duration_sec", 0.0) or 0.0)`, which may raise.
unfoldable pub duration : Builtins → Option Value → Option Float
unfolding truthy
duration py none = some zero_float
duration py (some v) = if truthy v then py.to_float v else some zero_float

module _ (py : Builtins) (limits : PolicyLimits) where
  abbrev poll_interval : Option Value → Option Float
  poll_interval none = some limits.min_wait_for_event_poll_sec
  poll_interval v = number_or_bool v

  -- `0 < timeout_sec <= limit`
  abbrev is_timeout : Option Float → Bool
  is_timeout none = false
  is_timeout (some t) = ltb_float zero_float t && leb_float t limits.max_wait_for_event_timeout_sec

  -- The checks of WaitForEvent.
  unfoldable pub event_report : String → Fields → Report
  unfolding all_of safe_report get within number_or_bool
  event_report path d = all_of (
      safe_report py.rt (path <> ".") (get "predicate" d)
      ∷ say_if
          (not (
            within limits.min_wait_for_event_poll_sec limits.max_wait_for_event_poll_sec
              (poll_interval (get "poll_interval_sec" d))))
          (path
            <> ".poll_interval_sec must be in ["
            <> py.format limits.min_wait_for_event_poll_sec
            <> ", "
            <> py.format limits.max_wait_for_event_poll_sec
            <> "]")
      ∷ say_if (not (is_timeout (number_or_bool (get "timeout_sec" d)))) (
          path
          <> ".timeout_sec must be in (0, "
          <> py.format limits.max_wait_for_event_timeout_sec
          <> "]")
      ∷ [])

-- The predicate of the object under `check`.
unfoldable pub check_predicate_report : Runtime → String → Fields → Report
unfolding safe_report get
check_predicate_report rt path d =
    safe_report rt (path <> ".check.") (get "predicate" (if_dict (get "check" d)))

module _ (py : Builtins) (sums : FloatSums) (limits : PolicyLimits)
    (registry : List SkillSpec) where
  -- The branches of `_walk` for the nodes without children.
  unfoldable pub visit_leaf : NodeKind → String → ℤ → Fields → Stats → Visit
  unfolding get duration safe_report check_predicate_report event_report count_action check_action
      text_or_empty
  visit_leaf NodeKind.wait path m d s = elim (duration py (get "duration_sec" d)) [
    | none ↦ none
    | some x ↦ visited (count_wait sums x m s) fine
  ]
  visit_leaf NodeKind.action path m d s =
      visited (count_action (text_or_empty py.rt (get "skill" d)) m s)
        (check_action py limits registry path d)
  visit_leaf NodeKind.condition path m d s =
      visited (count_condition m s) (safe_report py.rt (path <> ".") (get "predicate" d))
  visit_leaf NodeKind.goal_check path m d s = visited s (check_predicate_report py.rt path d)
  visit_leaf NodeKind.wait_for_event path m d s =
      visited (count_condition m s) (event_report py limits path d)
  visit_leaf NodeKind.visual_check path m d s =
      visited (count_visual_check m s) (check_predicate_report py.rt path d)
  visit_leaf kind path m d s = visited s fine

  -- The branches of `_walk` on the type, given the walk of the `children` and the walk of the `child` for
  -- a multiplier.
  unfoldable pub visit_node :
      NodeKind → String → ℤ → Fields → (Stats → Visit) → (ℤ → Stats → Visit) → Stats → Visit
  unfolding and_then check_fallback_branch_gates get attempts visit_leaf
  visit_node NodeKind.sequence path m d children child s = children s
  visit_node NodeKind.fallback path m d children child s =
      and_then (visited s (check_fallback_branch_gates py.rt path (get "children" d))) children
  visit_node NodeKind.parallel path m d children child s = children s
  visit_node NodeKind.retry path m d children child s =
      let n = attempts py (get "max_attempts" d) in child (m *ℤ n) (count_retry n s)
  visit_node NodeKind.timeout path m d children child s = child m s
  visit_node kind path m d children child s = visit_leaf kind path m d s

  unfoldable mutual
    unfolding get find kind_of visit_node and_then loop_raises

    -- `_walk`
    pub walk : String → ℤ → Value → Stats → Visit
    walk path m (dict d) s = elim (find kind_of (get "type" d)) [
      | known kind ↦
          visit_node kind path m d (λ t. walk_children path m d t) (λ k t. walk_child path k d t)
            (count_node m s)
      | unknown ↦ visited (count_node m s) fine
      | raises ↦ none
    ]
    walk path m v s = visited s fine

    -- The walk of the value under `children`.
    pub walk_children : String → ℤ → Fields → Stats → Visit
    walk_children path m end s = visited s fine
    walk_children path m (field k v rest) s =
        if k == "children" then walk_list path m v s else walk_children path m rest s

    pub walk_list : String → ℤ → Value → Stats → Visit
    walk_list path m (list xs) s = walk_items path m 0 xs s
    walk_list path m v s = if loop_raises v then none else visited s fine

    -- The loop over the children.
    pub walk_items : String → ℤ → ℕ → Items → Stats → Visit
    walk_items path m i nil s = visited s fine
    walk_items path m i (cons v rest) s =
        and_then (walk (child_path py.rt path i) m v s) (λ t. walk_items path m (suc i) rest t)

    -- The walk of the value under `child`.
    pub walk_child : String → ℤ → Fields → Stats → Visit
    walk_child path m end s = visited s fine
    walk_child path m (field k v rest) s =
        if k == "child" then walk (path <> ".child") m v s else walk_child path m rest s

-- The errors after the walk.
unfoldable pub with_totals : Builtins → PolicyLimits → Report → Value → Visit → Report
unfolding also check_totals check_goal_alignment
with_totals py limits before goal none = none
with_totals py limits before goal (some (s, errors)) =
    also before
      (also (some errors) (also (check_totals py limits s) (check_goal_alignment py goal s)))

-- `check`: the plan is accepted if the report is empty.
unfoldable pub check : Builtins → FloatSums → PolicyLimits → List SkillSpec → Value → Report
unfolding unknown_keys_report get_or_null walk with_totals
check py sums limits registry (dict plan) =
    with_totals py limits
      (unknown_keys_report py "unknown top-level keys: " allowed_top_level_keys plan)
      (get_or_null "goal_spec" plan)
      (walk py sums limits registry "root" (pos 1) (get_or_null "root" plan) fresh_stats)
check py sums limits registry v = say "plan must be an object"
