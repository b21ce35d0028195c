-- ===== src/Policy/Alignment.antt =====
-- `_check_goal_alignment` of mc_ai_bt/policy_guard.py: what the goal of a physical plan must be.
use mc_ai_bt.Common.{
  String, Bool, true, false, not, ◌==◌, ◌||◌, ◌&&◌, none, some, List, [], ◌∷◌, if◌then◌else◌,
}
use mc_ai_bt.Common.Order.{lt_text}
use mc_ai_bt.Common.Sort.{sort}
use mc_ai_bt.Common.Text.{◌<>◌}
use mc_ai_bt.Json.{Value, list, dict, Fields, get, text_or_empty}
use mc_ai_bt.Json.Builtins.{Builtins, dict_or_empty}
use mc_ai_bt.Mission.Outcome.{texts}
use mc_ai_bt.Validator.Resources.{among}
use mc_ai_bt.Validator.Checks.{Report, fine, say, say_if, repr}
use mc_ai_bt.Policy.Limits.{physical_skills, skills_for_predicate}
use mc_ai_bt.Policy.Arguments.{quoted}
use mc_ai_bt.Policy.Gates.{is_text}
use mc_ai_bt.Policy.Totals.{Counts, Stats}

unfoldable pub counted_names : Counts → List String
counted_names [] = []
counted_names ((name, n) ∷ counts) = name ∷ counted_names counts

abbrev pub is_none : List String → Bool
is_none [] = true
is_none (x ∷ xs) = false

unfoldable pub names_among : List String → List String → List String
unfolding among
names_among [] names = []
names_among (x ∷ xs) names =
    let rest = names_among xs names in if among x names then x ∷ rest else rest

-- `", ".join(names)`
abbrev joined : List String → String
joined [] = ""
joined (x ∷ []) = x
joined (x ∷ y ∷ names) = x <> ", " <> joined (y ∷ names)

-- The check of the goal's predicate against the physical skills of the plan.
unfoldable pub expected_report : Builtins → String → List String → Report
unfolding names_among repr
expected_report py predicate used =
    let expected = names_among (skills_for_predicate predicate) physical_skills in
    say_if
      (not (predicate == "")
        && not (is_none used)
        && not (is_none expected)
        && is_none (names_among expected used))
      ("goal predicate "
        <> quoted py predicate
        <> " does not match physical action (expected one of "
        <> joined expected
        <> ")")

-- The goal counts the end of the execution as success.
abbrev pub is_implicit : Builtins → Fields → Fields → Bool
is_implicit py goal verification =
    is_text "human" (get "type" goal)
    || text_or_empty py.rt (get "mode" verification) == "implicit_conversation"

abbrev pub alignment_report : Builtins → Fields → Fields → List String → Report
alignment_report py goal verification used =
    if not (is_none used) && is_implicit py goal verification
    then say (
        "goal_spec uses implicit/human success verification but the plan contains physical skill(s) "
        <> py.rt.show (list (texts (sort lt_text used)))
        <> " -- a physical mission must declare a structured goal_spec.predicate, not rely on "
        <> "'execution did not error' as its success criterion")
    else expected_report py (text_or_empty py.rt (get "predicate" goal)) used

-- `_check_goal_alignment`
unfoldable pub check_goal_alignment : Builtins → Value → Stats → Report
unfolding dict_or_empty get text_or_empty counted_names expected_report sort
check_goal_alignment py (dict goal) s = elim (dict_or_empty (get "verification" goal)) [
  | none ↦ none
  | some verification ↦
      alignment_report py goal verification (counted_names s.physical_skill_counts)
]
check_goal_alignment py v s = fine
