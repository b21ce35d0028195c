-- ===== src/Validator/Parallel.antt =====
-- _validate_parallel_resource_conflicts of mc_ai_bt/validator.py: the conflicts of the branches of a
-- Parallel node, and how they are reported.
use mc_ai_bt.Common.{
  ℕ, suc, String, not, ◌||◌, ◌==◌, Option, none, some, List, [], ◌∷◌, ◌++◌, if◌then◌else◌,
}
use mc_ai_bt.Common.Int.{pos}
use mc_ai_bt.Common.Text.{◌<>◌}
use mc_ai_bt.Common.Order.{lt_text}
use mc_ai_bt.Common.Sort.{sort}
use mc_ai_bt.Json.{Value, int, list, Items, nil, cons, Fields, get, Runtime}
use mc_ai_bt.Mission.Outcome.{texts}
use mc_ai_bt.Validator.Resources.{among, resources_conflict, Skills, collect}
use mc_ai_bt.Validator.Checks.{Report, fine, say_if, also, is_missing, is_bool}

-- The name of a conflict, as it is reported.
abbrev conflict_name : String → String → String
conflict_name left right = if left == right then left else left <> "~" <> right

unfoldable pub conflicts_of : String → List String → List String
unfolding resources_conflict
conflicts_of left [] = []
conflicts_of left (right ∷ rights) =
    let rest = conflicts_of left rights in
    if resources_conflict left right then conflict_name left right ∷ rest else rest

-- The conflicts of two branches, in the order of the loops.
unfoldable pub conflicts : List String → List String → List String
unfolding conflicts_of
conflicts [] rights = []
conflicts (left ∷ lefts) rights = conflicts_of left rights ++ conflicts lefts rights

-- A set of texts as a list.
unfoldable pub distinct : List String → List String
unfolding among
distinct [] = []
distinct (a ∷ rest) = let others = distinct rest in if among a others then others else a ∷ others

abbrev pub child_path : Runtime → String → ℕ → String
child_path rt path i = path <> ".children[" <> rt.show (int (pos i)) <> "]"

abbrev conflict_message : Runtime → String → ℕ → ℕ → List String → String
conflict_message rt path i j found =
    child_path rt path i
    <> " and "
    <> child_path rt path j
    <> " have conflicting resources: "
    <> rt.show (list (texts (sort lt_text (distinct found))))

abbrev pub conflict_error : Runtime → String → ℕ → ℕ → List String → List String
conflict_error rt path i j [] = []
conflict_error rt path i j (c ∷ found) = conflict_message rt path i j (c ∷ found) ∷ []

-- The inner loop: branch `i` against branch `j` and those behind it.
unfoldable pub conflicts_right :
    Runtime → String → ℕ → List String → ℕ → List (List String) → List String
unfolding conflicts distinct sort texts
conflicts_right rt path i left j [] = []
conflicts_right rt path i left j (right ∷ rest) =
    conflict_error rt path i j (conflicts left right) ++ conflicts_right rt path i left (suc j) rest

-- The outer loop.
unfoldable pub conflicts_left : Runtime → String → ℕ → List (List String) → List String
unfolding conflicts_right
conflicts_left rt path i [] = []
conflicts_left rt path i (left ∷ rest) =
    conflicts_right rt path i left (suc i) rest ++ conflicts_left rt path (suc i) rest

abbrev pub consed : Option (List String) → Option (List (List String)) → Option (List (List String))
consed (some a) (some b) = some (a ∷ b)
consed a b = none

-- The resources of each branch, or `none` where the code raises.
unfoldable pub branch_resources : Skills → Items → Option (List (List String))
unfolding collect
branch_resources skills nil = some []
branch_resources skills (cons v rest) = consed (collect skills v) (branch_resources skills rest)

abbrev pub conflict_report : Runtime → String → Option (List (List String)) → Report
conflict_report rt path none = none
conflict_report rt path (some branches) = some (conflicts_left rt path 0 branches)

-- `_validate_parallel_resource_conflicts`
unfoldable pub validate_parallel_resource_conflicts : Runtime → Skills → String → Items → Report
unfolding branch_resources conflicts_left
validate_parallel_resource_conflicts rt skills path xs =
    conflict_report rt path (branch_resources skills xs)

-- What Parallel checks after its children, where these are a list that is not empty.
unfoldable pub parallel_report : Runtime → Skills → String → Option Value → Fields → Report
unfolding get validate_parallel_resource_conflicts
parallel_report rt skills path (some (list (cons x xs))) d =
    also
      (say_if (not (is_missing (get "cancel_on_failure" d) || is_bool (get "cancel_on_failure" d)))
        (path <> ".cancel_on_failure must be boolean"))
      (validate_parallel_resource_conflicts rt skills path (cons x xs))
parallel_report rt skills path v d = fine
