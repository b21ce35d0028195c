-- ===== src/Policy/Gates.antt =====
-- `_find_never_resolves_false_condition` and `_check_fallback_branch_gates` of
-- mc_ai_bt/policy_guard.py: the branches of a Fallback that could never be ruled out.
use mc_ai_bt.Common.{ℕ, suc, String, Bool, false, Option, none, some, ◌==◌, if◌then◌else◌}
use mc_ai_bt.Common.Text.{◌<>◌}
use mc_ai_bt.Json.{
  Value, str, list, dict, Items, nil, cons, Fields, end, field, get, Runtime, truthy, text_or_empty,
}
use mc_ai_bt.Goal.Registry.{PredicateSpec, spec_of}
use mc_ai_bt.Validator.Checks.{Report, fine, say, also, repr}
use mc_ai_bt.Validator.Parallel.{child_path}

-- What a search finds: the predicate of a condition, nothing, or a TypeError.
pub data Search : Type 0 where
  offender : String → Search
  clear raises : Search

-- The second search is made where the first finds nothing.
abbrev pub or_else : Search → Search → Search
or_else clear s = s
or_else r s = r

-- `value == text`
abbrev pub is_text : String → Option Value → Bool
is_text text (some (str s)) = s == text
is_text text v = false

abbrev pub is_marked : Option PredicateSpec → Bool
is_marked none = false
is_marked (some spec) = spec.never_resolves_false

-- The predicate of a node, a text of any value.
abbrev pub predicate_of : Runtime → Fields → String
predicate_of rt d = text_or_empty rt (get "predicate" d)

unfoldable pub search_condition : Runtime → Fields → Search
unfolding get text_or_empty spec_of
search_condition rt d =
    if is_marked (spec_of (predicate_of rt d)) then offender (predicate_of rt d) else clear

-- A loop over what is neither a list nor an object: the characters of a text and the keys of an object
-- are no nodes, a value that counts as false is no list at all, and a number raises.
unfoldable pub loop_raises : Value → Bool
unfolding truthy
loop_raises (str s) = false
loop_raises (dict d) = false
loop_raises v = truthy v

abbrev pub search_none : Value → Search
unfolding loop_raises
search_none v = if loop_raises v then raises else clear

module _ (rt : Runtime) where
  unfoldable mutual
    unfolding get search_condition search_none

    -- `_find_never_resolves_false_condition`
    pub find_never_resolves_false : Value → Search
    find_never_resolves_false (dict d) =
        if is_text "Condition" (get "type" d)
        then search_condition rt d
        else or_else (search_children d) (search_child d)
    find_never_resolves_false v = clear

    -- The search below `children`.
    pub search_children : Fields → Search
    search_children end = clear
    search_children (field k v rest) =
        if k == "children" then search_list v else search_children rest

    pub search_list : Value → Search
    search_list (list xs) = search_items xs
    search_list v = search_none v

    pub search_items : Items → Search
    search_items nil = clear
    search_items (cons v rest) = or_else (find_never_resolves_false v) (search_items rest)

    -- The search below `child`.
    pub search_child : Fields → Search
    search_child end = clear
    search_child (field k v rest) =
        if k == "child" then find_never_resolves_false v else search_child rest

-- The error about one branch.
unfoldable pub branch_report : Runtime → String → Search → Report
unfolding repr
branch_report rt path clear = fine
branch_report rt path raises = none
branch_report rt path (offender predicate) = say (
    path
    <> " is a Fallback branch gated by a Condition using predicate "
    <> repr rt (some (str predicate))
    <> ", which never resolves FALSE -- this branch would always win regardless of the real,"
    <> " distinct outcome this Fallback exists to distinguish")

unfoldable pub gates_of_items : Runtime → String → ℕ → Items → Report
unfolding also branch_report find_never_resolves_false
gates_of_items rt path i nil = fine
gates_of_items rt path i (cons v rest) =
    also (branch_report rt (child_path rt path i) (find_never_resolves_false rt v))
      (gates_of_items rt path (suc i) rest)

-- `_check_fallback_branch_gates`
unfoldable pub check_fallback_branch_gates : Runtime → String → Option Value → Report
unfolding gates_of_items loop_raises
check_fallback_branch_gates rt path none = fine
check_fallback_branch_gates rt path (some (list xs)) = gates_of_items rt path 0 xs
check_fallback_branch_gates rt path (some v) = if loop_raises v then none else fine
