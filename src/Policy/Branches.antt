-- ===== src/Policy/Branches.antt =====
-- The Fallback branches of a plan that mc_ai_bt/policy_guard.py accepts.
use mc_ai_bt.Common.{
  ℕ, suc, String, true, false, Option, none, some, List, [], ◌≡◌, refl, sym, ap, ◌∙◌, ◌⊎◌, inl, inr,
  Bool-cases, ◌==◌, eq_iff,
}
use mc_ai_bt.Common.Sort.{some_eq}
use mc_ai_bt.Json.{
  Value, null, bool, int, float, str, list, dict, Items, nil, cons, Fields, end, field, get,
  Runtime,
}
use mc_ai_bt.Json.Builtins.{Builtins}
use mc_ai_bt.Goal.Registry.{spec_of}
use mc_ai_bt.Validator.Checks.{fine, NodeKind, find, kind_of, known}
use mc_ai_bt.Validator.Accepted.{
  append-nil, also-fine, In, at_head, in_tail, has_children, has_child, IsNode, Within, itself,
  below_list, below_child,
}
use mc_ai_bt.Skill.{SkillSpec}
use mc_ai_bt.Policy.Limits.{PolicyLimits}
use mc_ai_bt.Policy.Gates.{
  Search, offender, clear, raises, is_text, is_marked, predicate_of, find_never_resolves_false,
  search_children, search_list, search_items, search_child, search_condition, branch_report,
  gates_of_items, check_fallback_branch_gates, or_else,
}
use mc_ai_bt.Policy.Totals.{FloatSums, Stats, count_node}
use mc_ai_bt.Policy.{check, visit_node, visited, walk_children}
use mc_ai_bt.Policy.Visits.{and_then-some, visited-fine}
use mc_ai_bt.Policy.Passed.{IsPassed, node_walk}
use mc_ai_bt.Policy.Bounded.{root-IsPassed}

or_else-clear : (a b : Search) → or_else a b ≡ clear → (a ≡ clear) × (b ≡ clear)
or_else-clear clear b e = (refl, e)
or_else-clear (offender p) b e = absurd (cc)
or_else-clear raises b e = absurd (cc)

is_text-some : (text : String) (v : Option Value) → is_text text v ≡ true → v ≡ some (str text)
is_text-some text none e = absurd (cc)
is_text-some text (some (str s)) e = ap (λ x. some (str x)) ((eq_iff s text).0 e)
is_text-some text (some null) e = absurd (cc)
is_text-some text (some (bool b)) e = absurd (cc)
is_text-some text (some (int n)) e = absurd (cc)
is_text-some text (some (float x)) e = absurd (cc)
is_text-some text (some (list xs)) e = absurd (cc)
is_text-some text (some (dict d)) e = absurd (cc)

known_eq : (a b : NodeKind) → known a ≡ known b → a ≡ b
known_eq a b e = cc

fallback_kind : find kind_of (some (str "Fallback")) ≡ known NodeKind.fallback
unfolding find kind_of
fallback_kind = refl

-- A node of another kind is no Condition.
other_kind :
    (d : Fields) (kind : NodeKind)
    → IsNode kind d
    → (has_children kind ≡ true) ⊎ (has_child kind ≡ true)
    → is_text "Condition" (get "type" d) ≡ false
unfolding find kind_of
other_kind d kind is has = elim (Bool-cases (is_text "Condition" (get "type" d))) [
  | inr isnt ↦ isnt
  | inl condition ↦
      let at_type = is_text-some "Condition" (get "type" d) condition in
      let same = known_eq _ _ (sym (ap (find kind_of) at_type) ∙ is) in
      elim has [ inl h ↦ absurd (cc) | inr h ↦ absurd (cc) ]
]

module _ (rt : Runtime) where
  search_children_of :
      (d : Fields) (v : Value) → get "children" d ≡ some v → search_children rt d ≡ search_list rt v
  unfolding search_children get
  search_children_of end v e = absurd (cc)
  search_children_of (field k u rest) v e = elim (Bool-cases (k == "children")) [
    | inl same ↦ rw same (ap (search_list rt) (some_eq (rw same at e)))
    | inr other ↦ rw other (search_children_of rest v (rw other at e))
  ]

  search_child_of :
      (d : Fields) (v : Value)
      → get "child" d ≡ some v
      → search_child rt d ≡ find_never_resolves_false rt v
  unfolding search_child get
  search_child_of end v e = absurd (cc)
  search_child_of (field k u rest) v e = elim (Bool-cases (k == "child")) [
    | inl same ↦ rw same (ap (find_never_resolves_false rt) (some_eq (rw same at e)))
    | inr other ↦ rw other (search_child_of rest v (rw other at e))
  ]

  items-clear :
      (v : Value) (xs : Items)
      → search_items rt xs ≡ clear
      → In v xs
      → find_never_resolves_false rt v ≡ clear
  unfolding search_items
  items-clear v nil e p = elim p [ ]
  items-clear v (cons _ xs) e at_head = (or_else-clear _ _ e).0
  items-clear v (cons _ xs) e (in_tail p) = items-clear v xs (or_else-clear _ _ e).1 p

  -- The two searches below a node that is no Condition.
  below-clear :
      (d : Fields)
      → is_text "Condition" (get "type" d) ≡ false
      → find_never_resolves_false rt (dict d) ≡ clear
      → (search_children rt d ≡ clear) × (search_child rt d ≡ clear)
  unfolding find_never_resolves_false
  below-clear d isnt e = or_else-clear _ _ (rw (find_never_resolves_false, isnt) at e)

  condition-clear :
      (c : Fields)
      → get "type" c ≡ some (str "Condition")
      → find_never_resolves_false rt (dict c) ≡ clear
      → is_marked (spec_of (predicate_of rt c)) ≡ false
  unfolding find_never_resolves_false search_condition
  condition-clear c is e = elim (Bool-cases (is_marked (spec_of (predicate_of rt c)))) [
    | inr isnt ↦ isnt
    | inl marked ↦ absurd (cc (rw (find_never_resolves_false, is, search_condition, marked) at e))
  ]

  -- A search that finds nothing has looked at every Condition of the tree.
  search_complete :
      (c : Fields) (v : Value)
      → Within (dict c) v
      → get "type" c ≡ some (str "Condition")
      → find_never_resolves_false rt v ≡ clear
      → is_marked (spec_of (predicate_of rt c)) ≡ false
  unfolding search_list
  search_complete c v itself is e = condition-clear c is e
  search_complete c (dict d) (below_list {v = u} {xs = xs} kind node many at_key member inner) is
        e =
      let (found, _) = below-clear d (other_kind d kind node (inl many)) e in
      search_complete c u inner is
        (items-clear u xs (sym (search_children_of d (list xs) at_key) ∙ found) member)
  search_complete c (dict d) (below_child {v = u} kind node one at_key inner) is e =
      let (_, found) = below-clear d (other_kind d kind node (inr one)) e in
      search_complete c u inner is (sym (search_child_of d u at_key) ∙ found)

  branch-clear : (path : String) (r : Search) → branch_report rt path r ≡ fine → r ≡ clear
  unfolding branch_report
  branch-clear path clear e = refl
  branch-clear path raises e = absurd (cc)
  branch-clear path (offender p) e = absurd (cc)

  gates-clear :
      (path : String) (i : ℕ) (v : Value) (xs : Items)
      → gates_of_items rt path i xs ≡ fine
      → In v xs
      → find_never_resolves_false rt v ≡ clear
  unfolding gates_of_items
  gates-clear path i v nil e p = elim p [ ]
  gates-clear path i v (cons _ xs) e at_head = branch-clear _ _ (also-fine _ _ e).0
  gates-clear path i v (cons _ xs) e (in_tail p) =
      gates-clear path (suc i) v xs (also-fine _ _ e).1 p

  pub gates_report-clear :
      (path : String) (o : Option Value) (v : Value) (xs : Items)
      → o ≡ some (list xs)
      → check_fallback_branch_gates rt path o ≡ fine
      → In v xs
      → find_never_resolves_false rt v ≡ clear
  unfolding check_fallback_branch_gates
  gates_report-clear path o v xs at_o e p = gates-clear path 0 v xs (rw at_o at e) p

module _ (py : Builtins) (sums : FloatSums) (limits : PolicyLimits)
    (registry : List SkillSpec) where
  fallback-fine :
      (f : Fields) (last : Stats)
      → IsPassed py sums limits registry last (dict f)
      → IsNode NodeKind.fallback f
      → (path : String) × (check_fallback_branch_gates py.rt path (get "children" f) ≡ fine)
  unfolding visit_node
  fallback-fine f last (path, m, s, t, e, keeps) is =
      let (u, a, b, first, next, joined) =
        and_then-some
          (visited (count_node m s) (check_fallback_branch_gates py.rt path (get "children" f)))
          (λ w. walk_children py sums limits registry path m f w) t []
          (node_walk py sums limits registry path m f NodeKind.fallback s t is e) in
      (path, (visited-fine _ u _ (first ∙ ap (λ x. some (u, x)) (append-nil a b joined).0)).1)

  -- In a plan that the policy guard accepts, no branch of a Fallback has, anywhere in its tree, a
  -- Condition on a predicate that the registry marks as never resolving to FALSE.
  pub no_branch_always_wins :
      (plan f c : Fields) (root branch : Value) (branches : Items)
      → check py sums limits registry (dict plan) ≡ fine
      → get "root" plan ≡ some root
      → Within (dict f) root
      → get "type" f ≡ some (str "Fallback")
      → get "children" f ≡ some (list branches)
      → In branch branches
      → Within (dict c) branch
      → get "type" c ≡ some (str "Condition")
      → is_marked (spec_of (predicate_of py.rt c)) ≡ false
  no_branch_always_wins plan f c root branch branches ok at_root inner is at_key member below is_c =
      let (t, passed, _, _) =
        root-IsPassed py sums limits registry plan root (dict f) ok at_root inner in
      let (path, gates) = fallback-fine f t passed (ap (find kind_of) is ∙ fallback_kind) in
      search_complete py.rt c branch below is_c
        (gates_report-clear py.rt path (get "children" f) branch branches at_key gates member)
