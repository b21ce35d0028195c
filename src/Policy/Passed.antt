-- ===== src/Policy/Passed.antt =====
-- The nodes of a plan that mc_ai_bt/policy_guard.py accepts.
use mc_ai_bt.Common.{
  ℕ, suc, String, true, some, List, [], ◌++◌, ◌≡◌, sym, ap, ◌∙◌, inl, inr, Bool-cases, ◌==◌,
}
use mc_ai_bt.Common.Int.{ℤ}
use mc_ai_bt.Common.Text.{◌<>◌}
use mc_ai_bt.Common.Sort.{some_eq}
use mc_ai_bt.Json.{Value, list, dict, Items, nil, cons, Fields, end, field, get}
use mc_ai_bt.Json.Builtins.{Builtins}
use mc_ai_bt.Validator.Checks.{NodeKind}
use mc_ai_bt.Validator.Accepted.{
  append-nil, In, at_head, in_tail, has_children, has_child, IsNode, Within, itself, below_list,
  below_child,
}
use mc_ai_bt.Validator.Parallel.{child_path}
use mc_ai_bt.Skill.{SkillSpec}
use mc_ai_bt.Policy.Limits.{PolicyLimits}
use mc_ai_bt.Policy.Totals.{FloatSums, Stats, count_node}
use mc_ai_bt.Policy.{Visit, visit_node, walk, walk_children, walk_list, walk_items, walk_child}
use mc_ai_bt.Policy.Visits.{and_then-some}
use mc_ai_bt.Policy.Physical.{IsPhysical, items-KeepsPhysical}

module _ (py : Builtins) (sums : FloatSums) (limits : PolicyLimits)
    (registry : List SkillSpec) where
  -- Walked without an error at some point of a walk that ends with these counts.
  abbrev pub IsPassed : Stats → Value → Type 0
  IsPassed last w =
      (path : String) × (m : ℤ) × (s : Stats) × (t : Stats) × (walk py sums limits registry path m w
          s
        ≡ some (t, []))
      × (IsPhysical t → IsPhysical last)

  pub node_walk :
      (path : String) (m : ℤ) (d : Fields) (kind : NodeKind) (s t : Stats)
      → IsNode kind d
      → walk py sums limits registry path m (dict d) s ≡ some (t, [])
      → visit_node py sums limits registry kind path m d
          (λ u. walk_children py sums limits registry path m d u)
          (λ k u. walk_child py sums limits registry path k d u)
          (count_node m s)
        ≡ some (t, [])
  unfolding walk
  node_walk path m d kind s t is e = rw (walk, is) at e

  children_of :
      (path : String) (m : ℤ) (d : Fields) (v : Value) (s : Stats)
      → get "children" d ≡ some v
      → walk_children py sums limits registry path m d s
        ≡ walk_list py sums limits registry path m v s
  unfolding walk_children get
  children_of path m end v s e = absurd (cc)
  children_of path m (field k u rest) v s e = elim (Bool-cases (k == "children")) [
    | inl same ↦
        rw same (ap (λ w. walk_list py sums limits registry path m w s) (some_eq (rw same at e)))
    | inr other ↦ rw other (children_of path m rest v s (rw other at e))
  ]

  child_of :
      (path : String) (m : ℤ) (d : Fields) (v : Value) (s : Stats)
      → get "child" d ≡ some v
      → walk_child py sums limits registry path m d s
        ≡ walk py sums limits registry (path <> ".child") m v s
  unfolding walk_child get
  child_of path m end v s e = absurd (cc)
  child_of path m (field k u rest) v s e = elim (Bool-cases (k == "child")) [
    | inl same ↦
        rw same
          (ap (λ w. walk py sums limits registry (path <> ".child") m w s) (some_eq (rw same at e)))
    | inr other ↦ rw other (child_of path m rest v s (rw other at e))
  ]

  node-children :
      (kind : NodeKind) (path : String) (m : ℤ) (d : Fields) (children : Stats → Visit)
      (child : ℤ → Stats → Visit) (s t : Stats)
      → has_children kind ≡ true
      → visit_node py sums limits registry kind path m d children child s ≡ some (t, [])
      → (u : Stats) × (children u ≡ some (t, []))
  unfolding visit_node
  node-children NodeKind.sequence path m d children child s t h e = (s, e)
  node-children NodeKind.parallel path m d children child s t h e = (s, e)
  node-children NodeKind.fallback path m d children child s t h e =
      let (u, a, b, first, next, joined) = and_then-some _ children t [] e in
      (u, next ∙ ap (λ x. some (t, x)) (append-nil a b joined).1)
  node-children NodeKind.condition path m d children child s t h e = absurd (cc)
  node-children NodeKind.action path m d children child s t h e = absurd (cc)
  node-children NodeKind.goal_check path m d children child s t h e = absurd (cc)
  node-children NodeKind.visual_check path m d children child s t h e = absurd (cc)
  node-children NodeKind.wait path m d children child s t h e = absurd (cc)
  node-children NodeKind.retry path m d children child s t h e = absurd (cc)
  node-children NodeKind.timeout path m d children child s t h e = absurd (cc)
  node-children NodeKind.no_action path m d children child s t h e = absurd (cc)
  node-children NodeKind.wait_for_event path m d children child s t h e = absurd (cc)

  node-child :
      (kind : NodeKind) (path : String) (m : ℤ) (d : Fields) (children : Stats → Visit)
      (child : ℤ → Stats → Visit) (s t : Stats)
      → has_child kind ≡ true
      → visit_node py sums limits registry kind path m d children child s ≡ some (t, [])
      → (k : ℤ) × (u : Stats) × (child k u ≡ some (t, []))
  unfolding visit_node
  node-child NodeKind.retry path m d children child s t h e = (_, _, e)
  node-child NodeKind.timeout path m d children child s t h e = (m, s, e)
  node-child NodeKind.sequence path m d children child s t h e = absurd (cc)
  node-child NodeKind.fallback path m d children child s t h e = absurd (cc)
  node-child NodeKind.parallel path m d children child s t h e = absurd (cc)
  node-child NodeKind.condition path m d children child s t h e = absurd (cc)
  node-child NodeKind.action path m d children child s t h e = absurd (cc)
  node-child NodeKind.goal_check path m d children child s t h e = absurd (cc)
  node-child NodeKind.visual_check path m d children child s t h e = absurd (cc)
  node-child NodeKind.wait path m d children child s t h e = absurd (cc)
  node-child NodeKind.no_action path m d children child s t h e = absurd (cc)
  node-child NodeKind.wait_for_event path m d children child s t h e = absurd (cc)

  -- The walk of the first child, and that of the rest.
  cons_parts :
      (path : String) (m : ℤ) (i : ℕ) (v : Value) (xs : Items) (s t : Stats)
      → walk_items py sums limits registry path m i (cons v xs) s ≡ some (t, [])
      → (u : Stats) × (a : List String) × (b : List String) × (walk py sums limits registry
            (child_path py.rt path i)
            m
            v
            s
          ≡ some (u, a))
        × (walk_items py sums limits registry path m (suc i) xs u ≡ some (t, b))
        × (a ++ b ≡ [])
  unfolding walk_items
  cons_parts path m i v xs s t e =
      and_then-some (walk py sums limits registry (child_path py.rt path i) m v s)
        (λ u. walk_items py sums limits registry path m (suc i) xs u) t [] e

  items-IsPassed :
      (path : String) (m : ℤ) (i : ℕ) (v : Value) (xs : Items) (s t : Stats)
      → walk_items py sums limits registry path m i xs s ≡ some (t, [])
      → In v xs
      → IsPassed t v
  items-IsPassed path m i v nil s t e p = elim p [ ]
  items-IsPassed path m i v (cons _ xs) s t e at_head =
      let (u, a, b, first, next, joined) = cons_parts path m i v xs s t e in
      (
        _,
        m,
        s,
        u,
        first ∙ ap (λ x. some (u, x)) (append-nil a b joined).0,
        items-KeepsPhysical py sums limits registry path m (suc i) xs u t b next,
      )
  items-IsPassed path m i v (cons w xs) s t e (in_tail p) =
      let (u, a, b, first, next, joined) = cons_parts path m i w xs s t e in
      items-IsPassed path m (suc i) v xs u t
        (next ∙ ap (λ x. some (t, x)) (append-nil a b joined).1) p

  list-IsPassed :
      (path : String) (m : ℤ) (v : Value) (xs : Items) (s t : Stats)
      → walk_list py sums limits registry path m (list xs) s ≡ some (t, [])
      → In v xs
      → IsPassed t v
  unfolding walk_list
  list-IsPassed path m v xs s t e p = items-IsPassed path m 0 v xs s t e p

  -- Every node of a tree that is passed is passed.
  pub IsPassed-Within :
      (w v : Value) (last : Stats) → IsPassed last v → Within w v → IsPassed last w
  IsPassed-Within w v last ok itself = ok
  IsPassed-Within w (dict d) last (path, m, s, t, e, keeps)
        (below_list {v = u} {xs = xs} kind is many at_key member inner) =
      let (s2, walked) =
        node-children kind path m d _ _ _ t many (node_walk path m d kind s t is e) in
      let (path2, m2, s3, t3, e3, keeps3) =
        list-IsPassed path m u xs s2 t (sym (children_of path m d (list xs) s2 at_key) ∙ walked)
          member in
      IsPassed-Within w u last (path2, m2, s3, t3, e3, λ p. keeps (keeps3 p)) inner
  IsPassed-Within w (dict d) last (path, m, s, t, e, keeps)
        (below_child {v = u} kind is one at_key inner) =
      let (k, s2, walked) =
        node-child kind path m d _ _ _ t one (node_walk path m d kind s t is e) in
      IsPassed-Within w u last (_, k, s2, t, sym (child_of path k d u s2 at_key) ∙ walked, keeps)
        inner
