-- ===== src/Policy/Physical.antt =====
-- The walk of mc_ai_bt/policy_guard.py never forgets that it has seen a physical skill.
use mathlib.Core.Path.{subst}
use mc_ai_bt.Common.{
  ℕ, suc, String, Bool, true, false, none, some, List, [], ◌∷◌, ◌≡◌, refl, inl, inr, Bool-cases,
  ◌==◌, Option-cases, if◌then◌else◌,
}
use mc_ai_bt.Common.Int.{ℤ}
use mc_ai_bt.Common.Text.{◌<>◌}
use mc_ai_bt.Json.{
  Value, null, bool, int, float, str, list, dict, Items, nil, cons, Fields, end, field, get,
  text_or_empty,
}
use mc_ai_bt.Json.Builtins.{Builtins}
use mc_ai_bt.Validator.Resources.{among}
use mc_ai_bt.Validator.Checks.{Report, fine, NodeKind, kind_of, find}
use mc_ai_bt.Validator.Accepted.{Found-cases}
use mc_ai_bt.Skill.{SkillSpec}
use mc_ai_bt.Policy.Limits.{PolicyLimits, physical_skills}
use mc_ai_bt.Policy.Gates.{loop_raises, check_fallback_branch_gates}
use mc_ai_bt.Policy.Actions.{check_action}
use mc_ai_bt.Policy.Totals.{
  FloatSums, Counts, Stats, count_skill, count_action, count_wait, count_condition,
  count_visual_check, count_node,
}
use mc_ai_bt.Policy.Alignment.{counted_names, is_none}
use mc_ai_bt.Policy.Visits.{and_then-some, visited-same}
use mc_ai_bt.Policy.{
  Visit, visited, visit_leaf, visit_node, walk, walk_children, walk_list, walk_items, walk_child,
  duration, safe_report, check_predicate_report, event_report,
}

-- A physical skill has been counted.
abbrev pub IsPhysical : Stats → Type 0
IsPhysical s = is_none (counted_names s.physical_skill_counts) ≡ false

-- A part of the walk after which a physical skill is still counted.
abbrev pub KeepsPhysical : (Stats → Visit) → Type 0
KeepsPhysical f =
    (s t : Stats) (errors : List String) → f s ≡ some (t, errors) → IsPhysical s → IsPhysical t

visited-keeps :
    (s t : Stats) (r : Report) (errors : List String)
    → visited s r ≡ some (t, errors)
    → IsPhysical s
    → IsPhysical t
visited-keeps s t r errors e p = subst IsPhysical (visited-same s t r errors e) p

unlisted-keeps :
    (raised : Bool) (s t : Stats) (errors : List String)
    → (if raised then none else visited s fine) ≡ some (t, errors)
    → IsPhysical s
    → IsPhysical t
unlisted-keeps true s t errors e p = absurd (cc)
unlisted-keeps false s t errors e p = visited-keeps s t fine errors e p

pub count_skill-some :
    (skill : String) (n : ℤ) (counts : Counts)
    → is_none (counted_names (count_skill skill n counts)) ≡ false
unfolding counted_names count_skill
count_skill-some skill n [] = refl
count_skill-some skill n ((name, k) ∷ counts) = elim (Bool-cases (name == skill)) [
  | inl same ↦ rw same refl
  | inr other ↦ rw other refl
]

count_action-keeps :
    (skill : String) (n : ℤ) (s : Stats) → IsPhysical s → IsPhysical (count_action skill n s)
unfolding count_action
count_action-keeps skill n s p = elim (Bool-cases (among skill physical_skills)) [
  | inl is ↦ rw is (count_skill-some skill n s.physical_skill_counts)
  | inr isnt ↦ rw isnt p
]

module _ (py : Builtins) (sums : FloatSums) (limits : PolicyLimits)
    (registry : List SkillSpec) where
  leaf-KeepsPhysical :
      (kind : NodeKind) (path : String) (m : ℤ) (d : Fields)
      → KeepsPhysical (visit_leaf py sums limits registry kind path m d)
  unfolding visit_leaf
  leaf-KeepsPhysical NodeKind.wait path m d s t errors e p =
      elim (Option-cases (duration py (get "duration_sec" d))) [
        | inl raised ↦ absurd (cc (rw (visit_leaf, raised) at e))
        | inr (x, at_x) ↦
            visited-keeps (count_wait sums x m s) t fine errors (rw (visit_leaf, at_x) at e) p
      ]
  leaf-KeepsPhysical NodeKind.action path m d s t errors e p =
      visited-keeps (count_action (text_or_empty py.rt (get "skill" d)) m s) t
        (check_action py limits registry path d) errors e
        (count_action-keeps (text_or_empty py.rt (get "skill" d)) m s p)
  leaf-KeepsPhysical NodeKind.condition path m d s t errors e p =
      visited-keeps (count_condition m s) t (safe_report py.rt (path <> ".") (get "predicate" d))
        errors e p
  leaf-KeepsPhysical NodeKind.goal_check path m d s t errors e p =
      visited-keeps s t (check_predicate_report py.rt path d) errors e p
  leaf-KeepsPhysical NodeKind.wait_for_event path m d s t errors e p =
      visited-keeps (count_condition m s) t (event_report py limits path d) errors e p
  leaf-KeepsPhysical NodeKind.visual_check path m d s t errors e p =
      visited-keeps (count_visual_check m s) t (check_predicate_report py.rt path d) errors e p
  leaf-KeepsPhysical NodeKind.sequence path m d s t errors e p = visited-keeps s t fine errors e p
  leaf-KeepsPhysical NodeKind.fallback path m d s t errors e p = visited-keeps s t fine errors e p
  leaf-KeepsPhysical NodeKind.parallel path m d s t errors e p = visited-keeps s t fine errors e p
  leaf-KeepsPhysical NodeKind.retry path m d s t errors e p = visited-keeps s t fine errors e p
  leaf-KeepsPhysical NodeKind.timeout path m d s t errors e p = visited-keeps s t fine errors e p
  leaf-KeepsPhysical NodeKind.no_action path m d s t errors e p = visited-keeps s t fine errors e p

  node-KeepsPhysical :
      (kind : NodeKind) (path : String) (m : ℤ) (d : Fields) (children : Stats → Visit)
      (child : ℤ → Stats → Visit)
      → KeepsPhysical children
      → ((k : ℤ) → KeepsPhysical (child k))
      → KeepsPhysical (visit_node py sums limits registry kind path m d children child)
  unfolding visit_node
  node-KeepsPhysical NodeKind.sequence path m d children child below only s t errors e p =
      below s t errors e p
  node-KeepsPhysical NodeKind.fallback path m d children child below only s t errors e p =
      let (u, a, b, first, next, joined) = and_then-some _ children t errors e in
      below u t b next
        (visited-keeps s u (check_fallback_branch_gates py.rt path (get "children" d)) a first p)
  node-KeepsPhysical NodeKind.parallel path m d children child below only s t errors e p =
      below s t errors e p
  node-KeepsPhysical NodeKind.retry path m d children child below only s t errors e p =
      only _ _ t errors e p
  node-KeepsPhysical NodeKind.timeout path m d children child below only s t errors e p =
      only m s t errors e p
  node-KeepsPhysical NodeKind.no_action path m d children child below only s t errors e p =
      leaf-KeepsPhysical NodeKind.no_action path m d s t errors e p
  node-KeepsPhysical NodeKind.wait path m d children child below only s t errors e p =
      leaf-KeepsPhysical NodeKind.wait path m d s t errors e p
  node-KeepsPhysical NodeKind.action path m d children child below only s t errors e p =
      leaf-KeepsPhysical NodeKind.action path m d s t errors e p
  node-KeepsPhysical NodeKind.condition path m d children child below only s t errors e p =
      leaf-KeepsPhysical NodeKind.condition path m d s t errors e p
  node-KeepsPhysical NodeKind.goal_check path m d children child below only s t errors e p =
      leaf-KeepsPhysical NodeKind.goal_check path m d s t errors e p
  node-KeepsPhysical NodeKind.wait_for_event path m d children child below only s t errors e p =
      leaf-KeepsPhysical NodeKind.wait_for_event path m d s t errors e p
  node-KeepsPhysical NodeKind.visual_check path m d children child below only s t errors e p =
      leaf-KeepsPhysical NodeKind.visual_check path m d s t errors e p

  mutual
    unfolding walk walk_children walk_list walk_items walk_child

    pub walk-KeepsPhysical :
        (path : String) (m : ℤ) (v : Value) → KeepsPhysical (walk py sums limits registry path m v)
    walk-KeepsPhysical path m (dict d) s t errors e p =
        elim (Found-cases (find kind_of (get "type" d))) [
          | inl is ↦ visited-keeps (count_node m s) t fine errors (rw (walk, is) at e) p
          | inr (inl is) ↦ absurd (cc (rw (walk, is) at e))
          | inr (inr (kind, is)) ↦
              node-KeepsPhysical kind path m d _ _ (children-KeepsPhysical path m d)
                (λ k. child-KeepsPhysical path k d) _ t errors (rw (walk, is) at e) p
        ]
    walk-KeepsPhysical path m null s t errors e p = visited-keeps s t fine errors e p
    walk-KeepsPhysical path m (bool b) s t errors e p = visited-keeps s t fine errors e p
    walk-KeepsPhysical path m (int n) s t errors e p = visited-keeps s t fine errors e p
    walk-KeepsPhysical path m (float x) s t errors e p = visited-keeps s t fine errors e p
    walk-KeepsPhysical path m (str x) s t errors e p = visited-keeps s t fine errors e p
    walk-KeepsPhysical path m (list xs) s t errors e p = visited-keeps s t fine errors e p

    children-KeepsPhysical :
        (path : String) (m : ℤ) (d : Fields)
        → KeepsPhysical (walk_children py sums limits registry path m d)
    children-KeepsPhysical path m end s t errors e p = visited-keeps s t fine errors e p
    children-KeepsPhysical path m (field k v rest) s t errors e p =
        elim (Bool-cases (k == "children")) [
          | inl same ↦ list-KeepsPhysical path m v s t errors (rw (walk_children, same) at e) p
          | inr other ↦
              children-KeepsPhysical path m rest s t errors (rw (walk_children, other) at e) p
        ]

    list-KeepsPhysical :
        (path : String) (m : ℤ) (v : Value)
        → KeepsPhysical (walk_list py sums limits registry path m v)
    list-KeepsPhysical path m (list xs) s t errors e p =
        items-KeepsPhysical path m 0 xs s t errors e p
    list-KeepsPhysical path m null s t errors e p = unlisted-keeps (loop_raises null) s t errors e p
    list-KeepsPhysical path m (bool b) s t errors e p =
        unlisted-keeps (loop_raises (bool b)) s t errors e p
    list-KeepsPhysical path m (int n) s t errors e p =
        unlisted-keeps (loop_raises (int n)) s t errors e p
    list-KeepsPhysical path m (float x) s t errors e p =
        unlisted-keeps (loop_raises (float x)) s t errors e p
    list-KeepsPhysical path m (str x) s t errors e p =
        unlisted-keeps (loop_raises (str x)) s t errors e p
    list-KeepsPhysical path m (dict d) s t errors e p =
        unlisted-keeps (loop_raises (dict d)) s t errors e p

    pub items-KeepsPhysical :
        (path : String) (m : ℤ) (i : ℕ) (xs : Items)
        → KeepsPhysical (walk_items py sums limits registry path m i xs)
    items-KeepsPhysical path m i nil s t errors e p = visited-keeps s t fine errors e p
    items-KeepsPhysical path m i (cons v rest) s t errors e p =
        let (u, a, b, first, next, joined) = and_then-some _ _ t errors e in
        items-KeepsPhysical path m (suc i) rest u t b next (walk-KeepsPhysical _ m v s u a first p)

    child-KeepsPhysical :
        (path : String) (m : ℤ) (d : Fields)
        → KeepsPhysical (walk_child py sums limits registry path m d)
    child-KeepsPhysical path m end s t errors e p = visited-keeps s t fine errors e p
    child-KeepsPhysical path m (field k v rest) s t errors e p = elim (Bool-cases (k == "child")) [
      | inl same ↦ walk-KeepsPhysical _ m v s t errors (rw (walk_child, same) at e) p
      | inr other ↦ child-KeepsPhysical path m rest s t errors (rw (walk_child, other) at e) p
    ]
