-- ===== src/Validator/Accepted.antt =====
-- The nodes of a plan that mc_ai_bt/validator.py accepts.
use mc_ai_bt.Common.{
  ℕ, suc, String, Bool, true, false, none, some, List, [], ◌∷◌, ◌++◌, ◌≡◌, refl, sym, ap, ◌∙◌, inl,
  inr, Bool-cases, ◌==◌,
}
use mc_ai_bt.Common.Text.{◌<>◌}
use mc_ai_bt.Common.Sort.{some_eq}
use mc_ai_bt.Json.{
  Value, null, bool, int, float, str, list, dict, Items, nil, cons, Fields, end, field, get,
  Runtime,
}
use mc_ai_bt.Validator.Resources.{Skills}
use mc_ai_bt.Validator.Checks.{
  Report, fine, also, NodeKind, kind_of, known, find, generic_timeout_report,
}
use mc_ai_bt.Validator.Checks.{Found, unknown, raises}
use mc_ai_bt.Common.{◌⊎◌, inl, inr}
use mc_ai_bt.Validator.{
  validate_node, node_report, validate_children, validate_list, validate_items, validate_child,
  required_child, root_report, validate,
}

pub append-nil : {A : Type 0} (a b : List A) → a ++ b ≡ [] → (a ≡ []) × (b ≡ [])
append-nil [] b e = (refl, e)
append-nil (x ∷ a) b e = absurd (cc (e))

-- Two checks append nothing together only if neither does alone.
pub also-fine : (a b : Report) → also a b ≡ fine → (a ≡ fine) × (b ≡ fine)
unfolding also
also-fine none none e = absurd (cc)
also-fine none (some b) e = absurd (cc)
also-fine (some a) none e = absurd (cc)
also-fine (some a) (some b) e = let (p, q) = append-nil a b (some_eq e) in (ap some p, ap some q)

-- An element of a list.
pub data In (w : Value) : Items → Type 0 where
  at_head : {xs : Items} → In w (cons w xs)
  in_tail : {v : Value} {xs : Items} → In w xs → In w (cons v xs)

-- The kinds of nodes with a list of children, and those with one child.
abbrev pub has_children : NodeKind → Bool
has_children NodeKind.sequence = true
has_children NodeKind.fallback = true
has_children NodeKind.parallel = true
has_children kind = false

abbrev pub has_child : NodeKind → Bool
has_child NodeKind.retry = true
has_child NodeKind.timeout = true
has_child kind = false

-- A value is a node of this kind.
abbrev pub IsNode : NodeKind → Fields → Type 0
IsNode kind d = find kind_of (get "type" d) ≡ known kind

-- The nodes of a tree: the root, and the nodes of the tree of each child of a node.
pub data Within (w : Value) : Value → Type 0 where
  itself : Within w w
  below_list :
      {d : Fields} {v : Value} {xs : Items} (kind : NodeKind)
      → IsNode kind d
      → has_children kind ≡ true
      → get "children" d ≡ some (list xs)
      → In v xs
      → Within w v
      → Within w (dict d)
  below_child :
      {d : Fields} {v : Value} (kind : NodeKind)
      → IsNode kind d
      → has_child kind ≡ true
      → get "child" d ≡ some v
      → Within w v
      → Within w (dict d)

module _ (rt : Runtime) (skills : Skills) where
  -- Accepted, at some path.
  abbrev pub IsAccepted : Value → Type 0
  IsAccepted v = (path : String) × (validate_node rt skills path v ≡ fine)

  pub node_checks :
      (path : String) (d : Fields) (kind : NodeKind)
      → IsNode kind d
      → validate_node rt skills path (dict d) ≡ fine
      → (generic_timeout_report kind path d ≡ fine)
        × (node_report rt skills kind path d
              (validate_children rt skills path d)
              (validate_child rt skills path d)
            ≡ fine)
  unfolding validate_node
  node_checks path d kind is e = also-fine _ _ (rw (validate_node, is) at e)

  children_of :
      (path : String) (d : Fields) (v : Value)
      → get "children" d ≡ some v
      → validate_children rt skills path d ≡ validate_list rt skills path v
  unfolding validate_children get
  children_of path end v e = absurd (cc)
  children_of path (field k u rest) v e = elim (Bool-cases (k == "children")) [
    | inl same ↦ rw same (ap (validate_list rt skills path) (some_eq (rw same at e)))
    | inr other ↦ rw other (children_of path rest v (rw other at e))
  ]

  child_of :
      (path : String) (d : Fields) (v : Value)
      → get "child" d ≡ some v
      → validate_child rt skills path d
        ≡ required_child path v (validate_node rt skills (path <> ".child") v)
  unfolding validate_child get
  child_of path end v e = absurd (cc)
  child_of path (field k u rest) v e = elim (Bool-cases (k == "child")) [
    | inl same ↦ rw same (
        ap (λ w. required_child path w (validate_node rt skills (path <> ".child") w))
          (some_eq (rw same at e)))
    | inr other ↦ rw other (child_of path rest v (rw other at e))
  ]

  body-children :
      (kind : NodeKind) (path : String) (d : Fields) (children child : Report)
      → has_children kind ≡ true
      → node_report rt skills kind path d children child ≡ fine
      → children ≡ fine
  unfolding node_report
  body-children NodeKind.sequence path d cs c h e = e
  body-children NodeKind.fallback path d cs c h e = e
  body-children NodeKind.parallel path d cs c h e = (also-fine _ _ e).0
  body-children NodeKind.condition path d cs c h e = absurd (cc)
  body-children NodeKind.action path d cs c h e = absurd (cc)
  body-children NodeKind.goal_check path d cs c h e = absurd (cc)
  body-children NodeKind.visual_check path d cs c h e = absurd (cc)
  body-children NodeKind.wait path d cs c h e = absurd (cc)
  body-children NodeKind.retry path d cs c h e = absurd (cc)
  body-children NodeKind.timeout path d cs c h e = absurd (cc)
  body-children NodeKind.no_action path d cs c h e = absurd (cc)
  body-children NodeKind.wait_for_event path d cs c h e = absurd (cc)

  body-child :
      (kind : NodeKind) (path : String) (d : Fields) (children child : Report)
      → has_child kind ≡ true
      → node_report rt skills kind path d children child ≡ fine
      → child ≡ fine
  unfolding node_report
  body-child NodeKind.retry path d cs c h e = (also-fine _ _ e).1
  body-child NodeKind.timeout path d cs c h e = (also-fine _ _ e).1
  body-child NodeKind.sequence path d cs c h e = absurd (cc)
  body-child NodeKind.fallback path d cs c h e = absurd (cc)
  body-child NodeKind.parallel path d cs c h e = absurd (cc)
  body-child NodeKind.condition path d cs c h e = absurd (cc)
  body-child NodeKind.action path d cs c h e = absurd (cc)
  body-child NodeKind.goal_check path d cs c h e = absurd (cc)
  body-child NodeKind.visual_check path d cs c h e = absurd (cc)
  body-child NodeKind.wait path d cs c h e = absurd (cc)
  body-child NodeKind.no_action path d cs c h e = absurd (cc)
  body-child NodeKind.wait_for_event path d cs c h e = absurd (cc)

  items-IsAccepted :
      (path : String) (i : ℕ) (v : Value) (xs : Items)
      → validate_items rt skills path i xs ≡ fine
      → In v xs
      → IsAccepted v
  unfolding validate_items
  items-IsAccepted path i v nil e p = elim p [ ]
  items-IsAccepted path i v (cons _ xs) e at_head = (_, (also-fine _ _ e).0)
  items-IsAccepted path i v (cons u xs) e (in_tail p) =
      items-IsAccepted path (suc i) v xs (also-fine _ _ e).1 p

  list-IsAccepted :
      (path : String) (v : Value) (xs : Items)
      → validate_list rt skills path (list xs) ≡ fine
      → In v xs
      → IsAccepted v
  unfolding validate_list
  list-IsAccepted path v nil e p = absurd (cc)
  list-IsAccepted path v (cons x xs) e p = items-IsAccepted path 0 v (cons x xs) e p

  only-IsAccepted :
      (path : String) (v : Value)
      → required_child path v (validate_node rt skills (path <> ".child") v) ≡ fine
      → IsAccepted v
  only-IsAccepted path null e = absurd (cc)
  only-IsAccepted path (bool b) e = (_, e)
  only-IsAccepted path (int n) e = (_, e)
  only-IsAccepted path (float x) e = (_, e)
  only-IsAccepted path (str s) e = (_, e)
  only-IsAccepted path (list xs) e = (_, e)
  only-IsAccepted path (dict d) e = (_, e)

  -- Every node of an accepted tree is accepted.
  pub IsAccepted-Within : (w v : Value) → IsAccepted v → Within w v → IsAccepted w
  IsAccepted-Within w v ok itself = ok
  IsAccepted-Within w (dict d) (path, e)
        (below_list {v = u} {xs = xs} kind is many at_key member inner) =
      let body = (node_checks path d kind is e).1 in
      let listed =
        sym (children_of path d (list xs) at_key) ∙ body-children kind path d _ _ many body in
      IsAccepted-Within w u (list-IsAccepted path u xs listed member) inner
  IsAccepted-Within w (dict d) (path, e) (below_child {v = u} kind is one at_key inner) =
      let body = (node_checks path d kind is e).1 in
      let only = sym (child_of path d u at_key) ∙ body-child kind path d _ _ one body in
      IsAccepted-Within w u (only-IsAccepted path u only) inner

pub Found-cases :
    {A : Type 0} (f : Found A) → (f ≡ unknown) ⊎ ((f ≡ raises) ⊎ ((a : A) × (f ≡ known a)))
Found-cases unknown = inl refl
Found-cases raises = inr (inl refl)
Found-cases (known a) = inr (inr (a, refl))

module _ (rt : Runtime) (skills : Skills) where
  root_fine :
      (root : Value)
      → root_report rt skills (some root) ≡ fine
      → validate_node rt skills "root" root ≡ fine
  root_fine null e = absurd (cc)
  root_fine (bool b) e = e
  root_fine (int n) e = e
  root_fine (float x) e = e
  root_fine (str s) e = e
  root_fine (list xs) e = e
  root_fine (dict d) e = e

  -- The root of an accepted plan is accepted.
  pub root-IsAccepted :
      (plan : Fields) (root : Value)
      → get "root" plan ≡ some root
      → validate rt skills (dict plan) ≡ fine
      → IsAccepted rt skills root
  unfolding validate
  root-IsAccepted plan root at_root e =
      ("root", root_fine root (ap (root_report rt skills) (sym at_root) ∙ (also-fine _ _ e).0))

  -- An accepted object has one of the types of nodes.
  pub IsNode-accepted :
      (path : String) (d : Fields)
      → validate_node rt skills path (dict d) ≡ fine
      → (kind : NodeKind) × IsNode kind d
  unfolding validate_node
  IsNode-accepted path d e = elim (Found-cases (find kind_of (get "type" d))) [
    | inl is ↦ absurd (cc (rw (validate_node, is) at e))
    | inr (inl is) ↦ absurd (cc (rw (validate_node, is) at e))
    | inr (inr found) ↦ found
  ]
