-- ===== src/Validator/Guarantees.antt =====
-- Skills and resources in a plan that mc_ai_bt/validator.py accepts.
use mc_ai_bt.Common.{String, true, false, Option, none, some, List, ◌≡◌, refl, arith}
use mc_ai_bt.Json.{
  Value, null, bool, int, float, str, list, dict, Items, cons, Fields, get, Runtime,
}
use mc_ai_bt.Validator.Resources.{Skills}
use mc_ai_bt.Validator.Checks.{fine, NodeKind, skill_report}
use mc_ai_bt.Validator.{node_report, leaf_report, validate}
use mc_ai_bt.Validator.Accepted.{
  also-fine, In, IsNode, Within, IsAccepted-Within, node_checks, root-IsAccepted,
}
use mc_ai_bt.Validator.Resources.{among, resources_conflict}

module _ (rt : Runtime) (skills : Skills) where
  skill-known :
      (path : String) (v : Option Value)
      → skill_report skills path v ≡ fine
      → (skill : String) × (v ≡ some (str skill)) × (skills.has skill ≡ true)
  unfolding skill_report
  skill-known path none e = absurd (cc)
  skill-known path (some (str s)) e = (s, refl, ground arith)
  skill-known path (some null) e = absurd (cc)
  skill-known path (some (bool b)) e = absurd (cc)
  skill-known path (some (int n)) e = absurd (cc)
  skill-known path (some (float x)) e = absurd (cc)
  skill-known path (some (list xs)) e = absurd (cc)
  skill-known path (some (dict d)) e = absurd (cc)

  -- In an accepted plan, every action of the tree names a skill that the registry has.
  pub action-known :
      (plan d : Fields) (root : Value)
      → validate rt skills (dict plan) ≡ fine
      → get "root" plan ≡ some root
      → Within (dict d) root
      → IsNode NodeKind.action d
      → (skill : String) × (get "skill" d ≡ some (str skill)) × (skills.has skill ≡ true)
  unfolding node_report leaf_report
  action-known plan d root ok at_root inner is =
      let (path, e) =
        IsAccepted-Within rt skills (dict d) root (root-IsAccepted rt skills plan root at_root ok)
          inner in
      skill-known path (get "skill" d)
        (also-fine _ _ (node_checks rt skills path d NodeKind.action is e).1).0

-- A branch stands before another one in the list of the branches.
pub data Before (v w : Value) : Items → Type 0 where
  here : {xs : Items} → In w xs → Before v w (cons v xs)
  later : {u : Value} {xs : Items} → Before v w xs → Before v w (cons u xs)

-- No resource of the one list conflicts with one of the other.
abbrev pub Disjoint : List String → List String → Type 0
Disjoint lefts rights =
    (l r : String) → among l lefts ≡ true → among r rights ≡ true → resources_conflict l r ≡ false
