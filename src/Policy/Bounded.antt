-- ===== src/Policy/Bounded.antt =====
-- What follows for a plan that `PolicyGuard.check` of mc_ai_bt/policy_guard.py accepts.
use mathlib.Core.Path.{subst}
use mc_ai_bt.Common.{
  eq_iff, String, Bool, true, false, Option, none, some, List, [], ◌≡◌, refl, sym, ap, ◌∙◌, inl,
  inr, Bool-cases, Option-cases, ◌==◌, ◌||◌,
}
use mc_ai_bt.Common.Int.{ℤ, pos}
use mc_ai_bt.Common.Sort.{some_eq}
use mc_ai_bt.Json.{Value, str, dict, Fields, get, text_or_empty}
use mc_ai_bt.Json.Builtins.{Builtins, get_or_null, dict_or_empty}
use mc_ai_bt.Validator.Resources.{among}
use mc_ai_bt.Validator.Checks.{Report, fine, NodeKind}
use mc_ai_bt.Validator.Accepted.{also-fine, IsNode, Within}
use mc_ai_bt.Skill.{SkillSpec, find_skill}
use mc_ai_bt.Policy.Limits.{PolicyLimits, physical_skills, allowed_top_level_keys}
use mc_ai_bt.Policy.Arguments.Pointing.{unknown_keys_report}
use mc_ai_bt.Policy.Gates.{is_text}
use mc_ai_bt.Policy.Totals.{FloatSums, Stats, fresh_stats, count_node, check_totals, count_action}
use mc_ai_bt.Policy.Actions.{check_action, registered_report}
use mc_ai_bt.Policy.Alignment.{check_goal_alignment, alignment_report, is_implicit, is_none}
use mc_ai_bt.Policy.{Visit, with_totals, check, walk, visit_node, visit_leaf}
use mc_ai_bt.Policy.Visits.{visited-fine}
use mc_ai_bt.Policy.Physical.{IsPhysical, count_skill-some}
use mc_ai_bt.Policy.Passed.{IsPassed, IsPassed-Within, node_walk}

neither : (a b : Bool) → a || b ≡ false → (a ≡ false) × (b ≡ false)
neither true b e = absurd (cc)
neither false b e = (refl, e)

module _ (py : Builtins) (sums : FloatSums) (limits : PolicyLimits)
    (registry : List SkillSpec) where
  totals_fine :
      (before : Report) (goal : Value) (v : Visit)
      → with_totals py limits before goal v ≡ fine
      → (t : Stats) × (v ≡ some (t, []))
        × (check_totals py limits t ≡ fine)
        × (check_goal_alignment py goal t ≡ fine)
  unfolding with_totals
  totals_fine before goal none e = absurd (cc)
  totals_fine before goal (some (t, errors)) e =
      let (first, rest) = also-fine (some errors) _ (also-fine before _ e).1 in
      let (totals, aligned) = also-fine _ _ rest in
      (t, ap (λ x. some (t, x)) (some_eq first), totals, aligned)

  -- The walk of an accepted plan, and the checks after it.
  pub walk-fine :
      (plan : Fields)
      → check py sums limits registry (dict plan) ≡ fine
      → (t : Stats) × (walk py sums limits registry "root"
            (pos 1)
            (get_or_null "root" plan)
            fresh_stats
          ≡ some (t, []))
        × (check_totals py limits t ≡ fine)
        × (check_goal_alignment py (get_or_null "goal_spec" plan) t ≡ fine)
  unfolding check
  walk-fine plan e =
      totals_fine (unknown_keys_report py "unknown top-level keys: " allowed_top_level_keys plan)
        (get_or_null "goal_spec" plan) _ e

  get_or_null-some :
      (key : String) (d : Fields) (v : Value) → get key d ≡ some v → get_or_null key d ≡ v
  unfolding get_or_null
  get_or_null-some key d v e = rw (get_or_null, e) refl

  -- Every node of an accepted plan is passed, and the checks after the walk hold.
  pub root-IsPassed :
      (plan : Fields) (root w : Value)
      → check py sums limits registry (dict plan) ≡ fine
      → get "root" plan ≡ some root
      → Within w root
      → (t : Stats) × IsPassed py sums limits registry t w
        × (check_totals py limits t ≡ fine)
        × (check_goal_alignment py (get_or_null "goal_spec" plan) t ≡ fine)
  root-IsPassed plan root w ok at_root inner =
      let (t, walked, totals, aligned) = walk-fine plan ok in
      let here =
        ap (λ v. walk py sums limits registry "root" (pos 1) v fresh_stats)
          (sym (get_or_null-some "root" plan root at_root))
        ∙ walked in
      (
        t,
        IsPassed-Within py sums limits registry w root t
            ("root", pos 1, fresh_stats, t, here, λ p. p) inner,
        totals,
        aligned,
      )

  -- The walk of an action.
  action-walk :
      (d : Fields) (last : Stats)
      → IsPassed py sums limits registry last (dict d)
      → IsNode NodeKind.action d
      → (path : String) × (m : ℤ) × (s : Stats) × (check_action py limits registry path d ≡ fine)
        × (IsPhysical (count_action (text_or_empty py.rt (get "skill" d)) m s) → IsPhysical last)
  unfolding visit_node visit_leaf
  action-walk d last (path, m, s, t, e, keeps) is =
      let (same, ok) =
        visited-fine (count_action (text_or_empty py.rt (get "skill" d)) m (count_node m s)) t
          (check_action py limits registry path d)
          (node_walk py sums limits registry path m d NodeKind.action s t is e) in
      (path, m, count_node m s, ok, λ p. keeps (subst IsPhysical same p))

  checked-IsAvailable :
      (path skill : String) (entry : Option SkillSpec) (args : Option Fields)
      → registered_report py limits path skill entry args ≡ fine
      → (spec : SkillSpec) × (entry ≡ some spec) × (spec.status ≡ "available")
  unfolding registered_report
  checked-IsAvailable path skill none args e = absurd (cc)
  checked-IsAvailable path skill (some spec) args e =
      elim (Bool-cases (spec.status == "available")) [
        | inl is ↦ (spec, refl, (eq_iff _ _).0 is)
        | inr isnt ↦ absurd (cc (rw (registered_report, isnt) at e))
      ]

  -- In a plan that the policy guard accepts, every action of the tree names a skill of the registry
  -- whose status is "available".
  pub action-IsAvailable :
      (plan d : Fields) (root : Value)
      → check py sums limits registry (dict plan) ≡ fine
      → get "root" plan ≡ some root
      → Within (dict d) root
      → IsNode NodeKind.action d
      → (spec : SkillSpec) × (find_skill (text_or_empty py.rt (get "skill" d)) registry ≡ some spec)
        × (spec.status ≡ "available")
  unfolding check_action
  action-IsAvailable plan d root ok at_root inner is =
      let (t, passed, _, _) = root-IsPassed plan root (dict d) ok at_root inner in
      let (path, m, s, checked, _) = action-walk d t passed is in
      checked-IsAvailable path _ _ _ checked

  action-IsPhysical :
      (d : Fields) (last : Stats)
      → IsPassed py sums limits registry last (dict d)
      → IsNode NodeKind.action d
      → among (text_or_empty py.rt (get "skill" d)) physical_skills ≡ true
      → IsPhysical last
  unfolding count_action
  action-IsPhysical d last passed is physical =
      let (path, m, s, _, keeps) = action-walk d last passed is in
      keeps (rw physical (count_skill-some _ m s.physical_skill_counts))

  explicit :
      (goal verification : Fields) (used : List String)
      → alignment_report py goal verification used ≡ fine
      → is_none used ≡ false
      → is_implicit py goal verification ≡ false
  explicit goal verification used e p = elim (Bool-cases (is_implicit py goal verification)) [
    | inl is ↦ absurd (cc (rw (p, is) at e))
    | inr isnt ↦ isnt
  ]

  goal-explicit :
      (goal : Fields) (t : Stats)
      → check_goal_alignment py (dict goal) t ≡ fine
      → IsPhysical t
      → (¬ (get "type" goal ≡ some (str "human")))
        × ((verification : Fields) × (dict_or_empty (get "verification" goal) ≡ some verification)
            × (¬ (text_or_empty py.rt (get "mode" verification) ≡ "implicit_conversation")))
  unfolding check_goal_alignment
  goal-explicit goal t e p = elim (Option-cases (dict_or_empty (get "verification" goal))) [
    | inl raised ↦ absurd (cc (rw (check_goal_alignment, raised) at e))
    | inr (v, at_v) ↦
        let (type, mode) =
          neither (is_text "human" (get "type" goal))
            (text_or_empty py.rt (get "mode" v) == "implicit_conversation")
            (explicit goal v _ (rw (check_goal_alignment, at_v) at e) p) in
        (
          λ human. absurd (cc (rw human at type)),
          (v, at_v, λ implicit. absurd (cc (rw implicit at mode))),
        )
  ]

  -- In a plan that the policy guard accepts, if an action names a physical skill, an object as the
  -- goal is not of the type "human", and its verification, an object if it is there, does not have the
  -- mode "implicit_conversation".
  pub physical_plan_needs_goal :
      (plan goal d : Fields) (root : Value)
      → check py sums limits registry (dict plan) ≡ fine
      → get "root" plan ≡ some root
      → get "goal_spec" plan ≡ some (dict goal)
      → Within (dict d) root
      → IsNode NodeKind.action d
      → among (text_or_empty py.rt (get "skill" d)) physical_skills ≡ true
      → (¬ (get "type" goal ≡ some (str "human")))
        × ((verification : Fields) × (dict_or_empty (get "verification" goal) ≡ some verification)
            × (¬ (text_or_empty py.rt (get "mode" verification) ≡ "implicit_conversation")))
  physical_plan_needs_goal plan goal d root ok at_root at_goal inner is physical =
      let (t, passed, _, aligned) = root-IsPassed plan root (dict d) ok at_root inner in
      goal-explicit goal t
        (ap (λ v. check_goal_alignment py v t)
            (sym (get_or_null-some "goal_spec" plan (dict goal) at_goal))
          ∙ aligned)
        (action-IsPhysical d t passed is physical)
