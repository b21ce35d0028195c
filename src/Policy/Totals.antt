-- ===== src/Policy/Totals.antt =====
-- mc_ai_bt/policy_guard.py: the counts of a plan, where a node below Retry counts once for each
-- attempt, and their limits.
use mc_ai_bt.Common.{ℕ, String, Bool, ◌||◌, ◌==◌, List, [], ◌∷◌, if◌then◌else◌}
use mc_ai_bt.Common.Int.{ℤ, pos, ◌+ℤ◌, ◌*ℤ◌, ltb_ℤ}
use mc_ai_bt.Common.Float.{Float, zero_float, ltb_float}
use mc_ai_bt.Common.Text.{◌<>◌}
use mc_ai_bt.Json.{int, Runtime}
use mc_ai_bt.Json.Builtins.{Builtins}
use mc_ai_bt.Validator.Resources.{among}
use mc_ai_bt.Validator.Checks.{Report, say_if}
use mc_ai_bt.Policy.Limits.{
  PolicyLimits, physical_skills, base_skills, body_skills, continuous_base_skills,
}
use mc_ai_bt.Policy.Numbers.{all_of}

-- `x + y` and `x * n` of Python's floats.
pub record FloatSums : Type 0 where
  pub add : Float → Float → Float
  pub times : Float → ℤ → Float

-- How often each skill occurs.
abbrev pub Counts : Type 0
Counts = List (String × ℤ)

pub record Stats : Type 0 where
  pub total_nodes : ℤ
  pub total_actions : ℤ
  pub physical_actions : ℤ
  pub base_actions : ℤ
  pub body_actions : ℤ
  pub visual_checks : ℤ
  pub conditions : ℤ
  pub wait_total_sec : Float
  pub retry_product : ℤ
  pub physical_skill_counts : Counts

abbrev pub fresh_stats : Stats
fresh_stats = record {
  total_nodes = pos 0;
  total_actions = pos 0;
  physical_actions = pos 0;
  base_actions = pos 0;
  body_actions = pos 0;
  visual_checks = pos 0;
  conditions = pos 0;
  wait_total_sec = zero_float;
  retry_product = pos 1;
  physical_skill_counts = [];
}

-- `counts[skill] = counts.get(skill, 0) + n`
unfoldable pub count_skill : String → ℤ → Counts → Counts
count_skill skill n [] = (skill, pos 0 +ℤ n) ∷ []
count_skill skill n ((name, k) ∷ counts) =
    let rest = count_skill skill n counts in
    if name == skill then (name, k +ℤ n) ∷ counts else (name, k) ∷ rest

abbrev pub add_if : Bool → ℤ → ℤ → ℤ
add_if b n k = if b then k +ℤ n else k

abbrev pub count_node : ℤ → Stats → Stats
count_node n s = record s { total_nodes = s.total_nodes +ℤ n }

abbrev pub count_condition : ℤ → Stats → Stats
count_condition n s = record s { conditions = s.conditions +ℤ n }

abbrev pub count_visual_check : ℤ → Stats → Stats
count_visual_check n s = record s { visual_checks = s.visual_checks +ℤ n }

abbrev pub count_retry : ℤ → Stats → Stats
count_retry n s = record s { retry_product = s.retry_product *ℤ n }

abbrev pub count_wait : FloatSums → Float → ℤ → Stats → Stats
count_wait sums duration n s = record s {
  wait_total_sec = sums.add s.wait_total_sec (sums.times duration n);
}

-- The counts that an action adds to.
unfoldable pub count_action : String → ℤ → Stats → Stats
unfolding among count_skill
count_action skill n s = record s {
  total_actions = s.total_actions +ℤ n;
  physical_actions = add_if (among skill physical_skills) n s.physical_actions;
  physical_skill_counts =
      if among skill physical_skills
      then count_skill skill n s.physical_skill_counts
      else s.physical_skill_counts;
  base_actions =
      add_if (among skill base_skills || among skill continuous_base_skills) n s.base_actions;
  body_actions = add_if (among skill body_skills) n s.body_actions;
}

abbrev too_many : Runtime → String → ℤ → ℕ → Report
too_many rt what n limit =
    say_if (ltb_ℤ (pos limit) n)
      ("too many " <> what <> ": " <> rt.show (int n) <> " > " <> rt.show (int (pos limit)))

-- `_check_totals`
unfoldable pub check_totals : Builtins → PolicyLimits → Stats → Report
unfolding all_of
check_totals py limits s = all_of (
    too_many py.rt "BT nodes" s.total_nodes limits.max_total_nodes
    ∷ too_many py.rt "actions" s.total_actions limits.max_total_actions
    ∷ too_many py.rt "physical actions" s.physical_actions limits.max_physical_actions
    ∷ too_many py.rt "base actions" s.base_actions limits.max_base_actions
    ∷ too_many py.rt "body actions" s.body_actions limits.max_body_actions
    ∷ too_many py.rt "visual checks" s.visual_checks limits.max_visual_checks
    ∷ too_many py.rt "conditions" s.conditions limits.max_conditions
    ∷ say_if (ltb_float limits.max_wait_total_sec s.wait_total_sec)
        ("wait budget exceeds " <> py.format limits.max_wait_total_sec <> "s")
    ∷ say_if (ltb_ℤ (pos limits.max_retry_product) s.retry_product)
        ("retry product exceeds " <> py.rt.show (int (pos limits.max_retry_product)))
    ∷ [])
