-- ===== src/Policy/Limits.antt =====
-- mc_ai_bt/policy_guard.py: the limits of a plan, and the sets of skills that follow from the table.
use mc_ai_bt.Common.{
  ℕ, ◌*◌, ◌-◌, ◌^◌, String, Bool, true, false, ◌||◌, List, [], ◌∷◌, ◌++◌, if◌then◌else◌,
}
use mc_ai_bt.Common.Int.{pos, negsuc}
use mc_ai_bt.Common.Float.{Float, finite, of_ℕ}
use mc_ai_bt.Validator.Resources.{among}
use mc_ai_bt.Skill.{default_skills, names_where}

pub record PolicyLimits : Type 0 where
  pub max_total_nodes : ℕ
  pub max_total_actions : ℕ
  pub max_physical_actions : ℕ
  pub max_base_actions : ℕ
  pub max_body_actions : ℕ
  pub max_visual_checks : ℕ
  pub max_conditions : ℕ
  pub max_wait_total_sec : Float
  pub max_retry_product : ℕ
  pub max_say_chars : ℕ
  pub max_forward_m : Float
  pub max_turn_deg : Float
  pub max_animation_duration_sec : Float
  pub max_look_hold_sec : Float
  pub max_point_hold_sec : Float
  pub max_point_abs_m : Float
  pub min_point_z_m : Float
  pub max_point_z_m : Float
  pub max_confirmation_prompt_chars : ℕ
  pub max_confirmation_timeout_sec : Float
  pub min_wait_for_event_poll_sec : Float
  pub max_wait_for_event_poll_sec : Float
  pub max_wait_for_event_timeout_sec : Float

-- The defaults; 0.5, -0.2 and 2.2 are the doubles next to these numbers.
abbrev pub default_limits : PolicyLimits
default_limits = record {
  max_total_nodes = 32;
  max_total_actions = 12;
  max_physical_actions = 4;
  max_base_actions = 6;
  max_body_actions = 3;
  max_visual_checks = 4;
  max_conditions = 8;
  max_wait_total_sec = of_ℕ 30;
  max_retry_product = 5;
  max_say_chars = 500;
  max_forward_m = of_ℕ 1;
  max_turn_deg = of_ℕ 180;
  max_animation_duration_sec = of_ℕ 30;
  max_look_hold_sec = of_ℕ 10;
  max_point_hold_sec = of_ℕ 10;
  max_point_abs_m = of_ℕ 3;
  min_point_z_m = finite (negsuc (3602879701896397 * 2 ^ 1020 - 1));
  max_point_z_m = finite (pos (2476979795053773 * 2 ^ 1024));
  max_confirmation_prompt_chars = 240;
  max_confirmation_timeout_sec = of_ℕ 300;
  min_wait_for_event_poll_sec = finite (pos (2 ^ 1073));
  max_wait_for_event_poll_sec = of_ℕ 30;
  max_wait_for_event_timeout_sec = of_ℕ 1800;
}

abbrev pub allowed_top_level_keys : List String
allowed_top_level_keys = "schema" ∷ "root" ∷ "goal_spec" ∷ "context_json" ∷ []

abbrev body_resources : List String
body_resources = "gaze" ∷ "left_arm" ∷ "right_arm" ∷ "body" ∷ []

-- Two lists share a name.
unfoldable pub overlap : List String → List String → Bool
unfolding among
overlap [] ys = false
overlap (x ∷ xs) ys = among x ys || overlap xs ys

unfoldable pub base_skills : List String
unfolding names_where among
base_skills = names_where (λ s. among "base" s.resources) default_skills

unfoldable pub body_skills : List String
unfolding names_where overlap
body_skills = names_where (λ s. overlap s.resources body_resources) default_skills

abbrev pub physical_skills : List String
physical_skills = base_skills ++ body_skills

unfoldable pub continuous_base_skills : List String
unfolding names_where among
continuous_base_skills =
    names_where (λ s. if among "base" s.resources then s.realtime else false) default_skills

unfoldable pub policy_enabled_skills : List String
unfolding names_where
policy_enabled_skills = names_where (λ s. true) default_skills

-- `PREDICATE_TO_SKILLS.get(predicate, ())`
unfoldable pub skills_for_predicate : String → List String
unfolding names_where among
skills_for_predicate predicate =
    names_where (λ s. among predicate s.result_predicates) default_skills

abbrev pub look_at_directions : List String
look_at_directions =
    "front" ∷ "front_up" ∷ "front_down" ∷ "left" ∷ "left_up" ∷ "left_down" ∷ "right" ∷ "right_up"
    ∷ "right_down" ∷ []

abbrev pub point_at_allowed_keys : List String
point_at_allowed_keys =
    "arm" ∷ "object" ∷ "target" ∷ "entity" ∷ "entity_id" ∷ "place" ∷ "x" ∷ "y" ∷ "z" ∷ "frame"
    ∷ "hold" ∷ "score_thr" ∷ "fresh" ∷ "max_age" ∷ "timeout" ∷ "place_distance" ∷ "place_z"
    ∷ "duration" ∷ []

abbrev pub point_at_frames : List String
point_at_frames =
    "torso" ∷ "body" ∷ "body_ish" ∷ "chest_camera" ∷ "chest_camera_link" ∷ "camera" ∷ "base"
    ∷ "base_link" ∷ []
