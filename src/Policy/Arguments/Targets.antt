-- ===== src/Policy/Arguments/Targets.antt =====
-- The checks of mc_ai_bt/policy_guard.py for skills that look at, reach for or remember a target.
use mc_ai_bt.Common.{
  ◌+◌, String, Bool, false, not, ◌||◌, ◌&&◌, ◌==◌, ◌=ℕ◌, List, [], ◌∷◌, if◌then◌else◌,
}
use mc_ai_bt.Common.Text.{◌<>◌, strip, is_longer}
use mc_ai_bt.Json.{Fields, get, text_or_empty}
use mc_ai_bt.Json.Builtins.{Builtins, text_of_keys}
use mc_ai_bt.Validator.Resources.{among}
use mc_ai_bt.Validator.Checks.{Report, fine, say, say_if, repr}
use mc_ai_bt.Policy.Limits.{look_at_directions}
use mc_ai_bt.Policy.Numbers.{
  arm_report, all_of, clean_label, text_or, word_or, numeric_report, numeric_reports,
  required_float, optional_float, is_bad_label, one_if, has_xyz, one_target_report, Reading, absent,
  refused, number,
}

module _ (py : Builtins) where
  -- `_check_track_frame`
  unfoldable pub check_track_frame : String → Fields → Report
  unfolding text_of_keys strip is_longer
  check_track_frame path args =
      say_if (is_bad_label 128 (clean_label py ("frame" ∷ "target_frame" ∷ []) args))
        (path <> ".args.frame must be a non-empty frame <= 128 chars")

  abbrev xyz_reports : String → Fields → Report
  xyz_reports path args =
      if has_xyz args
      then all_of (
          numeric_report path "x" (required_float py "x" args)
          ∷ numeric_report path "y" (required_float py "y" args)
          ∷ numeric_report path "z" (required_float py "z" args)
          ∷ [])
      else fine

  -- `_check_reach_to`
  unfoldable pub check_reach_to : String → Fields → Report
  unfolding all_of text_or among has_xyz required_float
  check_reach_to path args = all_of (
      arm_report py path args
      ∷ one_target_report py (path <> ".args must specify exactly one reach target") args
      ∷ xyz_reports path args
      ∷ [])

  -- `_check_entity_target`
  unfoldable pub check_entity_target : String → String → Fields → Report
  unfolding text_of_keys strip is_longer
  check_entity_target skill path args =
      say_if
        (is_bad_label 128 (
          clean_label py
            ("entity" ∷ "entity_id" ∷ "target" ∷ "object" ∷ "person" ∷ "person_id" ∷ "frame" ∷ [])
            args))
        (path <> ".args target for " <> skill <> " must be non-empty and <= 128 chars")

  -- Any of the keys has a label.
  unfoldable has_label : List String → Fields → Bool
  unfolding text_of_keys strip
  has_label [] args = false
  has_label (key ∷ keys) args = not (clean_label py (key ∷ []) args == "") || has_label keys args

  -- `_check_look_or_track`
  unfoldable pub check_look_or_track : String → String → Fields → Report
  unfolding all_of text_of_keys strip has_label has_xyz among repr get text_or_empty required_float
  check_look_or_track skill path args =
      let has_direction = has_label ("direction" ∷ []) args in
      let has_frame = not (clean_label py ("frame" ∷ "target_frame" ∷ []) args == "") in
      let has_entity =
        has_label ("entity" ∷ "entity_id" ∷ "target" ∷ "object" ∷ "person" ∷ "person_id" ∷ [])
          args in
      all_of (
        say_if
          (not (
            one_if has_direction + one_if has_frame + one_if has_entity + one_if (has_xyz args)
            =ℕ 1))
          (path <> ".args for " <> skill
            <> " must specify exactly one direction/frame/entity/x-y-z target")
        ∷ say_if
            (has_direction
              && not (
                  among (py.lower (strip (text_or_empty py.rt (get "direction" args))))
                    look_at_directions))
            (path <> ".args.direction is not allowed: " <> repr py.rt (get "direction" args))
        ∷ xyz_reports path args
        ∷ [])

  -- `_check_relation`
  unfoldable pub check_relation : String → Fields → Report
  unfolding text_of_keys strip is_longer
  check_relation path args =
      say_if (is_bad_label 128 (clean_label py ("relation" ∷ "predicate" ∷ []) args))
        (path <> ".args.relation must be non-empty and <= 128 chars")

  abbrev distance_report : String → Reading → Report
  distance_report path absent = say (path <> ".args.distance_m is required")
  distance_report path refused = all_of (
      say (path <> ".args.distance_m must be numeric")
      ∷ say (path <> ".args.distance_m is required")
      ∷ [])
  distance_report path (number x) = fine

  -- `_check_axis_skill`
  unfoldable pub check_axis_skill : String → String → Fields → Report
  unfolding all_of text_or among optional_float
  check_axis_skill skill path args = all_of (
      arm_report py path args
      ∷ say_if (not (among (word_or py "" "axis" args) ("x" ∷ "y" ∷ "z" ∷ [])))
          (path <> ".args.axis must be x, y, or z")
      ∷ (if skill == "align_axis"
          then one_target_report py (path <> ".args for align_axis must specify exactly one target")
              args
          else fine)
      ∷ (if skill == "move_along_axis"
          then distance_report path (optional_float py "distance_m" args)
          else fine)
      ∷ [])

  -- `_check_arm_generic`
  unfoldable pub check_arm_generic : String → String → Fields → Report
  unfolding all_of text_or among optional_float
  check_arm_generic skill path args = all_of (
      arm_report py path args
      ∷ (if skill == "retract"
          then fine
          else one_target_report py
              (path <> ".args for " <> skill <> " must specify exactly one target") args)
      ∷ numeric_reports py path ("duration_sec" ∷ "min_duration_sec" ∷ "extent_m" ∷ "cycles" ∷ [])
          args
      ∷ [])

  -- `_check_guide_entity_to_place`
  unfoldable pub check_guide_entity_to_place : String → Fields → Report
  unfolding all_of text_of_keys strip is_longer check_entity_target
  check_guide_entity_to_place path args = all_of (
      say_if (is_bad_label 64 (clean_label py ("place" ∷ "place_name" ∷ "name" ∷ []) args))
        (path <> ".args.place must be non-empty and <= 64 chars")
      ∷ check_entity_target "guide_entity_to_place" path args
      ∷ [])

  -- `_check_wait_for_participant`
  unfoldable pub check_wait_for_participant : String → Fields → Report
  unfolding all_of text_of_keys strip is_longer text_or among
  check_wait_for_participant path args = all_of (
      say_if (is_longer 128 (clean_label py ("participant" ∷ "role" ∷ "entity" ∷ []) args))
        (path <> ".args.participant must be <= 128 chars")
      ∷ say_if
          (not (
            among (word_or py "present" "condition" args)
              ("present" ∷ "hand_raised" ∷ "hand_offered" ∷ "facing_robot" ∷ [])))
          (path <> ".args.condition must be one of present/hand_raised/hand_offered/facing_robot")
      ∷ [])

  -- `_check_remember_place`
  unfoldable pub check_remember_place : String → Fields → Report
  unfolding text_of_keys strip is_longer
  check_remember_place path args =
      say_if (is_bad_label 64 (clean_label py ("name" ∷ "place" ∷ "place_name" ∷ []) args))
        (path <> ".args.name must be non-empty and <= 64 chars")

  -- `_check_remember_person`
  unfoldable pub check_remember_person : String → Fields → Report
  unfolding all_of check_entity_target text_of_keys strip is_longer
  check_remember_person path args = all_of (
      check_entity_target "remember_person" path args
      ∷ say_if (is_bad_label 64 (clean_label py ("name" ∷ []) args))
          (path <> ".args.name must be non-empty and <= 64 chars")
      ∷ [])

  -- `_check_remember_entity`
  unfoldable pub check_remember_entity : String → Fields → Report
  unfolding all_of check_entity_target text_of_keys strip is_longer
  check_remember_entity path args = all_of (
      check_entity_target "remember_entity" path args
      ∷ say_if (is_bad_label 64 (clean_label py ("alias" ∷ []) args))
          (path <> ".args.alias must be non-empty and <= 64 chars")
      ∷ [])
