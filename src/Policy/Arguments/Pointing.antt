-- ===== src/Policy/Arguments/Pointing.antt =====
-- `_check_point_at` of mc_ai_bt/policy_guard.py.
use mc_ai_bt.Common.{
  ◌+◌, String, Bool, true, false, not, ◌&&◌, ◌==◌, ◌=ℕ◌, List, [], ◌∷◌, if◌then◌else◌, some,
}
use mc_ai_bt.Common.Float.{Float, ltb_float, leb_float, abs_float}
use mc_ai_bt.Common.Order.{lt_text}
use mc_ai_bt.Common.Sort.{sort}
use mc_ai_bt.Common.Text.{◌<>◌, is_longer, strip}
use mc_ai_bt.Json.{str, list, Fields, end, field, get}
use mc_ai_bt.Json.Builtins.{Builtins, has_key, text_of_keys}
use mc_ai_bt.Mission.Outcome.{texts}
use mc_ai_bt.Validator.Resources.{among}
use mc_ai_bt.Validator.Checks.{Report, fine, say_if, is_bool, repr}
use mc_ai_bt.Policy.Limits.{PolicyLimits, point_at_allowed_keys, point_at_frames}
use mc_ai_bt.Policy.Numbers.{
  all_of, clean_label, word_or, numeric_reports, required_float, up_to_report, one_if, has_xyz,
  partial_xyz, Reading, number, numeric_report, optional_float, check_optional_duration, text_or,
}

-- The keys that are not allowed.
unfoldable pub other_keys : List String → Fields → List String
unfolding among
other_keys allowed end = []
other_keys allowed (field k v rest) =
    let others = other_keys allowed rest in if among k allowed then others else k ∷ others

-- `sorted(set(d) - allowed)`
unfoldable pub unknown_keys : List String → Fields → List String
unfolding other_keys sort
unknown_keys allowed d = sort lt_text (other_keys allowed d)

abbrev is_some_name : List String → Bool
is_some_name [] = false
is_some_name (x ∷ xs) = true

-- The error for keys that are not allowed.
unfoldable pub unknown_keys_report : Builtins → String → List String → Fields → Report
unfolding unknown_keys texts
unknown_keys_report py message allowed d =
    say_if (is_some_name (unknown_keys allowed d))
      (message <> py.rt.show (list (texts (unknown_keys allowed d))))

abbrev read_report : Reading → (Float → Report) → Report
read_report (number x) test = test x
read_report r test = fine

module _ (py : Builtins) (limits : PolicyLimits) where
  -- `object` or `target`, else `entity` or `entity_id`.
  abbrev object_name : Fields → String
  object_name args =
      let named = clean_label py ("object" ∷ "target" ∷ []) args in
      if named == "" then clean_label py ("entity" ∷ "entity_id" ∷ []) args else named

  -- Beyond the reach, of a number that could be read.
  abbrev coordinate_report : String → String → Fields → Report
  coordinate_report path key args = read_report (required_float py key args) (λ x.
      say_if (ltb_float limits.max_point_abs_m (abs_float x))
        (path <> ".args." <> key <> " exceeds " <> py.format limits.max_point_abs_m <> "m"))

  abbrev height_report : String → Fields → Report
  height_report path args = read_report (required_float py "z" args) (λ z.
      say_if (not (leb_float limits.min_point_z_m z && leb_float z limits.max_point_z_m)) (
        path
        <> ".args.z must be in ["
        <> py.format limits.min_point_z_m
        <> ", "
        <> py.format limits.max_point_z_m
        <> "]"))

  -- The three numbers are read before the first of them is tested.
  unfoldable pub point_reports : String → Fields → Report
  unfolding all_of required_float
  point_reports path args = all_of (
      numeric_report path "x" (required_float py "x" args)
      ∷ numeric_report path "y" (required_float py "y" args)
      ∷ numeric_report path "z" (required_float py "z" args)
      ∷ coordinate_report path "x" args
      ∷ coordinate_report path "y" args
      ∷ height_report path args
      ∷ [])

  -- The errors about the target.
  unfoldable pub target_reports : String → Fields → Report
  unfolding all_of text_of_keys strip is_longer has_xyz partial_xyz point_reports
  target_reports path args =
      let object = object_name args in
      let place = clean_label py ("place" ∷ []) args in
      all_of (
        say_if (partial_xyz args) (path <> ".args.x/y/z must be provided together")
        ∷ say_if
            (not (
              one_if (not (object == "")) + one_if (not (place == "")) + one_if (has_xyz args)
              =ℕ 1))
            (path <> ".args must specify exactly one target: object/target, place, or x/y/z")
        ∷ say_if (is_longer 64 object) (path <> ".args.object must be <= 64 chars")
        ∷ say_if (is_longer 64 place) (path <> ".args.place must be <= 64 chars")
        ∷ (if has_xyz args then point_reports path args else fine)
        ∷ [])

  -- `_check_point_at`
  unfoldable pub check_point_at : String → Fields → Report
  unfolding all_of unknown_keys_report text_or among repr target_reports optional_float has_key get
      check_optional_duration
  check_point_at path args =
      let frame = word_or py "torso" "frame" args in
      all_of (
        unknown_keys_report py (path <> ".args has unknown point_at keys: ") point_at_allowed_keys
          args
        ∷ say_if (not (among (word_or py "right" "arm" args) ("left" ∷ "right" ∷ [])))
            (path <> ".args.arm must be 'left' or 'right'")
        ∷ say_if (not (among frame point_at_frames))
            (path <> ".args.frame is not allowed: " <> repr py.rt (some (str frame)))
        ∷ target_reports path args
        ∷ up_to_report py path "hold" limits.max_point_hold_sec args
        ∷ numeric_reports py path
            ("score_thr" ∷ "max_age" ∷ "timeout" ∷ "place_distance" ∷ "place_z" ∷ []) args
        ∷ say_if (has_key "fresh" args && not (is_bool (get "fresh" args)))
            (path <> ".args.fresh must be boolean")
        ∷ check_optional_duration py limits path args
        ∷ [])
