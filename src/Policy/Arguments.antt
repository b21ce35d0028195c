-- ===== src/Policy/Arguments.antt =====
-- mc_ai_bt/policy_guard.py: the checks of the arguments of one skill each. Pointing has the
-- longest, Targets those of the embodied skills.
pub mod Pointing
pub mod Targets
use mc_ai_bt.Common.{
  ℕ, ◌+◌, String, Bool, true, false, not, ◌||◌, ◌&&◌, ◌==◌, ◌=ℕ◌, Option, none, some, List, [], ◌∷◌,
  if◌then◌else◌,
}
use mc_ai_bt.Common.Int.{pos}
use mc_ai_bt.Common.Float.{Float, ltb_float, leb_float, zero_float, abs_float}
use mc_ai_bt.Common.Text.{◌<>◌, strip, is_longer}
use mc_ai_bt.Json.{Value, int, str, Fields, get, text_or_empty}
use mc_ai_bt.Json.Builtins.{Builtins, get_or_null, has_key, if_dict, text_of_keys}
use mc_ai_bt.Validator.Resources.{among}
use mc_ai_bt.Validator.Checks.{Report, fine, say, say_if, also, repr}
use mc_ai_bt.Policy.Limits.{PolicyLimits, look_at_directions}
use mc_ai_bt.Policy.Numbers.{
  arms, all_of, clean_label, text_or, word_or, number_report, numeric_report, numeric_reports,
  required_float, optional_float, up_to_report, is_bad_label, one_if, has_xyz, one_target_report,
  Reading, absent, refused, number, check_optional_duration,
}

abbrev pub quoted : Builtins → String → String
quoted py s = repr py.rt (some (str s))

abbrev pub digits : Builtins → ℕ → String
digits py n = py.rt.show (int (pos n))

module _ (py : Builtins) (limits : PolicyLimits) where
  unfoldable pub check_say : String → Fields → Report
  unfolding get text_or_empty is_longer
  check_say path args =
      say_if (is_longer limits.max_say_chars (text_or_empty py.rt (get "text" args)))
        (path <> ".args.text exceeds " <> digits py limits.max_say_chars <> " chars")

  -- The test of a number that can be read.
  abbrev move_report : String → String → Float → Report
  move_report path action value =
      if among action ("forward" ∷ "backward" ∷ [])
        && ltb_float limits.max_forward_m (abs_float value)
      then say (path <> ".args.value exceeds " <> py.format limits.max_forward_m <> "m")
      else if among action arms && ltb_float limits.max_turn_deg (abs_float value)
      then say (path <> ".args.value exceeds " <> py.format limits.max_turn_deg <> "deg")
      else say_if (not (among action ("forward" ∷ "backward" ∷ "left" ∷ "right" ∷ [])))
          (path <> ".args.action is not allowed: " <> quoted py action)

  -- `_check_simple_move`; the value may be a Boolean here.
  unfoldable pub check_simple_move : String → Fields → Report
  unfolding get text_or_empty get_or_null among repr
  check_simple_move path args = elim (py.to_float (get_or_null "value" args)) [
    | none ↦ say (path <> ".args.value must be numeric")
    | some value ↦ move_report path (text_or_empty py.rt (get "action" args)) value
  ]

  -- `_check_human_confirmation`
  unfoldable pub check_human_confirmation : String → Fields → Report
  unfolding all_of text_of_keys strip is_longer text_or among optional_float repr
  check_human_confirmation path args =
      let prompt = text_of_keys py ("prompt" ∷ "text" ∷ []) args in
      let role = strip (text_or py "operator" "required_role" args) in
      all_of (
        say_if (strip prompt == "") (path <> ".args.prompt must be non-empty")
        ∷ say_if (is_longer limits.max_confirmation_prompt_chars prompt) (
            path
            <> ".args.prompt exceeds "
            <> digits py limits.max_confirmation_prompt_chars
            <> " chars")
        ∷ say_if (not (among role ("operator" ∷ "owner" ∷ "admin" ∷ "safety_operator" ∷ [])))
            (path <> ".args.required_role is not allowed: " <> quoted py role)
        ∷ number_report path "timeout_sec" (optional_float py "timeout_sec" args) (λ t.
          say_if (leb_float t zero_float || ltb_float limits.max_confirmation_timeout_sec t) (
            path
            <> ".args.timeout_sec must be in (0, "
            <> py.format limits.max_confirmation_timeout_sec
            <> "]"))
        ∷ [])

  unfoldable pub check_go_to_place : String → Fields → Report
  unfolding text_of_keys is_longer
  check_go_to_place path args =
      say_if (is_bad_label 64 (text_of_keys py ("name" ∷ "place" ∷ []) args))
        (path <> ".args.name must be a non-empty place slug <= 64 chars")

  unfoldable pub check_play_animation : String → Fields → Report
  unfolding all_of text_of_keys is_longer check_optional_duration get has_key
  check_play_animation path args = all_of (
      say_if (is_bad_label 64 (text_of_keys py ("animation" ∷ "name" ∷ []) args))
        (path <> ".args.animation must be non-empty and <= 64 chars")
      ∷ check_optional_duration py limits path args
      ∷ say_if (has_key "_caller" (if_dict (get "args" args)))
          (path <> ".args.args must not set reserved key '_caller'")
      ∷ [])

  -- `_check_look_at`
  unfoldable pub check_look_at : String → Fields → Report
  unfolding all_of text_or among repr optional_float check_optional_duration
  check_look_at path args =
      let direction = word_or py "front" "direction" args in
      all_of (
        say_if (not (among direction look_at_directions))
          (path <> ".args.direction is not allowed: " <> quoted py direction)
        ∷ up_to_report py path "hold" limits.max_look_hold_sec args
        ∷ check_optional_duration py limits path args
        ∷ [])
