-- ===== src/Policy/Numbers.antt =====
-- mc_ai_bt/policy_guard.py: the labels, numbers and targets that the checks read from the arguments
-- of an action.
use mc_ai_bt.Common.{
  ℕ, ◌+◌, String, Bool, true, false, not, ◌||◌, ◌&&◌, ◌==◌, ◌=ℕ◌, Option, none, some, List, [], ◌∷◌,
  if◌then◌else◌,
}
use mc_ai_bt.Common.Float.{Float, ltb_float, zero_float}
use mc_ai_bt.Common.Text.{◌<>◌, strip, is_longer}
use mc_ai_bt.Json.{bool, Fields, get, truthy, text_of}
use mc_ai_bt.Json.Builtins.{Builtins, has_key, text_of_keys}
use mc_ai_bt.Validator.Resources.{among}
use mc_ai_bt.Policy.Limits.{PolicyLimits}
use mc_ai_bt.Validator.Checks.{Report, fine, say, say_if, also}

-- The checks of a list, one after another.
unfoldable pub all_of : List Report → Report
unfolding also
all_of [] = fine
all_of (r ∷ reports) = also r (all_of reports)

-- `_clean_label(args.get(k1) or args.get(k2) or …)`
abbrev pub clean_label : Builtins → List String → Fields → String
clean_label py keys args = strip (text_of_keys py keys args)

-- `str(args.get(key) or default)`
unfoldable pub text_or : Builtins → String → String → Fields → String
unfolding get truthy text_of
text_or py default key args = elim (get key args) [
  | none ↦ default
  | some v ↦ if truthy v then text_of py.rt v else default
]

-- `str(args.get(key) or default).strip().lower()`
abbrev pub word_or : Builtins → String → String → Fields → String
word_or py default key args = py.lower (strip (text_or py default key args))

-- A number read from the arguments: missing, refused with an error, or there.
pub data Reading : Type 0 where
  absent refused : Reading
  number : Float → Reading

abbrev reading : Option Float → Reading
reading none = refused
reading (some x) = number x

-- `_required_float`
unfoldable pub required_float : Builtins → String → Fields → Reading
unfolding get
required_float py key args = elim (get key args) [
  | none ↦ refused
  | some (bool b) ↦ refused
  | some v ↦ reading (py.to_float v)
]

-- `_optional_float`
unfoldable pub optional_float : Builtins → String → Fields → Reading
unfolding required_float has_key
optional_float py key args = if has_key key args then required_float py key args else absent

-- The error of a refused reading, or the check of the number.
abbrev pub number_report : String → String → Reading → (Float → Report) → Report
number_report path key absent test = fine
number_report path key refused test = say (path <> ".args." <> key <> " must be numeric")
number_report path key (number x) test = test x

-- A number that only has to be one.
abbrev pub numeric_report : String → String → Reading → Report
numeric_report path key r = number_report path key r (λ x. fine)

abbrev pub numeric_reports : Builtins → String → List String → Fields → Report
numeric_reports py path [] args = fine
numeric_reports py path (key ∷ keys) args =
    also (numeric_report path key (optional_float py key args)) (numeric_reports py path keys args)

-- An optional number in [0, limit].
abbrev pub up_to_report : Builtins → String → String → Float → Fields → Report
up_to_report py path key limit args = number_report path key (optional_float py key args) (λ x.
    say_if (ltb_float x zero_float || ltb_float limit x)
      (path <> ".args." <> key <> " must be in [0, " <> py.format limit <> "]"))

-- `_check_optional_duration`
unfoldable pub check_optional_duration : Builtins → PolicyLimits → String → Fields → Report
unfolding optional_float
check_optional_duration py limits path args =
    up_to_report py path "duration" limits.max_animation_duration_sec args

-- Empty or longer than a limit.
abbrev pub is_bad_label : ℕ → String → Bool
is_bad_label limit s = s == "" || is_longer limit s

abbrev pub one_if : Bool → ℕ
one_if true = 1
one_if false = 0

-- `all(key in args for key in ("x", "y", "z"))`
unfoldable pub has_xyz : Fields → Bool
unfolding has_key
has_xyz args = has_key "x" args && has_key "y" args && has_key "z" args

-- Some of the coordinates, but not all.
unfoldable pub partial_xyz : Fields → Bool
unfolding has_key has_xyz
partial_xyz args = (has_key "x" args || has_key "y" args || has_key "z" args) && not (has_xyz args)

-- How many of the keys have a label.
unfoldable pub count_labels : Builtins → List String → Fields → ℕ
count_labels py [] args = 0
count_labels py (key ∷ keys) args =
    one_if (not (clean_label py (key ∷ []) args == "")) + count_labels py keys args

-- `_embodied_target_count`
unfoldable pub embodied_target_count : Builtins → Fields → ℕ
unfolding has_xyz partial_xyz count_labels
embodied_target_count py args =
    if partial_xyz args
    then 0
    else count_labels py
        ("entity" ∷ "entity_id" ∷ "object" ∷ "target" ∷ "person" ∷ "person_id" ∷ "place" ∷ "frame"
          ∷ [])
        args
      + one_if (has_xyz args)

-- The error of an action that does not have one target.
abbrev pub one_target_report : Builtins → String → Fields → Report
one_target_report py message args = say_if (not (embodied_target_count py args =ℕ 1)) message

abbrev pub arms : List String
arms = "left" ∷ "right" ∷ []

-- The check of `arm` that the arm skills share.
abbrev pub arm_report : Builtins → String → Fields → Report
unfolding text_or among
arm_report py path args =
    say_if (not (among (word_or py "right" "arm" args) arms))
      (path <> ".args.arm must be 'left' or 'right'")
