-- ===== src/Entity/Seen.antt =====
-- mc_ai_bt/entity_facts.py: when an object counts as seen, and the limits that a goal's arguments give.
use mc_ai_bt.Common.{String, true, false, ◌==◌, Option, none, some, ◌≡◌, arith}
use mc_ai_bt.Common.Int.{ℤ, pos, ◌≤ℤ◌}
use mc_ai_bt.Common.Float.{Float, zero_float, unit-pos, ltb_float, InUnit, clamp_unit-InUnit}
use mc_ai_bt.Json.{Fields, get}
use mc_ai_bt.Json.Builtins.{Builtins, get_or_null}
use mc_ai_bt.Entity.{
  normalise_entity_name, min_score_from_args, min_count_from_args, clamp_count, is_false,
  visible_of, observed_name, clamped_score, clamped_count, score_or_zero, count_or_one,
}

-- The score is known and reaches the minimum, or there is neither.
abbrev pub ScoreFits : Option Float → Float → Type 0
ScoreFits (some x) low = ltb_float x low ≡ false
ScoreFits none low = ltb_float zero_float low ≡ false

-- An object that is seen: it has the expected name, is not hidden, and its score fits.
pub record IsSeen (py : Builtins) (name : String) (low : Float) (value : Fields) : Type 0 where
  pub expected : (normalise_entity_name py name == "") ≡ false
  pub named :
      (normalise_entity_name py (observed_name py name value) == normalise_entity_name py name)
      ≡ true
  pub visible : is_false (visible_of (get "visible" value)) ≡ false
  pub score : ScoreFits (py.to_float (get_or_null "score" value)) low

clamped_score-InUnit : (o : Option Float) → InUnit (clamped_score o)
clamped_score-InUnit none = ground (arith, unit-pos)
clamped_score-InUnit (some x) = clamp_unit-InUnit x

clamped_count_bounds : (o : Option ℤ) → (pos 1 ≤ℤ clamped_count o) × (clamped_count o ≤ℤ pos 20)
unfolding clamp_count
clamped_count_bounds none = omega arith
clamped_count_bounds (some n) = ground arith

-- The limits that a goal's arguments give are from 0.0 to 1.0 for the score of an object and from 1 to 20
-- for the count of people, whatever the arguments hold.
pub limits_in_bounds :
    (py : Builtins) (args : Fields)
    → InUnit (min_score_from_args py args)
      × (pos 1 ≤ℤ min_count_from_args py args)
      × (min_count_from_args py args ≤ℤ pos 20)
unfolding min_score_from_args min_count_from_args
limits_in_bounds py args =
    let count = clamped_count_bounds (count_or_one py (get "min_count" args)) in
    (clamped_score-InUnit (score_or_zero py (get "min_score" args)), count.0, count.1)
