-- ===== src/Region/Verdict.antt =====
-- PredicateEvaluator and place_contains_pose of mc_ai_bt/place_region_predicates.py, and what a verdict
-- rests on.
use mc_ai_bt.Common.{
  ◌^◌, String, Bool, true, false, ◌==◌, Option, none, some, [], ◌∷◌, ◌≡◌, if◌then◌else◌,
}
use mc_ai_bt.Common.Int.{pos}
use mc_ai_bt.Common.Float.{Float, finite, zero_float, of_ℕ, ltb_float}
use mc_ai_bt.Common.Text.{◌<>◌, strip, or_text}
use mc_ai_bt.Json.{Value, null, dict, Fields, get}
use mc_ai_bt.Json.Builtins.{Builtins, text_of_keys}
use mc_ai_bt.Entity.{fact_value}
use mc_ai_bt.Goal.Place.{PlacePredicateResult}
use mc_ai_bt.Region.{
  Near, Position, PlaceRegion, PlaceRegionIndex, Seen, contains, find_region, find_entity,
  visible_from_value, position_from_value, place_regions_from_facts,
}

abbrev pub verdict : String → String → Float → PlacePredicateResult
verdict state reason confidence = record { state = state; reason = reason; confidence = confidence }

-- `max(confidence, 0.5)`
abbrev at_least_half : Float → Float
at_least_half c = let half = finite (pos (2 ^ 1073)) in if ltb_float c half then half else c

abbrev inside : String → Bool → Float → PlacePredicateResult
inside place true c = verdict "TRUE" ("inside place region: " <> place) c
inside place false c = verdict "FALSE" ("outside place region: " <> place) c

-- The verdict on an entity that may be seen.
unfoldable pub by_position :
    Near → PlaceRegion → String → Float → Option Position → PlacePredicateResult
unfolding contains
by_position near region place c none = verdict "UNKNOWN" "entity position missing" c
by_position near region place c (some position) =
    inside place (contains near region position) (at_least_half c)

unfoldable pub by_sight :
    Builtins → Near → PlaceRegion → String → Value → Seen → PlacePredicateResult
unfolding by_position position_from_value
by_sight py near region place value (visible, c) =
    if visible == "FALSE"
    then verdict "UNKNOWN" "entity is not currently visible" c
    else by_position near region place c (position_from_value py value)

-- The verdict on what was found in the scope.
unfoldable pub by_entity :
    Builtins → Near → PlaceRegion → String → String → Option Value → PlacePredicateResult
unfolding by_sight visible_from_value fact_value
by_entity py near region place id none =
    verdict "UNKNOWN" ("entity not found: " <> or_text id "*") zero_float
by_entity py near region place id (some null) =
    verdict "UNKNOWN" ("entity not found: " <> or_text id "*") zero_float
by_entity py near region place id (some candidate) =
    by_sight py near region place (fact_value candidate)
      (visible_from_value py (fact_value candidate))

-- `_entity_at_place`
unfoldable pub entity_at_place :
    Builtins → Near → PlaceRegionIndex → String → Option Value → Fields → PlacePredicateResult
unfolding text_of_keys strip find_region find_entity by_entity
entity_at_place py near places key (some (dict scoped)) args =
    let place = strip (text_of_keys py ("place" ∷ "place_name" ∷ "name" ∷ []) args) in
    let id = strip (text_of_keys py (key ∷ "id" ∷ []) args) in
    elim (find_region place places) [
      | none ↦ verdict "UNKNOWN" ("place region not found: " <> place) zero_float
      | some region ↦ by_entity py near region place id (find_entity py scoped id)
    ]
entity_at_place py near places key v args = verdict "UNKNOWN" "entity scope missing" zero_float

-- `evaluate_facts` of the evaluator that is built from the facts.
unfoldable pub evaluate : Builtins → Near → Fields → String → Fields → PlacePredicateResult
unfolding entity_at_place place_regions_from_facts get
evaluate py near facts predicate args =
    let places = place_regions_from_facts py facts in
    if predicate == "person_at_place"
    then entity_at_place py near places "person_id" (get "people" facts) args
    else if predicate == "object_at_place"
    then entity_at_place py near places "object_id" (get "objects" facts) args
    else verdict "UNKNOWN" ("unsupported predicate: " <> predicate) zero_float

-- `place_contains_pose`
unfoldable pub place_contains_pose :
    Near → PlaceRegionIndex → String → Position → PlacePredicateResult
unfolding find_region contains
place_contains_pose near places place position = elim (find_region place places) [
  | none ↦ verdict "UNKNOWN" ("place region not found: " <> place) zero_float
  | some region ↦ inside place (contains near region position) (of_ℕ 1)
]

-- The evidence for a place: an entity that is not marked as out of sight, with a position in the
-- region.
abbrev pub InRegion : Builtins → Near → PlaceRegion → Value → Type 0
InRegion py near region value =
    (¬ ((visible_from_value py value).0 ≡ "FALSE"))
    × ((p : Position) × (position_from_value py value ≡ some p) × (contains near region p ≡ true))
