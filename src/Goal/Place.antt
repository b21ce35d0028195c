-- ===== src/Goal/Place.antt =====
-- mc_ai_bt/place_predicates.py: the predicates about places, for the evaluator of place regions, which
-- is an argument.
use mc_ai_bt.Common.{String, ◌==◌, [], ◌∷◌, if◌then◌else◌}
use mc_ai_bt.Common.Float.{Float}
use mc_ai_bt.Common.Text.{strip, starts_with, or_text, ◌<>◌}
use mc_ai_bt.Json.{str, Fields}
use mc_ai_bt.Json.Builtins.{Builtins, text_of_keys}
use mc_ai_bt.Executor.{put_fact}
use mc_ai_bt.Entity.{
  normalise_entity_name, object_fact_key, object_name_from_args, person_id_from_args,
}

pub record PlacePredicateResult : Type 0 where
  pub state : String
  pub reason : String
  pub confidence : Float

-- `_normalise_person_id` and `_normalise_object_id`
unfoldable pub normalise_person_id : Builtins → String → String
normalise_person_id py raw =
    let value = strip raw in
    if value == ""
    then ""
    else if starts_with "person:" value
    then value
    else "person:" <> normalise_entity_name py value

unfoldable pub normalise_object_id : Builtins → String → String
normalise_object_id py raw =
    let value = strip raw in
    if value == ""
    then ""
    else if starts_with "object:" value
    then value
    else object_fact_key py value

-- `if text: normalised[key] = text`
abbrev put_text : String → String → Fields → Fields
put_text key text d = if text == "" then d else put_fact key (str text) d

abbrev place_name : Builtins → Fields → String
place_name py args = strip (text_of_keys py ("place" ∷ "place_name" ∷ []) args)

abbrev object_id : Builtins → Fields → String
object_id py args = normalise_object_id py (
    or_text (strip (text_of_keys py ("object_id" ∷ "id" ∷ []) args))
      (object_name_from_args py args))

-- `_normalise_place_args`
unfoldable pub normalise_place_args : Builtins → String → Fields → Fields
normalise_place_args py predicate args =
    let placed = put_text "place" (place_name py args) args in
    if predicate == "person_at_place"
    then put_text "person_id" (normalise_person_id py (person_id_from_args py args)) placed
    else if predicate == "object_at_place"
    then put_text "object_id" (object_id py args) placed
    else placed

-- `evaluate_place_predicate`, for the evaluator built from the facts.
unfoldable pub evaluate_place_predicate :
    Builtins
    → (Fields → String → Fields → PlacePredicateResult)
    → Fields
    → String
    → Fields
    → PlacePredicateResult
evaluate_place_predicate py evaluate facts predicate args =
    evaluate facts predicate (normalise_place_args py predicate args)
