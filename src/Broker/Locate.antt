-- ===== src/Broker/Locate.antt =====
-- LiveObjectLocator of mc_ai_bt/decision_broker.py: the query for an object, over the replies of the
-- perception service.
use mc_ai_bt.Common.{
  ℕ, suc, String, Bool, true, false, not, ◌==◌, ◌||◌, ◌&&◌, Option, none, some, List, [], ◌∷◌,
  length, if◌then◌else◌,
}
use mc_ai_bt.Common.Float.{Float}
use mc_ai_bt.Common.Text.{◌<>◌, strip, or_text, contains}
use mc_ai_bt.Json.Builtins.{Builtins}
use mc_ai_bt.Validator.Resources.{among}

pub record Sighting : Type 0 where
  pub x : Float
  pub y : Float
  pub z : Float
  pub score : Float
  pub available : List String
  pub match_count : ℕ

-- `LocateResult`; a query that found nothing may still say what is visible.
pub data Located : Type 0 where
  found : Sighting → Located
  not_found : Option (List String) → String → Located
  inconclusive : String → Located

-- An object of a reply, and a reply: the call may fail.
pub record Spot : Type 0 where
  pub x : Float
  pub y : Float
  pub z : Float
  pub score : Float

pub data Reply : Type 0 where
  lost : String → Reply
  reply : Bool → String → List String → List Spot → Reply

-- `_call`
unfoldable pub call_result : String → Reply → Located
call_result name (lost message) =
    inconclusive (name <> ": localize_object call failed: " <> message)
call_result name (reply false message available spots) =
    inconclusive (or_text message (name <> ": query failed"))
call_result name (reply true message available []) =
    not_found (some available) (or_text message (name <> ": not found"))
call_result name (reply true message available (nearest ∷ spots)) = found (record {
  x = nearest.x;
  y = nearest.y;
  z = nearest.z;
  score = nearest.score;
  available = available;
  match_count = length (nearest ∷ spots);
})

-- The loop of `_match_available_classes`; a word of the target is also a part of it.
unfoldable pub matching : Builtins → String → List String → List String → List String
unfolding strip among contains
matching py lowered seen [] = []
matching py lowered seen (name ∷ available) =
    let lower = py.lower (strip name) in
    let taken =
      not (lower == "" || among lower seen)
      && (lower == lowered || contains lower lowered || contains lowered lower) in
    let rest = matching py lowered (if taken then lower ∷ seen else seen) available in
    if taken then name ∷ rest else rest

-- `_match_available_classes`
unfoldable pub match_available_classes : Builtins → String → List String → List String
unfolding matching strip
match_available_classes py target available =
    let lowered = py.lower (strip target) in
    if lowered == "" then [] else matching py lowered [] available

-- The loop over the candidates; the replies are those to the calls by their number.
unfoldable pub try_candidates : (ℕ → Reply) → ℕ → Located → List String → Located
unfolding call_result
try_candidates replies n last [] = last
try_candidates replies n last (name ∷ names) =
    let rest = try_candidates replies (suc n) (call_result name (replies n)) names in
    elim (call_result name (replies n)) [
      | inconclusive reason ↦ inconclusive reason
      | found s ↦ found s
      | not_found available reason ↦ rest
    ]

-- `", ".join(names)`
abbrev joined : List String → String
joined [] = ""
joined (x ∷ []) = x
joined (x ∷ y ∷ names) = x <> ", " <> joined (y ∷ names)

abbrev nothing_matches : String → List String → Located
nothing_matches target [] = not_found none (target <> ": nothing currently visible")
nothing_matches target available =
    not_found none (target <> ": not among currently visible objects (" <> joined available <> ")")

abbrev among_candidates : (ℕ → Reply) → String → List String → List String → Located
among_candidates replies target available [] = nothing_matches target available
among_candidates replies target available candidates =
    try_candidates replies 1 (not_found none (target <> ": not found")) candidates

-- The search among what the first query says is visible.
abbrev after_probe : Builtins → (ℕ → Reply) → String → Located → Located
after_probe py replies target (inconclusive reason) = inconclusive reason
after_probe py replies target (found s) =
    among_candidates replies target s.available (match_available_classes py target s.available)
after_probe py replies target (not_found (some available) reason) =
    among_candidates replies target available (match_available_classes py target available)
after_probe py replies target (not_found none reason) =
    among_candidates replies target [] (match_available_classes py target [])

-- `locate`, for a service that is ready or not.
unfoldable pub locate : Builtins → Bool → (ℕ → Reply) → String → Located
unfolding strip call_result match_available_classes try_candidates
locate py ready replies raw =
    let target = strip raw in
    if target == ""
    then inconclusive "empty target"
    else if ready
    then after_probe py replies target (call_result "person" (replies 0))
    else inconclusive "object localization service unavailable"
