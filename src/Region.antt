-- ===== src/Region.antt =====
-- mc_ai_bt/place_region_predicates.py: where an entity or a pose is, by the regions of the known
-- places. Goal/World.antt takes `evaluate` here as its evaluator of place predicates.
pub mod Verdict
mod Tests
use mc_ai_bt.Common.{
  ℕ, ◌*◌, ◌^◌, String, Bool, true, false, not, ◌==◌, ◌||◌, ◌&&◌, Option, none, some, List, [], ◌∷◌,
  if◌then◌else◌,
}
use mc_ai_bt.Common.Int.{pos}
use mc_ai_bt.Common.Float.{Float, finite, zero_float, of_ℕ, ltb_float, clamp_unit}
use mc_ai_bt.Common.Text.{◌<>◌, strip, remove_prefix}
use mc_ai_bt.Json.{Value, bool, str, dict, Fields, end, field, get, truthy, text_of, text_or_empty}
use mc_ai_bt.Json.Builtins.{Builtins, get_or_null, has_key, if_dict, text_of_keys}
use mc_ai_bt.Entity.{normalise_entity_name, fact_value}
use mc_ai_bt.Goal.Place.{PlacePredicateResult}

-- A state and a confidence.
abbrev pub Seen : Type 0
Seen = String × Float

-- `_confidence`, where `none` is what raises a TypeError or a ValueError.
abbrev confidence_of : Option Float → Float
confidence_of none = zero_float
confidence_of (some x) = clamp_unit x

-- `_confidence(value.get("confidence", default))`
unfoldable pub confidence_or : Builtins → Float → Fields → Float
unfolding get clamp_unit
confidence_or py default d = elim (get "confidence" d) [
  | none ↦ confidence_of (some default)
  | some v ↦ confidence_of (py.to_float v)
]

abbrev is_state : String → Bool
is_state s = s == "TRUE" || s == "FALSE" || s == "UNKNOWN"

-- `str(value or "").strip().upper()`
abbrev state_text : Builtins → Option Value → String
state_text py v = py.upper (strip (text_or_empty py.rt v))

-- The state that the text of a value spells.
unfoldable pub spelt_state : Builtins → Value → Seen
unfolding text_or_empty strip
spelt_state py v =
    let text = state_text py (some v) in
    if is_state text then (text, of_ℕ 1) else ("UNKNOWN", zero_float)

-- `tri_state`
unfoldable pub tri_state : Builtins → Value → Seen
unfolding get text_or_empty strip confidence_or spelt_state
tri_state py (bool true) = ("TRUE", of_ℕ 1)
tri_state py (bool false) = ("FALSE", of_ℕ 1)
tri_state py (dict d) =
    let state = state_text py (get "state" d) in
    if is_state state then (state, confidence_or py zero_float d) else spelt_state py (dict d)
tri_state py v = spelt_state py v

-- The state of an object without `visible`, by its coverage.
unfoldable pub covered : Builtins → Fields → Seen
unfolding get text_or_empty strip confidence_or
covered py d =
    let coverage = py.lower (strip (text_or_empty py.rt (get "coverage" d))) in
    if coverage == "seen_in_camera" || coverage == "visible"
    then ("TRUE", confidence_or py (of_ℕ 1) d)
    else if coverage == "outside_fov" || coverage == "occluded"
    then ("UNKNOWN", confidence_or py zero_float d)
    else ("UNKNOWN", zero_float)

-- `visible_from_value`
unfoldable pub visible_from_value : Builtins → Value → Seen
unfolding get tri_state covered
visible_from_value py (dict d) = elim (get "visible" d) [
  | some v ↦ tri_state py v
  | none ↦ covered py d
]
visible_from_value py (bool true) = ("TRUE", of_ℕ 1)
visible_from_value py (bool false) = ("FALSE", of_ℕ 1)
visible_from_value py v = ("UNKNOWN", zero_float)

pub record Position : Type 0 where
  pub frame : String
  pub x : Float
  pub y : Float
  pub z : Float

-- `str(value or default)`
unfoldable pub text_else : Builtins → String → Option Value → String
unfolding truthy text_of
text_else py default none = default
text_else py default (some v) = if truthy v then text_of py.rt v else default

-- `str(a or b or "map")`
abbrev frame_of : Builtins → Option Value → Option Value → String
frame_of py a b = text_else py (text_else py "map" b) a

-- `float(d.get("z", 0.0))`
unfoldable pub height : Builtins → Fields → Option Float
unfolding get
height py d = elim (get "z" d) [ none ↦ some zero_float | some v ↦ py.to_float v ]

-- The three numbers, or `none` where one of them cannot be read.
abbrev at_numbers :
    {A : Type 0}
    → Option Float
    → Option Float
    → Option Float
    → (Float → Float → Float → A)
    → Option A
at_numbers (some x) (some y) (some z) make = some (make x y z)
at_numbers x y z make = none

-- `position_from_value`
unfoldable pub position_from_value : Builtins → Value → Option Position
unfolding get get_or_null height text_else
position_from_value py (dict d) = elim (get "position" d) [
  | some (dict p) ↦
      at_numbers (py.to_float (get_or_null "x" p)) (py.to_float (get_or_null "y" p)) (height py p)
        (λ x y z. record {
          frame = frame_of py (get "frame" p) (get "frame_id" d);
          x = x;
          y = y;
          z = z;
        })
  | other ↦ none
]
position_from_value py v = none

pub record PlaceRegion : Type 0 where
  pub name : String
  pub frame_id : String
  pub x : Float
  pub y : Float
  pub z : Float
  pub occupancy_radius_m : Float

-- `math.hypot(x1 - x2, y1 - y2) <= radius` of Python's floats.
abbrev pub Near : Type 0
Near = Float → Float → Float → Float → Float → Bool

-- `PlaceRegion.contains`
unfoldable pub contains : Near → PlaceRegion → Position → Bool
contains near region position =
    if not (position.frame == "")
      && not (region.frame_id == "")
      && not (position.frame == region.frame_id)
    then false
    else near position.x region.x position.y region.y region.occupancy_radius_m

-- The object that has the coordinates: `nav_pose or position or value`.
abbrev source_of : Fields → Fields
source_of d = elim (if_dict (get "nav_pose" d)) [
  | field k v rest ↦ field k v rest
  | end ↦ elim (if_dict (get "position" d)) [ field k v rest ↦ field k v rest | end ↦ d ]
]

-- `float(value.get("occupancy_radius_m", 2.0) or 2.0)`, and 2.0 where it cannot be read.
unfoldable pub given_radius : Builtins → Option Value → Float
unfolding truthy
given_radius py none = of_ℕ 2
given_radius py (some v) =
    if truthy v then elim (py.to_float v) [ none ↦ of_ℕ 2 | some x ↦ x ] else of_ℕ 2

-- At least 0.1, the double next to it.
unfoldable pub radius_of : Builtins → Fields → Float
unfolding get given_radius
radius_of py d =
    let radius = given_radius py (get "occupancy_radius_m" d) in
    let least = finite (pos (3602879701896397 * 2 ^ 1019)) in
    if ltb_float least radius then radius else least

-- `place_region_from_value`
unfoldable pub place_region_from_value : Builtins → String → Value → Option PlaceRegion
unfolding get text_else strip get_or_null height radius_of
place_region_from_value py name (dict d) =
    let region_name = strip (text_else py name (get "name" d)) in
    let source = source_of d in
    if region_name == ""
    then none
    else at_numbers (py.to_float (get_or_null "x" source)) (py.to_float (get_or_null "y" source))
        (height py source)
        (λ x y z. record {
          name = region_name;
          frame_id = frame_of py (get "frame_id" d) (get "frame" source);
          x = x;
          y = y;
          z = z;
          occupancy_radius_m = radius_of py d;
        })
place_region_from_value py name v = none

-- `PlaceRegionIndex`, the regions by their names, the latest first.
abbrev pub PlaceRegionIndex : Type 0
PlaceRegionIndex = List PlaceRegion

-- `upsert_from_fact`
abbrev upsert : Option PlaceRegion → PlaceRegionIndex → PlaceRegionIndex
upsert none places = places
upsert (some region) places = region ∷ places

-- `PlaceRegionIndex.get`
unfoldable pub find_region : String → PlaceRegionIndex → Option PlaceRegion
find_region name [] = none
find_region name (region ∷ places) =
    let others = find_region name places in if region.name == name then some region else others

-- The regions of one scope.
unfoldable pub regions_of_scope : Builtins → Fields → PlaceRegionIndex → PlaceRegionIndex
unfolding place_region_from_value fact_value
regions_of_scope py end places = places
regions_of_scope py (field key entry rest) places =
    regions_of_scope py rest (upsert (place_region_from_value py key (fact_value entry)) places)

-- `place_regions_from_facts`
unfoldable pub place_regions_from_facts : Builtins → Fields → PlaceRegionIndex
unfolding regions_of_scope get
place_regions_from_facts py facts =
    regions_of_scope py (if_dict (get "place_regions" facts))
      (regions_of_scope py (if_dict (get "places" facts)) [])

-- One of the fields that identify an entity names it.
unfoldable pub is_called : Builtins → String → List String → Fields → Bool
unfolding get text_or_empty remove_prefix normalise_entity_name
is_called py wanted [] value = false
is_called py wanted (key ∷ keys) value =
    let rest = is_called py wanted keys value in
    elim (get key value) [
      | none ↦ rest
      | some v ↦
          (normalise_entity_name py
              (remove_prefix "person:" (remove_prefix "object:" (text_or_empty py.rt (some v))))
            == wanted)
          || rest
    ]

abbrev is_entry : Builtins → String → Value → Bool
is_entry py wanted (dict value) =
    is_called py wanted
      ("object_name" ∷ "object_id" ∷ "person_id" ∷ "name" ∷ "id" ∷ "track_id" ∷ []) value
is_entry py wanted v = false

-- The loop over the entries.
unfoldable pub search_entity : Builtins → String → Fields → Option Value
unfolding is_called fact_value
search_entity py wanted end = none
search_entity py wanted (field key entry rest) =
    let later = search_entity py wanted rest in
    if is_entry py wanted (fact_value entry) then some entry else later

-- The first of the keys that is there.
unfoldable pub first_key : List String → Fields → Option Value
unfolding get
first_key [] d = none
first_key (key ∷ keys) d =
    let rest = first_key keys d in elim (get key d) [ some v ↦ some v | none ↦ rest ]

-- `_find_entity`
unfoldable pub find_entity : Builtins → Fields → String → Option Value
unfolding first_key remove_prefix search_entity normalise_entity_name
find_entity py scoped id =
    if id == ""
    then none
    else elim (first_key (id ∷ remove_prefix "person:" id ∷ remove_prefix "object:" id ∷ [])
        scoped) [
          | some v ↦ some v
          | none ↦
              search_entity py
                (normalise_entity_name py (remove_prefix "object:" (remove_prefix "person:" id)))
                scoped
        ]
