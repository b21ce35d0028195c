-- ===== src/Goal/Registry.antt =====
-- mc_ai_bt/goal_check.py: `PREDICATE_REGISTRY`, the predicates that a goal can name.
use mc_ai_bt.Common.{
  String, Bool, true, false, ◌==◌, Option, none, some, List, [], ◌∷◌, if◌then◌else◌, map, ◌≡◌, refl,
  ◌++◌,
}
use mc_ai_bt.Validator.Checks.{known_predicate_names}

pub record PredicateSpec : Type 0 where
  pub name : String
  pub scopes : List String
  pub snapshot_scope : String
  pub execution_only : Bool
  pub never_resolves_false : Bool

abbrev spec : String → List String → String → PredicateSpec
spec name scopes scope = record {
  name = name;
  scopes = scopes;
  snapshot_scope = scope;
  execution_only = false;
  never_resolves_false = false;
}

-- `execution_only=True`
abbrev executed : String → List String → String → PredicateSpec
executed name scopes scope = record (spec name scopes scope) { execution_only = true }

abbrev regions : List String
regions = "places" ∷ "place_regions" ∷ []

abbrev people_interactions : List String
people_interactions = "people" ∷ "interactions" ∷ []

abbrev seen_scopes : List String
seen_scopes = "objects" ∷ "people" ∷ "entities" ∷ []

abbrev pub predicate_registry : List PredicateSpec
predicate_registry =
    spec "robot_at_place" ("navigation" ∷ []) "navigation"
    ∷ spec "robot_near_interaction_owner" ("people" ∷ "robot" ∷ []) "robot"
    ∷ spec "relative_motion_completed" ("robot" ∷ []) "robot"
    ∷ spec "animation_played" ("robot" ∷ []) "robot"
    ∷ spec "object_visible" ("objects" ∷ []) "objects"
    ∷ spec "person_visible" ("people" ∷ []) "people"
    ∷ spec "person_at_place" ("people" ∷ regions) "people"
    ∷ spec "object_at_place" ("objects" ∷ regions) "objects"
    ∷ spec "entity_following" ("entities" ∷ "people" ∷ "objects" ∷ []) "entities"
    ∷ spec "person_following" ("people" ∷ []) "people"
    ∷ executed "entity_at_place" ("entities" ∷ "people" ∷ regions) "entities"
    ∷ executed "reach_completed" ("robot" ∷ "objects" ∷ people_interactions) "robot"
    ∷ executed "track_entity_arm_completed" ("robot" ∷ "objects" ∷ "people" ∷ "entities" ∷ [])
        "robot"
    ∷ executed "contact_detected" ("robot" ∷ "objects" ∷ people_interactions) "robot"
    ∷ executed "target_state_changed" ("robot" ∷ "objects" ∷ "interactions" ∷ []) "robot"
    ∷ executed "axis_aligned" ("robot" ∷ "objects" ∷ "interactions" ∷ []) "robot"
    ∷ executed "axis_motion_completed" ("robot" ∷ "objects" ∷ "interactions" ∷ []) "robot"
    ∷ executed "distance_maintained" ("robot" ∷ "entities" ∷ "people" ∷ "objects" ∷ []) "robot"
    ∷ executed "pose_held" ("robot" ∷ "objects" ∷ people_interactions) "robot"
    ∷ executed "oscillation_completed" ("robot" ∷ "objects" ∷ people_interactions) "robot"
    ∷ executed "retracted" ("robot" ∷ []) "robot"
    ∷ executed "touch_completed" ("robot" ∷ "objects" ∷ people_interactions) "robot"
    ∷ executed "human_confirmation" ("tasks" ∷ []) "tasks"
    ∷ executed "entity_located" seen_scopes "objects"
    ∷ executed "pose_available" seen_scopes "objects"
    ∷ executed "relation_checked" seen_scopes "objects"
    ∷ executed "search_for_entity_completed" seen_scopes "objects"
    ∷ executed "entity_approached" seen_scopes "objects"
    ∷ executed "participant_ready" ("people" ∷ []) "people"
    ∷ executed "entity_faced" ("robot" ∷ seen_scopes) "robot"
    ∷ executed "person_named" ("people" ∷ "people_names" ∷ []) "people_names"
    ∷ executed "room_scanned" ("people" ∷ []) "people"
    ∷ spec "entity_alias_bound" ("entity_aliases" ∷ []) "entity_aliases"
    ∷ record (executed "visual_check_completed" seen_scopes "objects") {
      never_resolves_false = true;
    }
    ∷ []

-- `registry.get(predicate)`
unfoldable pub find_spec : String → List PredicateSpec → Option PredicateSpec
find_spec name [] = none
find_spec name (s ∷ specs) = if s.name == name then some s else find_spec name specs

unfoldable pub spec_of : String → Option PredicateSpec
unfolding find_spec
spec_of name = find_spec name predicate_registry

-- `_scopes_for_predicate`
unfoldable pub scopes_for_predicate : String → List String
unfolding spec_of
scopes_for_predicate name = elim (spec_of name) [ none ↦ [] | some s ↦ s.scopes ]

-- The validator knows these names and one more.
known_names :
    map (λ (s : PredicateSpec). s.name) predicate_registry ++ ("place_remembered" ∷ [])
    ≡ known_predicate_names
known_names = refl
