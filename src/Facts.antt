-- ===== src/Facts.antt =====
-- mc_ai_bt/world_facts.py: which facts of an execution are written to the world state.
pub mod Address
pub mod Places
pub mod Apart
mod Tests
use mc_ai_bt.Common.{
  String, Bool, true, false, not, ◌==◌, Option, none, some, List, [], ◌∷◌, ◌++◌, if◌then◌else◌,
}
use mc_ai_bt.Common.Text.{strip}
use mc_ai_bt.Json.{
  Value, null, bool, str, dict, Fields, end, field, Runtime, get, truthy, text_or_empty, text_of,
}

pub record WorldFactUpdate : Type 0 where
  pub source : String
  pub scope : String
  pub key : String
  pub value : Value
  pub merge : Bool

-- `WorldFactUpdate(source, scope, key, value)`
abbrev pub fact_update : String → String → String → Value → WorldFactUpdate
fact_update source scope key value = record {
  source = source;
  scope = scope;
  key = key;
  value = value;
  merge = false;
}

-- `str(value or "").strip()`, if it is not empty.
unfoldable pub text_update :
    Runtime → String → String → String → Option Value → List WorldFactUpdate
unfolding strip text_or_empty
text_update rt source scope key v =
    let text = strip (text_or_empty rt v) in
    if text == "" then [] else fact_update source scope key (str text) ∷ []

-- `isinstance(value, dict) and value`
unfoldable pub dict_update : String → String → String → Option Value → List WorldFactUpdate
unfolding truthy
dict_update source scope key (some (dict d)) =
    if truthy (dict d) then fact_update source scope key (dict d) ∷ [] else []
dict_update source scope key v = []

-- `value is True`
unfoldable pub true_update : String → String → String → Option Value → List WorldFactUpdate
true_update source scope key (some (bool true)) = fact_update source scope key (bool true) ∷ []
true_update source scope key v = []

-- `a or b`, where `none` is a missing key.
abbrev pub first_of : Option Value → Option Value → Option Value
first_of none w = w
first_of (some v) w = if truthy v then some v else w

abbrev pub named_person : Runtime → Value → Value → WorldFactUpdate
named_person rt person_id name =
    fact_update "mc_ai_bt.skill.remember_person" "people_names" (text_of rt person_id) (
      dict
        (field "person_id" (str (text_of rt person_id)) (field "name" (str (text_of rt name)) end)))

abbrev pub named_update : Runtime → Option Value → Option Value → List WorldFactUpdate
named_update rt (some person_id) (some name) =
    if truthy person_id
    then (if truthy name then named_person rt person_id name ∷ [] else [])
    else []
named_update rt person_id name = []

unfoldable pub person_update : Runtime → Option Value → List WorldFactUpdate
unfolding get truthy text_of
person_update rt (some (dict d)) = named_update rt (get "person_id" d) (get "name" d)
person_update rt v = []

abbrev pub embodied : String → Fields → List WorldFactUpdate
embodied key facts = dict_update "mc_ai_bt.skill.embodied" "robot" key (get key facts)

abbrev pub place_update : Runtime → Fields → List WorldFactUpdate
place_update rt facts =
    text_update rt "mc_ai_bt.skill.go_to_place" "navigation" "current_place"
      (get "robot_at_place" facts)

abbrev pub near_update : Fields → List WorldFactUpdate
near_update facts =
    true_update "mc_ai_bt.skill.come_to_me" "robot" "near_interaction_owner"
      (get "robot_near_interaction_owner" facts)

abbrev pub motion_update : Fields → List WorldFactUpdate
motion_update facts =
    dict_update "mc_ai_bt.skill.simple_move" "robot" "last_relative_motion"
      (get "relative_motion_completed" facts)

abbrev pub animation_update : Runtime → Fields → List WorldFactUpdate
animation_update rt facts =
    text_update rt "mc_ai_bt.skill.animation" "robot" "last_animation"
      (get "animation_played" facts)

-- The part of the function from `say_submitted` on.
abbrev pub later_updates : Runtime → Fields → List WorldFactUpdate
later_updates rt facts =
    text_update rt "mc_ai_bt.skill.say" "robot" "last_utterance" (get "say_submitted" facts)
    ++ (dict_update "mc_ai_bt.skill.human_confirmation" "tasks" "last_human_confirmation"
          (get "human_confirmation" facts)
        ++ (embodied "contact_detected" facts
            ++ (embodied "target_state_changed" facts
                ++ (embodied "distance_maintained" facts
                    ++ (dict_update "mc_ai_bt.skill.follow_entity" "entities" "following"
                          (first_of (get "entity_following" facts) (get "person_following" facts))
                        ++ (dict_update "mc_ai_bt.skill.guide_entity_to_place" "entities"
                              "entity_at_place"
                              (first_of (get "entity_at_place" facts) (get "person_at_place" facts))
                            ++ person_update rt (get "person_named" facts)))))))

unfoldable pub world_fact_updates_for_execution : Runtime → Fields → List WorldFactUpdate
unfolding get truthy text_update dict_update true_update person_update
world_fact_updates_for_execution rt facts =
    place_update rt facts
    ++ (near_update facts
        ++ (motion_update facts ++ (animation_update rt facts ++ later_updates rt facts)))
