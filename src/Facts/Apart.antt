-- ===== src/Facts/Apart.antt =====
-- mc_ai_bt/world_facts.py: the places that the updates of one execution write.
use mathlib.Core.List.{append-nil}
use mc_ai_bt.Common.{String, false, Option, none, some, List, [], ◌∷◌, ◌≡◌, refl, All}
use mc_ai_bt.Json.{Value, Fields, Runtime, get}
use mc_ai_bt.Validator.Resources.{among}
use mc_ai_bt.Facts.{
  text_update, dict_update, true_update, person_update, world_fact_updates_for_execution, first_of,
}
use mc_ai_bt.Facts.Address.{
  Single, text_update-Single, dict_update-Single, true_update-Single, person_update-Single,
}
use mc_ai_bt.Facts.Places.{Chunk, flatten, flatten-Distinct, flatten-harmless, Distinct, overwrites}

abbrev dict_chunk : String → String → String → Option Value → Chunk
dict_chunk source scope key v = ((scope, some key), dict_update source scope key v)

abbrev text_chunk : Runtime → String → String → String → Option Value → Chunk
text_chunk rt source scope key v = ((scope, some key), text_update rt source scope key v)

abbrev chunks : Runtime → Fields → List Chunk
chunks rt facts =
    text_chunk rt "mc_ai_bt.skill.go_to_place" "navigation" "current_place"
      (get "robot_at_place" facts)
    ∷ (
      ("robot", some "near_interaction_owner"),
      true_update "mc_ai_bt.skill.come_to_me" "robot" "near_interaction_owner"
          (get "robot_near_interaction_owner" facts),
    )
    ∷ dict_chunk "mc_ai_bt.skill.simple_move" "robot" "last_relative_motion"
        (get "relative_motion_completed" facts)
    ∷ text_chunk rt "mc_ai_bt.skill.animation" "robot" "last_animation"
        (get "animation_played" facts)
    ∷ text_chunk rt "mc_ai_bt.skill.say" "robot" "last_utterance" (get "say_submitted" facts)
    ∷ dict_chunk "mc_ai_bt.skill.human_confirmation" "tasks" "last_human_confirmation"
        (get "human_confirmation" facts)
    ∷ dict_chunk "mc_ai_bt.skill.embodied" "robot" "contact_detected" (get "contact_detected" facts)
    ∷ dict_chunk "mc_ai_bt.skill.embodied" "robot" "target_state_changed"
        (get "target_state_changed" facts)
    ∷ dict_chunk "mc_ai_bt.skill.embodied" "robot" "distance_maintained"
        (get "distance_maintained" facts)
    ∷ dict_chunk "mc_ai_bt.skill.follow_entity" "entities" "following"
        (first_of (get "entity_following" facts) (get "person_following" facts))
    ∷ dict_chunk "mc_ai_bt.skill.guide_entity_to_place" "entities" "entity_at_place"
        (first_of (get "entity_at_place" facts) (get "person_at_place" facts))
    ∷ (("people_names", none), person_update rt (get "person_named" facts))
    ∷ []

chunks-Single : (rt : Runtime) (facts : Fields) → All (λ c. Single c.0 c.1) (chunks rt facts)
chunks-Single rt facts = (
  text_update-Single rt _ _ _ _,
  (
    true_update-Single _ _ _ _,
    (
      dict_update-Single _ _ _ _,
      (
        text_update-Single rt _ _ _ _,
        (
          text_update-Single rt _ _ _ _,
          (
            dict_update-Single _ _ _ _,
            (
              dict_update-Single _ _ _ _,
              (
                dict_update-Single _ _ _ _,
                (
                  dict_update-Single _ _ _ _,
                  (
                    dict_update-Single _ _ _ _,
                    (dict_update-Single _ _ _ _, (person_update-Single rt _, tt)),
                  ),
                ),
              ),
            ),
          ),
        ),
      ),
    ),
  ),
)

flatten-chunks :
    (rt : Runtime) (facts : Fields)
    → world_fact_updates_for_execution rt facts ≡ flatten (chunks rt facts)
unfolding world_fact_updates_for_execution
flatten-chunks rt facts = rw (append-nil (person_update rt (get "person_named" facts))) refl

-- The updates of one execution write different places of the world state, so none undoes another, and
-- none writes over a fact that the embodied skills verify and write themselves.
pub updates_keep_apart :
    (rt : Runtime) (facts : Fields)
    → Distinct (world_fact_updates_for_execution rt facts)
      × All (λ u. overwrites u.scope u.key ≡ false) (world_fact_updates_for_execution rt facts)
unfolding among
updates_keep_apart rt facts =
    let singles = chunks-Single rt facts in
    rw (flatten-chunks rt facts) (
      flatten-Distinct (chunks rt facts) refl singles,
      flatten-harmless (chunks rt facts) refl singles,
    )
