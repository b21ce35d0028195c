-- ===== src/Skill.antt =====
-- mc_ai_bt/skill_registry.py: the table of skills, the registry over it, and what follows from it.
-- The descriptions and argument schemas are texts for the planner's prompt and are left out.
mod Tests
use mc_ai_bt.Common.{
  String, Bool, true, false, not, ◌==◌, Option, none, some, List, [], ◌∷◌, ◌++◌, if◌then◌else◌, map,
}
use mc_ai_bt.Common.Order.{lt_text}
use mc_ai_bt.Common.Sort.{sort}
use mc_ai_bt.Validator.Resources.{Skills}

pub record SkillSpec : Type 0 where
  pub name : String
  pub resources : List String
  pub result_predicates : List String
  pub realtime : Bool
  pub dispatch : String
  pub status : String
  pub subsumes_locate_skills : List String
  pub resolves_own_target_acquisition : Bool
  pub resolves_alias_with_scan : Bool

-- An entry with the defaults of the other fields.
abbrev skill : String → List String → List String → SkillSpec
skill name resources predicates = record {
  name = name;
  resources = resources;
  result_predicates = predicates;
  realtime = false;
  dispatch = "embodied";
  status = "available";
  subsumes_locate_skills = [];
  resolves_own_target_acquisition = false;
  resolves_alias_with_scan = false;
}

-- The first entries: looking, searching and most arm skills.
abbrev seeing_and_arm_skills : List SkillSpec
seeing_and_arm_skills =
    skill "locate_entity" ("base" ∷ []) ("entity_located" ∷ [])
    ∷ skill "track_entity" ("gaze" ∷ []) ("track_entity_completed" ∷ [])
    ∷ skill "track_frame" ("gaze" ∷ []) ("track_completed" ∷ [])
    ∷ skill "get_pose" ("base" ∷ []) ("pose_available" ∷ [])
    ∷ skill "check_relation" [] ("relation_checked" ∷ [])
    ∷ record (skill "search_for_entity" ("base" ∷ "gaze" ∷ [])
        ("search_for_entity_completed" ∷ [])) { realtime = true }
    ∷ skill "look_at_static" ("gaze" ∷ []) ("look_at_static_completed" ∷ [])
    ∷ skill "track_with_gaze" ("gaze" ∷ []) ("track_with_gaze_completed" ∷ [])
    ∷ record (skill "reach_to" ("right_arm" ∷ []) ("reach_completed" ∷ [])) { realtime = true }
    ∷ record (skill "track_entity_arm" ("right_arm" ∷ []) ("track_entity_arm_completed" ∷ [])) {
      realtime = true;
    }
    ∷ record (skill "align_axis" ("right_arm" ∷ []) ("axis_aligned" ∷ [])) {
      realtime = true;
      status = "blocked";
    }
    ∷ record (skill "move_along_axis" ("right_arm" ∷ []) ("axis_motion_completed" ∷ [])) {
      realtime = true;
      status = "blocked";
    }
    ∷ []

-- The entries from `maintain_distance` on.
abbrev reaching_and_base_skills : List SkillSpec
reaching_and_base_skills =
    record (skill "maintain_distance" ("base" ∷ []) ("distance_maintained" ∷ [])) {
      realtime = true;
      status = "blocked";
    }
    ∷ record (skill "hold_pose" ("right_arm" ∷ []) ("pose_held" ∷ [])) { realtime = true }
    ∷ record (skill "wait_for_contact" ("right_arm" ∷ []) ("contact_detected" ∷ [])) {
      realtime = true;
      status = "blocked";
    }
    ∷ record (skill "detect_contact" ("right_arm" ∷ []) ("contact_detected" ∷ [])) {
      realtime = true;
      status = "blocked";
    }
    ∷ record (skill "oscillate" ("right_arm" ∷ []) ("oscillation_completed" ∷ [])) {
      realtime = true;
    }
    ∷ record (skill "retract" ("right_arm" ∷ []) ("retracted" ∷ [])) { realtime = true }
    ∷ record (skill "touch_entity" ("right_arm" ∷ []) ("touch_completed" ∷ [])) { realtime = true }
    ∷ record (skill "go_to_place" ("base" ∷ []) ("robot_at_place" ∷ [])) { dispatch = "dedicated" }
    ∷ record (skill "approach_entity" ("base" ∷ []) ("entity_approached" ∷ [])) {
      resolves_alias_with_scan = true;
    }
    ∷ skill "face_entity" ("base" ∷ []) ("entity_faced" ∷ [])
    ∷ record (skill "follow_entity" ("base" ∷ []) ("entity_following" ∷ [])) { realtime = true }
    ∷ record (skill "remember_place" [] ("place_remembered" ∷ [])) { dispatch = "dedicated" }
    ∷ []

-- The entries that find their target themselves.
abbrev remembering_skills : List SkillSpec
remembering_skills =
    record (skill "remember_person" ("base" ∷ "gaze" ∷ []) ("person_named" ∷ [])) {
      subsumes_locate_skills = "search_for_entity" ∷ "locate_entity" ∷ [];
      resolves_own_target_acquisition = true;
    }
    ∷ record (skill "remember_entity" ("base" ∷ "gaze" ∷ []) ("entity_alias_bound" ∷ [])) {
      subsumes_locate_skills = "search_for_entity" ∷ "locate_entity" ∷ [];
      resolves_own_target_acquisition = true;
    }
    ∷ skill "scan_room" ("base" ∷ "gaze" ∷ []) ("room_scanned" ∷ [])
    ∷ []

-- The entries from `guide_entity_to_place` on.
abbrev remaining_skills : List SkillSpec
remaining_skills =
    record (skill "guide_entity_to_place" ("base" ∷ []) ("entity_at_place" ∷ [])) {
      realtime = true;
    }
    ∷ skill "wait_for_participant" [] ("participant_ready" ∷ [])
    ∷ record (skill "say" ("voice" ∷ "face" ∷ []) ("say_submitted" ∷ [])) { dispatch = "voice" }
    ∷ record (skill "request_human_confirmation" [] ("human_confirmation" ∷ [])) {
      dispatch = "dedicated";
    }
    ∷ record (skill "simple_move" ("base" ∷ []) ("relative_motion_completed" ∷ [])) {
      dispatch = "dedicated";
    }
    ∷ record (skill "play_animation" ("body" ∷ []) ("animation_played" ∷ [])) {
      dispatch = "dedicated";
    }
    ∷ record (skill "look_at" ("body" ∷ [])
        ("look_at_static_completed" ∷ "animation_played" ∷ [])) { dispatch = "dedicated" }
    ∷ record (skill "point_at" ("body" ∷ []) ("animation_played" ∷ [])) { dispatch = "dedicated" }
    ∷ record (skill "come_to_me" ("base" ∷ []) ("robot_near_interaction_owner" ∷ [])) {
      dispatch = "dedicated";
    }
    ∷ []

-- `DEFAULT_SKILLS`
abbrev pub default_skills : List SkillSpec
default_skills =
    seeing_and_arm_skills ++ (reaching_and_base_skills ++ (remembering_skills ++ remaining_skills))

-- `_skills.get(name)`
unfoldable pub find_skill : String → List SkillSpec → Option SkillSpec
find_skill name [] = none
find_skill name (s ∷ skills) = if s.name == name then some s else find_skill name skills

-- `SkillRegistry.has`
unfoldable pub has_skill : List SkillSpec → String → Bool
unfolding find_skill
has_skill skills name = elim (find_skill name skills) [ none ↦ false | some s ↦ true ]

-- `SkillRegistry.names`
unfoldable pub skill_names : List SkillSpec → List String
unfolding sort
skill_names skills = sort lt_text (map (λ (s : SkillSpec). s.name) skills)

-- The names of the entries that pass a test.
unfoldable pub names_where : (SkillSpec → Bool) → List SkillSpec → List String
names_where test [] = []
names_where test (s ∷ skills) =
    let rest = names_where test skills in if test s then s.name ∷ rest else rest

-- `GENERIC_SKILL_NAMES`
unfoldable pub generic_skill_names : List String
unfolding names_where
generic_skill_names = names_where (λ s. not (s.dispatch == "voice")) default_skills

-- The registry as the validator uses it; it asks for the resources of registered skills only.
unfoldable pub validator_skills : List SkillSpec → Skills
unfolding has_skill find_skill
validator_skills skills = record {
  has = has_skill skills;
  resources = λ name. elim (find_skill name skills) [ none ↦ [] | some s ↦ s.resources ];
}

-- The result predicates of the named skills, or `none` where a name is unknown: the code looks a name
-- up before it tests that it is a key.
unfoldable pub predicates_of_names : List String → Option (List String)
unfolding find_skill
predicates_of_names [] = some []
predicates_of_names (name ∷ names) =
    let others = predicates_of_names names in
    elim (find_skill name default_skills) [
      | none ↦ none
      | some s ↦ elim others [ none ↦ none | some rest ↦ some (s.result_predicates ++ rest) ]
    ]

-- `internally_resolved_predicates`, as a list.
unfoldable pub internally_resolved_predicates : String → Option (List String)
unfolding find_skill predicates_of_names
internally_resolved_predicates name = elim (find_skill name default_skills) [
  | none ↦ some []
  | some s ↦
      if s.resolves_own_target_acquisition
      then predicates_of_names s.subsumes_locate_skills
      else some []
]
