-- ===== src/Policy/Actions.antt =====
-- `_check_action` of mc_ai_bt/policy_guard.py: which check each skill's arguments get.
use mc_ai_bt.Common.{String, not, ◌==◌, Option, none, some, List, [], ◌∷◌, if◌then◌else◌}
use mc_ai_bt.Common.Text.{◌<>◌}
use mc_ai_bt.Json.{Fields, get, text_or_empty}
use mc_ai_bt.Json.Builtins.{Builtins, dict_or_empty}
use mc_ai_bt.Validator.Resources.{among}
use mc_ai_bt.Validator.Checks.{Report, say, say_if}
use mc_ai_bt.Skill.{SkillSpec, find_skill}
use mc_ai_bt.Policy.Limits.{PolicyLimits, policy_enabled_skills}
use mc_ai_bt.Policy.Arguments.{
  quoted, check_say, check_simple_move, check_human_confirmation, check_go_to_place,
  check_play_animation, check_look_at,
}
use mc_ai_bt.Policy.Arguments.Targets.{
  check_track_frame, check_reach_to, check_entity_target, check_look_or_track, check_relation,
  check_axis_skill, check_arm_generic, check_guide_entity_to_place, check_wait_for_participant,
  check_remember_place, check_remember_person, check_remember_entity,
}
use mc_ai_bt.Policy.Arguments.Pointing.{check_point_at}

abbrev targeted_skills : List String
targeted_skills =
    "locate_entity" ∷ "track_entity" ∷ "search_for_entity" ∷ "get_pose" ∷ "approach_entity"
    ∷ "face_entity" ∷ "follow_entity" ∷ "maintain_distance" ∷ []

abbrev arm_skills : List String
arm_skills = "hold_pose" ∷ "wait_for_contact" ∷ "detect_contact" ∷ "oscillate" ∷ "retract" ∷ []

-- The check of the arguments, for the skills that have one.
unfoldable pub argument_check : Builtins → PolicyLimits → String → Option (String → Fields → Report)
unfolding among
argument_check py limits skill =
    if skill == "say"
    then some (check_say py limits)
    else if skill == "request_human_confirmation"
    then some (check_human_confirmation py limits)
    else if skill == "simple_move"
    then some (check_simple_move py limits)
    else if skill == "go_to_place"
    then some (check_go_to_place py limits)
    else if skill == "play_animation"
    then some (check_play_animation py limits)
    else if skill == "look_at"
    then some (check_look_at py limits)
    else if skill == "point_at"
    then some (check_point_at py limits)
    else if among skill targeted_skills
    then some (check_entity_target py skill)
    else if skill == "look_at_static"
    then some (check_look_or_track py skill)
    else if skill == "track_with_gaze"
    then some (check_look_or_track py skill)
    else if skill == "track_frame"
    then some (check_track_frame py)
    else if skill == "reach_to"
    then some (check_reach_to py)
    else if skill == "check_relation"
    then some (check_relation py)
    else if among skill ("align_axis" ∷ "move_along_axis" ∷ [])
    then some (check_axis_skill py skill)
    else if among skill arm_skills
    then some (check_arm_generic py skill)
    else if skill == "guide_entity_to_place"
    then some (check_guide_entity_to_place py)
    else if skill == "wait_for_participant"
    then some (check_wait_for_participant py)
    else if skill == "remember_place"
    then some (check_remember_place py)
    else if skill == "remember_person"
    then some (check_remember_person py)
    else if skill == "remember_entity"
    then some (check_remember_entity py)
    else none

-- The check on `node.get("args") or {}`: it raises where this is not an object.
abbrev checked_args : Option (String → Fields → Report) → String → String → Option Fields → Report
checked_args (some check) path skill (some args) = check path args
checked_args (some check) path skill none = none
checked_args none path skill args =
    say_if (not (among skill policy_enabled_skills))
      (path <> ".skill is registered but not policy-enabled yet: " <> skill)

-- The test of the registered entry, then the check of the arguments.
unfoldable pub registered_report :
    Builtins → PolicyLimits → String → String → Option SkillSpec → Option Fields → Report
unfolding among argument_check
registered_report py limits path skill none args =
    say (path <> ".skill is not registered: " <> quoted py skill)
registered_report py limits path skill (some spec) args =
    if spec.status == "available"
    then checked_args (argument_check py limits skill) path skill args
    else say (
        path
        <> ".skill is not available (status="
        <> quoted py spec.status
        <> "): "
        <> quoted py skill)

-- `_check_action`, of a node with this skill.
unfoldable pub check_action : Builtins → PolicyLimits → List SkillSpec → String → Fields → Report
unfolding registered_report find_skill dict_or_empty get text_or_empty
check_action py limits registry path d =
    let skill = text_or_empty py.rt (get "skill" d) in
    registered_report py limits path skill (find_skill skill registry)
      (dict_or_empty (get "args" d))
