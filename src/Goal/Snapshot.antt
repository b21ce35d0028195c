-- ===== src/Goal/Snapshot.antt =====
-- mc_ai_bt/goal_check.py: `_check_snapshot`. `none` stands for an AttributeError, of a `get` on what is
-- no object.
use mc_ai_bt.Common.{String, not, ◌==◌, Option, none, some, if◌then◌else◌}
use mc_ai_bt.Common.Text.{◌<>◌}
use mc_ai_bt.Json.{Value, Fields, get, truthy, text_or_empty, text_of}
use mc_ai_bt.Json.Builtins.{Builtins, if_dict, dict_or_empty}
use mc_ai_bt.Executor.{yes, no, unknown}
use mc_ai_bt.Entity.{object_name_from_args, find_object_fact, fact_value}
use mc_ai_bt.Visual.{is_str}
use mc_ai_bt.Goal.Registry.{spec_of}
use mc_ai_bt.Goal.Direct.{CheckResult, result, says_true, says_false, direct_predicate_result}
use mc_ai_bt.Goal.Bespoke.{
  compare_names, relative_motion_result, person_following_result, normalize_alias,
  entity_alias_bound_result, text_at,
}
use mc_ai_bt.Goal.World.{
  Tools, Branch, robot_at_place, near_owner, motion, animation, remembered, object_visible,
  person_visible, at_place, following, alias_bound, visual_check, room, other, branch_of,
  animation_of, place_result, object_seen, people_seen,
}

-- `_snapshot_value`, which is `fact_value`, of an entry that may be missing.
unfoldable pub snapshot_value : Option Value → Option Value
snapshot_value none = none
snapshot_value (some v) = some (fact_value v)

-- `facts.get(scope) if isinstance(facts.get(scope), dict) else {}`
abbrev pub scope_of : String → Fields → Fields
scope_of scope facts = if_dict (get scope facts)

abbrev no_evidence : String → CheckResult
no_evidence p = result unknown ("world state has no evidence for " <> p)

-- The branch for every predicate of the registry, at the end.
unfoldable pub registered : Tools → String → Fields → Fields → CheckResult
registered t p args facts = elim (spec_of p) [
  | some s ↦
      direct_predicate_result t.py p args (get p (scope_of s.snapshot_scope facts)) "world state"
  | none ↦ no_evidence p
]

-- A value that is truthy, compared with a text.
unfoldable pub compare_value : Builtins → Option Value → String → CheckResult → CheckResult
compare_value py none expected later = later
compare_value py (some v) expected later =
    if not (truthy v)
    then later
    else if is_str expected (some v)
    then result yes ("world state says robot_at_place: " <> text_of py.rt v)
    else result no ("world state place mismatch: " <> text_of py.rt v <> " != " <> expected)

abbrev near_value : Option Value → CheckResult → CheckResult
near_value near later =
    if says_true near
    then result yes "world state confirms robot_near_interaction_owner"
    else if says_false near
    then result no "world state says robot is not near interaction owner"
    else later

abbrev in_navigation : Tools → String → Fields → Fields → Option Fields → Option CheckResult
in_navigation t p args facts none = none
in_navigation t p args facts (some nav) = some (
    compare_value t.py (snapshot_value (get "current_place" nav)) (text_at t.py "name" args)
      (registered t p args facts))

abbrev people_or_objects : String → String
people_or_objects p = if p == "person_at_place" then "people" else "objects"

abbrev entities_or_people : String → String
entities_or_people p = if p == "entity_following" then "entities" else "people"

abbrev alias_entry : Builtins → Fields → Fields → Option Value
alias_entry py args scoped =
    let key = normalize_alias py (text_at py "alias" args) in
    if key == "" then none else get key scoped

-- The branches of `_check_snapshot`, on the facts of the world state.
unfoldable pub snapshot_branch : Tools → Branch → String → Fields → Fields → Option CheckResult
snapshot_branch t robot_at_place p args facts =
    in_navigation t p args facts (dict_or_empty (get "navigation" facts))
snapshot_branch t near_owner p args facts = some (
    near_value (snapshot_value (get "near_interaction_owner" (scope_of "robot" facts)))
      (registered t p args facts))
snapshot_branch t motion p args facts = some (
    relative_motion_result t.py
      (snapshot_value (get "last_relative_motion" (scope_of "robot" facts))) args "world state")
snapshot_branch t animation p args facts = some (
    compare_names
      (text_or_empty t.py.rt (snapshot_value (get "last_animation" (scope_of "robot" facts))))
      (animation_of t.py args) "world state confirms animation_played: "
      "world state animation mismatch: " (registered t p args facts))
snapshot_branch t remembered p args facts = some (no_evidence p)
snapshot_branch t object_visible p args facts = some (
    object_seen t.py
      (find_object_fact t.py (scope_of "objects" facts) (object_name_from_args t.py args)) args
      "world state")
snapshot_branch t person_visible p args facts =
    some (people_seen t.py (get "visible_people" (scope_of "people" facts)) args "world state")
snapshot_branch t at_place p args facts =
    some (place_result t facts p args (get p (scope_of (people_or_objects p) facts)) "world state")
snapshot_branch t following p args facts = some (
    person_following_result t.py (get "following" (scope_of (entities_or_people p) facts)) args
      "world state")
snapshot_branch t alias_bound p args facts = some (
    entity_alias_bound_result t.py args (alias_entry t.py args (scope_of "entity_aliases" facts))
      "world state")
snapshot_branch t visual_check p args facts = some (registered t p args facts)
snapshot_branch t room p args facts = some (registered t p args facts)
snapshot_branch t other p args facts = some (registered t p args facts)

abbrev pub on_facts : Tools → String → Fields → Option Fields → Option CheckResult
on_facts t p args none = elim (spec_of p) [ none ↦ some (no_evidence p) | some s ↦ none ]
on_facts t p args (some facts) = snapshot_branch t (branch_of p) p args facts

-- `_check_snapshot`
unfoldable pub check_snapshot : Tools → String → Fields → Fields → Option CheckResult
check_snapshot t p args snapshot = on_facts t p args (dict_or_empty (get "facts" snapshot))
