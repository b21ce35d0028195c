-- ===== src/Goal/World.antt =====
-- mc_ai_bt/goal_check.py: `_check_execution_facts` and `_check_snapshot`, the answers that the facts of
-- an execution and the world state give on a predicate.
use mc_ai_bt.Common.{
  String, Bool, true, false, ◌&&◌, ◌||◌, ◌==◌, Option, none, some, [], ◌∷◌, if◌then◌else◌,
}
use mc_ai_bt.Common.Text.{◌<>◌}
use mc_ai_bt.Json.{Value, null, dict, Fields, get}
use mc_ai_bt.Json.Builtins.{Builtins, has_key, text_of_keys}
use mc_ai_bt.Executor.{TriState, yes, no, unknown}
use mc_ai_bt.Entity.{
  object_name_from_args, person_id_from_args, min_score_from_args, min_count_from_args,
  find_object_fact, object_visibility_evidence,
}
use mc_ai_bt.Entity.People.{people_visibility_evidence}
use mc_ai_bt.Validator.Checks.{repr}
use mc_ai_bt.Goal.Registry.{spec_of}
use mc_ai_bt.Goal.Direct.{
  CheckResult, result, says_true, direct_predicate_result, room_scanned_result,
}
use mc_ai_bt.Goal.Bespoke.{
  compare_names, relative_motion_result, person_following_result, entity_alias_bound_result,
  object_visibility_result, people_visibility_result, text_at,
}
use mc_ai_bt.Goal.Place.{PlacePredicateResult, evaluate_place_predicate}

-- What the checker is given: the runtime, the evaluator of place regions and the search of a visual
-- query by regular expressions.
pub record Tools : Type 0 where
  pub py : Builtins
  pub evaluate : Fields → String → Fields → PlacePredicateResult
  pub extract : String → String

-- The predicates that have a branch of their own.
pub data Branch : Type 0 where
  robot_at_place near_owner motion animation remembered : Branch
  object_visible person_visible at_place following alias_bound visual_check room other : Branch

unfoldable pub branch_of : String → Branch
branch_of p =
    if p == "robot_at_place"
    then robot_at_place
    else if p == "robot_near_interaction_owner"
    then near_owner
    else if p == "relative_motion_completed"
    then motion
    else if p == "animation_played"
    then animation
    else if p == "place_remembered"
    then remembered
    else if p == "object_visible"
    then object_visible
    else if p == "person_visible"
    then person_visible
    else if p == "person_at_place" || p == "object_at_place"
    then at_place
    else if p == "entity_following" || p == "person_following"
    then following
    else if p == "entity_alias_bound"
    then alias_bound
    else if p == "visual_check_completed"
    then visual_check
    else if p == "room_scanned"
    then room
    else other

abbrev missing : String → CheckResult
missing predicate = result unknown (predicate <> " fact missing")

-- `str(args.get("animation") or args.get("name") or "")`
abbrev pub animation_of : Builtins → Fields → String
animation_of py args = text_of_keys py ("animation" ∷ "name" ∷ []) args

abbrev pub decided : TriState → Bool
decided unknown = false
decided s = true

-- The first answer, if it decides.
abbrev pub or_later : CheckResult → CheckResult → CheckResult
or_later r later = if decided r.state then r else later

-- `_place_predicate_check_result`
unfoldable pub place_predicate_check_result : PlacePredicateResult → String → String → CheckResult
place_predicate_check_result r predicate source =
    if r.state == "TRUE"
    then result yes (source <> " confirms " <> predicate <> ": " <> r.reason)
    else if r.state == "FALSE"
    then result no (source <> " contradicts " <> predicate <> ": " <> r.reason)
    else result unknown (source <> " has no conclusive " <> predicate <> " evidence: " <> r.reason)

-- The direct evidence, then the place regions.
unfoldable pub place_result : Tools → Fields → String → Fields → Option Value → String → CheckResult
place_result t facts predicate args entry source =
    or_later (direct_predicate_result t.py predicate args entry source) (
      place_predicate_check_result (evaluate_place_predicate t.py t.evaluate facts predicate args)
        predicate source)

abbrev looks_single : Fields → Bool
looks_single d =
    has_key "value" d
    || has_key "object_name" d
    || has_key "visible" d
    || has_key "score" d
    || has_key "position" d

abbrev from_objects : Builtins → Option Value → String → Option Value
from_objects py (some (dict objects)) name = find_object_fact py objects name
from_objects py v name = none

-- An entry that is found and not None, or what comes later.
abbrev found_or : Option Value → Option Value → Option Value
found_or none later = later
found_or (some null) later = later
found_or (some v) later = some v

abbrev object_entry : Builtins → Option Value → Option Value → String → Option Value
object_entry py none objects name = from_objects py objects name
object_entry py (some null) objects name = from_objects py objects name
object_entry py (some (dict direct)) objects name =
    if looks_single direct
    then some (dict direct)
    else found_or (find_object_fact py direct name) (from_objects py objects name)
object_entry py (some v) objects name = some v

-- `_execution_object_entry`
unfoldable pub execution_object_entry : Builtins → Fields → Fields → Option Value
execution_object_entry py args facts =
    object_entry py (get "object_visible" facts) (get "objects" facts)
      (object_name_from_args py args)

abbrev people_entry : Option Value → Option Value
people_entry (some (dict people)) = elim (get "visible_people" people) [
  | none ↦ some (dict people)
  | some v ↦ some v
]
people_entry v = none

-- `_execution_people_entry`
unfoldable pub execution_people_entry : Fields → Option Value
execution_people_entry facts =
    if has_key "person_visible" facts
    then get "person_visible" facts
    else if has_key "visible_people" facts
    then get "visible_people" facts
    else people_entry (get "people" facts)

abbrev following_entry : Option Value → Option Value → Option Value → Option Value
following_entry (some (dict entities)) people plain = get "following" entities
following_entry entities (some (dict people)) plain = get "following" people
following_entry entities people plain = plain

-- `_execution_following_entry`
unfoldable pub execution_following_entry : Fields → String → Option Value
execution_following_entry facts predicate =
    if predicate == "entity_following" && has_key "entity_following" facts
    then get "entity_following" facts
    else if has_key "person_following" facts
    then get "person_following" facts
    else following_entry (get "entities" facts) (get "people" facts) (get "following" facts)

-- An object whose visual check is completed.
abbrev completed_value : Option Value → Option (Option Value)
completed_value (some (dict entry)) =
    if says_true (get "completed" entry) then some (get "value" entry) else none
completed_value v = none

unfoldable pub visual_result : Builtins → Option Value → CheckResult
visual_result py entry = elim (completed_value entry) [
  | none ↦ result unknown "visual_check_result fact missing"
  | some value ↦ result yes ("visual observation completed, value=" <> repr py.rt value)
]

unfoldable pub object_seen : Builtins → Option Value → Fields → String → CheckResult
object_seen py entry args source =
    object_visibility_result py
      (object_visibility_evidence py entry (object_name_from_args py args)
        (min_score_from_args py args))
      source

unfoldable pub people_seen : Builtins → Option Value → Fields → String → CheckResult
people_seen py entry args source =
    people_visibility_result py
      (people_visibility_evidence py entry (person_id_from_args py args)
        (min_count_from_args py args))
      source

-- The branches of `_check_execution_facts`.
unfoldable pub execution_branch : Tools → Branch → String → Fields → Fields → CheckResult
execution_branch t robot_at_place p args facts =
    compare_names (text_at t.py p facts) (text_at t.py "name" args) "robot_at_place confirmed: "
      "robot_at_place mismatch: " (missing p)
execution_branch t near_owner p args facts =
    if says_true (get p facts)
    then result yes "robot_near_interaction_owner confirmed"
    else missing p
execution_branch t motion p args facts =
    relative_motion_result t.py (get p facts) args "execution facts"
execution_branch t animation p args facts =
    compare_names (text_at t.py p facts) (animation_of t.py args) "animation_played confirmed: "
      "animation_played mismatch: " (missing p)
execution_branch t remembered p args facts =
    compare_names (text_at t.py p facts) (text_at t.py "name" args) "place_remembered confirmed: "
      "place_remembered mismatch: " (missing p)
execution_branch t object_visible p args facts =
    object_seen t.py (execution_object_entry t.py args facts) args "execution facts"
execution_branch t person_visible p args facts =
    people_seen t.py (execution_people_entry facts) args "execution facts"
execution_branch t at_place p args facts =
    place_result t facts p args (get p facts) "execution facts"
execution_branch t following p args facts =
    person_following_result t.py (execution_following_entry facts p) args "execution facts"
execution_branch t alias_bound p args facts =
    entity_alias_bound_result t.py args (get p facts) "execution facts"
execution_branch t visual_check p args facts = visual_result t.py (get "visual_check_result" facts)
execution_branch t room p args facts =
    room_scanned_result t.py (direct_predicate_result t.py p args (get p facts) "execution facts")
      (get p facts)
execution_branch t other p args facts = elim (spec_of p) [
  | some s ↦ direct_predicate_result t.py p args (get p facts) "execution facts"
  | none ↦ result unknown ("unknown structured predicate: " <> p)
]

-- `_check_execution_facts`
unfoldable pub check_execution_facts : Tools → String → Fields → Fields → CheckResult
check_execution_facts t predicate args facts =
    execution_branch t (branch_of predicate) predicate args facts
