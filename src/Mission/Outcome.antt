-- ===== src/Mission/Outcome.antt =====
-- The outcome envelope of mc_ai_bt/mission.py: what a terminal event tells about its mission, built
-- from the mission's own fields and an allowlisted part of the execution's facts.
use mc_ai_bt.Common.{
  String, Bool, true, false, not, ◌&&◌, Option, none, some, List, [], ◌∷◌, if◌then◌else◌, ◌==◌,
}
use mc_ai_bt.Common.Text.{strip}
use mc_ai_bt.Json.{
  Value, bool, str, list, dict, Items, nil, cons, Fields, end, field, Runtime, get, get_in,
  text_or_empty,
}
use mc_ai_bt.Mission.{Mission, State}

-- `_TERMINAL_STATE_NAMES.get(state)`.
unfoldable pub terminal_state_name : State → Option String
terminal_state_name State.succeeded = some "SUCCEEDED"
terminal_state_name State.failed = some "FAILED"
terminal_state_name State.blocked = some "BLOCKED"
terminal_state_name State.canceled = some "CANCELED"
terminal_state_name s = none

-- `json.loads(text) if text else {}`.
unfoldable pub loads_or_empty : Runtime → String → Option Value
loads_or_empty rt text = if text == "" then some (dict end) else rt.loads text

-- The loop over `grounded_entities`: the first entry of this entity that names a semantic id.
unfoldable pub semantic_id_among : Runtime → String → Items → List String
unfolding get text_or_empty strip
semantic_id_among rt entity_id nil = []
semantic_id_among rt entity_id (cons (dict entry) rest) =
    let later = semantic_id_among rt entity_id rest in
    let semantic_id = strip (text_or_empty rt (get "semantic_entity_id" entry)) in
    if text_or_empty rt (get "entity_id" entry) == entity_id && not (semantic_id == "")
    then semantic_id ∷ []
    else later
semantic_id_among rt entity_id (cons _ rest) = semantic_id_among rt entity_id rest

unfoldable pub semantic_ids_of_list : Runtime → String → Option Value → List String
unfolding semantic_id_among
semantic_ids_of_list rt entity_id (some (list entries)) = semantic_id_among rt entity_id entries
semantic_ids_of_list rt entity_id v = []

-- `args.get(key)`, stripped, where `args` is the `args` object of a decoded value.
unfoldable pub arg_text : Runtime → String → Option Value → String
unfolding get_in text_or_empty strip
arg_text rt key v = strip (text_or_empty rt (get_in key (get_in "args" v)))

unfoldable pub mission_semantic_entity_ids : Runtime → Mission → List String
unfolding loads_or_empty arg_text get_in semantic_ids_of_list
mission_semantic_entity_ids rt m =
    let entity_id = arg_text rt "entity_id" (loads_or_empty rt m.goal_spec_json) in
    let context = loads_or_empty rt m.context_json in
    let grounded = get_in "grounded_entities" (get_in "caller_context" context) in
    if entity_id == "" then [] else semantic_ids_of_list rt entity_id grounded

unfoldable pub mission_grounding_refs : Runtime → Mission → List String
unfolding loads_or_empty arg_text
mission_grounding_refs rt m =
    let ref = arg_text rt "_planning_grounding_ref" (loads_or_empty rt m.bt_json) in
    if ref == "" then [] else ref ∷ []

-- `_VISUAL_CHECK_RESULT_FIELDS`.
abbrev pub visual_check_result_fields : List String
visual_check_result_fields =
    "completed" ∷ "value" ∷ "query" ∷ "observed_at" ∷ "confidence" ∷ "provider_name" ∷ "model_name"
    ∷ "stale" ∷ []

-- `{name: entry[name] for name in names if name in entry}`.
unfoldable pub project_fields : List String → Fields → Fields
unfolding get
project_fields [] entry = end
project_fields (name ∷ names) entry =
    let rest = project_fields names entry in
    elim (get name entry) [ none ↦ rest | some v ↦ field name v rest ]

abbrev is_true : Option Value → Bool
is_true (some (bool true)) = true
is_true v = false

abbrev is_bool : Option Value → Bool
is_bool (some (bool b)) = true
is_bool v = false

-- The entry under `visual_check_result`, if its shape is the one that the executor writes.
unfoldable pub bounded_visual_check : Option Value → Fields
unfolding get project_fields
bounded_visual_check (some (dict entry)) =
    if is_true (get "completed" entry) && is_bool (get "value" entry)
    then field "visual_check_result" (dict (project_fields visual_check_result_fields entry)) end
    else end
bounded_visual_check v = end

unfoldable pub bounded_result_facts : Option Fields → Fields
unfolding get bounded_visual_check
bounded_result_facts none = end
bounded_result_facts (some facts) = bounded_visual_check (get "visual_check_result" facts)

unfoldable pub texts : List String → Items
texts [] = nil
texts (s ∷ rest) = cons (str s) (texts rest)

-- A field that is written only where its text is not empty.
abbrev field_if : String → String → Fields → Fields
field_if key text rest = if text == "" then rest else field key (str text) rest

abbrev predicate_of : Option Value → String
predicate_of (some (str s)) = s
predicate_of v = ""

abbrev facts_field : Fields → Fields
facts_field end = end
facts_field bounded = field "result_facts" (dict bounded) end

-- The envelope of a mission in the terminal state of this name.
unfoldable pub outcome_fields : Runtime → String → Mission → Option Fields → Fields
unfolding loads_or_empty get_in mission_semantic_entity_ids mission_grounding_refs texts
    bounded_result_facts
outcome_fields rt name m result_facts =
    let goal_predicate = predicate_of (get_in "predicate" (loads_or_empty rt m.goal_spec_json)) in
    let facts = facts_field (bounded_result_facts result_facts) in
    field "schema" (str "mc.mission_outcome.v1") (
      field "mission_id" (str m.identity.mission_id) (
        field "terminal_state" (str name) (
          field_if "execution_id" m.identity.execution_id (
            field_if "goal_predicate" goal_predicate (
              field "semantic_entity_ids" (list (texts (mission_semantic_entity_ids rt m))) (
                field "grounding_refs" (list (texts (mission_grounding_refs rt m)))
                  (field_if "error_code" m.error_code facts)))))))

-- `_build_mission_outcome_envelope`: "" for a state that is not terminal.
unfoldable pub build_mission_outcome_envelope : Runtime → Mission → Option Fields → String
unfolding terminal_state_name outcome_fields
build_mission_outcome_envelope rt m result_facts = elim (terminal_state_name m.state) [
  | none ↦ ""
  | some name ↦ rt.dumps (dict (outcome_fields rt name m result_facts))
]
