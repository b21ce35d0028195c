-- ===== src/Trigger.antt =====
-- mc_ai_bt/trigger_manager.py: what an event of the world state does to the missions.
mod Tests
use mc_ai_bt.Common.{
  ℕ, String, Bool, true, false, not, ◌&&◌, ◌||◌, ◌==◌, Option, none, some, List, [], ◌∷◌, ◌≡◌, refl,
  if◌then◌else◌, ap, sym, ◌∙◌, arith, inl, inr, Bool-cases, eq_iff, ◌=ℕ◌,
}
use mc_ai_bt.Common.Int.{ℤ, pos, negsuc}
use mc_ai_bt.Common.Text.{strip, or_text}
use mc_ai_bt.Json.{
  Value, null, bool, int, float, str, list, dict, Fields, end, field, Runtime, get, truthy, text_of,
  text_or_empty,
}

-- The `ACTION_…` constants.
pub data TriggerAction : Type 0 where
  no_action local_handled replan plan_new_mission ask_clarification blocked : TriggerAction

-- The sets of event types, in the order of their tests.
pub data EventType : Type 0 where
  safety goal_evidence other_replan new_mission clarification other : EventType

unfoldable pub event_type_of : String → EventType
event_type_of t =
    if t == "SAFETY_STOP_OCCURRED"
      || t == "SAFETY_STOP_ACTIVE"
      || t == "E_STOP"
      || t == "EMERGENCY_STOP"
    then safety
    else if t == "GOAL_EVIDENCE_CHANGED"
    then goal_evidence
    else if t == "MISSION_RELEVANT_FACT_CHANGED" || t == "ACTIVE_PARTICIPANT_LEFT"
    then other_replan
    else if t == "PERSON_APPROACHED" || t == "PERSON_HAND_OFFERED"
    then new_mission
    else if t == "AMBIGUOUS_USER_INTENT"
        || t == "MISSING_REQUIRED_ENTITY"
        || t == "MISSING_REQUIRED_PLACE"
        || t == "MISSING_REQUIRED_TARGET"
        || t == "LOW_CONFIDENCE_TASK_CONTEXT"
    then clarification
    else other

-- The decision, with the two entries of its `details`.
pub record TriggerDecision : Type 0 where
  pub action : TriggerAction
  pub message : String
  pub reason : String
  pub snapshot_id : String
  pub payload : Fields

abbrev object_or_wrapped : String → Option Value → Fields
object_or_wrapped raw none = field "invalid_payload_json" (str raw) end
object_or_wrapped raw (some (dict d)) = d
object_or_wrapped raw (some v) = field "payload" v end

-- `_loads_object`
unfoldable pub loads_object : Runtime → String → Fields
loads_object rt raw = if raw == "" then end else object_or_wrapped raw (rt.loads raw)

-- `v is False`.
abbrev is_false : Option Value → Bool
is_false (some (bool false)) = true
is_false v = false

-- What is decided about an event of this type.
unfoldable pub action_of : EventType → Fields → Bool → TriggerAction
unfolding get
action_of safety payload has_active_mission = blocked
action_of goal_evidence payload has_active_mission =
    if is_false (get "replan_recommended" payload) then local_handled else replan
action_of other_replan payload has_active_mission = replan
action_of new_mission payload has_active_mission =
    if has_active_mission then local_handled else plan_new_mission
action_of clarification payload has_active_mission = ask_clarification
action_of other payload has_active_mission = no_action

unfoldable pub message_of : EventType → Fields → Bool → String
unfolding get
message_of safety payload has_active_mission = "safety stop event blocked active mission"
message_of goal_evidence payload has_active_mission =
    if is_false (get "replan_recommended" payload)
    then "goal evidence changed handled locally without replan"
    else "mission-relevant world event requests replan"
message_of other_replan payload has_active_mission = "mission-relevant world event requests replan"
message_of new_mission payload has_active_mission =
    if has_active_mission
    then "social world event recorded while a mission is active"
    else "social world event may need a new mission"
message_of clarification payload has_active_mission =
    "world event requires operator clarification before planning can continue"
message_of other payload has_active_mission = "world event recorded; no mission change"

-- `handle_world_event`
unfoldable pub handle_world_event : Runtime → String → String → String → Bool → TriggerDecision
unfolding strip event_type_of loads_object action_of message_of
handle_world_event rt event_type snapshot_id payload_json has_active_mission =
    let t = strip event_type in
    let payload = loads_object rt payload_json in
    record {
      action = action_of (event_type_of t) payload has_active_mission;
      message = message_of (event_type_of t) payload has_active_mission;
      reason = or_text t "unknown_event";
      snapshot_id = snapshot_id;
      payload = payload;
    }

-- `a == b` on integers.
unfoldable pub same_ℤ : ℤ → ℤ → Bool
same_ℤ (pos a) (pos b) = a =ℕ b
same_ℤ (negsuc a) (negsuc b) = a =ℕ b
same_ℤ a b = false

abbrev version_is : Option ℤ → ℕ → Bool
version_is none plan_version = false
version_is (some n) plan_version = same_ℤ n (pos plan_version)

-- `trigger_decision_matches_mission`; `to_int` is `int(value)`, with `none` where it raises a
-- TypeError or a ValueError.
unfoldable pub trigger_decision_matches_mission :
    Runtime → (Value → Option ℤ) → TriggerDecision → String → ℕ → Bool
unfolding get text_or_empty strip same_ℤ
trigger_decision_matches_mission rt to_int decision mission_id plan_version =
    let expected = strip (text_or_empty rt (get "mission_id" decision.payload)) in
    if not (expected == "") && not (expected == mission_id)
    then false
    else elim (get "plan_version" decision.payload) [
      | none ↦ true
      | some v ↦ version_is (to_int v) plan_version
    ]

text_of_text : (rt : Runtime) (s : String) → text_or_empty rt (some (str s)) ≡ s
unfolding text_or_empty truthy text_of
text_of_text rt s = elim (Bool-cases (s == "")) [
  | inl is ↦ rw is (sym ((eq_iff s "").0 is))
  | inr filled ↦ rw filled refl
]

same_ℤ-eq : (n m : ℕ) → same_ℤ (pos n) (pos m) ≡ true → n ≡ m
unfolding same_ℤ
same_ℤ-eq n m e = ground arith

-- A decision that names a mission and a plan version matches no other mission and no other version.
pub matches_named_mission :
    (rt : Runtime) (to_int : Value → Option ℤ) (d : TriggerDecision) (id named : String)
    (version n : ℕ) (v : Value)
    → get "mission_id" d.payload ≡ some (str named)
    → (strip named == "") ≡ false
    → get "plan_version" d.payload ≡ some v
    → to_int v ≡ some (pos n)
    → trigger_decision_matches_mission rt to_int d id version ≡ true
    → (strip named ≡ id) × (n ≡ version)
unfolding trigger_decision_matches_mission
matches_named_mission rt to_int d id named version n v at_id filled at_version whole e =
    let f = rw (at_id, text_of_text rt named, filled, at_version, whole) at e in
    elim (Bool-cases (strip named == id)) [
      | inl same ↦ ((eq_iff (strip named) id).0 same, same_ℤ-eq n version (rw same at f))
      | inr apart ↦ absurd (cc (rw apart at f))
    ]
