-- ===== src/Broker.antt =====
-- mc_ai_bt/decision_broker.py: the answers to a check that came back UNKNOWN. Locate.antt has the
-- queries to the perception service, this file the strategies for each predicate. Broker.resolve is
-- what the executor asks as its resolver (Executor/Leaf.antt, Env.resolve).
pub mod Locate
pub mod Answers
mod Tests
use mc_ai_bt.Common.{
  ℕ, ◌*◌, ◌^◌, String, Bool, true, false, not, ◌==◌, ◌&&◌, Option, none, some, List, [], ◌∷◌, ◌≡◌,
  ltb, if◌then◌else◌,
}
use mc_ai_bt.Common.Int.{pos}
use mc_ai_bt.Common.Float.{Float, finite, zero_float, ltb_float, leb_float, clamp_unit}
use mc_ai_bt.Common.Text.{◌<>◌, strip, or_text}
use mc_ai_bt.Json.{Value, str, int, dict, Fields, end, field, get, get_in, truthy, text_or_empty}
use mc_ai_bt.Json.Builtins.{Builtins, if_dict, text_of_keys}
use mc_ai_bt.Executor.{TriState, yes, no, unknown}
use mc_ai_bt.Validator.Resources.{among}
use mc_ai_bt.Validator.Checks.{repr}
use mc_ai_bt.Broker.Locate.{Located, Sighting, found, not_found, inconclusive}

pub record DecisionOutcome : Type 0 where
  pub state : TriState
  pub message : String

abbrev pub outcome : TriState → String → DecisionOutcome
outcome state message = record { state = state; message = message }

-- Distances in floats, and `f"{value:.2f}"`.
pub record Metric : Type 0 where
  pub hypot : Float → Float → Float
  pub digits : Float → String

-- `_APPROACH_DISTANCE_TOLERANCE_M`
abbrev pub tolerance : Float
tolerance = finite (pos (3 * 2 ^ 1073))

-- The answer on an object of which one instance, or more, is seen.
unfoldable pub approached : Builtins → Metric → String → Located → DecisionOutcome
approached py metric target (inconclusive reason) = outcome unknown (target <> ": " <> reason)
approached py metric target (not_found available reason) =
    outcome unknown (target <> ": " <> reason)
approached py metric target (found s) =
    if ltb 1 s.match_count
    then outcome unknown (
        target
        <> ": "
        <> py.rt.show (int (pos s.match_count))
        <> " matching instances currently visible, cannot confirm which one was approached")
    else let distance = metric.hypot s.x s.y in
      if leb_float distance tolerance
      then outcome yes (target <> " is " <> metric.digits distance <> "m away (fresh check)")
      else outcome no (target <> " is " <> metric.digits distance <> "m away, not within 1.5m")

-- `entity_track_by_id`, in the loop over the entries.
unfoldable pub find_track : Builtins → String → Fields → Option Fields
unfolding get_in get text_or_empty
find_track py wanted end = none
find_track py wanted (field key entry rest) =
    let later = find_track py wanted rest in
    elim (get_in "value" (some entry)) [
      | some (dict value) ↦
          if text_or_empty py.rt (get "entity_id" value) == wanted then some value else later
      | other ↦ later
    ]

-- `json.loads(world_json) if world_json else {}`
abbrev loaded : Builtins → String → Option Value
loaded py raw = if raw == "" then some (dict end) else py.rt.loads raw

-- `entity_track_by_id`
unfoldable pub entity_track_by_id : Builtins → String → String → Option Fields
unfolding find_track get_in strip
entity_track_by_id py world_json id =
    elim (get_in "entity_tracks" (get_in "facts" (loaded py world_json))) [
      | some (dict scope) ↦ find_track py (strip id) scope
      | other ↦ none
    ]

abbrev track_message : Builtins → Option Value → String
track_message py state = elim state [
  | some (str s) ↦
      if s == "ACTIVE"
      then ": identity confirmed (identity_state=ACTIVE), but this node has no "
        <> "robot-pose source to verify physical distance -- cannot confirm entity_approached "
        <> "from identity alone"
      else if s == "AMBIGUOUS"
      then ": currently ambiguous, cannot confirm"
      else ": not currently confirmed (identity_state=" <> repr py.rt (some (str s)) <> ")"
  | other ↦ ": not currently confirmed (identity_state=" <> repr py.rt other <> ")"
]

-- `_check_entity_approached_by_id`, given the snapshot of a configured reader.
unfoldable pub approached_by_id : Builtins → String → Option String → DecisionOutcome
unfolding entity_track_by_id get repr
approached_by_id py id none = outcome unknown (id <> ": entity_tracks reader is not configured")
approached_by_id py id (some world_json) = elim (entity_track_by_id py world_json id) [
  | none ↦ outcome unknown (id <> ": not currently tracked")
  | some track ↦ outcome unknown (id <> track_message py (get "identity_state" track))
]

-- The id and the target that the arguments name.
abbrev pub entity_id : Builtins → Fields → String
entity_id py args = strip (text_of_keys py ("entity_id" ∷ []) args)

abbrev pub target : Builtins → Fields → String
target py args = strip (text_of_keys py ("target" ∷ "entity" ∷ []) args)

-- `_check_entity_approached`, for a snapshot and the answer of the locator.
unfoldable pub check_entity_approached :
    Builtins → Metric → Option String → (String → Located) → Fields → DecisionOutcome
unfolding text_of_keys strip approached_by_id approached
check_entity_approached py metric world locate args =
    if not (entity_id py args == "")
    then approached_by_id py (entity_id py args) world
    else if target py args == ""
    then outcome unknown "entity_approached requires a target"
    else approached py metric (target py args) (locate (target py args))

-- `_min_score`
unfoldable pub min_score : Builtins → Option Value → Float
unfolding truthy clamp_unit
min_score py none = zero_float
min_score py (some v) =
    if truthy v
    then elim (py.to_float v) [ none ↦ zero_float | some x ↦ clamp_unit x ]
    else zero_float

unfoldable pub visible : Metric → String → Float → Located → DecisionOutcome
visible metric name least (inconclusive reason) = outcome unknown (name <> ": " <> reason)
visible metric name least (not_found available reason) = outcome no (name <> ": " <> reason)
visible metric name least (found s) =
    if ltb_float zero_float least && ltb_float s.score least
    then outcome no
        (name <> ": score " <> metric.digits s.score <> " below min " <> metric.digits least)
    else outcome yes (name <> ": visible (score=" <> metric.digits s.score <> ", fresh check)")

-- `_check_object_visible`
unfoldable pub check_object_visible :
    Builtins → Metric → (String → Located) → Fields → DecisionOutcome
unfolding text_of_keys strip min_score get visible
check_object_visible py metric locate args =
    let name = strip (text_of_keys py ("name" ∷ "object_name" ∷ "object" ∷ "target" ∷ []) args) in
    if name == ""
    then outcome unknown "object_visible requires a name"
    else visible metric name (min_score py (get "min_score" args)) (locate name)

-- What became of the question to the operator.
pub data Confirmation : Type 0 where
  no_server not_accepted : Confirmation
  lost : String → Confirmation
  approved denied undecided : String → Confirmation

-- `_resolve_semantic`, for the answer that the operator gives.
unfoldable pub confirmed : Confirmation → DecisionOutcome
confirmed no_server = outcome unknown "confirmation channel unavailable"
confirmed not_accepted = outcome unknown "confirmation request was not accepted"
confirmed (lost message) = outcome unknown ("confirmation result unavailable: " <> message)
confirmed (approved reason) = outcome yes (or_text reason "approved")
confirmed (denied reason) = outcome no (or_text reason "denied")
confirmed (undecided reason) =
    outcome unknown (or_text reason "confirmation timed out or was canceled")

-- The loop of `_poll_direct` and of `_poll_via_checker`, over what a check can answer. The window may
-- elapse, or the mission be canceled, after any check without an answer.
pub data Polled (check : DecisionOutcome → Type 0) : DecisionOutcome → Type 0 where
  answered : {o : DecisionOutcome} → check o → ¬ (o.state ≡ unknown) → Polled check o
  elapsed :
      {o q : DecisionOutcome}
      → check o
      → o.state ≡ unknown
      → q ≡ outcome unknown ("fast resolution window elapsed: " <> o.message)
      → Polled check q
  canceled :
      {o q : DecisionOutcome}
      → check o
      → o.state ≡ unknown
      → q ≡ outcome unknown "canceled while awaiting resolution"
      → Polled check q
  once_more :
      {o q : DecisionOutcome} → check o → o.state ≡ unknown → Polled check q → Polled check q

-- What the broker is built with: the answers that its reader, locator, checker and operator can give.
pub record Channels : Type 1 where
  pub world : Option String → Type 0
  pub locate : (String → Located) → Type 0
  pub has_checker : Bool
  pub person_check : Fields → DecisionOutcome → Type 0
  pub confirm : String → Fields → Confirmation → Type 0

module _ (py : Builtins) (metric : Metric) (channels : Channels) (args : Fields) where
  -- One check of entity_approached, and one of object_visible.
  abbrev pub Approached : DecisionOutcome → Type 0
  Approached o =
      (world : Option String) × (locate : String → Located) × channels.world world
      × channels.locate locate
      × (o ≡ check_entity_approached py metric world locate args)

  abbrev pub Visible : DecisionOutcome → Type 0
  Visible o =
      (locate : String → Located) × channels.locate locate
      × (o ≡ check_object_visible py metric locate args)

  -- `resolve`, with `_resolve_physical`.
  pub data Resolved : String → DecisionOutcome → Type 0 where
    by_approach :
        {predicate : String} {o : DecisionOutcome}
        → predicate ≡ "entity_approached"
        → Polled Approached o
        → Resolved predicate o
    by_sight :
        {predicate : String} {o : DecisionOutcome}
        → predicate ≡ "object_visible"
        → Polled Visible o
        → Resolved predicate o
    unchecked :
        {predicate : String} {o : DecisionOutcome}
        → predicate ≡ "person_visible"
        → channels.has_checker ≡ false
        → o ≡ outcome unknown "person_visible checker is not configured"
        → Resolved predicate o
    by_checker :
        {predicate : String} {o : DecisionOutcome}
        → predicate ≡ "person_visible"
        → channels.has_checker ≡ true
        → Polled (channels.person_check args) o
        → Resolved predicate o
    by_operator :
        {predicate : String} {o : DecisionOutcome} (answer : Confirmation)
        → predicate ≡ "_d_v1_semantic_smoke_test"
        → channels.confirm predicate args answer
        → o ≡ confirmed answer
        → Resolved predicate o
    unanswered :
        {predicate : String} {o : DecisionOutcome}
        → among predicate (
            "entity_approached" ∷ "object_visible" ∷ "person_visible" ∷ "_d_v1_semantic_smoke_test"
            ∷ [])
          ≡ false
        → o
          ≡ outcome unknown
              ("no resolution strategy defined for " <> repr py.rt (some (str predicate)))
        → Resolved predicate o
