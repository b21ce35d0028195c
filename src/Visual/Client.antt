-- ===== src/Visual/Client.antt =====
-- mc_ai_bt/visual_client.py: `VisualCheckClient.check`. What the ROS action answers is an argument, a
-- `Session`.
use mc_ai_bt.Common.{
  String, Bool, true, false, not, ◌==◌, Option, none, some, [], ◌∷◌, ◌≡◌, refl, ◌≢◌, if◌then◌else◌,
}
use mc_ai_bt.Common.Float.{Float}
use mc_ai_bt.Common.Text.{strip, ◌<>◌}
use mc_ai_bt.Json.{Value, dict, str, Fields, end, field, get, text_or_empty}
use mc_ai_bt.Json.Builtins.{Builtins, text_of_keys}
use mc_ai_bt.Executor.{TriState, unknown}
use mc_ai_bt.Validator.Checks.{is_filled}

-- `CheckResult` with the fields on the provenance of an observation.
pub record Observation : Type 0 where
  pub state : TriState
  pub message : String
  pub confidence : Option Float
  pub observed_at : Option Float
  pub provider_name : String
  pub model_name : String
  pub stale : Bool

-- `CheckResult(state, message)`
abbrev pub observed : TriState → String → Observation
observed state message = record {
  state = state;
  message = message;
  confidence = none;
  observed_at = none;
  provider_name = "";
  model_name = "";
  stale = false;
}

-- The fields of a `VisualCheckResult` message that are read, its state decoded by the constants of the
-- message type, and its image stamp as a number.
pub record VisualMessage : Type 0 where
  pub state : TriState
  pub reason : String
  pub confidence : Float
  pub observed_at : Option Float
  pub provider_name : String
  pub model_name : String
  pub stale : Bool

-- What happens to one goal that is sent: a text where `_wait_future` gives up or the future fails.
pub record Session : Type 0 where
  pub ready : Bool
  pub send_error : Option String
  pub accepted : Bool
  pub result_error : Option String
  -- `none` for SUCCEEDED, or the name of the other status.
  pub ended_with : Option String
  pub message : Option VisualMessage

abbrev with_reason : Builtins → (Float → String) → VisualMessage → String → String
with_reason py decimals m reason = reason <> " (confidence=" <> decimals m.confidence <> ")"

abbrev reason_of : VisualMessage → TriState → String
reason_of m unknown = if m.reason == "" then "unknown" else m.reason
reason_of m state = m.reason

-- `_check_result_from_msg`; `decimals` is `f"{value:.2f}"`.
unfoldable pub check_result_from_msg : Builtins → (Float → String) → VisualMessage → Observation
check_result_from_msg py decimals m = record {
  state = m.state;
  message = with_reason py decimals m (reason_of m m.state);
  confidence = some m.confidence;
  observed_at = m.observed_at;
  provider_name = m.provider_name;
  model_name = m.model_name;
  stale = m.stale;
}

-- `_query_from_predicate`
unfoldable pub query_from_predicate : Builtins → String → Fields → String
query_from_predicate py predicate args =
    let name = strip (text_of_keys py ("name" ∷ "object" ∷ []) args) in
    let person_id = strip (text_of_keys py ("person_id" ∷ "id" ∷ []) args) in
    if predicate == "object_visible"
    then (if name == "" then "" else "is the " <> name <> " visible?")
    else if predicate == "person_visible"
    then (if person_id == ""
        then "is any person visible?"
        else "is person " <> person_id <> " visible?")
    else ""

abbrev args_of : Option Value → Fields
args_of (some (dict d)) = d
args_of v = end

-- The query of the goal.
unfoldable pub visual_query : Builtins → Fields → String
visual_query py check =
    let query = strip (text_of_keys py ("query" ∷ "summary" ∷ []) check) in
    if query == ""
    then query_from_predicate py (text_or_empty py.rt (get "predicate" check))
        (args_of (get "args" check))
    else query

abbrev explicit_context : Option Value → String → String
explicit_context (some (str s)) built = if is_filled (some (str s)) then s else built
explicit_context v built = built

-- `_context_json`
unfoldable pub context_json : Builtins → Fields → Fields → String
context_json py check facts = explicit_context (get "context_json" check) (
    py.rt.dumps (
      dict (
        field "schema" (str "mc_ai_bt.visual_check_context.v1")
          (field "check" (dict check) (field "blackboard_facts" (dict facts) end)))))

abbrev of_message : Builtins → (Float → String) → Option VisualMessage → Observation
of_message py decimals none = observed unknown "VisualCheck returned no result"
of_message py decimals (some m) = check_result_from_msg py decimals m

abbrev unless : Option String → String → Observation → Observation
unless none prefix later = later
unless (some problem) prefix later = observed unknown (prefix <> problem)

-- The answers of `VisualCheckClient.check` up to the message, in the order of the code.
abbrev course :
    Bool → Bool → Option String → Bool → Option String → Option String → Observation → Observation
course ready empty send_error accepted result_error ended_with answer =
    if not ready
    then observed unknown "VisualCheck action server is not ready"
    else if empty
    then observed unknown "VisualCheck query is empty"
    else unless send_error "VisualCheck goal send failed: " (
        if not accepted
        then observed unknown "VisualCheck goal rejected"
        else unless result_error "VisualCheck result failed: "
            (unless ended_with "VisualCheck ended with " answer))

-- `VisualCheckClient.check`, for the goal with the query and the context above.
unfoldable pub client_check : Builtins → (Float → String) → Session → Fields → Observation
client_check py decimals s check =
    course s.ready (visual_query py check == "") s.send_error s.accepted s.result_error s.ended_with
      (of_message py decimals s.message)

-- A session that ran to its end with a message.
pub record Completed (s : Session) (state : TriState) : Type 0 where
  pub ready : s.ready ≡ true
  pub sent : s.send_error ≡ none
  pub accepted : s.accepted ≡ true
  pub answered : s.result_error ≡ none
  pub succeeded : s.ended_with ≡ none
  pub message : VisualMessage
  pub is_message : s.message ≡ some message
  pub is_state : message.state ≡ state

-- What the course of a goal that is answered was.
record Answered (ready empty : Bool) (send_error : Option String) (accepted : Bool)
    (result_error ended_with : Option String) (answer result : Observation) : Type 0 where
  was_ready : ready ≡ true
  was_full : empty ≡ false
  was_sent : send_error ≡ none
  was_accepted : accepted ≡ true
  was_answered : result_error ≡ none
  was_ended : ended_with ≡ none
  is_answer : result ≡ answer

course-Answered :
    (r e : Bool) (s : Option String) (a : Bool) (w d : Option String) (answer : Observation)
    → (course r e s a w d answer).state ≢ unknown
    → Answered r e s a w d answer (course r e s a w d answer)
course-Answered false e s a w d answer other = absurd (other refl)
course-Answered true true s a w d answer other = absurd (other refl)
course-Answered true false (some m) a w d answer other = absurd (other refl)
course-Answered true false none false w d answer other = absurd (other refl)
course-Answered true false none true (some m) d answer other = absurd (other refl)
course-Answered true false none true none (some m) answer other = absurd (other refl)
course-Answered true false none true none none answer other = record {
  was_ready = refl;
  was_full = refl;
  was_sent = refl;
  was_accepted = refl;
  was_answered = refl;
  was_ended = refl;
  is_answer = refl;
}

of_message-Completed :
    (py : Builtins) (decimals : Float → String) (o : Option VisualMessage)
    → (of_message py decimals o).state ≢ unknown
    → (m : VisualMessage) × (o ≡ some m) × (m.state ≡ (of_message py decimals o).state)
unfolding check_result_from_msg
of_message-Completed py decimals none e = absurd (e refl)
of_message-Completed py decimals (some m) e = (m, refl, refl)

-- The visual check answers TRUE or FALSE only for a goal with a query that a ready server accepted and
-- finished as SUCCEEDED, and with the state of the message that it then gave; every other course of
-- events is UNKNOWN.
pub answer_needs_message :
    (py : Builtins) (decimals : Float → String) (s : Session) (check : Fields)
    → (client_check py decimals s check).state ≢ unknown
    → ((visual_query py check == "") ≡ false) × Completed s (client_check py decimals s check).state
unfolding client_check
answer_needs_message py decimals s check e =
    let answer = of_message py decimals s.message in
    let h =
      course-Answered s.ready (visual_query py check == "") s.send_error s.accepted s.result_error
        s.ended_with answer e in
    let answers : answer.state ≢ unknown = λ open_end. e (rw h.is_answer open_end) in
    let (m, is_message, is_state) = of_message-Completed py decimals s.message answers in
    (
      h.was_full,
      record {
        ready = h.was_ready;
        sent = h.was_sent;
        accepted = h.was_accepted;
        answered = h.was_answered;
        succeeded = h.was_ended;
        message = m;
        is_message = is_message;
        is_state = rw h.is_answer is_state;
      },
    )
