-- ===== src/Goal/Direct.antt =====
-- mc_ai_bt/goal_check.py: what one piece of evidence says of the predicates that have no check of
-- their own, and the summary of a scanned room.
use mc_ai_bt.Common.{
  ℕ, ◌*◌, ◌^◌, String, Bool, true, false, not, ◌&&◌, ◌==◌, Option, none, some, List, [], ◌∷◌,
  if◌then◌else◌,
}
use mc_ai_bt.Common.Int.{ℤ, pos}
use mc_ai_bt.Common.Float.{Float, zero_float, leb_float}
use mc_ai_bt.Common.Text.{strip, ◌<>◌}
use mc_ai_bt.Json.{Value, null, bool, int, str, dict, Fields, get}
use mc_ai_bt.Json.Builtins.{Builtins, get_or_null, text_of_keys}
use mc_ai_bt.Executor.{TriState, yes, no, unknown}
use mc_ai_bt.Entity.{fact_value}
use mc_ai_bt.Validator.Resources.{among}

-- `CheckResult(state, message)`; the fields on the provenance of an observation keep their defaults.
pub record CheckResult : Type 0 where
  pub state : TriState
  pub message : String

abbrev pub result : TriState → String → CheckResult
result state message = record { state = state; message = message }

abbrev pub by_verdict : Bool → String → String → String → CheckResult
by_verdict true source before after = result yes (source <> " confirms " <> after)
by_verdict false source before after = result no (source <> " contradicts " <> after)

abbrev truth_words : List String
truth_words =
    "true" ∷ "yes" ∷ "active" ∷ "matched" ∷ "inside" ∷ "following" ∷ "complete" ∷ "completed" ∷ []

abbrev falsehood_words : List String
falsehood_words =
    "false" ∷ "no" ∷ "inactive" ∷ "unmatched" ∷ "outside" ∷ "not_following" ∷ "failed" ∷ []

abbrev word_state : String → Option Bool
word_state word =
    if among word truth_words
    then some true
    else if among word falsehood_words
    then some false
    else none

-- What one field says, if it says anything.
unfoldable pub field_state : Builtins → Option Value → Option Bool
field_state py (some (bool b)) = some b
field_state py (some (str s)) = word_state (py.lower (strip s))
field_state py v = none

-- `_truthy_state`
unfoldable pub truthy_state : Builtins → List String → Fields → Option Bool
truthy_state py [] value = none
truthy_state py (key ∷ keys) value =
    let later = truthy_state py keys value in
    elim (field_state py (get key value)) [ some b ↦ some b | none ↦ later ]

-- `x is True` and `x is False`
abbrev pub holds : Option Bool → Bool
holds (some b) = b
holds none = false

abbrev pub says_true : Option Value → Bool
says_true (some (bool b)) = b
says_true v = false

abbrev pub says_false : Option Value → Bool
says_false (some (bool b)) = not b
says_false v = false

-- `_number_field`
abbrev number_field : Builtins → String → Fields → Float
number_field py key value = elim (py.to_float (get_or_null key value)) [
  | some x ↦ x
  | none ↦ zero_float
]

-- The float 0.05.
abbrev pub contact_seconds : Float
contact_seconds = Float.finite (pos (3_602_879_701_896_397 * 2 ^ 1018))

-- `_contact_verified`
unfoldable pub contact_verified : Builtins → Fields → Bool
contact_verified py value =
    holds (truthy_state py ("semantic_verified" ∷ []) value)
    && holds (
        truthy_state py ("contact_verified" ∷ "contact" ∷ "contact_detected" ∷ "touched" ∷ [])
          value)
    && leb_float contact_seconds (number_field py "contact_duration_sec" value)

-- `_target_state_change_verified`
unfoldable pub target_state_change_verified : Builtins → Fields → Bool
target_state_change_verified py value =
    holds (truthy_state py ("semantic_verified" ∷ []) value)
    && holds (truthy_state py ("state_verified" ∷ "target_state_verified" ∷ []) value)
    && holds (truthy_state py ("changed" ∷ "state_changed" ∷ "active" ∷ "value" ∷ []) value)

-- `a and b and a != b`, on texts.
unfoldable pub differ : String → String → Bool
differ a b = not (a == "") && not (b == "") && not (b == a)

-- `TRUE`, `FALSE` or `UNKNOWN` by what the fields say.
abbrev pub by_state : Option Bool → String → String → String → CheckResult
by_state (some b) source known open_end = by_verdict b source known known
by_state none source known open_end = result unknown (source <> " " <> open_end)

abbrev pub place_text : Builtins → Fields → String
place_text py d = strip (text_of_keys py ("place" ∷ "place_name" ∷ []) d)

abbrev pub direct_keys : List String
direct_keys = "at_place" ∷ "inside" ∷ "matched" ∷ "state" ∷ "value" ∷ []

-- `_direct_predicate_result` on evidence that is an object.
unfoldable pub direct_object : Builtins → String → Fields → Fields → String → CheckResult
direct_object py predicate args value source =
    if says_false (get "semantic_verified" value)
    then result unknown
        (source <> " " <> predicate <> " action completed but semantic verification is missing")
    else if predicate == "contact_detected" && not (contact_verified py value)
    then result unknown (source <> " contact_detected lacks verified contact evidence")
    else if predicate == "target_state_changed" && not (target_state_change_verified py value)
    then result unknown (source <> " target_state_changed lacks target-state verification")
    else if differ (place_text py args) (place_text py value)
    then result no (
        source
        <> " "
        <> predicate
        <> " place mismatch: "
        <> place_text py value
        <> " != "
        <> place_text py args)
    else by_state (truthy_state py direct_keys value) source predicate
        (predicate <> " fact is inconclusive")

abbrev pub direct_value : Builtins → String → Fields → Value → String → CheckResult
direct_value py predicate args (bool b) source = by_verdict b source predicate predicate
direct_value py predicate args (dict value) source = direct_object py predicate args value source
direct_value py predicate args v source =
    result unknown (source <> " " <> predicate <> " fact has unknown shape")

-- `_direct_predicate_result`; no entry is None.
unfoldable pub direct_predicate_result :
    Builtins → String → Fields → Option Value → String → CheckResult
direct_predicate_result py predicate args none source =
    result unknown (predicate <> " fact missing")
direct_predicate_result py predicate args (some null) source =
    result unknown (predicate <> " fact missing")
direct_predicate_result py predicate args (some entry) source =
    direct_value py predicate args (fact_value entry) source

abbrev is_one : ℤ → Bool
is_one (pos n) = elim n [ ℕ.suc ℕ.zero ↦ true | _ ↦ false ]
is_one n = false

abbrev hedge : Builtins → ℤ → Bool → String
hedge py count exact =
    let identities =
      if is_one count then "distinct tracked identity" else "distinct tracked identities" in
    let counted = py.rt.show (int count) <> " " <> identities <> " during the sweep" in
    if exact
    then "counted " <> counted
    else "observed " <> counted
      <> " -- a live camera-tracking count, not a verified exact headcount; it can "
      <> "overcount (track-ID churn) or undercount (someone briefly out of view)"

abbrev with_summary : Builtins → CheckResult → Fields → Option Value → CheckResult
with_summary py direct entry (some (int count)) =
    result direct.state
      (direct.message <> " (" <> hedge py count (says_true (get "count_exact" entry)) <> ")")
with_summary py direct entry count = direct

abbrev scanned : Builtins → CheckResult → TriState → Option Value → CheckResult
scanned py direct yes (some (dict entry)) =
    with_summary py direct entry (get "observed_track_count" entry)
scanned py direct state entry = direct

-- `_room_scanned_result`
unfoldable pub room_scanned_result : Builtins → CheckResult → Option Value → CheckResult
room_scanned_result py direct entry = scanned py direct direct.state entry
