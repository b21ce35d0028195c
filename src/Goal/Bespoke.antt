-- ===== src/Goal/Bespoke.antt =====
-- mc_ai_bt/goal_check.py: what evidence says of the predicates that have a check of their own.
use mc_ai_bt.Common.{
  String, Bool, true, false, not, ◌&&◌, ◌||◌, ◌==◌, Option, none, some, List, [], ◌∷◌,
  if◌then◌else◌,
}
use mc_ai_bt.Common.Float.{Float}
use mc_ai_bt.Common.Text.{strip, or_text, ◌<>◌}
use mc_ai_bt.Json.{Value, null, bool, dict, Fields, get, text_or_empty, text_of}
use mc_ai_bt.Json.Builtins.{Builtins, get_or_null, has_key, if_dict, text_of_keys}
use mc_ai_bt.Executor.{yes, no, unknown}
use mc_ai_bt.Entity.{fact_value, Evidence}
use mc_ai_bt.Entity.People.{PeopleEvidence}
use mc_ai_bt.Validator.Resources.{among}
use mc_ai_bt.Goal.Direct.{
  CheckResult, result, by_verdict, by_state, differ, says_false, truthy_state,
}

-- `str(d.get(key) or "")`
abbrev pub text_at : Builtins → String → Fields → String
text_at py key d = text_or_empty py.rt (get key d)

-- A name that is expected and one that is found: equal, another one, or none.
unfoldable pub compare_names : String → String → String → String → CheckResult → CheckResult
compare_names actual expected confirmed mismatch missing =
    if actual == ""
    then missing
    else if actual == expected
    then result yes (confirmed <> actual)
    else result no (mismatch <> actual <> " != " <> expected)

-- The part of `_relative_motion_result` that compares numbers.
abbrev motion_value : Builtins → Fields → String → Option Float → Option Float → CheckResult
motion_value py actual source (some expected) (some observed) =
    if py.apart observed expected
    then result no (
        source
        <> " relative_motion value mismatch: "
        <> py.format observed
        <> " != "
        <> py.format expected)
    else result yes (source <> " confirms relative_motion_completed")
motion_value py actual source expected observed = result no (
    source
    <> " relative_motion value is not numeric: "
    <> text_of py.rt (get_or_null "value" actual))

-- `_relative_motion_result` on an object.
unfoldable pub motion_object : Builtins → Fields → Fields → String → CheckResult
motion_object py actual args source =
    let expected_action = text_at py "action" args in
    let observed_action = text_at py "action" actual in
    if not (expected_action == "") && not (observed_action == expected_action)
    then result no (
        source <> " relative_motion action mismatch: " <> observed_action <> " != "
        <> expected_action)
    else if has_key "value" args
    then motion_value py actual source (py.to_float (get_or_null "value" args))
        (py.to_float (get_or_null "value" actual))
    else result yes (source <> " confirms relative_motion_completed")

-- `_relative_motion_result`
unfoldable pub relative_motion_result : Builtins → Option Value → Fields → String → CheckResult
relative_motion_result py (some (dict actual)) args source = motion_object py actual args source
relative_motion_result py v args source = result unknown "relative_motion_completed fact missing"

-- `entity or entity_id or person_id or id or person`
abbrev pub entity_text : Builtins → Fields → String
entity_text py d =
    strip (text_of_keys py ("entity" ∷ "entity_id" ∷ "person_id" ∷ "id" ∷ "person" ∷ []) d)

abbrev following_keys : List String
following_keys = "following" ∷ "active" ∷ "matched" ∷ "state" ∷ "value" ∷ []

unfoldable pub following_object : Builtins → Fields → Fields → String → CheckResult
following_object py value args source =
    if says_false (get "semantic_verified" value)
    then result unknown
        (source <> " following action completed but semantic verification is missing")
    else if differ (entity_text py args) (entity_text py value)
    then result no (
        source
        <> " following entity mismatch: "
        <> entity_text py value
        <> " != "
        <> entity_text py args)
    else by_state (truthy_state py following_keys value) source "following"
        "following fact is inconclusive"

abbrev following_value : Builtins → Value → Fields → String → CheckResult
following_value py (bool b) args source = by_verdict b source "person_following" "person_following"
following_value py (dict value) args source = following_object py value args source
following_value py v args source = result unknown (source <> " following fact has unknown shape")

-- `_person_following_result`
unfoldable pub person_following_result : Builtins → Option Value → Fields → String → CheckResult
person_following_result py none args source = result unknown "following fact missing"
person_following_result py (some null) args source = result unknown "following fact missing"
person_following_result py (some entry) args source =
    following_value py (fact_value entry) args source

-- `_normalize_alias`
unfoldable pub normalize_alias : Builtins → String → String
normalize_alias py raw = py.casefold (strip (py.nfkc raw))

abbrev pub alias_text : Builtins → Fields → String
alias_text py d = normalize_alias py (text_at py "alias" d)

abbrev pub entity_id_text : Builtins → Fields → String
entity_id_text py d = strip (text_at py "entity_id" d)

unfoldable pub alias_object : Builtins → Fields → Fields → String → CheckResult
alias_object py args value source =
    let alias = alias_text py value in
    let entity_id = entity_id_text py value in
    if differ (alias_text py args) alias
    then result no (
        source
        <> " entity_alias_bound alias mismatch: "
        <> py.rt.quote alias
        <> " != "
        <> py.rt.quote (alias_text py args))
    else if differ (entity_id_text py args) entity_id
    then result no (
        source
        <> " entity_alias_bound entity_id mismatch: "
        <> entity_id
        <> " != "
        <> entity_id_text py args)
    else if alias == "" || entity_id == ""
    then result unknown (source <> " entity_alias_bound fact is inconclusive")
    else result yes
        (source <> " confirms entity_alias_bound: " <> py.rt.quote alias <> " -> " <> entity_id)

abbrev alias_value : Builtins → Fields → Value → String → CheckResult
alias_value py args (dict value) source = alias_object py args value source
alias_value py args v source =
    result unknown (source <> " entity_alias_bound fact has unknown shape")

-- `_entity_alias_bound_result`
unfoldable pub entity_alias_bound_result : Builtins → Fields → Option Value → String → CheckResult
entity_alias_bound_result py args none source = result unknown "entity_alias_bound fact missing"
entity_alias_bound_result py args (some null) source =
    result unknown "entity_alias_bound fact missing"
entity_alias_bound_result py args (some entry) source =
    alias_value py args (fact_value entry) source

-- The request that a human goal waits for.
abbrev pub expected_request : Builtins → Fields → String
expected_request py goal =
    or_text (strip (text_at py "request_id" goal))
      (strip (text_at py "request_id" (if_dict (get "verification" goal))))

abbrev decision_result : String → String → CheckResult
decision_result source decision =
    if among decision ("1" ∷ "APPROVED" ∷ [])
    then result yes (source <> " confirms human approval")
    else if among decision ("2" ∷ "DENIED" ∷ "3" ∷ "TIMEOUT" ∷ "4" ∷ "CANCELED" ∷ [])
    then result no (source <> " says human confirmation was " <> decision)
    else result unknown (source <> " human confirmation fact is inconclusive")

abbrev approval : Option Value → String → CheckResult → CheckResult
approval (some (bool true)) source other = result yes (source <> " confirms human approval")
approval (some (bool false)) source other =
    result no (source <> " says human confirmation was not approved")
approval v source other = other

unfoldable pub confirmation_object : Builtins → Fields → Fields → String → CheckResult
confirmation_object py value goal source =
    let actual = strip (text_at py "request_id" value) in
    if differ (expected_request py goal) actual
    then result no (
        source
        <> " human confirmation request mismatch: "
        <> actual
        <> " != "
        <> expected_request py goal)
    else approval (get "approved" value) source
        (decision_result source (py.upper (strip (text_at py "decision" value))))

abbrev confirmation_value : Builtins → Value → Fields → String → CheckResult
confirmation_value py (dict value) goal source = confirmation_object py value goal source
confirmation_value py v goal source =
    result unknown (source <> " human confirmation fact has unknown shape")

-- `_human_confirmation_result`
unfoldable pub human_confirmation_result : Builtins → Option Value → Fields → String → CheckResult
human_confirmation_result py none goal source = result unknown "human confirmation fact missing"
human_confirmation_result py (some null) goal source =
    result unknown "human confirmation fact missing"
human_confirmation_result py (some entry) goal source =
    confirmation_value py (fact_value entry) goal source

-- `_object_visibility_result`
abbrev by_evidence : Builtins → Option Bool → Evidence → String → CheckResult
by_evidence py (some true) e source =
    result yes (source <> " confirms object_visible: " <> e.expected)
by_evidence py (some false) e source = result no (
    source
    <> " contradicts object_visible for "
    <> e.expected
    <> ": "
    <> e.reason
    <> " ("
    <> text_of py.rt e.observed
    <> ")")
by_evidence py none e source =
    result unknown (source <> " has no conclusive object_visible evidence: " <> e.reason)

unfoldable pub object_visibility_result : Builtins → Evidence → String → CheckResult
object_visibility_result py e source = by_evidence py e.matched e source

-- `_people_visibility_result`
abbrev by_people : Builtins → Option Bool → PeopleEvidence → String → CheckResult
by_people py (some true) e source = result yes (source <> " confirms person_visible")
by_people py (some false) e source = result no (
    source
    <> " contradicts person_visible: "
    <> e.reason
    <> " ("
    <> text_of py.rt e.observed
    <> ")")
by_people py none e source =
    result unknown (source <> " has no conclusive person_visible evidence: " <> e.reason)

unfoldable pub people_visibility_result : Builtins → PeopleEvidence → String → CheckResult
people_visibility_result py e source = by_people py e.matched e source
