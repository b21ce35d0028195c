-- ===== src/Entity/People.antt =====
-- mc_ai_bt/entity_facts.py: the people that a fact says are visible.
use mc_ai_bt.Common.{
  ◌+◌, String, Bool, true, false, ◌&&◌, ◌||◌, ◌==◌, Option, none, some, if◌then◌else◌, ℕ,
}
use mc_ai_bt.Common.Int.{ℤ, pos, leb_ℤ}
use mc_ai_bt.Json.{
  Value, null, int, str, list, dict, Items, nil, cons, Fields, end, field, get, truthy, text_of,
}
use mc_ai_bt.Json.Builtins.{Builtins, get_or_null}
use mc_ai_bt.Entity.{normalise_entity_name, fact_value}

-- What `people_visibility_evidence` returns; `matched` is `none` for None.
pub record PeopleEvidence : Type 0 where
  pub expected : Value
  pub observed : Value
  pub matched : Option Bool
  pub reason : String

-- `len(people)`
unfoldable pub count_of : Items → ℕ
count_of nil = 0
count_of (cons v rest) = count_of rest + 1

abbrev is_nonempty : Items → Bool
is_nonempty nil = false
is_nonempty (cons v rest) = true

abbrev people_in : Option Value → Items
people_in (some (list xs)) = xs
people_in v = nil

abbrev or_length : Option ℤ → Items → Option ℤ
or_length (some n) people = some n
or_length none people = if is_nonempty people then some (pos (count_of people)) else none

-- `people` and `count` of the value.
unfoldable pub people_and_count : Builtins → Value → Items × Option ℤ
people_and_count py (dict d) =
    let people = people_in (get "people" d) in
    (people, or_length (py.to_int (get_or_null "count" d)) people)
people_and_count py (list people) = (people, some (pos (count_of people)))
people_and_count py v = (nil, py.to_int v)

abbrev first_truthy : Option Value → Option Value → Option Value
first_truthy none w = w
first_truthy (some v) w = if truthy v then some v else w

abbrev id_text : Builtins → Option Value → Items → Items
id_text py none ids = ids
id_text py (some v) ids = if truthy v then cons (str (text_of py.rt v)) ids else ids

abbrev person_id_of : Fields → Option Value
person_id_of d = first_truthy (get "id" d) (first_truthy (get "person_id" d) (get "name" d))

-- `_person_ids`
unfoldable pub person_ids : Builtins → Items → Items
person_ids py nil = nil
person_ids py (cons (dict d) rest) = id_text py (person_id_of d) (person_ids py rest)
person_ids py (cons v rest) = person_ids py rest

abbrev is_candidate : Builtins → String → Option Value → Bool
is_candidate py wanted none = false
is_candidate py wanted (some v) = truthy v && normalise_entity_name py (text_of py.rt v) == wanted

-- `_person_matches`
unfoldable pub person_matches : Builtins → String → Value → Bool
person_matches py wanted (str s) = normalise_entity_name py s == wanted
person_matches py wanted (dict d) =
    is_candidate py wanted (get "id" d)
    || is_candidate py wanted (get "person_id" d)
    || is_candidate py wanted (get "name" d)
person_matches py wanted v = false

-- `any(_person_matches(person, wanted) for person in people)`
unfoldable pub any_matches : Builtins → String → Items → Bool
any_matches py wanted nil = false
any_matches py wanted (cons v rest) = person_matches py wanted v || any_matches py wanted rest

abbrev is_zero : Option ℤ → Bool
is_zero (some (pos ℕ.zero)) = true
is_zero n = false

abbrev named_verdict : Bool → Option Bool × String
named_verdict true = (some true, "person_visible")
named_verdict false = (some false, "person_not_visible")

abbrev count_verdict : Option ℤ → ℤ → Option Bool × String
count_verdict none min_count = (none, "count_missing")
count_verdict (some n) min_count =
    if leb_ℤ min_count n
    then (some true, "people_visible")
    else (some false, "too_few_people_visible")

-- The end of `people_visibility_evidence`: by the person that is wanted, or by the count.
unfoldable pub people_verdict : Builtins → String → ℤ → Items → Option ℤ → Option Bool × String
people_verdict py wanted min_count people count =
    if wanted == ""
    then count_verdict count min_count
    else if is_nonempty people
    then named_verdict (any_matches py wanted people)
    else if is_zero count
    then (some false, "no_people_visible")
    else (none, "missing_person_detail")

abbrev optional_count : Option ℤ → Value
optional_count none = null
optional_count (some n) = int n

abbrev expected_people : String → ℤ → Value
expected_people person_id min_count =
    dict (field "person_id" (str person_id) (field "min_count" (int min_count) end))

abbrev no_people : String → ℤ → PeopleEvidence
no_people person_id min_count = record {
  expected = expected_people person_id min_count;
  observed = null;
  matched = none;
  reason = "missing_fact";
}

abbrev people_evidence : Builtins → String → ℤ → Items × Option ℤ → PeopleEvidence
people_evidence py person_id min_count (people, count) =
    let verdict = people_verdict py (normalise_entity_name py person_id) min_count people count in
    record {
      expected = expected_people person_id min_count;
      observed = dict (
          field "count" (optional_count count)
            (field "person_ids" (list (person_ids py people)) end));
      matched = verdict.0;
      reason = verdict.1;
    }

abbrev evidence_of_value : Builtins → String → ℤ → Value → PeopleEvidence
evidence_of_value py person_id min_count null = no_people person_id min_count
evidence_of_value py person_id min_count v =
    people_evidence py person_id min_count (people_and_count py v)

abbrev evidence_of_people : Builtins → String → ℤ → Option Value → PeopleEvidence
evidence_of_people py person_id min_count none = no_people person_id min_count
evidence_of_people py person_id min_count (some entry) =
    evidence_of_value py person_id min_count (fact_value entry)

unfoldable pub people_visibility_evidence : Builtins → Option Value → String → ℤ → PeopleEvidence
people_visibility_evidence py entry person_id min_count =
    evidence_of_people py person_id min_count entry
