-- ===== src/Broker/Answers.antt =====
-- What an answer of mc_ai_bt/decision_broker.py rests on.
use mc_ai_bt.Common.{
  String, Bool, true, false, ◌==◌, Option, none, some, ◌≡◌, refl, ap, sym, ◌∙◌, ltb, Bool-cases,
  Option-cases, inl, inr, eq_iff,
}
use mathlib.Core.Path.{subst}
use mc_ai_bt.Common.Float.{leb_float}
use mc_ai_bt.Json.{Fields}
use mc_ai_bt.Json.Builtins.{Builtins}
use mc_ai_bt.Executor.{TriState, yes, no, unknown}
use mc_ai_bt.Validator.Resources.{among}
use mc_ai_bt.Broker.Locate.{Located, Sighting, found, not_found, inconclusive}
use mc_ai_bt.Broker.{
  DecisionOutcome, Metric, Channels, Polled, answered, elapsed, canceled, once_more, Resolved,
  by_approach, by_sight, unchecked, by_checker, by_operator, unanswered, approached,
  approached_by_id, check_entity_approached, entity_id, target, tolerance, entity_track_by_id,
  Approached,
}

abbrev pub is_yes : TriState → Bool
is_yes yes = true
is_yes no = false
is_yes unknown = false

-- An answer comes from one check: neither the end of the window nor a cancellation gives one.
polled-answer :
    (check : DecisionOutcome → Type 0) (o : DecisionOutcome)
    → Polled check o
    → ¬ (o.state ≡ unknown)
    → check o
polled-answer check o (answered c _) open_end = c
polled-answer check o (elapsed _ _ e) open_end =
    absurd (open_end (ap (λ (q : DecisionOutcome). q.state) e))
polled-answer check o (canceled _ _ e) open_end =
    absurd (open_end (ap (λ (q : DecisionOutcome). q.state) e))
polled-answer check o (once_more _ _ later) open_end = polled-answer check o later open_end

by_id-unknown :
    (py : Builtins) (id : String) (world : Option String)
    → (approached_by_id py id world).state ≡ unknown
unfolding approached_by_id
by_id-unknown py id none = refl
by_id-unknown py id (some raw) = elim (Option-cases (entity_track_by_id py raw id)) [
  | inl none_found ↦ rw (approached_by_id, none_found) refl
  | inr (track, at_track) ↦ rw (approached_by_id, at_track) refl
]

-- The evidence that the robot stands before an object.
abbrev pub SeenAlone : Metric → Located → DecisionOutcome → Type 0
SeenAlone metric located o =
    (s : Sighting) × (located ≡ found s)
    × (ltb 1 s.match_count ≡ false)
    × (leb_float (metric.hypot s.x s.y) tolerance ≡ is_yes o.state)

approached-SeenAlone :
    (py : Builtins) (metric : Metric) (name : String) (located : Located)
    → ¬ ((approached py metric name located).state ≡ unknown)
    → SeenAlone metric located (approached py metric name located)
unfolding approached
approached-SeenAlone py metric name (inconclusive reason) open_end = absurd (open_end refl)
approached-SeenAlone py metric name (not_found available reason) open_end = absurd (open_end refl)
approached-SeenAlone py metric name (found s) open_end = elim (Bool-cases (ltb 1 s.match_count)) [
  | inl many ↦ absurd (open_end (rw (approached, many) refl))
  | inr one ↦ elim (Bool-cases (leb_float (metric.hypot s.x s.y) tolerance)) [
    | inl close ↦ (s, refl, one, rw (approached, one, close) refl)
    | inr far ↦ (s, refl, one, rw (approached, one, far) refl)
  ]
]

check-SeenAlone :
    (py : Builtins) (metric : Metric) (world : Option String) (locate : String → Located)
    (args : Fields)
    → ¬ ((check_entity_approached py metric world locate args).state ≡ unknown)
    → (entity_id py args ≡ "")
      × SeenAlone metric
          (locate (target py args))
          (check_entity_approached py metric world locate args)
unfolding check_entity_approached
check-SeenAlone py metric world locate args open_end = elim (Bool-cases (entity_id py args == "")) [
  | inr named ↦
      absurd (
        open_end (rw (check_entity_approached, named) (by_id-unknown py (entity_id py args) world)))
  | inl unnamed ↦ elim (Bool-cases (target py args == "")) [
    | inl blank ↦ absurd (open_end (rw (check_entity_approached, unnamed, blank) refl))
    | inr aimed ↦ (
      (eq_iff (entity_id py args) "").0 unnamed,
      rw (check_entity_approached, unnamed, aimed)
          (approached-SeenAlone py metric (target py args) (locate (target py args))
            (rw (check_entity_approached, unnamed, aimed) at open_end)),
    )
  ]
]

-- The broker answers TRUE or FALSE to entity_approached only if the arguments name no entity id, and
-- with one query of the locator for the target that found one instance: TRUE if it is within 1.5
-- metres, and FALSE if not.
pub approached_needs_one_instance :
    (py : Builtins) (metric : Metric) (channels : Channels) (args : Fields) (o : DecisionOutcome)
    → Resolved py metric channels args "entity_approached" o
    → ¬ (o.state ≡ unknown)
    → (entity_id py args ≡ "")
      × ((locate : String → Located) × channels.locate locate
          × SeenAlone metric (locate (target py args)) o)
unfolding among
approached_needs_one_instance py metric channels args o (by_approach _ polled) open_end =
    let (world, locate, _, located, e) =
      polled-answer (Approached py metric channels args) o polled open_end in
    let (unnamed, seen) =
      check-SeenAlone py metric world locate args
        (λ u. open_end (ap (λ (q : DecisionOutcome). q.state) e ∙ u)) in
    (unnamed, (locate, located, subst (SeenAlone metric (locate (target py args))) (sym e) seen))
approached_needs_one_instance py metric channels args o (by_sight e _) open_end =
    absurd (cc (ap (λ s. s == "object_visible") e))
approached_needs_one_instance py metric channels args o (unchecked e _ _) open_end =
    absurd (cc (ap (λ s. s == "person_visible") e))
approached_needs_one_instance py metric channels args o (by_checker e _ _) open_end =
    absurd (cc (ap (λ s. s == "person_visible") e))
approached_needs_one_instance py metric channels args o (by_operator _ e _ _) open_end =
    absurd (cc (ap (λ s. s == "_d_v1_semantic_smoke_test") e))
approached_needs_one_instance py metric channels args o (unanswered e _) open_end = absurd (cc)
