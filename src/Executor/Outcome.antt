-- ===== src/Executor/Outcome.antt =====
-- How success, blocked and needs_decision of the results of mc_ai_bt/executor.py fit together.
use mathlib.Core.Path.{subst}
use mc_ai_bt.Common.{
  ℕ, suc, String, Bool, true, false, Option, none, some, List, [], ◌∷◌, ◌≡◌, refl, sym, inl, inr,
  Bool-cases, All, if◌then◌else◌,
}
use mc_ai_bt.Json.{Value, Items, cons, Fields}
use mc_ai_bt.Executor.{
  ExecutionResult, sequence_stops, escalates, failures, any_blocked, any_needs_decision,
  parallel_outcome, merge_facts, joined,
}
use mc_ai_bt.Executor.Leaf.{Env, Acted}
use mc_ai_bt.Executor.Sound.{
  IsSound, failed-Fits, success-Fits, failure-Fits, postcondition_outcome-IsSound, Checked-IsSound,
}
use mc_ai_bt.Executor.Run.{Exec, Steps, Choices, Attempts, Branches}

-- What the thread of a branch reported is sound.
abbrev Reported : Option ExecutionResult → Type 0
Reported none = Unit
Reported (some r) = IsSound r

added-IsSound :
    (b : Bool) (r : ExecutionResult) (others : List ExecutionResult)
    → IsSound r
    → All IsSound others
    → All IsSound (if b then others else r ∷ others)
added-IsSound true r others h k = k
added-IsSound false r others h k = (h, k)

failures-IsSound :
    (results : List (Option ExecutionResult))
    → All Reported results
    → All IsSound (failures results)
unfolding failures
failures-IsSound [] h = tt
failures-IsSound (none ∷ rest) h =
    (failed-Fits true false (λ e. absurd (cc)), failures-IsSound rest h.1)
failures-IsSound (some r ∷ rest) h =
    added-IsSound r.success r (failures rest) h.0 (failures-IsSound rest h.1)

needs-blocked :
    (rs : List ExecutionResult)
    → All IsSound rs
    → any_needs_decision rs ≡ true
    → any_blocked rs ≡ true
unfolding any_needs_decision any_blocked
needs-blocked [] h e = absurd (cc)
needs-blocked (r ∷ rs) h e = elim (Bool-cases r.needs_decision) [
  | inl here ↦ rw (h.0.0 here) refl
  | inr there ↦ elim (Bool-cases r.blocked) [
    | inl blocked ↦ rw blocked refl
    | inr free ↦ rw free (needs-blocked rs h.1 (rw there at e))
  ]
]

joined-IsSound :
    (facts : Fields) (rs : List ExecutionResult) → All IsSound rs → IsSound (joined facts rs)
joined-IsSound facts [] h = success-Fits
joined-IsSound facts (r ∷ rs) h =
    failed-Fits (any_blocked (r ∷ rs)) (any_needs_decision (r ∷ rs)) (needs-blocked (r ∷ rs) h)

parallel_outcome-IsSound :
    (facts : Fields) (results : List (Option ExecutionResult))
    → All Reported results
    → IsSound (parallel_outcome facts results)
unfolding parallel_outcome
parallel_outcome-IsSound facts results h =
    joined-IsSound (merge_facts facts results) (failures results) (failures-IsSound results h)

sequence_stops-IsSound :
    (facts : Fields) (r : ExecutionResult) → IsSound r → IsSound (sequence_stops facts r)
unfolding sequence_stops
sequence_stops-IsSound facts r h = failed-Fits r.blocked r.needs_decision h.0

escalates-IsSound : (facts : Fields) (r : ExecutionResult) → IsSound (escalates facts r)
unfolding escalates
escalates-IsSound facts r = failed-Fits true r.needs_decision λ e. refl

module _ (env : Env)
    (skills : (name : String) (args : Value) (r : ExecutionResult)
      → env.skill name args r
      → IsSound r)
    (visual : (node facts : Fields) (r : ExecutionResult)
      → env.visual_check node facts r
      → IsSound r) where
  Acted-IsSound :
      (inline : Bool) (node : Fields) (q : ExecutionResult) → Acted env inline node q → IsSound q
  Acted-IsSound inline node q (Acted.returned skill at_skill ran own) = skills _ _ q ran
  Acted-IsSound inline node q (Acted.asked skill r state message at_skill ran asks a e) =
      subst IsSound (sym e) (postcondition_outcome-IsSound skill r state message)

  mutual
    Exec-IsSound :
        (inline : Bool) (facts node : Fields) (q : ExecutionResult)
        → Exec env inline facts node q
        → IsSound q
    Exec-IsSound inline facts node q (Exec.canceled e) = subst IsSound (sym e) failure-Fits
    Exec-IsSound inline facts node q (Exec.refused message bad e) =
        subst IsSound (sym e) failure-Fits
    Exec-IsSound inline facts node q (Exec.action is acted) = Acted-IsSound inline node q acted
    Exec-IsSound inline facts node q (Exec.sequence {xs = xs} is listed steps) =
        Steps-IsSound inline facts xs q steps
    Exec-IsSound inline facts node q (Exec.fallback {xs = xs} is listed choices) =
        Choices-IsSound inline facts xs _ q choices
    Exec-IsSound inline facts node q (Exec.wait x is at_limit e) =
        subst IsSound (sym e) (success-Fits)
    Exec-IsSound inline facts node q (Exec.retry {child = child} n is at_child at_max attempts) =
        Attempts-IsSound n child 1 n facts _ q attempts
    Exec-IsSound inline facts node q
          (Exec.parallel {x = x} {xs = xs} {results = rs} is listed branches e) =
        subst IsSound (sym e)
          (parallel_outcome-IsSound facts rs (Branches-Reported facts (cons x xs) rs branches))
    Exec-IsSound inline facts node q (Exec.timeout {child = child} x is at_child at_limit inner) =
        Exec-IsSound false facts child q inner
    Exec-IsSound inline facts node q (Exec.timeout_late x is at_child at_limit e) =
        subst IsSound (sym e) (failed-Fits true false λ n. absurd (cc))
    Exec-IsSound inline facts node q (Exec.timeout_lost is at_child e) =
        subst IsSound (sym e) (failed-Fits true false λ n. absurd (cc))
    Exec-IsSound inline facts node q (Exec.no_action is e) = subst IsSound (sym e) (success-Fits)
    Exec-IsSound inline facts node q (Exec.condition is checked) =
        Checked-IsSound env inline _ _ facts q checked
    Exec-IsSound inline facts node q (Exec.goal_check is at_check checked) =
        Checked-IsSound env inline _ _ facts q checked
    Exec-IsSound inline facts node q (Exec.visual_check is seen) = visual node facts q seen
    Exec-IsSound inline facts node q (Exec.event_unconfigured is off e) =
        subst IsSound (sym e) (failed-Fits true false λ n. absurd (cc))
    Exec-IsSound inline facts node q (Exec.event_seen message is on seen e) =
        subst IsSound (sym e) (success-Fits)
    Exec-IsSound inline facts node q (Exec.event_missed state message is on seen e) =
        subst IsSound (sym e) (failed-Fits true true λ n. refl)

    Steps-IsSound :
        (inline : Bool) (facts : Fields) (xs : Items) (q : ExecutionResult)
        → Steps env inline facts xs q
        → IsSound q
    Steps-IsSound inline facts _ q (Steps.all_done e) = subst IsSound (sym e) (success-Fits)
    Steps-IsSound inline facts _ q (Steps.stopped {r = r} ran bad e) =
        subst IsSound (sym e) (sequence_stops-IsSound facts r (Exec-IsSound inline facts _ r ran))
    Steps-IsSound inline facts _ q (Steps.went_on ran good steps) = Steps-IsSound inline _ _ q steps

    Choices-IsSound :
        (inline : Bool) (facts : Fields) (xs : Items) (last : String) (q : ExecutionResult)
        → Choices env inline facts xs last q
        → IsSound q
    Choices-IsSound inline facts _ last q (Choices.none_left e) =
        subst IsSound (sym e) (failure-Fits)
    Choices-IsSound inline facts _ last q (Choices.escalated {r = r} ran stuck e) =
        subst IsSound (sym e) (escalates-IsSound facts r)
    Choices-IsSound inline facts _ last q (Choices.chosen ran free good e) =
        subst IsSound (sym e) (success-Fits)
    Choices-IsSound inline facts _ last q (Choices.tried ran free bad choices) =
        Choices-IsSound inline _ _ _ q choices

    Attempts-IsSound :
        (max : ℕ) (child : Fields) (attempt left : ℕ) (facts : Fields) (last : String)
        (q : ExecutionResult)
        → Attempts env max child attempt left facts last q
        → IsSound q
    Attempts-IsSound max child attempt left facts last q (Attempts.exhausted text e shown) =
        subst IsSound (sym e) (failure-Fits)
    Attempts-IsSound max child attempt left facts last q (Attempts.interrupted e) =
        subst IsSound (sym e) (failure-Fits)
    Attempts-IsSound max child attempt left facts last q (Attempts.gave_up {r = r} ran stuck e) =
        subst IsSound (sym e) (escalates-IsSound facts r)
    Attempts-IsSound max child attempt left facts last q (Attempts.worked ran free good e) =
        subst IsSound (sym e) (success-Fits)
    Attempts-IsSound max child attempt left facts last q
          (Attempts.again {left = rest} ran free bad more) =
        Attempts-IsSound max child (suc attempt) rest _ _ q more

    Branches-Reported :
        (facts : Fields) (xs : Items) (results : List (Option ExecutionResult))
        → Branches env facts xs results
        → All Reported results
    Branches-Reported facts _ _ Branches.joined_all = tt
    Branches-Reported facts _ _ (Branches.reported {r = r} ran others) =
        (Exec-IsSound false facts _ r ran, Branches-Reported facts _ _ others)
    Branches-Reported facts _ _ (Branches.lost others) = (tt, Branches-Reported facts _ _ others)

  -- If skills and visual checks return sound results, so does every tree: a result that needs a decision is
  -- blocked, and a blocked result is no success.
  pub tree-IsSound :
      (inline : Bool) (facts node : Fields) (q : ExecutionResult)
      → Exec env inline facts node q
      → IsSound q
  tree-IsSound inline facts node q ran = Exec-IsSound inline facts node q ran
