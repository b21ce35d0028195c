-- ===== src/Executor/Sound.antt =====
-- How success, blocked and needs_decision fit together in the results of the checks and actions of
-- mc_ai_bt/executor.py.
use mathlib.Core.Path.{subst}
use mc_ai_bt.Common.{String, Bool, true, false, ◌≡◌, refl, sym}
use mc_ai_bt.Json.{Fields}
use mc_ai_bt.Executor.{
  ExecutionResult, TriState, yes, no, unknown, check_outcome, resolved_outcome,
  postcondition_outcome,
}
use mc_ai_bt.Executor.Leaf.{Env, Checked}

abbrev pub Fits : Bool → Bool → Bool → Type 0
Fits success blocked needs_decision =
    (needs_decision ≡ true → blocked ≡ true) × (blocked ≡ true → success ≡ false)

-- A result that needs a decision is blocked, and one that is blocked is no success.
abbrev pub IsSound : ExecutionResult → Type 0
IsSound r = Fits r.success r.blocked r.needs_decision

pub failed-Fits :
    (blocked needs_decision : Bool)
    → (needs_decision ≡ true → blocked ≡ true)
    → Fits false blocked needs_decision
failed-Fits blocked needs_decision h = (h, λ e. refl)

pub success-Fits : Fits true false false
success-Fits = ((λ e. absurd (cc)), λ e. absurd (cc))

pub failure-Fits : Fits false false false
failure-Fits = ((λ e. absurd (cc)), λ e. absurd (cc))

pub check_outcome-IsSound :
    (label : String) (facts : Fields) (state : TriState) (message : String)
    → IsSound (check_outcome label facts state message)
unfolding check_outcome
check_outcome-IsSound label facts yes message = success-Fits
check_outcome-IsSound label facts no message = failure-Fits
check_outcome-IsSound label facts unknown message = failed-Fits true true λ e. refl

pub resolved_outcome-IsSound :
    (label : String) (facts : Fields) (message : String) (state : TriState) (answer : String)
    → IsSound (resolved_outcome label facts message state answer)
unfolding resolved_outcome
resolved_outcome-IsSound label facts message yes answer = success-Fits
resolved_outcome-IsSound label facts message no answer = failure-Fits
resolved_outcome-IsSound label facts message unknown answer =
    check_outcome-IsSound label facts unknown message

pub postcondition_outcome-IsSound :
    (skill : String) (r : ExecutionResult) (state : TriState) (message : String)
    → IsSound (postcondition_outcome skill r state message)
unfolding postcondition_outcome
postcondition_outcome-IsSound skill r yes message = success-Fits
postcondition_outcome-IsSound skill r no message = failure-Fits
postcondition_outcome-IsSound skill r unknown message = failed-Fits true false λ e. absurd (cc)

module _ (env : Env) where
  pub Checked-IsSound :
      (inline : Bool) (label : String) (spec facts : Fields) (q : ExecutionResult)
      → Checked env inline label spec facts q
      → IsSound q
  Checked-IsSound inline label spec facts q (Checked.unconfigured off e) =
      subst IsSound (sym e) (failed-Fits true false λ n. absurd (cc))
  Checked-IsSound inline label spec facts q (Checked.answered state message on c u e) =
      subst IsSound (sym e) (check_outcome-IsSound label facts state message)
  Checked-IsSound inline label spec facts q (Checked.asked message state answer on c may a e) =
      subst IsSound (sym e) (resolved_outcome-IsSound label facts message state answer)
