-- ===== src/Executor/Success.antt =====
-- What the success of a composite node says of its children.
use mc_ai_bt.Common.{
  Bool, true, false, Option, none, some, List, [], ◌∷◌, ◌≡◌, refl, sym, ap, ◌∙◌, All, inl, inr,
  Bool-cases, if◌then◌else◌,
}
use mc_ai_bt.Json.{Value, dict, Items, Fields}
use mc_ai_bt.Validator.Accepted.{In, at_head, in_tail}
use mc_ai_bt.Executor.{
  ExecutionResult, failures, parallel_outcome, merge_facts, joined, sequence_stops,
}
use mc_ai_bt.Executor.Leaf.{Env}
use mc_ai_bt.Executor.Run.{Exec, Steps, Branches}

module _ (env : Env) (inline : Bool) where
  -- The value is a node that was executed with success, on some facts.
  pub record RanWell (v : Value) : Type 1 where
    pub node : Fields
    pub before : Fields
    pub result : ExecutionResult
    pub is_node : v ≡ dict node
    pub ran : Exec env inline before node result
    pub well : result.success ≡ true

-- The thread reported a success.
abbrev pub Succeeded : Option ExecutionResult → Type 0
Succeeded none = ⊥
Succeeded (some r) = r.success ≡ true

joined-none :
    (facts : Fields) (rs : List ExecutionResult) → (joined facts rs).success ≡ true → rs ≡ []
joined-none facts [] e = refl
joined-none facts (r ∷ rs) e = absurd (cc)

failures-none :
    (results : List (Option ExecutionResult)) → failures results ≡ [] → All Succeeded results
unfolding failures
failures-none [] e = tt
failures-none (none ∷ rest) e = absurd (cc)
failures-none (some r ∷ rest) e = elim (Bool-cases r.success) [
  | inl good ↦ (
    good,
    failures-none rest (sym (ap (λ b. if b then failures rest else r ∷ failures rest) good) ∙ e),
  )
  | inr bad ↦ absurd (cc (sym (ap (λ b. if b then failures rest else r ∷ failures rest) bad) ∙ e))
]

-- A Parallel node succeeds only if each of its threads reported a success.
pub parallel_outcome-Succeeded :
    (facts : Fields) (results : List (Option ExecutionResult))
    → (parallel_outcome facts results).success ≡ true
    → All Succeeded results
unfolding parallel_outcome
parallel_outcome-Succeeded facts results e =
    failures-none results (joined-none (merge_facts facts results) (failures results) e)

module _ (env : Env) where
  branch_ran :
      (facts : Fields) (xs : Items) (results : List (Option ExecutionResult)) (v : Value)
      → Branches env facts xs results
      → All Succeeded results
      → In v xs
      → RanWell env false v
  branch_ran facts _ _ v Branches.joined_all h p = elim p [ ]
  branch_ran facts _ _ v (Branches.reported {node = node} {r = r} ran others) h at_head = record {
    node = node;
    before = facts;
    result = r;
    is_node = refl;
    ran = ran;
    well = h.0;
  }
  branch_ran facts _ _ v (Branches.reported ran others) h (in_tail p) =
      branch_ran facts _ _ v others h.1 p
  branch_ran facts _ _ v (Branches.lost others) h p = absurd h.0

  step_ran :
      (inline : Bool) (facts : Fields) (xs : Items) (q : ExecutionResult) (v : Value)
      → Steps env inline facts xs q
      → q.success ≡ true
      → In v xs
      → RanWell env inline v
  unfolding sequence_stops
  step_ran inline facts _ q v (Steps.all_done e) good p = elim p [ ]
  step_ran inline facts _ q v (Steps.stopped ran bad e) good p =
      absurd (cc (ap (λ (r : ExecutionResult). r.success) e, good))
  step_ran inline facts _ q v (Steps.went_on {node = node} {r = r} ran well steps) good at_head =
      record { node = node; before = facts; result = r; is_node = refl; ran = ran; well = well }
  step_ran inline facts _ q v (Steps.went_on ran well steps) good (in_tail p) =
      step_ran inline _ _ q v steps good p

  -- A sequence of steps succeeds only if every child was executed with success, in the same position
  -- for the resolver.
  pub sequence_runs_all :
      (inline : Bool) (facts : Fields) (xs : Items) (q : ExecutionResult) (v : Value)
      → Steps env inline facts xs q
      → q.success ≡ true
      → In v xs
      → RanWell env inline v
  sequence_runs_all inline facts xs q v steps good p = step_ran inline facts xs q v steps good p

  -- A Parallel node whose branches join with success has executed every child with success, and
  -- without the resolver.
  pub parallel_runs_all :
      (facts : Fields) (xs : Items) (results : List (Option ExecutionResult)) (v : Value)
      → Branches env facts xs results
      → (parallel_outcome facts results).success ≡ true
      → In v xs
      → RanWell env false v
  parallel_runs_all facts xs results v branches good p =
      branch_ran facts xs results v branches (parallel_outcome-Succeeded facts results good) p
