-- ===== src/Executor/Accepted.antt =====
-- The numbers of a plan that the validator accepts, as mc_ai_bt/executor.py reads them.
use mathlib.Core.Path.{subst}
use mc_ai_bt.Common.{
  ℕ, ◌^◌, ◌*◌, ◌≤◌, String, Bool, true, false, Option, none, some, ◌≡◌, refl, ap, ◌∙◌, arith,
}
use mc_ai_bt.Common.Int.{ℤ, pos, negsuc}
use mc_ai_bt.Common.Float.{Float, finite, unit, of_ℕ, zero_float}
use mc_ai_bt.Json.{Value, null, bool, int, float, str, list, dict, Fields, get, Runtime}
use mc_ai_bt.Json.Number.{of_ℤ, number, number_or_bool, outside, within}
use mc_ai_bt.Validator.Resources.{Skills}
use mc_ai_bt.Validator.Checks.{
  Report, fine, say_if, NodeKind, kind_of, known, find, found_text, own_timeout_report,
  attempts_report, goal_check_report, visual_check_report, is_attempts,
}
use mc_ai_bt.Validator.{node_report, leaf_report}
use mc_ai_bt.Validator.Accepted.{also-fine, IsNode}
use mc_ai_bt.Executor.Leaf.{
  Env, refusal, node_kind, attempts_error, limit_error, object_or, refusal_of, refusal_known,
  known_kind,
}

-- What `int` and `float` make of the numbers of an accepted plan.
pub record ReadsNumbers (env : Env) : Type 0 where
  pub ints : (n : ℤ) → env.to_int (some (int n)) ≡ some n
  pub true_is_one : env.to_int (some (bool true)) ≡ some (pos 1)
  pub floats : (x : Float) → env.to_float (some (float x)) ≡ some x
  pub small_ints : (n : ℕ) → n ≤ 1800 → env.to_float (some (int (pos n))) ≡ some (of_ℕ n)
  pub true_float : env.to_float (some (bool true)) ≡ some (of_ℕ 1)

cancel_unit : (k n : ℕ) → k * unit ≤ n * unit → k ≤ n
unfolding unit
cancel_unit k n h = omega arith

int_in_range :
    (n : ℤ) (high : ℕ)
    → outside zero_float (of_ℕ high) (some (of_ℤ n)) ≡ false
    → (k : ℕ) × (n ≡ pos k) × (k ≤ high)
unfolding outside of_ℤ
int_in_range (pos k) high e = (k, refl, cancel_unit k high (ground arith))
int_in_range (negsuc k) high e = absurd (ground arith)

pub int_within :
    (n : ℤ)
    → within (finite (pos (2 ^ 1073))) (of_ℕ 30) (some (of_ℤ n)) ≡ true
    → (k : ℕ) × (n ≡ pos k) × (k ≤ 30)
unfolding within of_ℤ
int_within (pos k) e = (k, refl, cancel_unit k 30 (ground arith))
int_within (negsuc k) e = absurd (ground arith)

-- A number that lies in a range of the validator is read as that number.
module _ (env : Env) (reads : ReadsNumbers env) where
  pub reads_range :
      (v : Option Value) (high : ℕ)
      → high ≤ 1800
      → outside zero_float (of_ℕ high) (number_or_bool v) ≡ false
      → (x : Float) × (env.to_float v ≡ some x) × (outside zero_float (of_ℕ high) (some x) ≡ false)
  unfolding number_or_bool number outside
  reads_range none high small e = absurd (cc)
  reads_range (some null) high small e = absurd (cc)
  reads_range (some (bool true)) high small e = (of_ℕ 1, reads.true_float, e)
  reads_range (some (bool false)) high small e = absurd (ground arith)
  reads_range (some (int n)) high small e =
      let (k, is, low) = int_in_range n high e in
      (
        of_ℕ k,
        ap (λ m. env.to_float (some (int m))) is ∙ reads.small_ints k (omega arith),
        subst (λ m. outside zero_float (of_ℕ high) (some (of_ℤ m)) ≡ false) is e,
      )
  reads_range (some (float x)) high small e = (x, reads.floats x, e)
  reads_range (some (str t)) high small e = absurd (cc)
  reads_range (some (list xs)) high small e = absurd (cc)
  reads_range (some (dict d)) high small e = absurd (cc)

  pub limit-none :
      (numeric range : String) (v : Option Value) (high : ℕ)
      → high ≤ 1800
      → outside zero_float (of_ℕ high) (number_or_bool v) ≡ false
      → limit_error numeric range (of_ℕ high) (env.to_float v) ≡ none
  unfolding outside
  limit-none numeric range v high small e =
      let (x, read, in_range) = reads_range v high small e in rw (read, in_range) refl

  pub attempts-none :
      (v : Option Value) → is_attempts v ≡ true → attempts_error (env.to_int v) ≡ none
  attempts-none none e = absurd (cc)
  attempts-none (some null) e = absurd (cc)
  attempts-none (some (bool b)) e =
      ap attempts_error (ap (λ c. env.to_int (some (bool c))) e ∙ reads.true_is_one)
  attempts-none (some (int (pos n))) e = ap attempts_error (reads.ints (pos n)) ∙ ground arith
  attempts-none (some (int (negsuc n))) e = absurd (ground arith)
  attempts-none (some (float x)) e = absurd (cc)
  attempts-none (some (str t)) e = absurd (cc)
  attempts-none (some (list xs)) e = absurd (cc)
  attempts-none (some (dict d)) e = absurd (cc)

pub say_if-fine : (b : Bool) (message : String) → say_if b message ≡ fine → b ≡ false
say_if-fine true message e = absurd (cc)
say_if-fine false message e = refl

found_text-known :
    (o : Option NodeKind) (kind : NodeKind) → found_text o ≡ known kind → o ≡ some kind
found_text-known none kind e = absurd (cc)
found_text-known (some k) kind e = cc

known_kind-found :
    (o : Option Value) (kind : NodeKind) → find kind_of o ≡ known kind → known_kind o ≡ some kind
unfolding find
known_kind-found none kind e = absurd (cc)
known_kind-found (some (str t)) kind e = found_text-known (kind_of t) kind e
known_kind-found (some null) kind e = absurd (cc)
known_kind-found (some (bool b)) kind e = absurd (cc)
known_kind-found (some (int n)) kind e = absurd (cc)
known_kind-found (some (float x)) kind e = absurd (cc)
known_kind-found (some (list xs)) kind e = absurd (cc)
known_kind-found (some (dict d)) kind e = absurd (cc)

pub refusal-kind :
    (env : Env) (kind : NodeKind) (d : Fields)
    → IsNode kind d
    → refusal env d ≡ refusal_of env kind d
unfolding refusal node_kind
refusal-kind env kind d is =
    ap (λ o. refusal_known env o d) (known_kind-found (get "type" d) kind is)

module _ (rt : Runtime) (skills : Skills) (path : String) (d : Fields)
    (children child : Report) where
  pub wait-outside :
      node_report rt skills NodeKind.wait path d children child ≡ fine
      → outside zero_float (of_ℕ 300) (number_or_bool (get "duration_sec" d)) ≡ false
  unfolding node_report leaf_report
  wait-outside e = say_if-fine _ _ e

  pub retry-attempts :
      node_report rt skills NodeKind.retry path d children child ≡ fine
      → is_attempts (get "max_attempts" d) ≡ true
  unfolding node_report attempts_report
  retry-attempts e = ground (arith, say_if-fine _ _ (also-fine _ _ e).0)

  pub timeout-outside :
      node_report rt skills NodeKind.timeout path d children child ≡ fine
      → outside zero_float (of_ℕ 600) (number (get "timeout_sec" d)) ≡ false
  unfolding node_report own_timeout_report
  timeout-outside e = say_if-fine _ _ (also-fine _ _ e).0

  pub check-object :
      (o : Option Value)
      → goal_check_report rt path o ≡ fine
      → object_or "goal check requires check object" none o ≡ none
  unfolding goal_check_report
  check-object none e = absurd (cc)
  check-object (some (dict c)) e = refl
  check-object (some null) e = absurd (cc)
  check-object (some (bool b)) e = absurd (cc)
  check-object (some (int n)) e = absurd (cc)
  check-object (some (float x)) e = absurd (cc)
  check-object (some (str t)) e = absurd (cc)
  check-object (some (list xs)) e = absurd (cc)

  pub visual-object :
      (o : Option Value)
      → visual_check_report path o ≡ fine
      → object_or "visual check requires check object" none o ≡ none
  unfolding visual_check_report
  visual-object none e = absurd (cc)
  visual-object (some (dict c)) e = refl
  visual-object (some null) e = absurd (cc)
  visual-object (some (bool b)) e = absurd (cc)
  visual-object (some (int n)) e = absurd (cc)
  visual-object (some (float x)) e = absurd (cc)
  visual-object (some (str t)) e = absurd (cc)
  visual-object (some (list xs)) e = absurd (cc)
