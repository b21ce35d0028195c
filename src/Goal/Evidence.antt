-- ===== src/Goal/Evidence.antt =====
-- mc_ai_bt/goal_check.py: what stands behind the verdict on a structured goal.
use mc_ai_bt.Common.{
  String, Bool, true, false, not, Option, none, some, ◌≡◌, refl, ◌≢◌, if◌then◌else◌, arith, eq_iff,
}
use mc_ai_bt.Json.{Value, null, bool, str, dict, Fields, get}
use mc_ai_bt.Json.Builtins.{dict_or_empty}
use mc_ai_bt.Executor.{ExecutionResult, no}
use mc_ai_bt.Visual.{is_str}
use mc_ai_bt.Goal.Registry.{PredicateSpec, spec_of}
use mc_ai_bt.Goal.Direct.{CheckResult, result}
use mc_ai_bt.Goal.World.{Tools}
use mc_ai_bt.Goal.Snapshot.{scope_of}
use mc_ai_bt.Goal.{Provider, check, check_structured}
use mc_ai_bt.Goal.Backed.{Backs}

is_str-some : (text : String) (v : Option Value) → is_str text v ≡ true → v ≡ some (str text)
is_str-some text (some (str s)) e = ground (arith, eq_iff s text)
is_str-some text none e = cc
is_str-some text (some null) e = cc
is_str-some text (some (bool b)) e = cc
is_str-some text (some (Value.int n)) e = cc
is_str-some text (some (Value.float n)) e = cc
is_str-some text (some (Value.list n)) e = cc
is_str-some text (some (dict n)) e = cc

needs_success :
    (s : Bool) (message : String) (rest : Option CheckResult) {r : CheckResult}
    → (if not s then some (result no message) else rest) ≡ some r
    → r.state ≢ no
    → s ≡ true
needs_success true message rest e other_state = refl
needs_success false message rest {r} e other_state = absurd (other_state (cc))

module _ (t : Tools) (provider : Option Provider) (goal : Fields)
    (execution : ExecutionResult) where
  -- Only an execution with success can end with a goal that is not FALSE.
  pub check-success :
      {r : CheckResult}
      → check t provider goal execution ≡ some r
      → r.state ≢ no
      → execution.success ≡ true
  unfolding check
  check-success e other_state = needs_success _ _ _ e other_state

  -- A structured goal is checked by its predicate.
  pub check-structured :
      is_str "structured" (get "type" goal) ≡ true
      → execution.success ≡ true
      → check t provider goal execution ≡ check_structured t provider goal execution.facts
  unfolding check
  check-structured kind success = rw (success, is_str-some "structured" (get "type" goal) kind) refl

-- The entry of a scope of the world state that backs a verdict.
pub record WorldEvidence (t : Tools) (p : String) (args : Fields) (seen : Value) : Type 0 where
  pub top : Fields
  pub facts : Fields
  pub spec : PredicateSpec
  pub entry : Value
  pub is_top : seen ≡ dict top
  pub is_facts : dict_or_empty (get "facts" top) ≡ some facts
  pub is_spec : spec_of p ≡ some spec
  pub is_entry : get p (scope_of spec.snapshot_scope facts) ≡ some entry
  pub backs : Backs t.py p args entry

abbrev pub ExecutionEvidence : Tools → String → Fields → Fields → Type 0
ExecutionEvidence t p args facts = (v : Value) × (get p facts ≡ some v) × Backs t.py p args v
