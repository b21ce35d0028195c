-- ===== src/Goal/Precedence.antt =====
-- mc_ai_bt/goal_check.py: the facts of the execution before the world state.
use mc_ai_bt.Common.{String, true, Option, none, some, ◌≡◌, Bool-cases, inl, inr, arith}
use mc_ai_bt.Json.{Fields, end, field, get}
use mc_ai_bt.Executor.{ExecutionResult}
use mc_ai_bt.Visual.{is_str, visual_check_goal_spec}
use mc_ai_bt.Goal.Direct.{CheckResult}
use mc_ai_bt.Goal.World.{Tools, check_execution_facts, decided}
use mc_ai_bt.Goal.{
  Provider, snapshot, check, check_structured, check_human, structured_args, visual_goal,
}

module _ (t : Tools) (provider : Option Provider) {r : CheckResult}
    (decides : decided r.state ≡ true) where
  structured_args-kept :
      (p : String) (args : Option Fields) (facts : Fields)
      → structured_args t none p args facts ≡ some r
      → structured_args t provider p args facts ≡ some r
  unfolding snapshot
  structured_args-kept p none facts e = cc
  structured_args-kept p (some args) facts e =
      elim (Bool-cases (decided (check_execution_facts t p args facts).state)) [
        | inl d ↦ rw d (rw d at e)
        | inr d ↦ let open_end = rw d at e in absurd (ground arith)
      ]

  check_structured-kept :
      (goal facts : Fields)
      → check_structured t none goal facts ≡ some r
      → check_structured t provider goal facts ≡ some r
  unfolding check_structured
  check_structured-kept goal facts e = structured_args-kept _ _ facts e

  check_human-kept :
      (goal facts : Fields)
      → check_human t none goal facts ≡ some r
      → check_human t provider goal facts ≡ some r
  unfolding check_human snapshot
  check_human-kept goal facts e = ground arith

  visual_goal-kept :
      (parsed facts : Fields)
      → visual_goal t none parsed facts ≡ some r
      → visual_goal t provider parsed facts ≡ some r
  visual_goal-kept end facts e = e
  visual_goal-kept (field k v rest) facts e =
      elim (Bool-cases (is_str "visual" (get "type" (field k v rest)))) [
        | inl b ↦ rw b (rw b at e)
        | inr b ↦ rw b (check_structured-kept _ facts (rw b at e))
      ]

  -- A verdict of TRUE or FALSE that the facts of the execution give without a world state is the verdict
  -- with any world state.
  pub facts_come_first :
      (goal : Fields) (execution : ExecutionResult)
      → check t none goal execution ≡ some r
      → check t provider goal execution ≡ some r
  unfolding check
  facts_come_first goal execution e = ground (
    arith,
    check_human-kept goal execution.facts,
    visual_goal-kept (visual_check_goal_spec t.py t.extract goal) execution.facts,
    check_structured-kept goal execution.facts,
  )
