-- ===== src/Goal/Observation.antt =====
-- mc_ai_bt/goal_check.py and mc_ai_bt/executor.py: the goal that an observation was made, and the marks
-- of the registry.
use mc_ai_bt.Common.{Bool, true, Option, some, ◌≡◌, refl, ◌∙◌, inl, inr}
use mc_ai_bt.Json.{dict, Fields, get}
use mc_ai_bt.Json.Builtins.{dict_or_empty}
use mc_ai_bt.Executor.{ExecutionResult, yes}
use mc_ai_bt.Executor.Leaf.{Env}
use mc_ai_bt.Executor.Visual.{Eyes, VisuallyChecked, observes}
use mc_ai_bt.Executor.Observed.{Recorded, Ends, observation_is_recorded}
use mc_ai_bt.Visual.{is_str}
use mc_ai_bt.Goal.Direct.{CheckResult}
use mc_ai_bt.Goal.Bespoke.{text_at}
use mc_ai_bt.Goal.World.{Tools, branch_of, execution_branch, check_execution_facts, visual_result}
use mc_ai_bt.Goal.{Provider, check, check_structured}
use mc_ai_bt.Goal.Evidence.{check-structured}

visual_result-yes :
    (t : Tools) (facts : Fields) (value : Bool)
    → Recorded facts value
    → (visual_result t.py (get "visual_check_result" facts)).state ≡ yes
unfolding visual_result
visual_result-yes t facts value rec = rw (rec.is_entry, visual_result, rec.completed) refl

success-Recorded :
    (q : ExecutionResult) → Ends q → q.success ≡ true → (value : Bool) × Recorded q.facts value
success-Recorded q (inl (value, s, rec)) e = (value, rec)
success-Recorded q (inr (f, b)) e = absurd (cc)

-- A visual check in observe mode that ends with success makes the goal that a visual check is completed
-- TRUE, whatever the answer was and whatever the world state holds.
pub observation_reaches_goal :
    (env : Env) (eyes : Eyes) (node facts check_object : Fields) (q : ExecutionResult)
    → observes node ≡ true
    → get "check" node ≡ some (dict check_object)
    → VisuallyChecked env eyes node facts q
    → q.success ≡ true
    → (t : Tools) (provider : Option Provider) (goal args : Fields)
    → is_str "structured" (get "type" goal) ≡ true
    → text_at t.py "predicate" goal ≡ "visual_check_completed"
    → dict_or_empty (get "args" goal) ≡ some args
    → (r : CheckResult) × (check t provider goal q ≡ some r) × (r.state ≡ yes)
unfolding check_structured check_execution_facts branch_of execution_branch
observation_reaches_goal env eyes node facts check_object q observe given seen success t provider
      goal args structured named is_args =
    let ended = observation_is_recorded env eyes node facts check_object q observe given seen in
    let (value, rec) = success-Recorded q ended success in
    let verdict = visual_result-yes t q.facts value rec in
    (
      visual_result t.py (get "visual_check_result" q.facts),
      check-structured t provider goal q structured success ∙ rw (named, is_args, verdict) refl,
      verdict,
    )
