-- ===== src/Executor/Tests.antt =====
-- Small trees with a condition that nobody can answer, and the theorems on them.
use mc_ai_bt.Common.{Option, String, Bool, true, false, none, some, [], ◌∷◌, ◌≡◌, refl, sym}
use mathlib.Core.Path.{subst}
use mc_ai_bt.Common.Int.{ℤ, pos}
use mc_ai_bt.Common.Float.{Float, of_ℕ}
use mc_ai_bt.Json.Number.{outside, number_or_bool}
use mc_ai_bt.Json.{
  Value, bool, int, float, str, dict, list, nil, cons, Fields, end, field, get, Runtime,
}
use mc_ai_bt.Validator.Accepted.{at_head}
use mc_ai_bt.Validator.Checks.{kind_of}
use mc_ai_bt.Validator.Checks.{fine, find}
use mc_ai_bt.Validator.{validate}
use mc_ai_bt.Validator.Resources.{Skills}
use mc_ai_bt.Validator.Accepted.{itself}
use mc_ai_bt.Executor.Accepted.{ReadsNumbers}
use mc_ai_bt.Executor.Unrefused.{accepted_plan_runs}
use mc_ai_bt.Executor.{
  ExecutionResult, TriState, succeeded, check_outcome, sequence_stops, parallel_outcome, update,
}
use mc_ai_bt.Executor.Leaf.{Env, Checked, node_kind, refusal, reason_text}
use mc_ai_bt.Executor.Run.{Exec, Steps, Branches}
use mc_ai_bt.Executor.Sound.{IsSound}
use mc_ai_bt.Executor.Seen.{seeing_tree-IsSound}
use mc_ai_bt.Executor.Visual.{Eyes, observe_outcome}
use mc_ai_bt.Json.Builtins.{Builtins}
use mc_ai_bt.Visual.Client.{Observation, observed}
use mc_ai_bt.Executor.Success.{RanWell, sequence_runs_all, parallel_runs_all}

abbrev runtime : Runtime
runtime = record { loads = λ raw. none; dumps = λ v. "{}"; show = λ v. "value"; quote = λ s. s }

-- Skills succeed, and no check has an answer.
abbrev env : Env
env = record {
  rt = runtime;
  to_int = λ v. some (pos 2);
  to_float = λ v. none;
  format = λ x. "1";
  skill = λ name args r. r ≡ succeeded "done" end;
  has_checks = true;
  check = λ spec facts state message. state ≡ TriState.unknown;
  has_resolver = false;
  resolve = λ predicate args reason facts state message. state ≡ TriState.unknown;
  visual_check = λ node facts r. r ≡ succeeded "seen" facts;
}

abbrev idle : Fields
idle = field "type" (str "NoAction") end

abbrev asks : Fields
asks = field "type" (str "Condition") (field "predicate" (str "person_visible") end)

abbrev tree : Fields
tree =
    field "type" (str "Sequence")
      (field "children" (list (cons (dict idle) (cons (dict asks) nil))) end)

abbrev idled : ExecutionResult
idled = succeeded (reason_text runtime none) end

abbrev unanswered : ExecutionResult
unanswered = check_outcome "condition" end TriState.unknown "no evidence"

idle-ran : (inline : Bool) → Exec env inline end idle idled
unfolding node_kind refusal get kind_of
idle-ran inline = Exec.no_action (refl, refl) refl

asks-ran : Exec env true end asks unanswered
unfolding node_kind refusal get kind_of
asks-ran =
    Exec.condition (refl, refl)
      (Checked.answered TriState.unknown "no evidence" refl refl (λ e. refl) refl)

tree-ran : Exec env true end tree (sequence_stops end unanswered)
unfolding node_kind refusal get kind_of update check_outcome
tree-ran =
    Exec.sequence (refl, refl) refl
      (Steps.went_on (idle-ran true) refl (Steps.stopped asks-ran refl refl))

done-IsSound :
    (name : String) (args : Value) (r : ExecutionResult) → env.skill name args r → IsSound r
done-IsSound name args r e = subst IsSound (sym e) ((λ n. absurd (cc)), λ b. absurd (cc))

abbrev builtins : Builtins
builtins = record {
  rt = runtime;
  lower = λ s. s;
  upper = λ s. s;
  nfkc = λ s. s;
  casefold = λ s. s;
  to_float = λ v. none;
  to_int = λ v. none;
  apart = λ a b. false;
  format = λ x. "1";
}

-- The visual model sees no cup.
abbrev no_cup : Observation
no_cup = observed TriState.no "no cup"

abbrev eyes : Eyes
eyes = record {
  py = builtins;
  extract = λ query. "";
  now = of_ℕ 7;
  has_look = true;
  look = λ check facts o. o ≡ no_cup;
}

seeing_tree-IsSound_example : IsSound idled
unfolding node_kind refusal get kind_of
seeing_tree-IsSound_example =
    seeing_tree-IsSound env eyes done-IsSound true end idle idled (Exec.no_action (refl, refl) refl)

abbrev question : Fields
question = field "query" (str "is it red?") end

abbrev observing : Fields
observing =
    field "type" (str "VisualCheck")
      (field "mode" (str "observe") (field "check" (dict question) end))

abbrev recorded : ExecutionResult
recorded = observe_outcome env end question (of_ℕ 7) no_cup TriState.no

sequence_runs_all_example : RanWell env true (dict idle)
unfolding update
sequence_runs_all_example =
    sequence_runs_all env true end (cons (dict idle) nil) (succeeded "sequence succeeded" end)
      (dict idle) (Steps.went_on (idle-ran true) refl (Steps.all_done refl)) refl at_head

parallel_runs_all_example : RanWell env false (dict idle)
unfolding parallel_outcome
parallel_runs_all_example =
    parallel_runs_all env end (cons (dict idle) nil) (some idled ∷ []) (dict idle)
      (Branches.reported (idle-ran false) Branches.joined_all) refl at_head

-- A plan of one pause.
abbrev rest : Fields
rest = field "type" (str "Wait") (field "duration_sec" (int (pos 5)) end)

abbrev goal : Fields
goal =
    field "type" (str "human") (field "verification" (dict (field "by" (str "operator") end)) end)

abbrev plan : Fields
plan = field "root" (dict rest) (field "goal_spec" (dict goal) end)

abbrev skills : Skills
skills = record { has = λ name. false; resources = λ name. [] }

abbrev as_int : Option Value → Option ℤ
as_int (some (int n)) = some n
as_int (some (bool true)) = some (pos 1)
as_int v = none

abbrev as_float : Option Value → Option Float
as_float (some (float x)) = some x
as_float (some (int (pos n))) = some (of_ℕ n)
as_float (some (bool true)) = some (of_ℕ 1)
as_float v = none

abbrev reader : Env
reader = record env { to_int = as_int; to_float = as_float }

reader-ReadsNumbers : ReadsNumbers reader
reader-ReadsNumbers = record {
  ints = λ n. refl;
  true_is_one = refl;
  floats = λ x. refl;
  small_ints = λ n small. refl;
  true_float = refl;
}

plan-accepted : validate runtime skills (dict plan) ≡ fine
unfolding validate find kind_of get outside number_or_bool
plan-accepted = refl

accepted_plan_runs_example : refusal reader rest ≡ none
unfolding get
accepted_plan_runs_example =
    accepted_plan_runs reader runtime skills plan rest (dict rest) reader-ReadsNumbers plan-accepted
      refl itself
