-- ===== src/Executor/Unrefused.antt =====
-- Which nodes of an accepted plan mc_ai_bt/executor.py refuses.
use mathlib.Core.Path.{subst}
use mc_ai_bt.Common.{
  String, Bool, true, false, not, ◌&&◌, Option, none, some, ◌≡◌, refl, ap, ◌∙◌, inl, inr,
  Bool-cases, arith, eq_iff, ◌==◌,
}
use mc_ai_bt.Common.Float.{Float, of_ℕ, zero_float}
use mc_ai_bt.Json.{
  Value, null, bool, int, float, str, list, dict, nil, cons, Fields, end, field, get, truthy,
  Runtime,
}
use mc_ai_bt.Json.Number.{number, number_or_bool, outside}
use mc_ai_bt.Validator.Resources.{Skills}
use mc_ai_bt.Validator.Checks.{Report, fine, say_if, NodeKind, poll_report}
use mc_ai_bt.Validator.{
  validate, validate_node, validate_children, validate_list, validate_child, node_report,
  leaf_report, required_child,
}
use mc_ai_bt.Validator.Accepted.{
  also-fine, Within, IsAccepted-Within, node_checks, root-IsAccepted, IsNode-accepted,
}
use mc_ai_bt.Executor.Leaf.{
  Env, refusal, object_or, branches_error, event_error, refusal_of, action_error,
}
use mc_ai_bt.Common.Text.{strip, ◌<>◌}
use mc_ai_bt.Validator.Checks.{
  is_filled, skill_report, args_report, timeout_report, generic_timeout_report,
}
use mc_ai_bt.Executor.{value_or, timeout_refused}
use mc_ai_bt.Executor.Accepted.{
  ReadsNumbers, reads_range, limit-none, attempts-none, wait-outside, retry-attempts,
  timeout-outside, check-object, visual-object, say_if-fine, refusal-kind, int_within,
}
use mc_ai_bt.Executor.Leaf.{is_name, is_object, is_absent, is_unread}

number-bool :
    (v : Option Value) (low high : Float)
    → outside low high (number v) ≡ false
    → outside low high (number_or_bool v) ≡ false
unfolding number_or_bool number outside
number-bool none low high e = e
number-bool (some null) low high e = e
number-bool (some (bool b)) low high e = absurd (cc)
number-bool (some (int n)) low high e = e
number-bool (some (float x)) low high e = e
number-bool (some (str t)) low high e = e
number-bool (some (list xs)) low high e = e
number-bool (some (dict d)) low high e = e

module _ (rt : Runtime) (skills : Skills) (path : String) where
  required-dict :
      (v : Value) (inner : String)
      → required_child path v (validate_node rt skills inner v) ≡ fine
      → (c : Fields) × (v ≡ dict c)
  unfolding validate_node
  required-dict null inner e = absurd (cc)
  required-dict (bool b) inner e = absurd (cc)
  required-dict (int n) inner e = absurd (cc)
  required-dict (float x) inner e = absurd (cc)
  required-dict (str t) inner e = absurd (cc)
  required-dict (list xs) inner e = absurd (cc)
  required-dict (dict c) inner e = (c, refl)

  child-object :
      (d : Fields) (message : String) (later : Option String)
      → validate_child rt skills path d ≡ fine
      → later ≡ none
      → object_or message later (get "child" d) ≡ none
  unfolding validate_child get
  child-object end message later e h = absurd (cc)
  child-object (field k v rest) message later e h = elim (Bool-cases (k == "child")) [
    | inl same ↦
        let (c, is) = required-dict v (path <> ".child") (rw same at e) in rw same (rw is h)
    | inr other ↦ rw other (child-object rest message later (rw other at e) h)
  ]

  list-branches :
      (v : Value) → validate_list rt skills path v ≡ fine → branches_error (some v) ≡ none
  unfolding validate_list
  list-branches (list nil) e = absurd (cc)
  list-branches (list (cons x xs)) e = refl
  list-branches null e = absurd (cc)
  list-branches (bool b) e = absurd (cc)
  list-branches (int n) e = absurd (cc)
  list-branches (float x) e = absurd (cc)
  list-branches (str t) e = absurd (cc)
  list-branches (dict d) e = absurd (cc)

  children-branches :
      (d : Fields)
      → validate_children rt skills path d ≡ fine
      → branches_error (get "children" d) ≡ none
  unfolding validate_children get
  children-branches end e = absurd (cc)
  children-branches (field k v rest) e = elim (Bool-cases (k == "children")) [
    | inl same ↦ rw same (list-branches v (rw same at e))
    | inr other ↦ rw other (children-branches rest (rw other at e))
  ]

  skill-name : (v : Option Value) → skill_report skills path v ≡ fine → is_name v ≡ true
  unfolding skill_report is_filled strip
  skill-name (some (str t)) e = elim (Bool-cases (t == "")) [
    | inl is ↦
        absurd
          (cc (subst (λ u. skill_report skills path (some (str u)) ≡ fine) ((eq_iff t "").0 is) e))
    | inr filled ↦ ap not filled
  ]
  skill-name none e = absurd (cc)
  skill-name (some null) e = absurd (cc)
  skill-name (some (bool b)) e = absurd (cc)
  skill-name (some (int n)) e = absurd (cc)
  skill-name (some (float x)) e = absurd (cc)
  skill-name (some (list xs)) e = absurd (cc)
  skill-name (some (dict d)) e = absurd (cc)

  args-object :
      (v : Option Value) → args_report path v ≡ fine → is_object (value_or v (dict end)) ≡ true
  unfolding truthy
  args-object none e = refl
  args-object (some (dict end)) e = refl
  args-object (some (dict (field k v rest))) e = refl
  args-object (some null) e = absurd (cc)
  args-object (some (bool b)) e = absurd (cc)
  args-object (some (int n)) e = absurd (cc)
  args-object (some (float x)) e = absurd (cc)
  args-object (some (str t)) e = absurd (cc)
  args-object (some (list xs)) e = absurd (cc)

  range-fine :
      (v : Option Value) (message : String)
      → say_if (outside zero_float (of_ℕ 600) (number v)) message ≡ fine
      → outside zero_float (of_ℕ 600) (number_or_bool v) ≡ false
  range-fine v message e = number-bool v zero_float (of_ℕ 600) (say_if-fine _ message e)

  timeout-fine : (v : Option Value) → timeout_report path v ≡ fine → timeout_refused v ≡ false
  unfolding timeout_report timeout_refused
  timeout-fine none e = refl
  timeout-fine (some null) e = refl
  timeout-fine (some (bool b)) e =
      range-fine (some (bool b)) (path <> ".timeout_sec must be in (0, 600]") e
  timeout-fine (some (int n)) e =
      range-fine (some (int n)) (path <> ".timeout_sec must be in (0, 600]") e
  timeout-fine (some (float x)) e =
      range-fine (some (float x)) (path <> ".timeout_sec must be in (0, 600]") e
  timeout-fine (some (str t)) e =
      range-fine (some (str t)) (path <> ".timeout_sec must be in (0, 600]") e
  timeout-fine (some (list xs)) e =
      range-fine (some (list xs)) (path <> ".timeout_sec must be in (0, 600]") e
  timeout-fine (some (dict d)) e =
      range-fine (some (dict d)) (path <> ".timeout_sec must be in (0, 600]") e

not-false : (b : Bool) → not b ≡ false → b ≡ true
not-false true e = refl
not-false false e = absurd (cc)

module _ (env : Env) (reads : ReadsNumbers env) (rt : Runtime) (skills : Skills) (path : String)
    (d : Fields) where
  poll-read :
      (v : Option Value)
      → poll_report path v ≡ fine
      → (not (is_absent v) && is_unread (env.to_float v)) ≡ false
  unfolding poll_report
  poll-read none e = refl
  poll-read (some (int n)) e =
      let out = say_if-fine _ (path <> ".poll_interval_sec must be in [0.5, 30]") e in
      let (k, is, low) = int_within n (not-false _ out) in
      ap (λ o. is_unread o)
        (ap (λ m. env.to_float (some (int m))) is ∙ reads.small_ints k (omega arith))
  poll-read (some (float x)) e = ap (λ o. is_unread o) (reads.floats x)
  poll-read (some null) e = absurd (cc)
  poll-read (some (bool b)) e = absurd (cc)
  poll-read (some (str t)) e = absurd (cc)
  poll-read (some (list xs)) e = absurd (cc)
  poll-read (some (dict c)) e = absurd (cc)

  limit-read :
      (v : Option Value)
      → outside zero_float (of_ℕ 1800) (number v) ≡ false
      → is_unread (env.to_float v) ≡ false
  limit-read v e =
      let (x, read, in_range) =
        reads_range env reads v 1800 (omega arith) (number-bool v zero_float (of_ℕ 1800) e) in
      ap (λ o. is_unread o) read

  event-none :
      (children child : Report)
      → node_report rt skills NodeKind.wait_for_event path d children child ≡ fine
      → event_error env (get "poll_interval_sec" d) (get "timeout_sec" d) ≡ none
  unfolding node_report leaf_report
  event-none children child e =
      let rest = (also-fine _ _ (also-fine _ _ e).1).1 in
      let limit =
        limit-read (get "timeout_sec" d)
          (say_if-fine _ (path <> ".timeout_sec must be in (0, 1800]") (also-fine _ _ rest).0) in
      let poll = poll-read (get "poll_interval_sec" d) (also-fine _ _ rest).1 in
      ground (arith, limit, poll)

  action-none :
      (children child : Report)
      → generic_timeout_report NodeKind.action path d ≡ fine
      → node_report rt skills NodeKind.action path d children child ≡ fine
      → action_error d ≡ none
  unfolding node_report leaf_report action_error
  action-none children child timed e =
      let name = skill-name rt skills path (get "skill" d) (also-fine _ _ e).0 in
      let args = args-object rt skills path (get "args" d) (also-fine _ _ e).1 in
      let timeout = timeout-fine rt skills path (get "timeout_sec" d) timed in
      rw (name, args, timeout) refl

  unrefused :
      (kind : NodeKind)
      → generic_timeout_report kind path d ≡ fine
      → node_report rt skills kind path d
          (validate_children rt skills path d)
          (validate_child rt skills path d)
        ≡ fine
      → refusal_of env kind d ≡ none
  unfolding refusal_of
  unrefused NodeKind.action t e = action-none _ _ t e
  unrefused NodeKind.wait t e =
      limit-none env reads _ _ (get "duration_sec" d) 300 (omega arith)
        (wait-outside rt skills path d _ _ e)
  unrefused NodeKind.retry t e =
      child-object rt skills path d _ _ (unfold node_report in (also-fine _ _ e).1)
        (attempts-none env reads (get "max_attempts" d) (retry-attempts rt skills path d _ _ e))
  unrefused NodeKind.timeout t e =
      child-object rt skills path d _ _ (unfold node_report in (also-fine _ _ e).1) (
        limit-none env reads _ _ (get "timeout_sec" d) 600 (omega arith) (
          number-bool (get "timeout_sec" d) zero_float (of_ℕ 600)
            (timeout-outside rt skills path d _ _ e)))
  unrefused NodeKind.parallel t e =
      children-branches rt skills path d (unfold node_report in (also-fine _ _ e).0)
  unrefused NodeKind.goal_check t e =
      check-object rt skills path d fine fine (get "check" d) (unfold node_report leaf_report in e)
  unrefused NodeKind.visual_check t e =
      visual-object rt skills path d fine fine (get "check" d)
        (unfold node_report leaf_report in (also-fine _ _ e).0)
  unrefused NodeKind.wait_for_event t e = event-none _ _ e
  unrefused NodeKind.sequence t e = refl
  unrefused NodeKind.fallback t e = refl
  unrefused NodeKind.condition t e = refl
  unrefused NodeKind.no_action t e = refl

-- No node of the tree of an accepted plan is refused by the executor as malformed or unsupported, if the
-- executor reads the plan's numbers as what they are.
pub accepted_plan_runs :
    (env : Env) (rt : Runtime) (skills : Skills) (plan d : Fields) (root : Value)
    → ReadsNumbers env
    → validate rt skills (dict plan) ≡ fine
    → get "root" plan ≡ some root
    → Within (dict d) root
    → refusal env d ≡ none
accepted_plan_runs env rt skills plan d root reads ok at_root inner =
    let (path, e) =
      IsAccepted-Within rt skills (dict d) root (root-IsAccepted rt skills plan root at_root ok)
        inner in
    let (kind, is) = IsNode-accepted rt skills path d e in
    let (timed, body) = node_checks rt skills path d kind is e in
    refusal-kind env kind d is ∙ unrefused env reads rt skills path d kind timed body
