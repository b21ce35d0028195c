-- ===== src/Executor/Run.antt =====
-- The execution of a behaviour tree by BtExecutor.execute of mc_ai_bt/executor.py, as a relation of a
-- node, the facts before it and its result. Skills, checks, the resolver and the clock may answer
-- differently at each call, and the branches of a Parallel node run at the same time: they share nothing
-- but the cancel event, which may be set at any time, so each branch is executed on its own here.
use mc_ai_bt.Common.{ℕ, suc, String, Bool, true, false, Option, none, some, List, [], ◌∷◌, ◌≡◌}
use mc_ai_bt.Common.Int.{pos}
use mc_ai_bt.Common.Float.{Float}
use mc_ai_bt.Common.Text.{◌<>◌}
use mc_ai_bt.Json.{Value, int, list, dict, Items, nil, cons, Fields, end, get}
use mc_ai_bt.Executor.{
  ExecutionResult, TriState, succeeded, failed, failure, update, condition_spec,
  normalise_goal_check_spec, sequence_stops, escalates, parallel_outcome,
}
use mc_ai_bt.Validator.Checks.{NodeKind}
use mc_ai_bt.Executor.Leaf.{Env, node_kind, refusal, children_of, reason_text, Checked, Acted}

-- The node has this type, and is not refused.
abbrev pub Runs : Env → NodeKind → Fields → Type 0
Runs env kind node = (node_kind node ≡ some kind) × (refusal env node ≡ none)

module _ (env : Env) where
  mutual
    -- `execute`
    pub data Exec : Bool → Fields → Fields → ExecutionResult → Type 0 where
      canceled :
          {inline : Bool} {facts node : Fields} {q : ExecutionResult}
          → q ≡ failure "mission canceled"
          → Exec inline facts node q
      refused :
          {inline : Bool} {facts node : Fields} {q : ExecutionResult} (message : String)
          → refusal env node ≡ some message
          → q ≡ failure message
          → Exec inline facts node q
      action :
          {inline : Bool} {facts node : Fields} {q : ExecutionResult}
          → Runs env NodeKind.action node
          → Acted env inline node q
          → Exec inline facts node q
      sequence :
          {inline : Bool} {facts node : Fields} {q : ExecutionResult} {xs : Items}
          → Runs env NodeKind.sequence node
          → children_of (get "children" node) ≡ some xs
          → Steps inline facts xs q
          → Exec inline facts node q
      fallback :
          {inline : Bool} {facts node : Fields} {q : ExecutionResult} {xs : Items}
          → Runs env NodeKind.fallback node
          → children_of (get "children" node) ≡ some xs
          → Choices inline facts xs "fallback had no children" q
          → Exec inline facts node q
      wait :
          {inline : Bool} {facts node : Fields} {q : ExecutionResult} (x : Float)
          → Runs env NodeKind.wait node
          → env.to_float (get "duration_sec" node) ≡ some x
          → q ≡ succeeded ("waited " <> env.format x <> "s") end
          → Exec inline facts node q
      retry :
          {inline : Bool} {facts node child : Fields} {q : ExecutionResult} (n : ℕ)
          → Runs env NodeKind.retry node
          → get "child" node ≡ some (dict child)
          → env.to_int (get "max_attempts" node) ≡ some (pos n)
          → Attempts n child 1 n facts "retry had no attempts" q
          → Exec inline facts node q
      parallel :
          {inline : Bool} {facts node : Fields} {q : ExecutionResult} {x : Value} {xs : Items}
          {results : List (Option ExecutionResult)}
          → Runs env NodeKind.parallel node
          → get "children" node ≡ some (list (cons x xs))
          → Branches facts (cons x xs) results
          → q ≡ parallel_outcome facts results
          → Exec inline facts node q
      timeout :
          {inline : Bool} {facts node child : Fields} {q : ExecutionResult} (x : Float)
          → Runs env NodeKind.timeout node
          → get "child" node ≡ some (dict child)
          → env.to_float (get "timeout_sec" node) ≡ some x
          → Exec false facts child q
          → Exec inline facts node q
      timeout_late :
          {inline : Bool} {facts node child : Fields} {q : ExecutionResult} (x : Float)
          → Runs env NodeKind.timeout node
          → get "child" node ≡ some (dict child)
          → env.to_float (get "timeout_sec" node) ≡ some x
          → q ≡ failed ("timeout after " <> env.format x <> "s") facts true false
          → Exec inline facts node q
      timeout_lost :
          {inline : Bool} {facts node child : Fields} {q : ExecutionResult}
          → Runs env NodeKind.timeout node
          → get "child" node ≡ some (dict child)
          → q ≡ failed "timeout child produced no result" facts true false
          → Exec inline facts node q
      no_action :
          {inline : Bool} {facts node : Fields} {q : ExecutionResult}
          → Runs env NodeKind.no_action node
          → q ≡ succeeded (reason_text env.rt (get "reason" node)) facts
          → Exec inline facts node q
      condition :
          {inline : Bool} {facts node : Fields} {q : ExecutionResult}
          → Runs env NodeKind.condition node
          → Checked env inline "condition" (condition_spec node) facts q
          → Exec inline facts node q
      goal_check :
          {inline : Bool} {facts node check : Fields} {q : ExecutionResult}
          → Runs env NodeKind.goal_check node
          → get "check" node ≡ some (dict check)
          → Checked env inline "goal check" (normalise_goal_check_spec check) facts q
          → Exec inline facts node q
      visual_check :
          {inline : Bool} {facts node : Fields} {q : ExecutionResult}
          → Runs env NodeKind.visual_check node
          → env.visual_check node facts q
          → Exec inline facts node q
      event_unconfigured :
          {inline : Bool} {facts node : Fields} {q : ExecutionResult}
          → Runs env NodeKind.wait_for_event node
          → env.has_checks ≡ false
          → q ≡ failed "wait_for_event checker is not configured" facts true false
          → Exec inline facts node q
      event_seen :
          {inline : Bool} {facts node : Fields} {q : ExecutionResult} (message : String)
          → Runs env NodeKind.wait_for_event node
          → env.has_checks ≡ true
          → env.check (condition_spec node) facts TriState.yes message
          → q ≡ succeeded ("wait_for_event TRUE: " <> message) facts
          → Exec inline facts node q
      event_missed :
          {inline : Bool} {facts node : Fields} {q : ExecutionResult} (state : TriState)
          (message : String)
          → Runs env NodeKind.wait_for_event node
          → env.has_checks ≡ true
          → env.check (condition_spec node) facts state message
          → q ≡ failed ("wait_for_event timed out: " <> message) facts true true
          → Exec inline facts node q

    -- The loop of a Sequence.
    pub data Steps : Bool → Fields → Items → ExecutionResult → Type 0 where
      all_done :
          {inline : Bool} {facts : Fields} {q : ExecutionResult}
          → q ≡ succeeded "sequence succeeded" facts
          → Steps inline facts nil q
      stopped :
          {inline : Bool} {facts node : Fields} {rest : Items} {r q : ExecutionResult}
          → Exec inline facts node r
          → r.success ≡ false
          → q ≡ sequence_stops facts r
          → Steps inline facts (cons (dict node) rest) q
      went_on :
          {inline : Bool} {facts node : Fields} {rest : Items} {r q : ExecutionResult}
          → Exec inline facts node r
          → r.success ≡ true
          → Steps inline (update facts r.facts) rest q
          → Steps inline facts (cons (dict node) rest) q

    -- The loop of a Fallback; the text is the message of the last child.
    pub data Choices : Bool → Fields → Items → String → ExecutionResult → Type 0 where
      none_left :
          {inline : Bool} {facts : Fields} {last : String} {q : ExecutionResult}
          → q ≡ failed last facts false false
          → Choices inline facts nil last q
      escalated :
          {inline : Bool} {facts node : Fields} {rest : Items} {last : String}
          {r q : ExecutionResult}
          → Exec inline facts node r
          → r.blocked ≡ true
          → q ≡ escalates facts r
          → Choices inline facts (cons (dict node) rest) last q
      chosen :
          {inline : Bool} {facts node : Fields} {rest : Items} {last : String}
          {r q : ExecutionResult}
          → Exec inline facts node r
          → r.blocked ≡ false
          → r.success ≡ true
          → q ≡ succeeded r.message (update facts r.facts)
          → Choices inline facts (cons (dict node) rest) last q
      tried :
          {inline : Bool} {facts node : Fields} {rest : Items} {last : String}
          {r q : ExecutionResult}
          → Exec inline facts node r
          → r.blocked ≡ false
          → r.success ≡ false
          → Choices inline (update facts r.facts) rest r.message q
          → Choices inline facts (cons (dict node) rest) last q

    -- The loop of a Retry: the number of attempts in all, the child, the number of this attempt, the
    -- number of attempts left, the facts and the message of the last attempt.
    pub data Attempts : ℕ → Fields → ℕ → ℕ → Fields → String → ExecutionResult → Type 0 where
      exhausted :
          {max attempt : ℕ} {child facts : Fields} {last : String} {q : ExecutionResult}
          (text : String)
          → q ≡ failed ("retry exhausted after " <> text <> " attempts: " <> last) facts false false
          → text ≡ env.rt.show (int (pos max))
          → Attempts max child attempt 0 facts last q
      interrupted :
          {max attempt left : ℕ} {child facts : Fields} {last : String} {q : ExecutionResult}
          → q ≡ failed "mission canceled" facts false false
          → Attempts max child attempt (suc left) facts last q
      gave_up :
          {max attempt left : ℕ} {child facts : Fields} {last : String} {r q : ExecutionResult}
          → Exec false facts child r
          → r.blocked ≡ true
          → q ≡ escalates facts r
          → Attempts max child attempt (suc left) facts last q
      worked :
          {max attempt left : ℕ} {child facts : Fields} {last : String} {r q : ExecutionResult}
          → Exec false facts child r
          → r.blocked ≡ false
          → r.success ≡ true
          → q
            ≡ succeeded
                ("retry succeeded on attempt " <> env.rt.show (int (pos attempt)))
                (update facts r.facts)
          → Attempts max child attempt (suc left) facts last q
      again :
          {max attempt left : ℕ} {child facts : Fields} {last : String} {r q : ExecutionResult}
          → Exec false facts child r
          → r.blocked ≡ false
          → r.success ≡ false
          → Attempts max child (suc attempt) left (update facts r.facts) r.message q
          → Attempts max child attempt (suc left) facts last q

    -- The threads of a Parallel node; one that raised did not report.
    pub data Branches : Fields → Items → List (Option ExecutionResult) → Type 0 where
      joined_all : {facts : Fields} → Branches facts nil []
      reported :
          {facts node : Fields} {rest : Items} {r : ExecutionResult}
          {results : List (Option ExecutionResult)}
          → Exec false facts node r
          → Branches facts rest results
          → Branches facts (cons (dict node) rest) (some r ∷ results)
      lost :
          {facts : Fields} {v : Value} {rest : Items} {results : List (Option ExecutionResult)}
          → Branches facts rest results
          → Branches facts (cons v rest) (none ∷ results)
