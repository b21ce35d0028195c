-- ===== src/Executor/Seen.antt =====
-- mc_ai_bt/executor.py: the results of the visual check, and of trees that have it.
use mathlib.Core.Path.{subst}
use mc_ai_bt.Common.{Bool, true, false, refl, sym, String}
use mc_ai_bt.Json.{Value, Fields}
use mc_ai_bt.Visual.Client.{Observation, observed}
use mc_ai_bt.Executor.{ExecutionResult, TriState, yes, no, unknown}
use mc_ai_bt.Executor.Leaf.{Env}
use mc_ai_bt.Executor.Run.{Exec}
use mc_ai_bt.Executor.Sound.{
  IsSound, failed-Fits, success-Fits, failure-Fits, check_outcome-IsSound, Checked-IsSound,
}
use mc_ai_bt.Executor.Outcome.{tree-IsSound}
use mc_ai_bt.Executor.Visual.{
  Eyes, observe_outcome, observes, judged_outcome, look_outcome, Looked, VisuallyChecked,
}

module _ (env : Env) (eyes : Eyes) where
  look-IsSound :
      (facts check : Fields) (observe : Bool) (o : Observation)
      → IsSound (look_outcome env facts check eyes.now observe o)
  unfolding observe_outcome
  look-IsSound facts check false o = check_outcome-IsSound "visual check" facts o.state o.message
  look-IsSound facts check true o = observed-IsSound o.state
    where
      observed-IsSound :
          (state : TriState) → IsSound (observe_outcome env facts check eyes.now o state)
      observed-IsSound yes = success-Fits
      observed-IsSound no = success-Fits
      observed-IsSound unknown = failed-Fits true true λ e. refl

  Looked-IsSound :
      (observe : Bool) (check facts : Fields) (q : ExecutionResult)
      → Looked env eyes observe check facts q
      → IsSound q
  Looked-IsSound observe check facts q (Looked.blind dark e) =
      subst IsSound (sym e) (failed-Fits true false λ n. absurd (cc))
  Looked-IsSound observe check facts q (Looked.saw o has looked e) =
      subst IsSound (sym e) (look-IsSound facts check observe o)

  judged-IsSound :
      (facts check : Fields) (observe : Bool) (r : ExecutionResult) (o : Observation)
      → IsSound r
      → IsSound (judged_outcome env facts check eyes.now observe r o)
  judged-IsSound facts check false r o sound = sound
  judged-IsSound facts check true r o sound = success-Fits

  VisuallyChecked-IsSound :
      (node facts : Fields) (q : ExecutionResult)
      → VisuallyChecked env eyes node facts q
      → IsSound q
  VisuallyChecked-IsSound node facts q (VisuallyChecked.malformed bad e) =
      subst IsSound (sym e) failure-Fits
  VisuallyChecked-IsSound node facts q (VisuallyChecked.judged c r g s h b e) =
      subst IsSound (sym e) (
        judged-IsSound facts c (observes node) r (observed unknown "")
          (Checked-IsSound env false _ _ facts r h))
  VisuallyChecked-IsSound node facts q (VisuallyChecked.undecided c r g s h b l) =
      Looked-IsSound (observes node) c facts q l
  VisuallyChecked-IsSound node facts q (VisuallyChecked.unjudged c g s l) =
      Looked-IsSound (observes node) c facts q l

-- The environment whose visual checks are those of the executor, with the same skills and checks.
abbrev pub with_eyes : Env → Eyes → Env
with_eyes env eyes = record env { visual_check = VisuallyChecked env eyes }

-- If skills return sound results, so does every tree, visual checks included: a result that needs a
-- decision is blocked, and a blocked result is no success.
pub seeing_tree-IsSound :
    (env : Env) (eyes : Eyes)
    (skills : (name : String) (args : Value) (r : ExecutionResult)
      → env.skill name args r
      → IsSound r)
    (inline : Bool) (facts node : Fields) (q : ExecutionResult)
    → Exec (with_eyes env eyes) inline facts node q
    → IsSound q
seeing_tree-IsSound env eyes skills inline facts node q ran =
    tree-IsSound (with_eyes env eyes) skills (VisuallyChecked-IsSound env eyes) inline facts node q
      ran
