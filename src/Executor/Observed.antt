-- ===== src/Executor/Observed.antt =====
-- mc_ai_bt/executor.py: what a visual check in observe mode leaves behind.
use mc_ai_bt.Common.{
  String, Bool, true, false, ◌==◌, Option, none, some, ◌≡◌, refl, sym, ap, ◌∙◌, ◌⊎◌, Bool-cases,
  inl, inr, arith, eq_iff, eq_refl,
}
use mathlib.Core.Path.{subst}
use mc_ai_bt.Common.Float.{Float}
use mc_ai_bt.Json.{Value, bool, float, dict, str, Fields, end, field, get}
use mc_ai_bt.Visual.Client.{Observation, observed}
use mc_ai_bt.Executor.{ExecutionResult, TriState, yes, no, unknown, put_fact}
use mc_ai_bt.Executor.Leaf.{Env}
use mc_ai_bt.Executor.Visual.{
  Eyes, base_entry, visual_entry, record_visual_check_result, observe_outcome, add_number, add_text,
  add_flag, observes, judged_outcome, Looked, VisuallyChecked,
}

pub get-put_fact : (key : String) (v : Value) (d : Fields) → get key (put_fact key v d) ≡ some v
unfolding get put_fact
get-put_fact key v end = rw (eq_refl key) refl
get-put_fact key v (field k w rest) = elim (Bool-cases (k == key)) [
  | inl same ↦ rw (same, same) refl
  | inr other ↦ rw (other, other) (get-put_fact key v rest)
]

get-put_fact_ne :
    (key j : String) (v : Value) (d : Fields)
    → (key == j) ≡ false
    → get j (put_fact key v d) ≡ get j d
unfolding get put_fact
get-put_fact_ne key j v end other = rw other refl
get-put_fact_ne key j v (field k w rest) other =
    ground (arith, eq_iff k key, eq_iff k j, eq_iff key j, get-put_fact_ne key j v rest other)

get-add_number :
    (key j : String) (o : Option Float) (d : Fields)
    → (key == j) ≡ false
    → get j (add_number key o d) ≡ get j d
get-add_number key j none d other = refl
get-add_number key j (some x) d other = get-put_fact_ne key j (float x) d other

get-add_text :
    (key j text : String) (d : Fields) → (key == j) ≡ false → get j (add_text key text d) ≡ get j d
get-add_text key j text d other = elim (Bool-cases (text == "")) [
  | inl e ↦ rw e refl
  | inr e ↦ rw e (get-put_fact_ne key j (str text) d other)
]

get-add_flag :
    (key j : String) (b : Bool) (d : Fields)
    → (key == j) ≡ false
    → get j (add_flag key b d) ≡ get j d
get-add_flag key j false d other = refl
get-add_flag key j true d other = get-put_fact_ne key j (bool true) d other

get-visual_entry :
    (env : Env) (check : Fields) (now : Float) (value : Bool) (o : Observation) (key : String)
    → ("stale" == key) ≡ false
    → ("model_name" == key) ≡ false
    → ("provider_name" == key) ≡ false
    → ("confidence" == key) ≡ false
    → get key (visual_entry env check now value o) ≡ get key (base_entry env check now value o)
unfolding visual_entry
get-visual_entry env check now value o key a b c d =
    get-add_flag "stale" key o.stale _ a
    ∙ get-add_text "model_name" key o.model_name _ b
    ∙ get-add_text "provider_name" key o.provider_name _ c
    ∙ get-add_number "confidence" key o.confidence _ d

-- Facts that hold a completed observation with a value.
pub record Recorded (facts : Fields) (value : Bool) : Type 0 where
  pub entry : Fields
  pub is_entry : get "visual_check_result" facts ≡ some (dict entry)
  pub completed : get "completed" entry ≡ some (bool true)
  pub is_value : get "value" entry ≡ some (bool value)

record-Recorded :
    (env : Env) (facts check : Fields) (now : Float) (value : Bool) (o : Observation)
    → Recorded (record_visual_check_result env facts check now value o) value
unfolding record_visual_check_result get
record-Recorded env facts check now value o = record {
  entry = visual_entry env check now value o;
  is_entry = get-put_fact "visual_check_result" (dict (visual_entry env check now value o)) facts;
  completed = get-visual_entry env check now value o "completed" refl refl refl refl;
  is_value = get-visual_entry env check now value o "value" refl refl refl refl;
}

-- How an observation can end: it is recorded with its value, or it is blocked.
abbrev pub Ends : ExecutionResult → Type 0
Ends q =
    ((value : Bool) × (q.success ≡ true) × Recorded q.facts value)
    ⊎ ((q.success ≡ false) × (q.blocked ≡ true))

observe-Ends :
    (env : Env) (facts check : Fields) (now : Float) (o : Observation) (state : TriState)
    → Ends (observe_outcome env facts check now o state)
unfolding observe_outcome
observe-Ends env facts check now o yes =
    inl (true, refl, record-Recorded env facts check now true o)
observe-Ends env facts check now o no =
    inl (false, refl, record-Recorded env facts check now false o)
observe-Ends env facts check now o unknown = inr (refl, refl)

module _ (env : Env) (eyes : Eyes) where
  Looked-Ends :
      (check facts : Fields) (q : ExecutionResult) → Looked env eyes true check facts q → Ends q
  Looked-Ends check facts q (Looked.blind dark e) = subst Ends (sym e) (inr (refl, refl))
  Looked-Ends check facts q (Looked.saw o has looked e) =
      subst Ends (sym e) (observe-Ends env facts check eyes.now o o.state)

  pub observation_is_recorded :
      (node facts check : Fields) (q : ExecutionResult)
      → observes node ≡ true
      → get "check" node ≡ some (dict check)
      → VisuallyChecked env eyes node facts q
      → Ends q
  observation_is_recorded node facts check q observe given (VisuallyChecked.malformed bad e) =
      let wrong = rw given at bad in absurd (cc)
  observation_is_recorded node facts check q observe given (VisuallyChecked.judged c r g s h b e) =
      let unseen = observed unknown "" in
      let observing = ap (λ m. judged_outcome env facts c eyes.now m r unseen) observe in
      subst Ends (sym (e ∙ observing))
        (inl (r.success, refl, record-Recorded env facts c eyes.now r.success unseen))
  observation_is_recorded node facts check q observe given
        (VisuallyChecked.undecided c r g s h b l) =
      Looked-Ends c facts q (subst (λ m. Looked env eyes m c facts q) observe l)
  observation_is_recorded node facts check q observe given (VisuallyChecked.unjudged c g s l) =
      Looked-Ends c facts q (subst (λ m. Looked env eyes m c facts q) observe l)
