-- ===== src/Goal/Backed.antt =====
-- mc_ai_bt/goal_check.py: the evidence behind a direct verdict, in the facts of the execution or in the
-- world state.
use mc_ai_bt.Common.{
  String, Bool, true, false, not, ◌&&◌, ◌==◌, Option, none, some, ◌≡◌, refl, ap, ◌⊎◌, inl, inr,
  if◌then◌else◌,
}
use mc_ai_bt.Json.{Value, null, bool, dict, Fields, get}
use mc_ai_bt.Json.Builtins.{Builtins}
use mc_ai_bt.Executor.{yes, no, unknown}
use mc_ai_bt.Entity.{fact_value}
use mc_ai_bt.Goal.Direct.{
  CheckResult, result, by_verdict, by_state, says_false, truthy_state, contact_verified,
  target_state_change_verified, differ, direct_object, direct_value, direct_predicate_result,
  direct_keys, place_text,
}

-- What evidence that is an object must show for a predicate.
pub record Shows (py : Builtins) (p : String) (args value : Fields) : Type 0 where
  pub verified : says_false (get "semantic_verified" value) ≡ false
  pub contact : (p == "contact_detected") ≡ true → contact_verified py value ≡ true
  pub change : (p == "target_state_changed") ≡ true → target_state_change_verified py value ≡ true
  pub same_place : differ (place_text py args) (place_text py value) ≡ false
  pub claims : truthy_state py direct_keys value ≡ some true

-- The evidence says yes itself, or is an object that shows what the predicate needs.
abbrev pub Backs : Builtins → String → Fields → Value → Type 0
Backs py p args entry =
    (fact_value entry ≡ bool true)
    ⊎ ((value : Fields) × (fact_value entry ≡ dict value) × Shows py p args value)

by_verdict-yes :
    (b : Bool) (source before after : String)
    → (by_verdict b source before after).state ≡ yes
    → b ≡ true
by_verdict-yes true source before after e = refl
by_verdict-yes false source before after e = cc

by_state-yes :
    (s : Option Bool) (source known open_end : String)
    → (by_state s source known open_end).state ≡ yes
    → s ≡ some true
by_state-yes none source known open_end e = cc
by_state-yes (some b) source known open_end e = ap some (by_verdict-yes b source known known e)

-- Three doubts, then a mismatch, then the verdict.
passed :
    (a b c d : Bool) (x y z : String) (w : String) (r : CheckResult)
    → (if a
        then result unknown x
        else if b
        then result unknown y
        else if c
        then result unknown z
        else if d
        then result no w
        else r).state
      ≡ yes
    → (a ≡ false) × (b ≡ false) × (c ≡ false) × (d ≡ false) × (r.state ≡ yes)
passed true b c d x y z w r e = cc
passed false true c d x y z w r e = cc
passed false false true d x y z w r e = cc
passed false false false true x y z w r e = cc
passed false false false false x y z w r e = (refl, refl, refl, refl, e)

and_not : (a b : Bool) → (a && not b) ≡ false → a ≡ true → b ≡ true
and_not true true e h = refl
and_not true false e h = cc
and_not false b e h = cc

module _ (py : Builtins) (p : String) (args : Fields) (source : String) where
  direct_object-Shows :
      (value : Fields) → (direct_object py p args value source).state ≡ yes → Shows py p args value
  unfolding direct_object
  direct_object-Shows value e =
      let f =
        passed (says_false (get "semantic_verified" value))
          (p == "contact_detected" && not (contact_verified py value))
          (p == "target_state_changed" && not (target_state_change_verified py value))
          (differ (place_text py args) (place_text py value)) _ _ _ _ _ e in
      record {
        verified = f.0;
        contact = and_not _ _ f.1;
        change = and_not _ _ f.2;
        same_place = f.3;
        claims = by_state-yes _ _ _ _ f.4;
      }

  direct_value-Backs :
      (v : Value)
      → (direct_value py p args v source).state ≡ yes
      → (v ≡ bool true) ⊎ ((value : Fields) × (v ≡ dict value) × Shows py p args value)
  direct_value-Backs (bool b) e = inl (ap bool (by_verdict-yes b _ _ _ e))
  direct_value-Backs (dict value) e = inr (value, refl, direct_object-Shows value e)
  direct_value-Backs null e = cc
  direct_value-Backs (Value.int n) e = cc
  direct_value-Backs (Value.float x) e = cc
  direct_value-Backs (Value.str x) e = cc
  direct_value-Backs (Value.list x) e = cc

  -- A direct verdict of TRUE has an entry that backs it.
  pub direct-Backs :
      (entry : Option Value)
      → (direct_predicate_result py p args entry source).state ≡ yes
      → (v : Value) × (entry ≡ some v) × Backs py p args v
  unfolding direct_predicate_result fact_value
  direct-Backs none e = cc
  direct-Backs (some null) e = cc
  direct-Backs (some (bool b)) e = (bool b, refl, direct_value-Backs _ e)
  direct-Backs (some (dict d)) e = (dict d, refl, direct_value-Backs _ e)
  direct-Backs (some (Value.int n)) e = cc
  direct-Backs (some (Value.float n)) e = cc
  direct-Backs (some (Value.str n)) e = cc
  direct-Backs (some (Value.list n)) e = cc
