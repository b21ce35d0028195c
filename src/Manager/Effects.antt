-- ===== src/Manager/Effects.antt =====
-- Rules for a predicate on the state after a call, one for each kind of step that a method takes.
use mc_ai_bt.Common.{
  String, Bool, true, false, Option, none, some, ◌≡◌, refl, ap, inl, inr, Bool-cases, Option-cases,
  if◌then◌else◌, ◌⊎◌,
}
use mc_ai_bt.Common.Text.{◌<>◌}
use mc_ai_bt.Common.Dict.{lookup}
use mc_ai_bt.Identity.{Identity}
use mc_ai_bt.Mission.{Mission, is_terminal}
use mc_ai_bt.Manager.{
  Manager, Result, ok, err, Error, key_error, Action, pure, modify, gets, raise_if, ◌>>=◌, ◌>>◌,
  require, check_can_update, refuse_terminal, resolve_control_id, is_alias, identity_changed,
}

-- A step that returns or raises and leaves the state alone.
module _ {A B : Type 0} (m : Action A) (s : Manager) where
  pub bind-ok : (f : A → Action B) {a : A} → m s ≡ (ok a, s) → (m >>= f) s ≡ f a s
  unfolding ◌>>=◌
  bind-ok f {a} e = rw (e, ◌>>=◌) (ap (λ (p : Result A × Manager). f a p.1) e)

  pub bind-err : (f : A → Action B) {x : Error} → m s ≡ (err x, s) → (m >>= f) s ≡ (err x, s)
  unfolding ◌>>=◌
  bind-err f {x} e =
      rw (e, ◌>>=◌) (ap {B = Result B × Manager} (λ (p : Result A × Manager). (err x, p.1)) e)

  pub then-ok : (k : Action B) {a : A} → m s ≡ (ok a, s) → (m >> k) s ≡ k s
  unfolding ◌>>◌
  then-ok k {a} e = rw (e, ◌>>◌) (ap (λ (p : Result A × Manager). k p.1) e)

  pub then-err : (k : Action B) {x : Error} → m s ≡ (err x, s) → (m >> k) s ≡ (err x, s)
  unfolding ◌>>◌
  then-err k {x} e =
      rw (e, ◌>>◌) (ap {B = Result B × Manager} (λ (p : Result A × Manager). (err x, p.1)) e)

pub require-found :
    (id : String) (s : Manager) (m : Mission)
    → lookup id s.missions ≡ some m
    → require id s ≡ (ok m, s)
unfolding require ◌>>=◌
require-found id s m e = rw e

pub require-missing :
    (id : String) (s : Manager)
    → lookup id s.missions ≡ none
    → require id s ≡ (err (key_error ("unknown mission_id: " <> id)), s)
unfolding require ◌>>=◌
require-missing id s e = rw e

resolve_cases :
    (target : String) (s : Manager)
    → ((id : String) × (resolve_control_id target s ≡ (ok id, s)))
      ⊎ ((e : Error) × (resolve_control_id target s ≡ (err e, s)))
unfolding resolve_control_id
resolve_cases target s = elim (Bool-cases (is_alias target)) [
  | inl alias ↦ elim (Option-cases s.active_id) [
    | inl nothing ↦ inr (key_error "no active mission", rw (alias, nothing))
    | inr (a, active) ↦ inl (a, rw (alias, active))
  ]
  | inr own ↦ inl (target, rw own)
]

pub check_passes :
    (m : Mission) (expected : Option Identity) (s : Manager)
    → is_terminal m.state ≡ false
    → identity_changed m expected ≡ false
    → check_can_update m expected s ≡ (ok tt, s)
unfolding check_can_update ◌>>◌
check_passes m expected s live same = rw (live, same)

check_cases :
    (m : Mission) (expected : Option Identity) (s : Manager)
    → ((is_terminal m.state ≡ false)
        × (identity_changed m expected ≡ false)
        × (check_can_update m expected s ≡ (ok tt, s)))
      ⊎ ((e : Error) × (check_can_update m expected s ≡ (err e, s)))
unfolding check_can_update ◌>>◌
check_cases m expected s = elim (Bool-cases (is_terminal m.state)) [
  | inl done ↦ inr (key_error ("mission is terminal: " <> m.identity.mission_id), rw done)
  | inr live ↦ elim (Bool-cases (identity_changed m expected)) [
    | inl changed ↦
        inr (key_error ("mission identity changed: " <> m.identity.mission_id), rw (live, changed))
    | inr kept ↦ inl (live, kept, rw (live, kept))
  ]
]

-- `R` of the state after the call.
pub record Ends {A : Type 0} (R : Manager → Type 0) (s : Manager) (m : Action A) : Type 0 where
  pub after : R (m s).1

module _ {A : Type 0} {R : Manager → Type 0} {s : Manager} (same : R s) where
  pub Ends-require :
      (id : String) (f : Mission → Action A)
      → ((m : Mission) → lookup id s.missions ≡ some m → Ends R s (f m))
      → Ends R s (require id >>= f)
  Ends-require id f h = elim (Option-cases (lookup id s.missions)) [
    | inl missing ↦ record {
      after = rw (bind-err (require id) s f (require-missing id s missing)) same;
    }
    | inr (m, found) ↦ record {
      after = rw (bind-ok (require id) s f (require-found id s m found)) (h m found).after;
    }
  ]

  pub Ends-resolve :
      (target : String) (f : String → Action A)
      → ((id : String) → resolve_control_id target s ≡ (ok id, s) → Ends R s (f id))
      → Ends R s (resolve_control_id target >>= f)
  Ends-resolve target f h = elim (resolve_cases target s) [
    | inl (id, e) ↦ record { after = rw (bind-ok (resolve_control_id target) s f e) (h id e).after }
    | inr (x, e) ↦ record { after = rw (bind-err (resolve_control_id target) s f e) same }
  ]

  pub Ends-raise_if :
      (c : Bool) (e : Error) (k : Action A)
      → (c ≡ false → Ends R s k)
      → Ends R s (raise_if c e >> k)
  unfolding ◌>>◌
  Ends-raise_if true e k h = record { after = same }
  Ends-raise_if false e k h = record { after = (h refl).after }

  pub Ends-refuse :
      (id : String) (m : Mission) (k : Action A)
      → (is_terminal m.state ≡ false → Ends R s k)
      → Ends R s (refuse_terminal id m >> k)
  unfolding refuse_terminal
  Ends-refuse id m k h =
      Ends-raise_if (is_terminal m.state) (key_error ("mission is terminal: " <> id)) k h

  pub Ends-check :
      (m : Mission) (expected : Option Identity) (k : Action A)
      → (is_terminal m.state ≡ false → identity_changed m expected ≡ false → Ends R s k)
      → Ends R s (check_can_update m expected >> k)
  Ends-check m expected k h = elim (check_cases m expected s) [
    | inl (live, kept, e) ↦ record {
      after = rw (then-ok (check_can_update m expected) s k e) (h live kept).after;
    }
    | inr (x, e) ↦ record { after = rw (then-err (check_can_update m expected) s k e) same }
  ]

module _ {A : Type 0} {R : Manager → Type 0} {s : Manager} where
  pub Ends-pure : (a : A) → R s → Ends R s (pure a)
  Ends-pure a h = record { after = h }

  pub Ends-modify :
      (g : Manager → Manager) (k : Action A) → Ends R (g s) k → Ends R s (modify g >> k)
  unfolding ◌>>◌
  Ends-modify g k h = record { after = h.after }

  pub Ends-if :
      (b : Bool) (m n : Action A)
      → (b ≡ true → Ends R s m)
      → (b ≡ false → Ends R s n)
      → Ends R s (if b then m else n)
  Ends-if true m n hm hn = hm refl
  Ends-if false m n hm hn = hn refl

pub Ends-gets :
    {A B : Type 0} {R : Manager → Type 0} {s : Manager} (g : Manager → B) (f : B → Action A)
    → Ends R s (f (g s))
    → Ends R s (gets g >>= f)
unfolding ◌>>=◌
Ends-gets g f h = record { after = h.after }
