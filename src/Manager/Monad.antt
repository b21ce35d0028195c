-- ===== src/Manager/Monad.antt =====
-- The state of the mission manager and its exceptions. The state comes back after a raise too:
-- what a method wrote before it raised stays written.
use mc_ai_bt.Common.{String, Bool, Option, none, some, if◌then◌else◌, ⊤}
use mc_ai_bt.Common.Dict.{Dict}
use mc_ai_bt.Mission.{Mission, MissionEvent, EventKind}

pub record Manager : Type 0 where
  -- `_missions`
  pub missions : Dict Mission
  -- `_active_id`
  pub active_id : Option String
  -- `_resumed_from_reason`
  pub resumed_from : Dict String

pub data Error : Type 0 where
  key_error value_error : String → Error

pub data Result (A : Type 0) : Type 0 where
  ok : A → Result A
  err : Error → Result A

abbrev pub Action : Type 0 → Type 0
Action A = Manager → Result A × Manager

module _ {A : Type 0} where
  abbrev pub pure : A → Action A
  pure a s = (ok a, s)

  abbrev pub raise : Error → Action A
  raise e s = (err e, s)

  abbrev pub gets : (Manager → A) → Action A
  gets f s = (ok (f s), s)

  abbrev pub or_raise : Option A → Error → Action A
  or_raise none e = raise e
  or_raise (some a) e = pure a

-- Shut, so that a proof meets the steps of a method one by one.
infixl 5 ◌>>=◌ ◌>>◌
unfoldable pub ◌>>=◌ : {A B : Type 0} → Action A → (A → Action B) → Action B
◌>>=◌ m f s = let (r, s') = m s in elim r [ ok a ↦ f a s' | err e ↦ (err e, s') ]

unfoldable pub ◌>>◌ : {A B : Type 0} → Action A → Action B → Action B
◌>>◌ m k s = let (r, s') = m s in elim r [ ok a ↦ k s' | err e ↦ (err e, s') ]

abbrev pub raise_if : Bool → Error → Action ⊤
raise_if c e s = (if c then err e else ok tt, s)

abbrev pub modify : (Manager → Manager) → Action ⊤
modify f s = (ok tt, f s)

-- The event that a method returns.
abbrev pub event_of : EventKind → Mission → String → String → MissionEvent
event_of kind m message payload_json = record {
  event = kind;
  mission = m;
  message = message;
  payload_json = payload_json;
}
