-- ===== src/Mission.antt =====
-- The data of mc_ai_bt/mission.py: states, events and missions. The module's children have the
-- outcome envelope of a finished mission.
pub mod Outcome
use mc_ai_bt.Common.{ℕ, String, Bool, true, false}
use mc_ai_bt.Common.Int.{ℤ}
use mc_ai_bt.Common.Float.{Float}
use mc_ai_bt.Identity.{Identity}

-- The `STATE_…` constants, in the order of their numbers.
pub data State : Type 0 where
  unknown queued planning waiting_for_permission running paused : State
  succeeded failed canceled blocked : State

-- Membership in `_TERMINAL_STATES`.
unfoldable pub is_terminal : State → Bool
is_terminal State.succeeded = true
is_terminal State.failed = true
is_terminal State.canceled = true
is_terminal State.blocked = true
is_terminal s = false

unfoldable pub is_queued : State → Bool
is_queued State.queued = true
is_queued s = false

unfoldable pub is_paused : State → Bool
is_paused State.paused = true
is_paused s = false

-- The `EVENT_…` constants.
pub data EventKind : Type 0 where
  submitted accepted rejected planned started paused resumed preempted : EventKind
  canceled succeeded failed blocked : EventKind

pub record Mission : Type 0 where
  pub identity : Identity
  pub intent_text : String
  pub source : String
  pub operator_id : String
  pub priority : ℤ
  pub allow_queue : Bool
  pub context_json : String
  pub state : State
  pub title : String
  pub active_node : String
  pub status_text : String
  pub progress : Float
  pub bt_json : String
  pub goal_spec_json : String
  pub error_code : String

pub record MissionEvent : Type 0 where
  pub event : EventKind
  pub mission : Mission
  pub message : String
  pub payload_json : String
