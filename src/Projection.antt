-- ===== src/Projection.antt =====
-- mc_ai_bt/task_projection.py: which mission the node shows to the world as the active one, and how
-- many missions it counts in each state.
pub mod Agree
mod Tests
use mc_ai_bt.Common.{
  ℕ, suc, ◌+◌, String, Bool, true, false, not, ◌==◌, Option, none, some, List, [], ◌∷◌,
  if◌then◌else◌, ltb,
}
use mc_ai_bt.Common.Int.{ltb_ℤ}
use mc_ai_bt.Common.Order.{lt_text}
use mc_ai_bt.Common.Sort.{sort, first}
use mc_ai_bt.Common.Dict.{Dict, lookup, insert}
use mc_ai_bt.Mission.{Mission, State}
use mc_ai_bt.Manager.{with_state, before}

-- `state in ACTIVE_STATES`.
unfoldable pub is_active : State → Bool
is_active State.planning = true
is_active State.waiting_for_permission = true
is_active State.running = true
is_active State.paused = true
is_active s = false

-- `_active_rank`
unfoldable pub active_rank : State → ℕ
active_rank State.running = 4
active_rank State.planning = 3
active_rank State.waiting_for_permission = 2
active_rank State.paused = 1
active_rank s = 0

-- The order of the key `(-_active_rank(state), -priority, mission_id)`; the last two are the key of the
-- manager's queue.
unfoldable pub before_active : Mission → Mission → Bool
unfolding active_rank before
before_active a b =
    if ltb (active_rank b.state) (active_rank a.state)
    then true
    else if ltb (active_rank a.state) (active_rank b.state)
    then false
    else before a b

-- The order of the missions in the index.
unfoldable pub before_id : Mission → Mission → Bool
before_id a b = lt_text a.identity.mission_id b.identity.mission_id

-- `_select_active`
unfoldable pub select_active : List Mission → Option Mission
unfolding with_state is_active sort before_active first
select_active missions = first (sort before_active (with_state is_active missions))

-- `_state_name`, in lower case.
unfoldable pub state_name : State → String
state_name State.unknown = "unknown"
state_name State.queued = "queued"
state_name State.planning = "planning"
state_name State.waiting_for_permission = "waiting_for_permission"
state_name State.running = "running"
state_name State.paused = "paused"
state_name State.succeeded = "succeeded"
state_name State.failed = "failed"
state_name State.canceled = "canceled"
state_name State.blocked = "blocked"

abbrev count_or_zero : Option ℕ → ℕ
count_or_zero none = 0
count_or_zero (some n) = n

-- The loop of `_state_counts`.
unfoldable pub count_states : List Mission → Dict ℕ → Dict ℕ
unfolding state_name lookup insert
count_states [] counts = counts
count_states (m ∷ missions) counts =
    let name = state_name m.state in
    count_states missions (insert name (count_or_zero (lookup name counts) + 1) counts)

-- `_state_counts`
unfoldable pub state_counts : List Mission → Dict ℕ
unfolding count_states
state_counts missions = count_states missions []

-- What `task_projection_updates` takes as the active mission.
unfoldable pub active_mission : List Mission → Option Mission
unfolding select_active sort before_id
active_mission missions = select_active (sort before_id missions)
