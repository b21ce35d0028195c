-- ===== src/Manager.antt =====
-- class MissionManager of mc_ai_bt/mission.py: the dictionary of missions and the single active
-- slot. Every method is an action that gives the manager back, also after it raises.
mod Monad
mod Slot
mod Submit
mod Plan
mod Finish
mod Pausing
mod Priority
pub mod Request
pub mod Evolve
pub mod Keyed
pub mod Effects
pub mod Methods
pub mod Continues
pub mod History
pub mod Slots
pub mod Handover
pub mod Polite
pub mod Sharing
pub mod Exclusion
pub mod Fairness
pub mod Runs
pub mod Order
pub mod Bounds
mod Tests
pub mod Results
pub mod OutOfTurn
unfoldable pub use Monad.*
unfoldable pub use Slot.*
unfoldable pub use Submit.*
unfoldable pub use Plan.*
unfoldable pub use Finish.*
unfoldable pub use Pausing.*
unfoldable pub use Priority.*
