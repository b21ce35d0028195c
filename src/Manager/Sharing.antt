-- ===== src/Manager/Sharing.antt =====
-- The single slot of mc_ai_bt/mission.py at the ends of the methods.
use mathlib.Core.Path.{subst}
use mc_ai_bt.Common.{
  String, true, false, Option, none, some, ◌≡◌, ap, ◌∙◌, inl, inr, Bool-cases, Option-cases, eq_iff,
  arith,
}
use mc_ai_bt.Common.Dict.{Dict, lookup, lookup-insert_self}
use mc_ai_bt.Mission.{State, Mission, is_terminal, is_queued, is_paused}
use mc_ai_bt.Manager.{Manager, put, put_active, settle, active_is, pause_slot, slot_busy}
use mc_ai_bt.Manager.Keyed.{Keyed-insert, lookup-Keyed}
use mc_ai_bt.Manager.Slots.{
  occupies, may_hold, SlotOk, Occupied, Idle, Quiet, SlotOk-enter, SlotOk-outside,
  SlotOk-same_state, Idle-active, Quiet-leave,
}
use mc_ai_bt.Manager.Handover.{SlotOk-promote_next_queued, SlotOk-release}

abbrev pub SlotsOk : Manager → Type 0
SlotsOk s = SlotOk s.missions s.active_id

pub active_is-eq : (o : Option String) (id : String) → active_is o id ≡ true → o ≡ some id
active_is-eq none id h = cc
active_is-eq (some a) id h = ap some ((eq_iff a id).0 h)

pub Occupied-busy : (s : Manager) → SlotsOk s → slot_busy s ≡ true → Occupied s.missions s.active_id
unfolding slot_busy may_hold
Occupied-busy s ok busy = elim (Option-cases s.active_id) [
  | inl nothing ↦ absurd (ground arith)
  | inr (a, e) ↦ let (m, found, may) = ok.held a e in (a, m, e, found, ground arith)
]

pub Quiet-free : (s : Manager) → SlotsOk s → slot_busy s ≡ false → Quiet s.missions
unfolding slot_busy occupies is_paused
Quiet-free s ok free k m found = elim (Bool-cases (occupies m.state)) [
  | inl busy ↦ absurd (ground (arith, ok.exclusive k m found busy))
  | inr quiet ↦ quiet
]

pub quiet_of_terminal :
    (s : State) → is_terminal s ≡ true → (occupies s ≡ false) × (is_queued s ≡ false)
unfolding is_terminal occupies is_queued
quiet_of_terminal s h = ground arith

quiet_of_paused :
    (s : State)
    → is_paused s ≡ true
    → (occupies s ≡ false) × (is_queued s ≡ false) × (may_hold s ≡ true)
unfolding is_paused may_hold is_queued
quiet_of_paused s h = ground arith

pub quiet_of_queued : (s : State) → is_queued s ≡ true → occupies s ≡ false
unfolding is_queued occupies
quiet_of_queued s h = ground arith

pub Idle-Quiet : (d : Dict Mission) (id : String) → Quiet d → Idle id d
Idle-Quiet d id quiet k m found other = quiet k m found

module _ (s : Manager) (ok : SlotsOk s) (id : String) (m n : Mission)
    (found : lookup id s.missions ≡ some m)
    (same : n.identity.mission_id ≡ m.identity.mission_id) where
  id_kept : n.identity.mission_id ≡ id
  id_kept = same ∙ lookup-Keyed id m s.missions ok.keyed found

  pub SlotsOk-settle : is_terminal n.state ≡ true → SlotsOk (settle id n s)
  unfolding settle
  SlotsOk-settle done = elim (Bool-cases (active_is s.active_id id)) [
    | inl holds ↦ rw holds (
        SlotOk-promote_next_queued (put id n s) (Keyed-insert id n s.missions id_kept ok.keyed) (
          Quiet-leave s.missions id n
            (subst (SlotOk s.missions) (active_is-eq s.active_id id holds) ok)
            (quiet_of_terminal n.state done).0))
    | inr outside ↦ rw outside (
        SlotOk-outside s.missions s.active_id id n ok id_kept outside
          (quiet_of_terminal n.state done).0
          λ queued. absurd (cc ((quiet_of_terminal n.state done).1, queued)))
  ]

  pub SlotsOk-pause_slot : is_paused n.state ≡ true → SlotsOk (pause_slot id n s)
  unfolding pause_slot
  SlotsOk-pause_slot paused = elim (Bool-cases (active_is s.active_id id)) [
    | inl holds ↦
        let active = active_is-eq s.active_id id holds in
        rw holds (
          SlotOk-release (put id n s) id n (Keyed-insert id n s.missions id_kept ok.keyed)
            (Quiet-leave s.missions id n (subst (SlotOk s.missions) active ok)
              (quiet_of_paused n.state paused).0)
            active (lookup-insert_self id n s.missions) (quiet_of_paused n.state paused).2)
    | inr outside ↦ rw outside (
        SlotOk-outside s.missions s.active_id id n ok id_kept outside
          (quiet_of_paused n.state paused).0
          λ queued. absurd (cc ((quiet_of_paused n.state paused).1, queued)))
  ]

  -- The mission that holds the slot is stored anew, and plans or runs.
  pub SlotsOk-in_slot :
      s.active_id ≡ some id → occupies n.state ≡ true → SlotsOk (put_active id n s)
  SlotsOk-in_slot active busy =
      SlotOk-enter s.missions id n ok.keyed id_kept busy
        (Idle-active s.missions id (subst (SlotOk s.missions) active ok))

  -- A mission enters a slot that no other mission occupies.
  pub SlotsOk-enter : Idle id s.missions → occupies n.state ≡ true → SlotsOk (put_active id n s)
  SlotsOk-enter idle busy = SlotOk-enter s.missions id n ok.keyed id_kept busy idle

  pub SlotsOk-same_state : n.state ≡ m.state → SlotsOk (put id n s)
  SlotsOk-same_state state = SlotOk-same_state s.missions s.active_id id m n ok found same state

  pub SlotsOk-queue :
      active_is s.active_id id ≡ false
      → is_queued n.state ≡ true
      → Occupied s.missions s.active_id
      → SlotsOk (put id n s)
  SlotsOk-queue outside queued busy =
      SlotOk-outside s.missions s.active_id id n ok id_kept outside (quiet_of_queued n.state queued)
        λ _. busy
