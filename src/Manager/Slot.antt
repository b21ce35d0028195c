-- ===== src/Manager/Slot.antt =====
-- The private methods of class MissionManager that look missions up and hand the active slot on.
use Prim.Native.Nat.{Ordering}
use Prim.Native.String.{compare}
use mc_ai_bt.Common.{
  String, Bool, true, false, not, ◌||◌, Option, none, some, List, [], ◌∷◌, if◌then◌else◌, ◌==◌, ⊤,
}
use mc_ai_bt.Common.Int.{ltb_ℤ}
use mc_ai_bt.Common.Text.{strip, is_word, ◌<>◌}
use mc_ai_bt.Common.Dict.{Dict, lookup, insert, erase, values}
use mc_ai_bt.Common.Sort.{sort, first}
use mc_ai_bt.Identity.{Identity, same_identity}
use mc_ai_bt.Mission.{State, Mission, is_terminal, is_queued, is_paused}
use mc_ai_bt.Manager.Monad.{Manager, key_error, Action, pure, gets, or_raise, ◌>>=◌, ◌>>◌, raise_if}

-- `self._active_id == id`
abbrev pub active_is : Option String → String → Bool
active_is none id = false
active_is (some a) id = a == id

-- `self._active_id is None`
abbrev pub no_active : Option String → Bool
no_active none = true
no_active (some a) = false

-- `self._active_id or ""`
abbrev pub text_or_none : Option String → String
text_or_none none = ""
text_or_none (some a) = a

-- `self._resumed_from_reason.get(id) == reason`
abbrev pub text_is : Option String → String → Bool
text_is none reason = false
text_is (some r) reason = r == reason

-- `self._missions[id] = m`
abbrev pub put : String → Mission → Manager → Manager
put id m s = record s { missions = insert id m s.missions }

abbrev pub put_active : String → Mission → Manager → Manager
put_active id m s = record s { missions = insert id m s.missions; active_id = some id }

abbrev pub note_resume : String → String → Manager → Manager
note_resume id reason s = record s { resumed_from = insert id reason s.resumed_from }

abbrev pub forget_resume : String → Manager → Manager
forget_resume id s = record s { resumed_from = erase id s.resumed_from }

abbrev holds_slot : Option Mission → Bool
holds_slot none = false
holds_slot (some m) = not (is_paused m.state)

-- `_slot_busy`
unfoldable pub slot_busy : Manager → Bool
unfolding lookup is_paused
slot_busy s = elim s.active_id [ none ↦ false | some a ↦ holds_slot (lookup a s.missions) ]

-- `_require`
unfoldable pub require : String → Action Mission
unfolding lookup
require id = do
  or_raise (← gets (λ s. lookup id s.missions)) (key_error ("unknown mission_id: " <> id))

abbrev pub identity_changed : Mission → Option Identity → Bool
identity_changed m none = false
identity_changed m (some expected) = not (same_identity m.identity expected)

-- `_check_can_update`
unfoldable pub check_can_update : Mission → Option Identity → Action ⊤
unfolding is_terminal same_identity
check_can_update m expected = do
  raise_if (is_terminal m.state) (key_error ("mission is terminal: " <> m.identity.mission_id))
  raise_if (identity_changed m expected)
      (key_error ("mission identity changed: " <> m.identity.mission_id))

-- The test `if mission.state in _TERMINAL_STATES: raise` of the control methods.
unfoldable pub refuse_terminal : String → Mission → Action ⊤
unfolding is_terminal
refuse_terminal id m = raise_if (is_terminal m.state) (key_error ("mission is terminal: " <> id))

-- Whether a control id is one of the aliases of the active mission.
unfoldable pub is_alias : String → Bool
unfolding strip is_word
is_alias id = let key = strip id in key == "" || is_word key "active" || is_word key "current"

-- `_resolve_control_id`
unfoldable pub resolve_control_id : String → Action String
unfolding is_alias
resolve_control_id id s =
    if is_alias id then or_raise s.active_id (key_error "no active mission") s else pure id s

-- The order of `key=lambda mission: (-mission.priority, mission.identity.mission_id)`.
unfoldable pub before : Mission → Mission → Bool
before a b =
    if ltb_ℤ b.priority a.priority
    then true
    else if ltb_ℤ a.priority b.priority
    then false
    else elim (compare a.identity.mission_id b.identity.mission_id) [
      | Ordering.lt ↦ true
      | _ ↦ false
    ]

-- `[mission for mission in … if keep(mission.state)]`
unfoldable pub with_state : (State → Bool) → List Mission → List Mission
with_state keep [] = []
with_state keep (m ∷ ms) = let rest = with_state keep ms in if keep m.state then m ∷ rest else rest

abbrev pub id_of : Option Mission → Option String
id_of none = none
id_of (some m) = some m.identity.mission_id

-- `_next_queued_id`
unfoldable pub next_queued_id : Dict Mission → Option String
unfolding values with_state is_queued sort before first
next_queued_id missions = id_of (first (sort before (with_state is_queued (values missions))))

abbrev pub is_live : State → Bool
is_live s = not (is_terminal s)

-- `_select_active_id`
unfoldable pub select_active_id : Dict Mission → Option String
unfolding values with_state sort before first is_terminal
select_active_id missions = id_of (first (sort before (with_state is_live (values missions))))

-- `{mission.identity.mission_id: mission for mission in missions}`
unfoldable pub by_id : List Mission → Dict Mission → Dict Mission
unfolding insert
by_id [] d = d
by_id (m ∷ ms) d = by_id ms (insert m.identity.mission_id m d)

-- `MissionManager(missions)`
unfoldable pub init : List Mission → Manager
unfolding by_id select_active_id
init missions =
    let d = by_id missions [] in
    record { missions = d; active_id = select_active_id d; resumed_from = [] }

-- The mission that `_promote` stores.
unfoldable pub planning_mission : Mission → Mission
planning_mission m = record m { state = State.planning; status_text = "planning" }

abbrev promote_found : String → Option Mission → Manager → Manager
promote_found id none s = s
promote_found id (some m) s = put_active id (planning_mission m) s

-- `_promote`: the mission is there, since its id comes from `_next_queued_id`.
unfoldable pub promote : String → Manager → Manager
promote id s = promote_found id (lookup id s.missions) s

-- `_promote_next_queued`
unfoldable pub promote_next_queued : Manager → Manager
promote_next_queued s = elim (next_queued_id s.missions) [
  | none ↦ record s { active_id = none }
  | some id ↦ promote id s
]

-- `_release_slot_for_pause`
unfoldable pub release_slot_for_pause : Manager → Manager
release_slot_for_pause s = elim (next_queued_id s.missions) [ none ↦ s | some id ↦ promote id s ]

-- The end of `cancel` and `mark_terminal`: the finished mission is stored and the slot handed on.
unfoldable pub settle : String → Mission → Manager → Manager
settle id done s =
    let stored = put id done s in
    let handed = if active_is s.active_id id then promote_next_queued stored else stored in
    forget_resume id handed
