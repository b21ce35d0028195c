-- ===== src/Journal.antt =====
-- mc_ai_bt/mission_journal.py: the missions that a node starts from, read from the journal of the last
-- node. The journal is the list of its lines; what a line holds is read by an argument, since the
-- dataclasses take fields of any type.
mod Tests
use mathlib.Core.Path.{subst}
use mc_ai_bt.Common.{
  String, Bool, true, false, not, Option, none, some, List, [], ◌∷◌, ◌≡◌, refl, sym, All, map,
  if◌then◌else◌, inl, inr, Bool-cases, Option-cases, ◌==◌,
}
use mc_ai_bt.Common.Dict.{Dict, insert, values, ==_comm}
use mc_ai_bt.Identity.{Identity}
use mc_ai_bt.Mission.{Mission, State, is_terminal}
use mc_ai_bt.Manager.{Manager}
use mc_ai_bt.Manager.Fairness.{Done}

-- `_recover_mission`
unfoldable pub recover_mission : Mission → Mission
unfolding is_terminal
recover_mission m =
    let i = m.identity in
    if is_terminal m.state then m else record m {
      identity = record i { execution_id = "" };
      state = State.blocked;
      active_node = "";
      status_text = "recovered after node restart; manual review required";
      error_code = "recovered_after_restart";
    }

abbrev noted : Option Mission → Dict Mission → Dict Mission
noted none d = d
noted (some m) d = insert m.identity.mission_id m d

-- The loop over the lines; `read` is `_mission_from_record`.
unfoldable pub latest : (String → Option Mission) → List String → Dict Mission → Dict Mission
unfolding insert
latest read [] d = d
latest read (line ∷ lines) d = latest read lines (noted (read line) d)

-- `load_latest_missions`, where `none` is a missing file.
unfoldable pub load_latest_missions :
    (String → Option Mission) → Bool → Option (List String) → List Mission
unfolding latest values recover_mission
load_latest_missions read recover_nonterminal none = []
load_latest_missions read recover_nonterminal (some lines) =
    let missions = values (latest read lines []) in
    if recover_nonterminal then map recover_mission missions else missions

recover-Done : (m : Mission) → Done (recover_mission m)
unfolding recover_mission
recover-Done m = elim (Bool-cases (is_terminal m.state)) [
  | inl ended ↦ rw (ended, ended) refl
  | inr live ↦ rw live refl
]

recovered_Done : (ms : List Mission) → All Done (map recover_mission ms)
recovered_Done [] = tt
recovered_Done (m ∷ ms) = (recover-Done m, recovered_Done ms)

pub loaded_Done :
    (read : String → Option Mission) (file : Option (List String))
    → All Done (load_latest_missions read true file)
unfolding load_latest_missions
loaded_Done read none = tt
loaded_Done read (some lines) = recovered_Done (values (latest read lines []))

-- A recovered mission keeps its id, its plan version and its plan, it has ended, and one that had
-- ended before is not changed.
pub recover_keeps :
    (m : Mission)
    → let r = recover_mission m in
      (r.identity.mission_id ≡ m.identity.mission_id)
      × (r.identity.plan_version ≡ m.identity.plan_version)
      × (r.bt_json ≡ m.bt_json)
      × (is_terminal r.state ≡ true)
      × (is_terminal m.state ≡ true → r ≡ m)
unfolding recover_mission
recover_keeps m = elim (Bool-cases (is_terminal m.state)) [
  | inl ended ↦ rw ended (refl, refl, refl, ended, λ e. refl)
  | inr live ↦ rw live (refl, refl, refl, refl, λ e. absurd (cc))
]

-- No line behind names this id.
abbrev pub Unnamed : (String → Option Mission) → String → List String → Type 0
Unnamed read id lines =
    All (λ line. (m : Mission) → read line ≡ some m → (m.identity.mission_id == id) ≡ false) lines
