-- ===== src/Manager/Fairness.antt =====
-- The single slot of mc_ai_bt/mission.py from the start of a manager on.
use mc_ai_bt.Common.{
  String, true, none, some, List, [], ◌∷◌, ◌≡◌, refl, sym, ◌∙◌, inl, inr, Bool-cases, All, arith,
  ◌==◌,
}
use mc_ai_bt.Common.Dict.{Dict, lookup, insert, values}
use mc_ai_bt.Common.Sort.{first, sort, some_eq}
use mc_ai_bt.Json.{Runtime}
use mc_ai_bt.Mission.{Mission, is_terminal, is_queued, is_paused}
use mc_ai_bt.Manager.{Manager, by_id, init, select_active_id, with_state, is_live, slot_busy}
use mc_ai_bt.Manager.Keyed.{Keyed, Keyed-insert, lookup-All}
use mc_ai_bt.Manager.Slots.{occupies, Occupied}
use mc_ai_bt.Manager.Sharing.{SlotsOk, quiet_of_terminal}
use mc_ai_bt.Manager.Exclusion.{PoliteReach, Reach-SlotsOk}

abbrev pub Done : Mission → Type 0
Done m = is_terminal m.state ≡ true

All-values-insert :
    (k : String) (m : Mission) (d : Dict Mission)
    → Done m
    → All Done (values d)
    → All Done (values (insert k m d))
unfolding values insert
All-values-insert k m [] done h = (done, tt)
All-values-insert k m ((j, n) ∷ d) done h = elim (Bool-cases (j == k)) [
  | inl is ↦ rw is (done, h.1)
  | inr other ↦ rw other (h.0, All-values-insert k m d done h.1)
]

Keyed-by_id : (ms : List Mission) (d : Dict Mission) → Keyed d → Keyed (by_id ms d)
unfolding by_id
Keyed-by_id [] d h = h
Keyed-by_id (m ∷ ms) d h = Keyed-by_id ms _ (Keyed-insert m.identity.mission_id m d refl h)

pub Done-by_id :
    (ms : List Mission) (d : Dict Mission)
    → All Done ms
    → All Done (values d)
    → All Done (values (by_id ms d))
unfolding by_id
Done-by_id [] d done h = h
Done-by_id (m ∷ ms) d done h =
    Done-by_id ms _ done.1 (All-values-insert m.identity.mission_id m d done.0 h)

none_live : (ms : List Mission) → All Done ms → with_state is_live ms ≡ []
unfolding with_state
none_live [] h = refl
none_live (m ∷ ms) h = rw h.0 (none_live ms h.1)

select_active_id-none : (d : Dict Mission) → All Done (values d) → select_active_id d ≡ none
unfolding select_active_id sort first
select_active_id-none d h = rw (none_live (values d) h)

-- A manager that starts from finished missions has a free slot and nothing that waits for it.
pub init-SlotsOk : (ms : List Mission) → All Done ms → SlotsOk (init ms)
unfolding init
init-SlotsOk ms done =
    let all = Done-by_id ms [] done tt in
    let quiet = λ (k : String) (m : Mission) (found : lookup k (by_id ms []) ≡ some m).
      quiet_of_terminal m.state (lookup-All Done k m (by_id ms []) all found) in
    rw (select_active_id-none (by_id ms []) all) (record {
      keyed = Keyed-by_id ms [] tt;
      held = λ a e. absurd (cc);
      exclusive = λ k m found busy. absurd (cc ((quiet k m found).0, busy));
      working = λ k m found queued. absurd (cc ((quiet k m found).1, queued));
    })

module _ (rt : Runtime) (ms : List Mission) (t : Manager) (done : All Done ms)
    (reach : PoliteReach rt (init ms) t) where
  good : SlotsOk t
  good = Reach-SlotsOk rt (init ms) t (init-SlotsOk ms done) reach

  -- From finished missions and by polite calls, at most one mission plans, waits for a permission or
  -- runs at a time, and it is the active one.
  pub one_mission_runs :
      (j k : String) (m n : Mission)
      → lookup j t.missions ≡ some m
      → lookup k t.missions ≡ some n
      → occupies m.state ≡ true
      → occupies n.state ≡ true
      → (j ≡ k) × (t.active_id ≡ some j)
  one_mission_runs j k m n fj fk bj bk = (
    some_eq (sym (good.exclusive j m fj bj) ∙ good.exclusive k n fk bk),
    good.exclusive j m fj bj,
  )

  -- From finished missions and by polite calls, a mission is in the queue only while the slot is busy
  -- with a mission that plans, waits for a permission or runs.
  pub queue_waits_for_work :
      (k : String) (m : Mission)
      → lookup k t.missions ≡ some m
      → is_queued m.state ≡ true
      → (slot_busy t ≡ true) × Occupied t.missions t.active_id
  unfolding slot_busy is_paused occupies
  queue_waits_for_work k m found queued =
      let (a, n, e, at_a, busy) = good.working k m found queued in
      (ground arith, (a, n, e, at_a, busy))
