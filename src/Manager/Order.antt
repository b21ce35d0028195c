-- ===== src/Manager/Order.antt =====
-- Which queued mission of mc_ai_bt/mission.py is started next.
use mathlib.Core.Path.{subst}
use mc_ai_bt.Common.{String, true, false, some, ◌≡◌, arith}
use mc_ai_bt.Common.Int.{◌≤ℤ◌}
use mc_ai_bt.Common.Order.{lt_text, lt_text_asym, lt_text_weak, lt_text_irrefl}
use mc_ai_bt.Common.Dict.{Dict, lookup, values}
use mc_ai_bt.Common.Sort.{IsOrder, first, sort, first-sort-Least}
use mc_ai_bt.Mission.{Mission, is_queued}
use mc_ai_bt.Manager.{before, next_queued_id, with_state}
use mc_ai_bt.Manager.Keyed.{Keyed, All-kept, lookup-All, first-with_state, id_of-some}

-- The order of the queue.
pub before-IsOrder : IsOrder before
unfolding before
before-IsOrder = record {
  irrefl = λ x. ground (arith, lt_text_irrefl x.identity.mission_id);
  asym = λ x y h. ground (arith, lt_text_asym x.identity.mission_id y.identity.mission_id);
  weak = λ x y z h k.
      ground
        (arith, lt_text_weak x.identity.mission_id y.identity.mission_id z.identity.mission_id);
}

before-priority :
    (m n : Mission)
    → before n m ≡ false
    → (n.priority ≤ℤ m.priority)
      × (n.priority ≡ m.priority → lt_text n.identity.mission_id m.identity.mission_id ≡ false)
unfolding before
before-priority m n h = ground arith

-- The id that the queue gives out next is that of a stored, queued mission; no queued mission has a
-- higher priority, and none of the same priority has an id that is less.
pub next_queued_id-best :
    (d : Dict Mission) (id k : String) (n : Mission)
    → Keyed d
    → next_queued_id d ≡ some id
    → lookup k d ≡ some n
    → is_queued n.state ≡ true
    → (m : Mission) × (lookup id d ≡ some m)
      × (is_queued m.state ≡ true)
      × (n.priority ≤ℤ m.priority)
      × (n.priority ≡ m.priority → lt_text n.identity.mission_id m.identity.mission_id ≡ false)
unfolding next_queued_id
next_queued_id-best d id k n keyed e found queued =
    let (m, chosen, same) =
      id_of-some (first (sort before (with_state is_queued (values d)))) id e in
    let (stored, kept) = first-with_state is_queued d m keyed chosen in
    let least = first-sort-Least before before-IsOrder (with_state is_queued (values d)) m chosen in
    let all = All-kept (λ x. before x m ≡ false) is_queued (values d) least in
    let (above, tie) =
      before-priority m n
        (lookup-All (λ x. is_queued x.state ≡ true → before x m ≡ false) k n d all found queued) in
    (m, subst (λ j. lookup j d ≡ some m) same stored, kept, above, tie)
