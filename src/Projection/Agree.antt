-- ===== src/Projection/Agree.antt =====
-- The active mission of mc_ai_bt/task_projection.py and the slot of the manager.
use mc_ai_bt.Common.{
  String, true, false, none, some, List, [], ◌≡◌, refl, sym, ap, ◌∙◌, inl, inr, Bool-cases,
  Option-cases, All, arith, ltb,
}
use mc_ai_bt.Common.Dict.{Dict, lookup, values}
use mc_ai_bt.Common.Sort.{
  IsOrder, sort, first-sort-Least, first-sort-none, All-sort, All-first, sort-All, some_eq,
}
use mc_ai_bt.Json.{Runtime}
use mc_ai_bt.Mission.{Mission, State}
use mc_ai_bt.Manager.{Manager, init, with_state}
use mc_ai_bt.Manager.Keyed.{
  Keyed, IsStored, values-IsStored, All-with_state, All-kept, lookup-All, with_state-nil,
}
use mc_ai_bt.Manager.Order.{before-IsOrder}
use mc_ai_bt.Manager.Slots.{occupies}
use mc_ai_bt.Manager.Fairness.{Done, init-SlotsOk}
use mc_ai_bt.Manager.Exclusion.{PoliteReach, Reach-SlotsOk}
use mc_ai_bt.Projection.{
  is_active, active_rank, before_active, before_id, select_active, active_mission,
}

before_active-IsOrder : IsOrder before_active
unfolding before_active
before_active-IsOrder = record {
  irrefl = λ x. ground (arith, before-IsOrder.irrefl x);
  asym = λ x y h. ground (arith, before-IsOrder.asym x y);
  weak = λ x y z h k. ground (arith, before-IsOrder.weak x y z);
}

not-before_active :
    (a b : Mission)
    → before_active a b ≡ false
    → ltb (active_rank b.state) (active_rank a.state) ≡ false
unfolding before_active
not-before_active a b e = elim (Bool-cases (ltb (active_rank b.state) (active_rank a.state))) [
  | inl less ↦ absurd (cc (rw less at e))
  | inr not_less ↦ not_less
]

active_of_occupies : (a : State) → occupies a ≡ true → is_active a ≡ true
unfolding occupies is_active
active_of_occupies a h = ground arith

paused_below : (a : State) → occupies a ≡ true → ltb 1 (active_rank a) ≡ true
unfolding occupies active_rank
paused_below a h = ground arith

-- What ranks as high as a mission at work is at work.
at_work :
    (a b : State)
    → occupies a ≡ true
    → is_active b ≡ true
    → ltb (active_rank b) (active_rank a) ≡ false
    → occupies b ≡ true
unfolding occupies is_active active_rank
at_work a State.planning h k e = refl
at_work a State.waiting_for_permission h k e = refl
at_work a State.running h k e = refl
at_work a State.paused h k e = absurd (cc (paused_below a h, e))
at_work a State.unknown h k e = absurd (cc)
at_work a State.queued h k e = absurd (cc)
at_work a State.succeeded h k e = absurd (cc)
at_work a State.failed h k e = absurd (cc)
at_work a State.canceled h k e = absurd (cc)
at_work a State.blocked h k e = absurd (cc)

module _ (d : Dict Mission) (keyed : Keyed d) (k : String) (n : Mission)
    (found : lookup k d ≡ some n) (busy : occupies n.state ≡ true) where
  listed : List Mission
  listed = with_state is_active (sort before_id (values d))

  active_mission-some : active_mission (values d) ≡ none → ⊥
  unfolding active_mission select_active listed
  active_mission-some e =
      let empty : listed ≡ [] = first-sort-none before_active listed e in
      let all =
        sort-All (λ m. is_active m.state ≡ false) before_id (values d)
          (with_state-nil is_active (sort before_id (values d)) empty) in
      cc (
        lookup-All (λ m. is_active m.state ≡ false) k n d all found,
        active_of_occupies n.state busy,
      )

  active_mission-IsStored :
      (m : Mission) → active_mission (values d) ≡ some m → IsStored d m × (is_active m.state ≡ true)
  unfolding active_mission select_active
  active_mission-IsStored m e =
      let P = λ (x : Mission). IsStored d x × (is_active x.state ≡ true) in
      All-first P (sort before_active (with_state is_active (sort before_id (values d))))
        (All-sort P before_active (with_state is_active (sort before_id (values d))) (
          All-with_state (IsStored d) is_active (sort before_id (values d))
            (All-sort (IsStored d) before_id (values d) (values-IsStored d keyed))))
        e

  active_mission-at_work :
      (m : Mission) → active_mission (values d) ≡ some m → occupies m.state ≡ true
  unfolding active_mission select_active
  active_mission-at_work m e =
      let least =
        first-sort-Least before_active before_active-IsOrder
          (with_state is_active (sort before_id (values d))) m e in
      let kept =
        All-kept (λ x. before_active x m ≡ false) is_active (sort before_id (values d)) least in
      let all =
        sort-All (λ x. is_active x.state ≡ true → before_active x m ≡ false) before_id (values d)
          kept in
      let not_less =
        lookup-All (λ x. is_active x.state ≡ true → before_active x m ≡ false) k n d all found
          (active_of_occupies n.state busy) in
      at_work n.state m.state busy (active_mission-IsStored m e).1 (not-before_active n m not_less)

-- From finished missions and by polite calls, the mission that plans, waits for a permission or runs is
-- the one that the node shows as the active mission.
pub shows_mission_at_work :
    (rt : Runtime) (ms : List Mission) (t : Manager) (k : String) (n : Mission)
    → All Done ms
    → PoliteReach rt (init ms) t
    → lookup k t.missions ≡ some n
    → occupies n.state ≡ true
    → active_mission (values t.missions) ≡ some n
shows_mission_at_work rt ms t k n done reach found busy =
    let good = Reach-SlotsOk rt (init ms) t (init-SlotsOk ms done) reach in
    elim (Option-cases (active_mission (values t.missions))) [
      | inl nothing ↦ absurd (active_mission-some t.missions good.keyed k n found busy nothing)
      | inr (m, e) ↦
          let stored = (active_mission-IsStored t.missions good.keyed k n found busy m e).0 in
          let works = active_mission-at_work t.missions good.keyed k n found busy m e in
          let same : k ≡ m.identity.mission_id = some_eq (
            sym (good.exclusive k n found busy)
            ∙ good.exclusive m.identity.mission_id m stored works) in
          let is : n ≡ m = some_eq (sym found ∙ ap (λ j. lookup j t.missions) same ∙ stored) in
          e ∙ ap some (sym is)
    ]
