-- ===== src/Manager/Handover.antt =====
-- The single active slot where it is handed on to a queued mission.
use mathlib.Core.Path.{subst}
use mc_ai_bt.Common.{String, true, some, ◌≡◌, refl, sym, ◌∙◌, inl, inr, Option-cases}
use mc_ai_bt.Common.Dict.{lookup}
use mc_ai_bt.Common.Sort.{some_eq}
use mc_ai_bt.Mission.{Mission}
use mc_ai_bt.Manager.{
  Manager, promote, promote_next_queued, release_slot_for_pause, next_queued_id, planning_mission,
}
use mc_ai_bt.Manager.Keyed.{Keyed, lookup-Keyed, next_queued_id-found, next_queued_id-none}
use mc_ai_bt.Manager.Slots.{occupies, may_hold, SlotOk, SlotOk-enter, Quiet}

-- Where no mission plans or runs, the slot goes to the queued mission that `promote` is given.
pub SlotOk-promote :
    (s : Manager) (id : String)
    → Keyed s.missions
    → Quiet s.missions
    → next_queued_id s.missions ≡ some id
    → SlotOk (promote id s).missions (promote id s).active_id
unfolding promote planning_mission occupies
SlotOk-promote s id keyed quiet e =
    let (m, found, queued) = next_queued_id-found s.missions id keyed e in
    rw found (
      SlotOk-enter s.missions id (planning_mission m) keyed
        (lookup-Keyed id m s.missions keyed found) refl λ k n f other. quiet k n f)

-- After a mission in the slot has ended.
pub SlotOk-promote_next_queued :
    (s : Manager)
    → Keyed s.missions
    → Quiet s.missions
    → SlotOk (promote_next_queued s).missions (promote_next_queued s).active_id
unfolding promote_next_queued
SlotOk-promote_next_queued s keyed quiet = elim (Option-cases (next_queued_id s.missions)) [
  | inl nothing ↦
      rw (nothing, promote_next_queued)
        (record {
          keyed = keyed;
          held = λ a e. absurd (cc);
          exclusive = λ k m found busy. absurd (cc (quiet k m found, busy));
          working = λ k m found queued.
              absurd (cc (next_queued_id-none s.missions k m nothing found, queued));
        })
  | inr (id, e) ↦ rw (e, promote_next_queued) (SlotOk-promote s id keyed quiet e)
]

-- After the mission in the slot has paused.
pub SlotOk-release :
    (s : Manager) (id : String) (m : Mission)
    → Keyed s.missions
    → Quiet s.missions
    → s.active_id ≡ some id
    → lookup id s.missions ≡ some m
    → may_hold m.state ≡ true
    → SlotOk (release_slot_for_pause s).missions (release_slot_for_pause s).active_id
unfolding release_slot_for_pause
SlotOk-release s id m keyed quiet active found may =
    elim (Option-cases (next_queued_id s.missions)) [
      | inl nothing ↦
          rw (nothing, release_slot_for_pause)
            (record {
              keyed = keyed;
              held = λ a e. (
                m,
                subst (λ x. lookup x s.missions ≡ some m) (some_eq (sym active ∙ e)) found,
                may,
              );
              exclusive = λ k n f busy. absurd (cc (quiet k n f, busy));
              working = λ k n f queued.
                  absurd (cc (next_queued_id-none s.missions k n nothing f, queued));
            })
      | inr (next, e) ↦ rw (e, release_slot_for_pause) (SlotOk-promote s next keyed quiet e)
    ]
