-- ===== src/Manager/Continues.antt =====
-- The writes of the manager to its missions, as changes of the dictionary.
use mc_ai_bt.Common.{
  ◌≡◌, refl, String, Bool, true, false, Option, none, some, inl, inr, arith, Option-cases,
  Bool-cases, ◌==◌,
}
use mathlib.Core.Path.{subst, sym, ◌∙◌}
use mc_ai_bt.Common.Int.{ℤ, ◌<ℤ◌}
use mc_ai_bt.Common.Float.{Float}
use mc_ai_bt.Common.Dict.{Dict, lookup, insert, lookup-insert_ne}
use mc_ai_bt.Mission.{State, Mission, is_terminal, is_queued, is_paused}
use mc_ai_bt.Manager.{
  Manager, put, settle, active_is, promote, promote_next_queued, release_slot_for_pause,
  next_queued_id, planning_mission, planned_mission, replanning_mission, finished_mission,
  canceled_mission, updated_mission, pause_slot, paused_mission, resume_slot, resumed_mission,
  reprioritized_mission, demoted_mission, promoted_mission, preempts,
}
use mc_ai_bt.Manager.Evolve.{
  Evolves, Extends, Extends-refl, Extends-trans, Extends-insert, Extends-insert_new,
}
use mc_ai_bt.Manager.Keyed.{Keyed, Keyed-insert, lookup-Keyed, next_queued_id-found}

pub record Continues (d e : Dict Mission) : Type 0 where
  pub keyed : Keyed e
  pub extends : Extends d e

pub Continues-refl : (d : Dict Mission) → Keyed d → Continues d d
Continues-refl d h = record { keyed = h; extends = Extends-refl d }

pub Continues-trans : {c d e : Dict Mission} → Continues c d → Continues d e → Continues c e
Continues-trans {c} {d} {e} f g = record {
  keyed = g.keyed;
  extends = Extends-trans c d e f.extends g.extends;
}

module _ (d : Dict Mission) (keyed : Keyed d) where
  pub Continues-insert :
      (id : String) (m n : Mission)
      → lookup id d ≡ some m
      → Evolves m n
      → Continues d (insert id n d)
  Continues-insert id m n found e = record {
    keyed = Keyed-insert id n d (cc (e.same_id, lookup-Keyed id m d keyed found)) keyed;
    extends = Extends-insert id m n d found e;
  }

  pub Continues-insert_new :
      (id : String) (n : Mission)
      → lookup id d ≡ none
      → n.identity.mission_id ≡ id
      → Continues d (insert id n d)
  Continues-insert_new id n missing same = record {
    keyed = Keyed-insert id n d same keyed;
    extends = Extends-insert_new id n d missing;
  }

-- The missions that the methods store have evolved from those that they found.
module _ (m : Mission) (live : is_terminal m.state ≡ false) where
  pub Evolves-planned : (bt goal fresh : String) → Evolves m (planned_mission bt goal fresh m)
  unfolding planned_mission
  Evolves-planned bt goal fresh = record {
    same_id = ground arith;
    newer = ground arith;
    final = λ t. absurd (ground arith);
  }

  pub Evolves-replanning : (reason : String) → Evolves m (replanning_mission reason m)
  unfolding replanning_mission
  Evolves-replanning reason = record {
    same_id = refl;
    newer = omega arith;
    final = λ t. absurd (ground arith);
  }

  pub Evolves-finished :
      (state : State) (message : String) → Evolves m (finished_mission state message m)
  unfolding finished_mission
  Evolves-finished state message = record {
    same_id = refl;
    newer = omega arith;
    final = λ t. absurd (ground arith);
  }

  pub Evolves-canceled : (reason : String) → Evolves m (canceled_mission reason m)
  unfolding canceled_mission
  Evolves-canceled reason = record {
    same_id = refl;
    newer = omega arith;
    final = λ t. absurd (ground arith);
  }

  pub Evolves-updated :
      (node text : String) (progress : Option Float)
      → Evolves m (updated_mission node text progress m)
  unfolding updated_mission
  Evolves-updated node text progress = record {
    same_id = refl;
    newer = omega arith;
    final = λ t. absurd (ground arith);
  }

  pub Evolves-paused : (reason : String) → Evolves m (paused_mission reason m)
  unfolding paused_mission
  Evolves-paused reason = record {
    same_id = refl;
    newer = omega arith;
    final = λ t. absurd (ground arith);
  }

  pub Evolves-resumed :
      (slot_free : Bool) (fresh reason : String)
      → Evolves m (resumed_mission slot_free fresh reason m)
  unfolding resumed_mission
  Evolves-resumed slot_free fresh reason = record {
    same_id = ground arith;
    newer = ground arith;
    final = λ t. absurd (ground arith);
  }

  pub Evolves-reprioritized :
      (priority : ℤ) (reason : String) → Evolves m (reprioritized_mission priority reason m)
  unfolding reprioritized_mission
  Evolves-reprioritized priority reason = record {
    same_id = refl;
    newer = omega arith;
    final = λ t. absurd (ground arith);
  }

  pub Evolves-demoted : (id : String) → Evolves m (demoted_mission id m)
  unfolding demoted_mission
  Evolves-demoted id = record {
    same_id = refl;
    newer = omega arith;
    final = λ t. absurd (ground arith);
  }

  pub Evolves-promoted : (reason : String) → Evolves m (promoted_mission reason m)
  unfolding promoted_mission
  Evolves-promoted reason = record {
    same_id = refl;
    newer = omega arith;
    final = λ t. absurd (ground arith);
  }

pub live_of_queued : (m : Mission) → is_queued m.state ≡ true → is_terminal m.state ≡ false
unfolding is_terminal is_queued
live_of_queued m h = ground arith

pub live_of_paused : (m : Mission) → is_paused m.state ≡ true → is_terminal m.state ≡ false
unfolding is_terminal is_paused
live_of_paused m h = ground arith

-- The hand-over of the slot.
module _ (s : Manager) (keyed : Keyed s.missions) where
  pub Continues-promote :
      (id : String)
      → next_queued_id s.missions ≡ some id
      → Continues s.missions (promote id s).missions
  unfolding promote planning_mission
  Continues-promote id e =
      let (m, found, queued) = next_queued_id-found s.missions id keyed e in
      rw found (
        Continues-insert s.missions keyed id m (planning_mission m) found (record {
          same_id = refl;
          newer = omega arith;
          final = λ t. absurd (cc (live_of_queued m queued));
        }))

  pub Continues-promote_next_queued : Continues s.missions (promote_next_queued s).missions
  unfolding promote_next_queued
  Continues-promote_next_queued = elim (Option-cases (next_queued_id s.missions)) [
    | inl nothing ↦ rw (nothing, promote_next_queued) (Continues-refl s.missions keyed)
    | inr (id, e) ↦ rw (e, promote_next_queued) (Continues-promote id e)
  ]

  pub Continues-release : Continues s.missions (release_slot_for_pause s).missions
  unfolding release_slot_for_pause
  Continues-release = elim (Option-cases (next_queued_id s.missions)) [
    | inl nothing ↦ rw (nothing, release_slot_for_pause) (Continues-refl s.missions keyed)
    | inr (id, e) ↦ rw (e, release_slot_for_pause) (Continues-promote id e)
  ]

-- The ends of the methods.
module _ (s : Manager) (keyed : Keyed s.missions) (id : String) (m n : Mission)
    (found : lookup id s.missions ≡ some m) (e : Evolves m n) where
  stored : Continues s.missions (put id n s).missions
  stored = Continues-insert s.missions keyed id m n found e

  pub Continues-settle : Continues s.missions (settle id n s).missions
  unfolding settle
  Continues-settle = elim (Bool-cases (active_is s.active_id id)) [
    | inl yes_active ↦
        rw yes_active
          (Continues-trans stored (Continues-promote_next_queued (put id n s) stored.keyed))
    | inr other ↦ rw other stored
  ]

  pub Continues-pause_slot : Continues s.missions (pause_slot id n s).missions
  unfolding pause_slot
  Continues-pause_slot = elim (Bool-cases (active_is s.active_id id)) [
    | inl yes_active ↦
        rw yes_active (Continues-trans stored (Continues-release (put id n s) stored.keyed))
    | inr other ↦ rw other stored
  ]

  pub missions-resume_slot :
      (slot_free : Bool) → (resume_slot slot_free id m n s).missions ≡ insert id n s.missions
  unfolding resume_slot
  missions-resume_slot slot_free = ground arith

-- What the guard of a preemption says.
pub preempts-facts :
    (preempt : Bool) (id : String) (updated active : Mission)
    → preempts preempt id updated active ≡ true
    → (is_queued updated.state ≡ true)
      × ((active.identity.mission_id == id) ≡ false)
      × (is_terminal active.state ≡ false)
      × (active.priority <ℤ updated.priority)
unfolding preempts
preempts-facts preempt id updated active h = ground arith

-- A preemption: the demoted mission is stored, then the promoted one.
pub Continues-preempt :
    (d : Dict Mission) (id key : String) (updated active demoted promoted : Mission)
    → Keyed d
    → lookup id d ≡ some updated
    → lookup key d ≡ some active
    → (active.identity.mission_id == id) ≡ false
    → Evolves active demoted
    → Evolves updated promoted
    → Continues d (insert id promoted (insert demoted.identity.mission_id demoted d))
Continues-preempt d id key updated active demoted promoted keyed found held other ed ep =
    let k : demoted.identity.mission_id ≡ key =
      cc (ed.same_id, lookup-Keyed key active d keyed held) in
    let first = Continues-insert d keyed key active demoted held ed in
    let still : lookup id (insert key demoted d) ≡ some updated =
      lookup-insert_ne key id demoted d (rw (sym (lookup-Keyed key active d keyed held)) other)
      ∙ found in
    subst (λ x. Continues d (insert id promoted (insert x demoted d))) (sym k)
      (Continues-trans first
        (Continues-insert (insert key demoted d) first.keyed id updated promoted still ep))
