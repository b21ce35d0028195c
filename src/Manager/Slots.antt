-- ===== src/Manager/Slots.antt =====
-- The single active slot: its invariant, and what single writes to the dictionary and the slot do to it.
use mathlib.Core.Path.{subst}
use mc_ai_bt.Common.{
  String, Bool, true, false, Option, some, ◌≡◌, refl, sym, ap, ◌∙◌, inl, inr, Bool-cases, eq_iff,
  ◌==◌, arith, ◌||◌,
}
use mc_ai_bt.Common.Dict.{Dict, lookup, insert, lookup-insert_self, lookup-insert_ne, ==_comm}
use mc_ai_bt.Common.Sort.{some_eq}
use mc_ai_bt.Mission.{State, Mission, is_queued, is_paused}
use mc_ai_bt.Manager.{active_is}
use mc_ai_bt.Manager.Keyed.{Keyed, Keyed-insert, lookup-Keyed}

-- Planning, waiting for a permission, or running.
unfoldable pub occupies : State → Bool
occupies State.planning = true
occupies State.waiting_for_permission = true
occupies State.running = true
occupies s = false

-- In the slot a mission occupies it, or is paused.
unfoldable pub may_hold : State → Bool
unfolding occupies is_paused
may_hold s = occupies s || is_paused s

-- The mission in the slot plans or runs.
abbrev pub Occupied : Dict Mission → Option String → Type 0
Occupied d active =
    (a : String) × (m : Mission) × (active ≡ some a)
    × (lookup a d ≡ some m)
    × (occupies m.state ≡ true)

pub record SlotOk (d : Dict Mission) (active : Option String) : Type 0 where
  pub keyed : Keyed d
  -- The slot names a stored mission that may hold it.
  pub held :
      (a : String)
      → active ≡ some a
      → (m : Mission) × (lookup a d ≡ some m) × (may_hold m.state ≡ true)
  -- Only the mission in the slot plans or runs.
  pub exclusive :
      (k : String) (m : Mission) → lookup k d ≡ some m → occupies m.state ≡ true → active ≡ some k
  -- While a mission is queued, the mission in the slot plans or runs.
  pub working :
      (k : String) (m : Mission)
      → lookup k d ≡ some m
      → is_queued m.state ≡ true
      → (a : String) × (n : Mission) × (active ≡ some a)
        × (lookup a d ≡ some n)
        × (occupies n.state ≡ true)

-- No mission but this one plans or runs.
abbrev pub Idle : String → Dict Mission → Type 0
Idle id d =
    (k : String) (m : Mission) → lookup k d ≡ some m → (id == k) ≡ false → occupies m.state ≡ false

pub may_hold_of_occupies : (s : State) → occupies s ≡ true → may_hold s ≡ true
unfolding may_hold
may_hold_of_occupies s h = ground arith

-- A mission that plans or runs enters the slot, and no other does.
pub SlotOk-enter :
    (d : Dict Mission) (id : String) (n : Mission)
    → Keyed d
    → n.identity.mission_id ≡ id
    → occupies n.state ≡ true
    → Idle id d
    → SlotOk (insert id n d) (some id)
SlotOk-enter d id n keyed same busy idle = record {
  keyed = Keyed-insert id n d same keyed;
  held = λ a e. (
    n,
    subst (λ x. lookup x (insert id n d) ≡ some n) (some_eq e) (lookup-insert_self id n d),
    may_hold_of_occupies n.state busy,
  );
  exclusive = λ k m found occupied. elim (Bool-cases (id == k)) [
    | inl is ↦ cc ((eq_iff id k).0 is)
    | inr other ↦
        absurd (cc (idle k m (rw (lookup-insert_ne id k n d other) at found) other, occupied))
  ];
  working = λ k m found queued. (id, n, refl, lookup-insert_self id n d, busy);
}

pub stored_self :
    (d : Dict Mission) (id k : String) (n m : Mission)
    → lookup k (insert id n d) ≡ some m
    → (id == k) ≡ true
    → n ≡ m
stored_self d id k n m found is = some_eq (
    sym (lookup-insert_self id n d)
    ∙ subst (λ x. lookup x (insert id n d) ≡ some m) (sym ((eq_iff id k).0 is)) found)

pub outside_ne :
    (active : Option String) (id a : String)
    → active_is active id ≡ false
    → active ≡ some a
    → (id == a) ≡ false
outside_ne active id a outside e = ==_comm id a ∙ subst (λ o. active_is o id ≡ false) e outside

pub Occupied-outside :
    (d : Dict Mission) (active : Option String) (id : String) (n : Mission)
    → active_is active id ≡ false
    → Occupied d active
    → Occupied (insert id n d) active
Occupied-outside d active id n outside (a, m, e, found, busy) =
    (a, m, e, lookup-insert_ne id a n d (outside_ne active id a outside e) ∙ found, busy)

-- A mission outside the slot is stored anew, and neither plans nor runs.
pub SlotOk-outside :
    (d : Dict Mission) (active : Option String) (id : String) (n : Mission)
    → SlotOk d active
    → n.identity.mission_id ≡ id
    → active_is active id ≡ false
    → occupies n.state ≡ false
    → (is_queued n.state ≡ true → Occupied d active)
    → SlotOk (insert id n d) active
SlotOk-outside d active id n ok same outside quiet busy = record {
  keyed = Keyed-insert id n d same ok.keyed;
  held = λ a e.
      let (m, found, may) = ok.held a e in
      (m, lookup-insert_ne id a n d (outside_ne active id a outside e) ∙ found, may);
  exclusive = λ k m found occupied. elim (Bool-cases (id == k)) [
    | inl is ↦ absurd (cc (stored_self d id k n m found is, occupied, quiet))
    | inr other ↦ ok.exclusive k m (rw (lookup-insert_ne id k n d other) at found) occupied
  ];
  working = λ k m found queued. elim (Bool-cases (id == k)) [
    | inl is ↦
        Occupied-outside d active id n outside (
          busy (ap (λ (x : Mission). is_queued x.state) (stored_self d id k n m found is) ∙ queued))
    | inr other ↦
        Occupied-outside d active id n outside
          (ok.working k m (rw (lookup-insert_ne id k n d other) at found) queued)
  ];
}

-- The missions of a dictionary are in the states of those of another.
abbrev SameStates : Dict Mission → Dict Mission → Type 0
SameStates d e =
    (k : String) (m : Mission)
    → lookup k d ≡ some m
    → (n : Mission) × (lookup k e ≡ some n) × (n.state ≡ m.state)

module _ (d : Dict Mission) (id : String) (m n : Mission) (found : lookup id d ≡ some m)
    (state : n.state ≡ m.state) where
  states_kept : SameStates d (insert id n d)
  states_kept k o f = elim (Bool-cases (id == k)) [
    | inl is ↦
        let p = (eq_iff id k).0 is in
        (
          n,
          subst (λ x. lookup x (insert id n d) ≡ some n) p (lookup-insert_self id n d),
          cc (subst (λ x. lookup x d ≡ some m) p found, f, state),
        )
    | inr other ↦ (o, lookup-insert_ne id k n d other ∙ f, refl)
  ]

  states_back : SameStates (insert id n d) d
  states_back k o f = elim (Bool-cases (id == k)) [
    | inl is ↦ (
      m,
      subst (λ x. lookup x d ≡ some m) ((eq_iff id k).0 is) found,
      cc (stored_self d id k n o f is, state),
    )
    | inr other ↦ (o, rw (lookup-insert_ne id k n d other) at f, refl)
  ]

-- A mission is stored anew in the state that it was in.
pub SlotOk-same_state :
    (d : Dict Mission) (active : Option String) (id : String) (m n : Mission)
    → SlotOk d active
    → lookup id d ≡ some m
    → n.identity.mission_id ≡ m.identity.mission_id
    → n.state ≡ m.state
    → SlotOk (insert id n d) active
SlotOk-same_state d active id m n ok found same state =
    let back = states_back d id m n found state in
    let kept = states_kept d id m n found state in
    record {
      keyed = Keyed-insert id n d (same ∙ lookup-Keyed id m d ok.keyed found) ok.keyed;
      held = λ a e.
          let (o, f, may) = ok.held a e in
          let (p, f', s) = kept a o f in (p, f', ap may_hold s ∙ may);
      exclusive =
          λ k o f busy. let (p, f', s) = back k o f in ok.exclusive k p f' (ap occupies s ∙ busy);
      working = λ k o f queued.
          let (p, f', s) = back k o f in
          let (a, q, e, g, busy) = ok.working k p f' (ap is_queued s ∙ queued) in
          let (r, g', t) = kept a q g in (a, r, e, g', ap occupies t ∙ busy);
    }

-- Nothing but the mission in the slot, or nothing at all where the slot is free, plans or runs.
pub Idle-active : (d : Dict Mission) (id : String) → SlotOk d (some id) → Idle id d
Idle-active d id ok k m found other = elim (Bool-cases (occupies m.state)) [
  | inl busy ↦ absurd (ground (arith, ok.exclusive k m found busy, eq_iff id k))
  | inr quiet ↦ quiet
]

-- No mission plans or runs.
abbrev pub Quiet : Dict Mission → Type 0
Quiet d = (k : String) (m : Mission) → lookup k d ≡ some m → occupies m.state ≡ false

-- The mission in the slot leaves it.
pub Quiet-leave :
    (d : Dict Mission) (id : String) (n : Mission)
    → SlotOk d (some id)
    → occupies n.state ≡ false
    → Quiet (insert id n d)
Quiet-leave d id n ok quiet k m found = elim (Bool-cases (id == k)) [
  | inl is ↦ ap (λ (x : Mission). occupies x.state) (sym (stored_self d id k n m found is)) ∙ quiet
  | inr other ↦ Idle-active d id ok k m (rw (lookup-insert_ne id k n d other) at found) other
]
