-- ===== src/Common/Sort.antt =====
-- `list.sort(key=…)` as far as the program reads it: the first element of the sorted list.
use mc_ai_bt.Common.Tests.{if◌then◌else◌, All, Bool-cases}
use mathlib.Core.Bool.{Bool, true, false}
use mathlib.Core.List.{List, [], ◌∷◌}
use mathlib.Core.Logic.{inl, inr}
use mathlib.Core.Option.{Option, none, some}
use mathlib.Core.Path.{◌≡◌, refl, subst, sym, ◌∙◌}

module _ {ℓ} {A : Type ℓ} (before : A → A → Bool) where
  -- Puts an element in front of the first that is not before it, which keeps equals in order.
  unfoldable pub insert_sorted : A → List A → List A
  insert_sorted x [] = x ∷ []
  insert_sorted x (y ∷ ys) = if before y x then y ∷ insert_sorted x ys else x ∷ y ∷ ys

  unfoldable pub sort : List A → List A
  unfolding insert_sorted
  sort [] = []
  sort (x ∷ xs) = insert_sorted x (sort xs)

-- `items[0]`
unfoldable pub first {ℓ} : {A : Type ℓ} → List A → Option A
first [] = none
first (x ∷ xs) = some x

pub some_eq {ℓ} : {A : Type ℓ} {x y : A} → some x ≡ some y → x ≡ y
some_eq e = cc

pub All-first {ℓ κ} :
    {A : Type ℓ} (P : A → Type κ) (xs : List A) {x : A} → All P xs → first xs ≡ some x → P x
unfolding first
All-first P [] h e = absurd (cc)
All-first P (y ∷ xs) h e = subst P (some_eq e) h.0

module _ {ℓ κ} {A : Type ℓ} (P : A → Type κ) (before : A → A → Bool) where
  All-insert_sorted : (x : A) (xs : List A) → P x → All P xs → All P (insert_sorted before x xs)
  unfolding insert_sorted
  All-insert_sorted x [] p h = (p, tt)
  All-insert_sorted x (y ∷ ys) p h = elim (Bool-cases (before y x)) [
    | inl e ↦ rw e (h.0, All-insert_sorted x ys p h.1)
    | inr e ↦ rw e (p, h)
  ]

  pub All-sort : (xs : List A) → All P xs → All P (sort before xs)
  unfolding sort
  All-sort [] h = h
  All-sort (x ∷ xs) h = All-insert_sorted x (sort before xs) h.0 (All-sort xs h.1)

-- The other way round: what holds of a sorted list holds of the list.
module _ {ℓ κ} {A : Type ℓ} (P : A → Type κ) (before : A → A → Bool) where
  insert_sorted-All : (x : A) (ys : List A) → All P (insert_sorted before x ys) → P x × All P ys
  unfolding insert_sorted
  insert_sorted-All x [] h = (h.0, tt)
  insert_sorted-All x (y ∷ ys) h = elim (Bool-cases (before y x)) [
    | inl e ↦ let g = rw e at h in let (p, rest) = insert_sorted-All x ys g.1 in (p, (g.0, rest))
    | inr e ↦ let g = rw e at h in (g.0, g.1)
  ]

  pub sort-All : (xs : List A) → All P (sort before xs) → All P xs
  unfolding sort
  sort-All [] h = h
  sort-All (x ∷ xs) h =
      let (p, rest) = insert_sorted-All x (sort before xs) h in (p, sort-All xs rest)

-- A strict weak order.
pub record IsOrder {ℓ} {A : Type ℓ} (before : A → A → Bool) : Type ℓ where
  pub irrefl : (x : A) → before x x ≡ false
  pub asym : (x y : A) → before x y ≡ true → before y x ≡ false
  pub weak : (x y z : A) → before x y ≡ false → before y z ≡ false → before x z ≡ false

module _ {ℓ} {A : Type ℓ} (before : A → A → Bool) where
  first_of_insert : A → Option A → A
  first_of_insert x none = x
  first_of_insert x (some y) = if before y x then y else x

  first-insert_sorted :
      (x : A) (ys : List A)
      → first (insert_sorted before x ys) ≡ some (first_of_insert x (first ys))
  unfolding first insert_sorted first_of_insert
  first-insert_sorted x [] = refl
  first-insert_sorted x (y ∷ ys) = elim (Bool-cases (before y x)) [ inl e ↦ rw e | inr e ↦ rw e ]

  abbrev pub Least : A → List A → Type 0
  Least m xs = All (λ x. before x m ≡ false) xs

  All-weak : IsOrder before → (x y : A) (xs : List A) → before y x ≡ false → Least y xs → Least x xs
  All-weak order x y [] e h = tt
  All-weak order x y (z ∷ xs) e h = (order.weak z y x h.0 e, All-weak order x y xs e h.1)

  first_of_insert-Least :
      IsOrder before
      → (x y : A) (xs : List A) → Least y xs
      → Least (first_of_insert x (some y)) (x ∷ xs)
  unfolding first_of_insert
  first_of_insert-Least order x y xs h = elim (Bool-cases (before y x)) [
    | inl e ↦
        let p : first_of_insert x (some y) ≡ y = rw e in
        subst (λ m. Least m (x ∷ xs)) (sym p) (order.asym y x e, h)
    | inr e ↦
        let p : first_of_insert x (some y) ≡ x = rw e in
        subst (λ m. Least m (x ∷ xs)) (sym p) (order.irrefl x, All-weak order x y xs e h)
  ]

  pub first-sort-none : (xs : List A) → first (sort before xs) ≡ none → xs ≡ []
  unfolding sort
  first-sort-none [] e = refl
  first-sort-none (x ∷ xs) e = absurd (cc (e, first-insert_sorted x (sort before xs)))

  first-sort_cons :
      (x : A) (xs : List A)
      → first (sort before (x ∷ xs)) ≡ some (first_of_insert x (first (sort before xs)))
  unfolding sort
  first-sort_cons x xs = first-insert_sorted x (sort before xs)

  first_of_insert-Least_any :
      IsOrder before
      → (x : A) (xs : List A) (o : Option A) → (o ≡ none → xs ≡ [])
      → ((y : A) → o ≡ some y → Least y xs)
      → Least (first_of_insert x o) (x ∷ xs)
  unfolding first_of_insert
  first_of_insert-Least_any order x xs none empty h = rw (empty refl) (order.irrefl x, tt)
  first_of_insert-Least_any order x xs (some y) empty h =
      first_of_insert-Least order x y xs (h y refl)

  -- Nothing in the list is before the first element of the sorted list.
  pub first-sort-Least :
      IsOrder before → (xs : List A) (m : A) → first (sort before xs) ≡ some m → Least m xs
  first-sort-Least order [] m e = tt
  first-sort-Least order (x ∷ xs) m e =
      let p : first_of_insert x (first (sort before xs)) ≡ m =
        some_eq (sym (first-sort_cons x xs) ∙ e) in
      subst (λ w. Least w (x ∷ xs)) p
        (first_of_insert-Least_any order x xs (first (sort before xs)) (first-sort-none xs)
          (first-sort-Least order xs))
