-- ===== src/Common/Sort.antt =====
-- `Array.prototype.sort` by a comparison: stable, so insertion sort gives the same array.
use mathlib.Core.List.{Perm}
use mathlib.Core.List.Perm
use mathlib.Core.Path.{◌≡◌, refl}
use mathlib.Core.Logic.{inl, inr}
use mathlib.Core.Bool.{Bool, true, false, ◌||◌}
use Prim.Native.Nat.{suc}
use mathlib.Core.List.{List, [], ◌∷◌}
use native.Mathlib.Omega.{arith}
use x402_facilitator_stellar.Common.Tests.{if◌then◌else◌, Bool-cases}
use x402_facilitator_stellar.Common.Lists.{All, any, length, select}

module _ {ℓ} {A : Type ℓ} where
  pub select-cons-perm :
      (p : A → Bool) (x : A) (xs ys : List A)
      → Perm (select p xs) (select p ys)
      → Perm (select p (x ∷ xs)) (select p (x ∷ ys))
  select-cons-perm p x xs ys h = elim (Bool-cases (p x)) [
    | inl e ↦ rw e (Perm.cons x h)
    | inr e ↦ rw e h
  ]

  select-swap-perm :
      (p : A → Bool) (a x : A) (xs : List A) → Perm (select p (a ∷ x ∷ xs)) (select p (x ∷ a ∷ xs))
  select-swap-perm p a x xs = elim (Bool-cases (p a)) [
    | inl e ↦ elim (Bool-cases (p x)) [
      | inl f ↦ rw (e, f) (Perm.swap x a (select p xs))
      | inr f ↦ rw (e, f) (Perm.refl _)
    ]
    | inr e ↦ rw e (Perm.refl _)
  ]

-- `le a b` says that `a` may stand before `b`.
module _ {ℓ} {A : Type ℓ} (le : A → A → Bool) where
  unfoldable pub insert_by : A → List A → List A
  insert_by a [] = a ∷ []
  insert_by a (x ∷ xs) = if le a x then a ∷ x ∷ xs else x ∷ insert_by a xs

  unfoldable pub sort_by : List A → List A
  unfolding insert_by
  sort_by [] = []
  sort_by (x ∷ xs) = insert_by x (sort_by xs)

  abbrev pub IsSorted : List A → Type 0
  IsSorted [] = Unit
  IsSorted (x ∷ xs) = All (λ y. le x y ≡ true) xs × IsSorted xs

  pub insert_by-perm : (a : A) (xs : List A) → Perm (a ∷ xs) (insert_by a xs)
  unfolding insert_by
  insert_by-perm a [] = Perm.refl _
  insert_by-perm a (x ∷ xs) = elim (Bool-cases (le a x)) [
    | inl h ↦ rw h (Perm.refl _)
    | inr h ↦ rw h (Perm.trans (Perm.swap x a xs) (Perm.cons x (insert_by-perm a xs)))
  ]

  pub sort_by-perm : (xs : List A) → Perm xs (sort_by xs)
  unfolding sort_by
  sort_by-perm [] = Perm.refl _
  sort_by-perm (x ∷ xs) = Perm.trans (Perm.cons x (sort_by-perm xs)) (insert_by-perm x (sort_by xs))

  -- Selecting before or after sorting gives the same entries.
  pub select-insert_by-perm :
      (p : A → Bool) (a : A) (xs : List A) → Perm (select p (a ∷ xs)) (select p (insert_by a xs))
  unfolding insert_by
  select-insert_by-perm p a [] = Perm.refl _
  select-insert_by-perm p a (x ∷ xs) = elim (Bool-cases (le a x)) [
    | inl h ↦ rw h (Perm.refl _)
    | inr h ↦ rw h (
        Perm.trans (select-swap-perm p a x xs)
          (select-cons-perm p x (a ∷ xs) (insert_by a xs) (select-insert_by-perm p a xs)))
  ]

  pub select-sort_by-perm :
      (p : A → Bool) (xs : List A) → Perm (select p xs) (select p (sort_by xs))
  unfolding sort_by
  select-sort_by-perm p [] = Perm.refl _
  select-sort_by-perm p (x ∷ xs) =
      Perm.trans (select-cons-perm p x xs (sort_by xs) (select-sort_by-perm p xs))
        (select-insert_by-perm p x (sort_by xs))

  pub All-insert_by {κ} :
      (P : A → Type κ) (a : A) (xs : List A) → P a → All P xs → All P (insert_by a xs)
  unfolding insert_by
  All-insert_by P a [] p h = (p, tt)
  All-insert_by P a (x ∷ xs) p h = ground (arith, All-insert_by P a xs p h.1)

  pub All-sort_by {κ} : (P : A → Type κ) (xs : List A) → All P xs → All P (sort_by xs)
  unfolding sort_by
  All-sort_by P [] h = tt
  All-sort_by P (x ∷ xs) h = All-insert_by P x (sort_by xs) h.0 (All-sort_by P xs h.1)

  -- An order in which any two elements can be compared.
  pub record IsOrder : Type ℓ where
    pub total : (a b : A) → le a b ≡ false → le b a ≡ true
    pub transitive : (a b c : A) → le a b ≡ true → le b c ≡ true → le a c ≡ true

module _ {ℓ} {A : Type ℓ} (le : A → A → Bool) (o : IsOrder le) where
  below :
      (a x : A) (xs : List A)
      → le a x ≡ true
      → All (λ y. le x y ≡ true) xs
      → All (λ y. le a y ≡ true) xs
  below a x [] h k = tt
  below a x (y ∷ ys) h k = (o.transitive a x y h k.0, below a x ys h k.1)

  insert_by-IsSorted : (a : A) (xs : List A) → IsSorted le xs → IsSorted le (insert_by le a xs)
  unfolding insert_by
  insert_by-IsSorted a [] h = (tt, tt)
  insert_by-IsSorted a (x ∷ xs) h = elim (Bool-cases (le a x)) [
    | inl e ↦ rw e ((e, below a x xs e h.0), h)
    | inr e ↦ rw e (
      All-insert_by le (λ y. le x y ≡ true) a xs (o.total a x e) h.0,
      insert_by-IsSorted a xs h.1,
    )
  ]

  pub sort_by-IsSorted : (xs : List A) → IsSorted le (sort_by le xs)
  unfolding sort_by
  sort_by-IsSorted [] = tt
  sort_by-IsSorted (x ∷ xs) = insert_by-IsSorted x (sort_by le xs) (sort_by-IsSorted xs)

module _ {ℓ} {A : Type ℓ} (le : A → A → Bool) where
  any-insert_by :
      (p : A → Bool) (a : A) (xs : List A) → any p (insert_by le a xs) ≡ (p a || any p xs)
  unfolding insert_by
  any-insert_by p a [] = refl
  any-insert_by p a (x ∷ xs) = ground (arith, any-insert_by p a xs)

  pub any-sort_by : (p : A → Bool) (xs : List A) → any p (sort_by le xs) ≡ any p xs
  unfolding sort_by
  any-sort_by p [] = refl
  any-sort_by p (x ∷ xs) = ground (arith, any-insert_by p x (sort_by le xs), any-sort_by p xs)

  length-insert_by : (a : A) (xs : List A) → length (insert_by le a xs) ≡ suc (length xs)
  unfolding insert_by
  length-insert_by a [] = refl
  length-insert_by a (x ∷ xs) = ground (arith, length-insert_by a xs)

  pub length-sort_by : (xs : List A) → length (sort_by le xs) ≡ length xs
  unfolding sort_by
  length-sort_by [] = refl
  length-sort_by (x ∷ xs) = omega (arith, length-insert_by x (sort_by le xs), length-sort_by xs)

  -- Sorting a sorted list changes nothing.
  insert_by-below : (a : A) (xs : List A) → All (λ y. le a y ≡ true) xs → insert_by le a xs ≡ a ∷ xs
  unfolding insert_by
  insert_by-below a [] h = refl
  insert_by-below a (x ∷ xs) h = rw h.0 refl

  pub sort_by_sorted : (xs : List A) → IsSorted le xs → sort_by le xs ≡ xs
  unfolding sort_by
  sort_by_sorted [] h = refl
  sort_by_sorted (x ∷ xs) h = rw (sort_by_sorted xs h.1) (insert_by-below x xs h.0)
