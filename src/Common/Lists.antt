-- ===== src/Common/Lists.antt =====
-- Lists measured by native numbers, with Boolean tests, under the library's names.
use Prim.Native.Nat.{ℕ, zero, suc, ◌+◌, ◌≤◌}
use mathlib.Core.Path.{◌≡◌, refl, ap}
use mathlib.Core.Bool.{Bool, true, false, ◌&&◌, ◌||◌, not}
use mathlib.Core.List.{List, [], ◌∷◌, ◌++◌, map}
use mathlib.Core.Option.{Option, none, some}
use native.Mathlib.Omega.{arith}
use x402_facilitator_stellar.Common.Tests.{if◌then◌else◌}

module _ {ℓ} {A : Type ℓ} where
  abbrev pub length : List A → ℕ
  length [] = 0
  length (x ∷ xs) = suc (length xs)

  abbrev pub take : ℕ → List A → List A
  take zero xs = []
  take (suc n) [] = []
  take (suc n) (x ∷ xs) = x ∷ take n xs

  abbrev pub drop : ℕ → List A → List A
  drop zero xs = xs
  drop (suc n) [] = []
  drop (suc n) (x ∷ xs) = drop n xs

  -- `xs.filter(p)`.
  abbrev pub select : (A → Bool) → List A → List A
  select p [] = []
  select p (x ∷ xs) = if p x then x ∷ select p xs else select p xs

  -- `xs.some(p)` and `xs.every(p)`.
  abbrev pub any : (A → Bool) → List A → Bool
  any p [] = false
  any p (x ∷ xs) = p x || any p xs

  abbrev pub all : (A → Bool) → List A → Bool
  all p [] = true
  all p (x ∷ xs) = p x && all p xs

  -- `xs.find(p)`.
  abbrev pub find : (A → Bool) → List A → Option A
  find p [] = none
  find p (x ∷ xs) = if p x then some x else find p xs

  abbrev pub All {κ} : (A → Type κ) → List A → Type κ
  All P [] = Unit
  All P (x ∷ xs) = P x × All P xs

  pub length-append : (xs ys : List A) → length (xs ++ ys) ≡ length xs + length ys
  length-append [] ys = omega arith
  length-append (x ∷ xs) ys = omega (arith, length-append xs ys)

  pub length-select-le : (p : A → Bool) (xs : List A) → length (select p xs) ≤ length xs
  length-select-le p [] = omega arith
  length-select-le p (x ∷ xs) = ground (arith, length-select-le p xs)

  pub All-append {κ} : (P : A → Type κ) (xs ys : List A) → All P xs → All P ys → All P (xs ++ ys)
  All-append P [] ys h k = k
  All-append P (x ∷ xs) ys (p, h) k = (p, All-append P xs ys h k)

  pub All-select {κ} :
      (P : A → Type κ) (p : A → Bool) (xs : List A) → All P xs → All P (select p xs)
  All-select P p [] h = tt
  All-select P p (x ∷ xs) (k, h) = ground (arith, All-select P p xs h)

  pub select-select :
      (p q : A → Bool) (xs : List A) → select q (select p xs) ≡ select (λ x. p x && q x) xs
  select-select p q [] = refl
  select-select p q (x ∷ xs) = ground (arith, select-select p q xs)

  pub All-take {κ} : (P : A → Type κ) (n : ℕ) (xs : List A) → All P xs → All P (take n xs)
  All-take P zero xs h = tt
  All-take P (suc n) [] h = tt
  All-take P (suc n) (x ∷ xs) h = (h.0, All-take P n xs h.1)

  pub select-holds : (p : A → Bool) (xs : List A) → All (λ x. p x ≡ true) (select p xs)
  select-holds p [] = tt
  select-holds p (x ∷ xs) = ground (arith, select-holds p xs)

  abbrev pub nth : ℕ → List A → Option A
  nth n [] = none
  nth zero (x ∷ xs) = some x
  nth (suc n) (x ∷ xs) = nth n xs

  pub All-map {κ μ} :
      (P : A → Type κ) (Q : A → Type μ) (f : A → A) (xs : List A)
      → ((x : A) → P x → Q (f x))
      → All P xs
      → All Q (map f xs)
  All-map P Q f [] k h = tt
  All-map P Q f (x ∷ xs) k h = (k x h.0, All-map P Q f xs k h.1)

  pub All-weaken {κ μ} :
      (P : A → Type κ) (Q : A → Type μ) (xs : List A) → ((x : A) → P x → Q x) → All P xs → All Q xs
  All-weaken P Q [] k h = tt
  All-weaken P Q (x ∷ xs) k h = (k x h.0, All-weaken P Q xs k h.1)

  pub All-nth {κ} :
      (P : A → Type κ) (n : ℕ) (xs : List A) (x : A) → All P xs → nth n xs ≡ some x → P x
  All-nth P n [] x h e = cc
  All-nth P zero (y ∷ xs) x h e = ground (arith, e, h.0)
  All-nth P (suc n) (y ∷ xs) x h e = All-nth P n xs x h.1 e

  pub any-append : (p : A → Bool) (xs ys : List A) → any p (xs ++ ys) ≡ (any p xs || any p ys)
  any-append p [] ys = refl
  any-append p (x ∷ xs) ys = ground (arith, any-append p xs ys)

  pub any-map :
      (p : A → Bool) (f : A → A) (xs : List A)
      → ((x : A) → p (f x) ≡ p x)
      → any p (map f xs) ≡ any p xs
  any-map p f [] same = refl
  any-map p f (x ∷ xs) same = rw (same x, any-map p f xs same) refl

  pub any-select : (p q : A → Bool) (xs : List A) → any q (select p xs) ≡ any (λ x. p x && q x) xs
  any-select p q [] = refl
  any-select p q (x ∷ xs) = ground (arith, any-select p q xs)

  pub any-weaken :
      (p q : A → Bool) (xs : List A)
      → ((x : A) → p x ≡ true → q x ≡ true)
      → any p xs ≡ true
      → any q xs ≡ true
  any-weaken p q [] k h = h
  any-weaken p q (x ∷ xs) k h = ground (arith, h, k x, any-weaken p q xs k)

  pub any-map-with :
      (p : A → Bool) (f : A → A) (xs : List A) → any p (map f xs) ≡ any (λ x. p (f x)) xs
  any-map-with p f [] = refl
  any-map-with p f (x ∷ xs) = rw (any-map-with p f xs) refl

  pub take_all : (n : ℕ) (xs : List A) → length xs ≤ n → take n xs ≡ xs
  take_all zero [] h = refl
  take_all zero (x ∷ xs) h = ground arith
  take_all (suc n) [] h = refl
  take_all (suc n) (x ∷ xs) h = ap (λ ys. x ∷ ys) (take_all n xs (omega arith))

  pub length-take-le : (n : ℕ) (xs : List A) → length (take n xs) ≤ n
  length-take-le zero xs = omega arith
  length-take-le (suc n) [] = omega arith
  length-take-le (suc n) (x ∷ xs) = omega (arith, length-take-le n xs)

  pub length-select-not :
      (p : A → Bool) (xs : List A)
      → length (select p xs) + length (select (λ x. not (p x)) xs) ≡ length xs
  length-select-not p [] = omega arith
  length-select-not p (x ∷ xs) = ground (arith, length-select-not p xs)
