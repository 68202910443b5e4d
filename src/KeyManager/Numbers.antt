-- ===== src/KeyManager/Numbers.antt =====
-- Generations found by their number (src/key-manager.js).
use x402_facilitator_stellar.Common.{
  ℕ, ◌≡◌, refl, sym, ap, ◌∙◌, inl, inr, Bool, true, false, some, List, [], ◌∷◌, ◌++◌, map, arith,
  Bool-cases, select, find,
}
use x402_facilitator_stellar.KeyManager.{Generation, is_numbered}

pub find-map :
    (n : ℕ) (f : Generation → Generation) (gens : List Generation) (g : Generation)
    → ((x : Generation) → (f x).generation ≡ x.generation)
    → find (is_numbered n) gens ≡ some g
    → find (is_numbered n) (map f gens) ≡ some (f g)
find-map n f [] g same h = cc
find-map n f (x ∷ xs) g same h = elim (Bool-cases (is_numbered n x)) [
  | inl here ↦
      let value : x ≡ g = ground (arith, h, here) in
      let here' : is_numbered n (f x) ≡ true = rw (same x) here in
      rw here' (ap (λ y. some (f y)) value)
  | inr later ↦
      let found : find (is_numbered n) xs ≡ some g = sym (rw later refl) ∙ h in
      let later' : is_numbered n (f x) ≡ false = rw (same x) later in
      rw later' (find-map n f xs g same found)
]

pub find-select :
    (n : ℕ) (p : Generation → Bool) (gens : List Generation) (g : Generation)
    → find (is_numbered n) gens ≡ some g
    → p g ≡ true
    → find (is_numbered n) (select p gens) ≡ some g
find-select n p [] g h keep = cc
find-select n p (x ∷ xs) g h keep = elim (Bool-cases (is_numbered n x)) [
  | inl here ↦
      let value : x ≡ g = ground (arith, h, here) in
      let keep' : p x ≡ true = rw value keep in rw (keep', here) (ap (λ y. some y) value)
  | inr later ↦
      let rest = find-select n p xs g (sym (rw later refl) ∙ h) keep in
      elim (Bool-cases (p x)) [ inl stays ↦ rw (stays, later) rest | inr goes ↦ rw goes rest ]
]

pub find-append :
    (n : ℕ) (xs ys : List Generation) (g : Generation)
    → find (is_numbered n) xs ≡ some g
    → find (is_numbered n) (xs ++ ys) ≡ some g
find-append n [] ys g h = cc
find-append n (x ∷ xs) ys g h = ground (arith, h, find-append n xs ys g)

pub find-holds :
    (n : ℕ) (gens : List Generation) (g : Generation)
    → find (is_numbered n) gens ≡ some g
    → is_numbered n g ≡ true
find-holds n [] g h = cc
find-holds n (x ∷ xs) g h = elim (Bool-cases (is_numbered n x)) [
  | inl here ↦ let value : x ≡ g = ground (arith, h, here) in rw (← value) here
  | inr later ↦ find-holds n xs g (sym (rw later refl) ∙ h)
]
