-- ===== src/AssetCache/Conversion.antt =====
-- Amounts to units and back (src/asset-cache.js).
use x402_facilitator_stellar.Common.{
  ℕ, zero, suc, ◌+◌, ◌-◌, ◌*◌, ◌^◌, ◌≤◌, ◌≡◌, refl, sym, ap, ◌∙◌, Bool, true, false, some, [], ◌∷◌,
  ◌++◌, arith, eqb, length, take, all, All, All-append, All-weaken, take_all,
}
use x402_facilitator_stellar.AssetCache.{
  Text, dot, minus, is_digit, number_from, big_int, to_string, zeros, pad_end, sign_of,
  without_minus, without_sign, before_dot, after_dot, to_base_units,
}
use x402_facilitator_stellar.AssetCache.Numbers.{
  AreDigits, number-append, number-acc, number-zeros, zeros-AreDigits,
}
use native.Mathlib.Nat.{add-mul, add-zero, mul_assoc, add-suc, pow-suc, add-sub_of_le}

abbrev pub sign : (negative : Bool) → Text
sign true = minus ∷ []
sign false = []

abbrev HasNoDot : Text → Type 0
HasNoDot s = All (λ c. eqb c dot ≡ false) s

digits-HasNoDot : (s : Text) → AreDigits s → HasNoDot s
digits-HasNoDot s h =
    All-weaken (λ c. is_digit c ≡ true) (λ c. eqb c dot ≡ false) s (λ c d. ground (arith, d)) h

all_digits : (s : Text) → AreDigits s → all is_digit s ≡ true
all_digits [] h = refl
all_digits (c ∷ s) (d, h) = rw d (all_digits s h)

before_dot_at : (s t : Text) → HasNoDot s → before_dot (s ++ (dot ∷ t)) ≡ s
unfolding before_dot
before_dot_at [] t h = refl
before_dot_at (c ∷ s) t (d, h) = rw d (ap (λ r. c ∷ r) (before_dot_at s t h))

after_dot_at : (s t : Text) → HasNoDot s → after_dot (s ++ (dot ∷ t)) ≡ t
unfolding after_dot
after_dot_at [] t h = refl
after_dot_at (c ∷ s) t (d, h) = rw d (after_dot_at s t h)

before_dot_all : (s : Text) → HasNoDot s → before_dot s ≡ s
unfolding before_dot
before_dot_all [] h = refl
before_dot_all (c ∷ s) (d, h) = rw d (ap (λ r. c ∷ r) (before_dot_all s h))

pub sign_of_lem : (neg : Bool) (s : Text) → AreDigits s → sign_of (sign neg ++ s) ≡ sign neg
sign_of_lem true s h = refl
sign_of_lem false [] h = refl
sign_of_lem false (c ∷ s) (d, h) = ground (arith, d)

pub without_minus_lem : (neg : Bool) (s : Text) → AreDigits s → without_minus (sign neg ++ s) ≡ s
without_minus_lem true s h = refl
without_minus_lem false [] h = refl
without_minus_lem false (c ∷ s) (d, h) = ground (arith, d)

without_sign_lem : (neg : Bool) (s : Text) → AreDigits s → without_sign (sign neg ++ s) ≡ s
without_sign_lem true s h = refl
without_sign_lem false [] h = refl
without_sign_lem false (c ∷ s) (d, h) = ground (arith, d)

-- The parts of a written amount.
signed_parts :
    (neg : Bool) (int frac : Text)
    → AreDigits int
    → (before_dot (sign neg ++ (int ++ (dot ∷ frac))) ≡ sign neg ++ int)
      × (after_dot (sign neg ++ (int ++ (dot ∷ frac))) ≡ frac)
signed_parts true int frac h =
    let plain = digits-HasNoDot int h in
    (before_dot_at (minus ∷ int) frac (refl, plain), after_dot_at (minus ∷ int) frac (refl, plain))
signed_parts false int frac h =
    let plain = digits-HasNoDot int h in (before_dot_at int frac plain, after_dot_at int frac plain)

pub to_base_units_at :
    (neg : Bool) (int frac : Text) (d : ℕ)
    → AreDigits int
    → AreDigits frac
    → AreDigits (pad_end d (take d frac))
    → to_base_units (sign neg ++ (int ++ (dot ∷ frac))) d
      ≡ some (sign neg ++ to_string (number_from 0 (int ++ pad_end d (take d frac))))
unfolding to_base_units big_int
to_base_units_at neg int frac d hi hf hp =
    let (before, after) = signed_parts neg int frac hi in
    rw
      (
        to_base_units,
        before,
        after,
        before_dot_all frac (digits-HasNoDot frac hf),
        without_sign_lem neg int hi,
        all_digits (int ++ pad_end d (take d frac))
            (All-append (λ c. is_digit c ≡ true) int (pad_end d (take d frac)) hi hp),
        before,
        sign_of_lem neg int hi,
      )
      refl

powers : (a k : ℕ) → 10 ^ a * 10 ^ k ≡ 10 ^ (a + k)
powers a zero = rw (add-zero a) (omega arith)
powers a (suc k) =
    rw (add-suc a k, pow-suc 10 k, pow-suc 10 (a + k), ← powers a k)
      (sym (mul_assoc (10 ^ a) (10 ^ k) 10))

shifted_sum : (n f p q : ℕ) → (n * p + f) * q ≡ n * (p * q) + f * q
shifted_sum n f p q = rw (add-mul (n * p) f q, mul_assoc n p q) refl

-- An amount with no more places than the asset has becomes its value in units: the whole part times
-- 10 to the power of the decimals, and the places after the dot times 10 to the power of the ones
-- that are not written, with the sign in front.
pub to_base_units_lem :
    (neg : Bool) (int frac : Text) (d : ℕ)
    → AreDigits int
    → AreDigits frac
    → length frac ≤ d
    → to_base_units (sign neg ++ (int ++ (dot ∷ frac))) d
      ≡ some (
          sign neg
          ++ to_string (number_from 0 int * 10 ^ d + number_from 0 frac * 10 ^ (d - length frac)))
to_base_units_lem neg int frac d hi hf fits =
    let k = d - length frac in
    let whole : take d frac ≡ frac = take_all d frac fits in
    let n = number_from 0 int in
    let f = number_from 0 frac in
    let value : number_from 0 (int ++ pad_end d frac) ≡ n * 10 ^ d + f * 10 ^ k =
      number-append 0 int (pad_end d frac)
      ∙ number-append n frac (zeros k)
      ∙ number-zeros (number_from n frac) k
      ∙ ap (λ m. m * 10 ^ k) (number-acc n frac)
      ∙ shifted_sum n f (10 ^ length frac) (10 ^ k)
      ∙ ap (λ p. n * p + f * 10 ^ k)
          (powers (length frac) k ∙ ap (λ m. 10 ^ m) (add-sub_of_le fits)) in
    let padded : AreDigits (pad_end d (take d frac)) =
      rw whole (All-append (λ c. is_digit c ≡ true) frac (zeros k) hf (zeros-AreDigits k)) in
    to_base_units_at neg int frac d hi hf padded ∙ rw (whole, value) refl
