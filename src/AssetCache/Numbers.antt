-- ===== src/AssetCache/Numbers.antt =====
-- The numbers that texts of digits spell (src/asset-cache.js).
use x402_facilitator_stellar.Common.{
  ℕ, zero, suc, ◌+◌, ◌-◌, ◌*◌, ◌/◌, ◌%◌, ◌^◌, ◌≤◌, ◌<◌, ◌≡◌, refl, ap, ◌∙◌, inl, inr, true, [], ◌∷◌,
  ◌++◌, arith, ltb, Bool-cases, length, All,
}
use native.Mathlib.Nat.{add-mul, mul_assoc, mul_comm, pow-suc, zero-mul, mul-le-mul_right}
use x402_facilitator_stellar.AssetCache.{Text, is_digit, number_from, digits, to_string, zeros}

abbrev pub AreDigits : Text → Type 0
AreDigits s = All (λ c. is_digit c ≡ true) s

pub number-append : (n : ℕ) (s t : Text) → number_from n (s ++ t) ≡ number_from (number_from n s) t
unfolding number_from
number-append n [] t = refl
number-append n (c ∷ s) t = number-append (n * 10 + (c - b'0')) s t

shifted : (n x p : ℕ) → (n * 10 + x) * p ≡ n * (p * 10) + x * p
shifted n x p = rw (add-mul (n * 10) x p, mul_assoc n 10 p, mul_comm 10 p) refl

acc_step :
    (n x p a b r : ℕ) → a ≡ (n * 10 + x) * p + r → b ≡ (0 * 10 + x) * p + r → a ≡ n * (p * 10) + b
acc_step n x p a b r h k = h ∙ rw (k, shifted n x p, shifted 0 x p, zero-mul (p * 10)) (omega arith)

pub number-acc : (n : ℕ) (s : Text) → number_from n s ≡ n * 10 ^ length s + number_from 0 s
unfolding number_from
number-acc n [] = omega arith
number-acc n (c ∷ s) = rw (pow-suc 10 (length s)) (
    acc_step n (c - b'0') (10 ^ length s) _ _ (number_from 0 s) (number-acc (n * 10 + (c - b'0')) s)
      (number-acc (0 * 10 + (c - b'0')) s))

pub number-zeros : (n k : ℕ) → number_from n (zeros k) ≡ n * 10 ^ k
unfolding number_from
number-zeros n zero = omega arith
number-zeros n (suc k) =
    number-zeros (n * 10 + 0) k
    ∙ rw (pow-suc 10 k, shifted n 0 (10 ^ k), zero-mul (10 ^ k)) (omega arith)

pub length-zeros : (k : ℕ) → length (zeros k) ≡ k
length-zeros zero = refl
length-zeros (suc k) = ap (λ n. suc n) (length-zeros k)

pub zeros-AreDigits : (k : ℕ) → AreDigits (zeros k)
zeros-AreDigits zero = tt
zeros-AreDigits (suc k) = (refl, zeros-AreDigits k)

below_step : (x p r b : ℕ) → x ≤ 9 → b ≡ (0 * 10 + x) * p + r → r < p → b < p * 10
below_step x p r b small e less =
    let most : x * p ≤ 9 * p = mul-le-mul_right p small in
    let value : (0 * 10 + x) * p ≡ x * p = rw (shifted 0 x p, zero-mul (p * 10)) (omega arith) in
    omega (arith, most, value, e, less)

pub number_below : (s : Text) → AreDigits s → number_from 0 s < 10 ^ length s
unfolding number_from
number_below [] h = omega arith
number_below (c ∷ s) (d, h) = rw (pow-suc 10 (length s)) (
    below_step (c - b'0') (10 ^ length s) (number_from 0 s) _ (ground (arith, d))
      (number-acc (0 * 10 + (c - b'0')) s) (number_below s h))

number-digits :
    (fuel n : ℕ) (s : Text) → n < fuel → number_from 0 (digits fuel n s) ≡ number_from n s
unfolding number_from digits
number-digits zero n s h = ground arith
number-digits (suc fuel) n s h = elim (Bool-cases (ltb n 10)) [
  | inl small ↦ rw small (ap (λ m. number_from m s) (omega arith))
  | inr large ↦ rw large (
      number-digits fuel (n / 10) ((b'0' + n % 10) ∷ s) (ground (arith, large, h))
      ∙ ap (λ m. number_from m s) (omega arith))
]

pub number-to_string : (n : ℕ) → number_from 0 (to_string n) ≡ n
unfolding to_string number_from
number-to_string n = number-digits (n + 1) n [] (omega arith)

digits-AreDigits : (fuel n : ℕ) (s : Text) → AreDigits s → AreDigits (digits fuel n s)
unfolding digits
digits-AreDigits zero n s h = h
digits-AreDigits (suc fuel) n s h = elim (Bool-cases (ltb n 10)) [
  | inl small ↦ rw small (ground (arith, small), h)
  | inr large ↦ rw large (digits-AreDigits fuel (n / 10) ((b'0' + n % 10) ∷ s) (ground arith, h))
]

pub to_string-AreDigits : (n : ℕ) → AreDigits (to_string n)
unfolding to_string
to_string-AreDigits n = digits-AreDigits (n + 1) n [] tt

length-digits :
    (fuel n d : ℕ) (s : Text)
    → n < fuel
    → n < 10 ^ suc d
    → length (digits fuel n s) ≤ suc d + length s
unfolding digits
length-digits zero n d s h k = ground arith
length-digits (suc fuel) n zero s h k = ground (arith, k)
length-digits (suc fuel) n (suc d) s h k = elim (Bool-cases (ltb n 10)) [
  | inl small ↦ rw small (omega arith)
  | inr large ↦ rw large (
      let less : n / 10 < 10 ^ suc d = omega (arith, k, pow-suc 10 (suc d)) in
      let rest =
        length-digits fuel (n / 10) d ((b'0' + n % 10) ∷ s) (ground (arith, large, h)) less in
      omega (arith, rest))
]

pub length-to_string : (n d : ℕ) → n < 10 ^ suc d → length (to_string n) ≤ suc d
unfolding to_string
length-to_string n d h = omega (arith, length-digits (n + 1) n d [] (omega arith) h)
