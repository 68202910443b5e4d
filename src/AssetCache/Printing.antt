-- ===== src/AssetCache/Printing.antt =====
-- Units to amounts (src/asset-cache.js).
use x402_facilitator_stellar.Common.{
  ℕ, zero, suc, ◌+◌, ◌-◌, ◌^◌, ◌≤◌, ◌<◌, ◌≡◌, refl, sym, ap, ◌∙◌, inl, inr, Bool, true, false, some,
  [], ◌∷◌, ◌++◌, arith, ltb, leb, eqb, ltb→lt, Bool-cases, length, take, drop, length-append,
  All-take, take_all,
}
use x402_facilitator_stellar.AssetCache.{
  Text, dot, is_digit, to_string, zeros, pad_start, pad_end, strip_one, strip_zeros, or_zero,
  to_base_units, from_base_units,
}
use x402_facilitator_stellar.AssetCache.Numbers.{
  AreDigits, length-zeros, number_below, number-to_string, to_string-AreDigits, length-to_string,
}
use x402_facilitator_stellar.AssetCache.Conversion.{
  sign, sign_of_lem, without_minus_lem, to_base_units_at,
}
use native.Mathlib.Nat.{pow-le-pow_right}

-- The zeros that were taken off are put back.
pad_one :
    (c : ℕ) (s r : Text)
    → r ++ zeros (length s - length r) ≡ s
    → length r ≤ length s
    → strip_one c r ++ zeros (suc (length s) - length (strip_one c r)) ≡ c ∷ s
pad_one c s [] h fits =
    let n = length s in
    elim (Bool-cases (eqb c b'0')) [
      | inl same ↦
          let char : b'0' ≡ c = ground (arith, same) in
          rw same (
            ap zeros (let less : suc n - 0 ≡ suc (n - 0) = omega arith in less)
            ∙ ap (λ r. b'0' ∷ r) h
            ∙ ap (λ d. d ∷ s) char)
      | inr other ↦
          rw other
            (ap (λ r. c ∷ r) (ap zeros (let less : suc n - 1 ≡ n - 0 = omega arith in less) ∙ h))
    ]
pad_one c s (d ∷ r) h fits =
    let less : suc (length s) - suc (suc (length r)) ≡ length s - suc (length r) = omega arith in
    ap (λ t. c ∷ t) (ap (λ k. (d ∷ r) ++ zeros k) less ∙ h)

length-strip_one : (c : ℕ) (r : Text) → length (strip_one c r) ≤ suc (length r)
length-strip_one c [] = ground arith
length-strip_one c (d ∷ r) = omega arith

length-strip_zeros : (s : Text) → length (strip_zeros s) ≤ length s
unfolding strip_zeros
length-strip_zeros [] = omega arith
length-strip_zeros (c ∷ s) = omega (arith, length-strip_one c (strip_zeros s), length-strip_zeros s)

pad-strip_zeros : (s : Text) → pad_end (length s) (strip_zeros s) ≡ s
unfolding strip_zeros
pad-strip_zeros [] = refl
pad-strip_zeros (c ∷ s) = pad_one c s (strip_zeros s) (pad-strip_zeros s) (length-strip_zeros s)

strip_one-AreDigits :
    (c : ℕ) (r : Text) → is_digit c ≡ true → AreDigits r → AreDigits (strip_one c r)
strip_one-AreDigits c [] d h = ground (arith, d)
strip_one-AreDigits c (e ∷ r) d h = (d, h)

strip_zeros-AreDigits : (s : Text) → AreDigits s → AreDigits (strip_zeros s)
unfolding strip_zeros
strip_zeros-AreDigits [] h = tt
strip_zeros-AreDigits (c ∷ s) (d, h) =
    strip_one-AreDigits c (strip_zeros s) d (strip_zeros-AreDigits s h)

pad-or_zero : (n : ℕ) (r : Text) → pad_end (suc n) (or_zero r) ≡ pad_end (suc n) r
pad-or_zero n [] =
    let one : suc n - 1 ≡ n = omega arith in
    let all_of : suc n ≡ suc n - 0 = omega arith in ap (λ k. b'0' ∷ zeros k) one ∙ ap zeros all_of
pad-or_zero n (c ∷ r) = refl

length-or_zero : (n : ℕ) (r : Text) → length r ≤ suc n → length (or_zero r) ≤ suc n
length-or_zero n [] h = omega arith
length-or_zero n (c ∷ r) h = h

or_zero-AreDigits : (r : Text) → AreDigits r → AreDigits (or_zero r)
or_zero-AreDigits [] h = (refl, tt)
or_zero-AreDigits (c ∷ r) h = h

take-drop : (n : ℕ) (s : Text) → take n s ++ drop n s ≡ s
take-drop zero s = refl
take-drop (suc n) [] = refl
take-drop (suc n) (c ∷ s) = ap (λ r. c ∷ r) (take-drop n s)

length-drop : (n : ℕ) (s : Text) → length (drop n s) ≡ length s - n
length-drop zero s = omega arith
length-drop (suc n) [] = omega arith
length-drop (suc n) (c ∷ s) = omega (arith, length-drop n s)

drop-AreDigits : (n : ℕ) (s : Text) → AreDigits s → AreDigits (drop n s)
drop-AreDigits zero s h = h
drop-AreDigits (suc n) [] h = tt
drop-AreDigits (suc n) (c ∷ s) (d, h) = drop-AreDigits n s h

take_one : (k : ℕ) (s : Text) → 1 ≤ k → take 1 (zeros k ++ s) ≡ b'0' ∷ []
take_one zero s h = ground (arith, h)
take_one (suc k) s h = refl

long_enough : (n d : ℕ) → 10 ^ suc d ≤ n → suc d < length (to_string n)
long_enough n d large =
    let c = to_string n in
    let below = number_below c (to_string-AreDigits n) in
    elim (Bool-cases (ltb (suc d) (length c))) [
      | inl long ↦ ltb→lt (suc d) (length c) long
      | inr short ↦
          let fits : length c ≤ suc d = ground (arith, short) in
          let grows : 10 ^ length c ≤ 10 ^ suc d = pow-le-pow_right (omega arith) fits in
          omega (arith, large, below, grows, number-to_string n)
    ]

-- What `fromBaseUnits` prints where the units have more digits than the asset has decimals.
long_text :
    (neg : Bool) (n d : ℕ)
    → suc d < length (to_string n)
    → let c = to_string n in
      from_base_units (sign neg ++ c) (suc d)
      ≡ sign neg
        ++ (take (length c - suc d) c ++ (dot ∷ or_zero (strip_zeros (drop (length c - suc d) c))))
unfolding from_base_units
long_text neg n d h =
    let c = to_string n in
    let digits = to_string-AreDigits n in
    let long : leb (length c) (suc d) ≡ false = ground (arith, h) in
    rw (without_minus_lem neg c digits, sign_of_lem neg c digits, long) refl

-- Of an asset with at least one decimal, units that have more digits than it has decimals come back
-- as they were: what `fromBaseUnits` prints of them, `toBaseUnits` reads as the same number with
-- the same sign.
pub base_units_return :
    (neg : Bool) (n d : ℕ)
    → 10 ^ suc d ≤ n
    → to_base_units (from_base_units (sign neg ++ to_string n) (suc d)) (suc d)
      ≡ some (sign neg ++ to_string n)
base_units_return neg n d large =
    let c = to_string n in
    let digits = to_string-AreDigits n in
    let value = number-to_string n in
    let long : suc d < length c = long_enough n d large in
    let k = length c - suc d in
    let int = take k c in
    let last = drop k c in
    let places : length last ≡ suc d = omega (arith, length-drop k c, long) in
    let shown = strip_zeros last in
    let frac = or_zero shown in
    let last_digits = drop-AreDigits k c digits in
    let fits : length shown ≤ suc d = omega (arith, length-strip_zeros last, places) in
    let whole : take (suc d) frac ≡ frac = take_all (suc d) frac (length-or_zero d shown fits) in
    let padded : pad_end (suc d) (take (suc d) frac) ≡ last =
      rw whole
        (pad-or_zero d shown ∙ ap (λ m. pad_end m shown) (sym places) ∙ pad-strip_zeros last) in
    let read =
      to_base_units_at neg int frac (suc d) (All-take (λ x. is_digit x ≡ true) k c digits)
        (or_zero-AreDigits shown (strip_zeros-AreDigits last last_digits))
        (rw padded last_digits) in
    rw (long_text neg n d long) (read ∙ rw (padded, take-drop k c, value) refl)

-- Of an asset with at least one decimal, units that have no more digits than it has decimals are all printed as zero, so that what
-- is read back is zero whatever the units were.
pub from_base_units_lost :
    (neg : Bool) (n d : ℕ)
    → n < 10 ^ suc d
    → from_base_units (sign neg ++ to_string n) (suc d) ≡ sign neg ++ (b'0' ∷ dot ∷ b'0' ∷ [])
unfolding from_base_units
from_base_units_lost neg n d small =
    let c = to_string n in
    let digits = to_string-AreDigits n in
    let short : leb (length c) (suc d) ≡ true = ground (arith, length-to_string n d small) in
    let padding = suc d + 1 - length c in
    let total : length (pad_start (suc d + 1) c) - suc d ≡ 1 =
      omega (
        arith,
        length-append (zeros padding) c,
        length-zeros padding,
        length-to_string n d small,
      ) in
    let first : take 1 (pad_start (suc d + 1) c) ≡ b'0' ∷ [] =
      take_one padding c (omega (arith, length-to_string n d small)) in
    rw (without_minus_lem neg c digits, sign_of_lem neg c digits, short, total, first) refl
