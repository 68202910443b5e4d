-- ===== src/TrustProxy/Masks.antt =====
-- What the mask of a range compares (src/trust-proxy.js).
use x402_facilitator_stellar.Common.{
  ℕ, zero, suc, ◌+◌, ◌-◌, ◌*◌, ◌/◌, ◌%◌, ◌≤◌, ◌≡◌, refl, sym, ap, ◌∙◌, inl, inr, arith, eqb,
  Bool-cases,
}
use x402_facilitator_stellar.TrustProxy.Addresses.{shift_right, shift_left, bitwise_and, ones}
use x402_facilitator_stellar.TrustProxy.{same_network, mask_of}

shift_left_pos : (k : ℕ) → 1 ≤ shift_left k 1
unfolding shift_left
shift_left_pos zero = omega arith
shift_left_pos (suc k) = omega (arith, shift_left_pos k)

-- The bits of a number below the width are kept by ones of that width.
and-ones : (p a : ℕ) → shift_right p a ≡ 0 → bitwise_and p a (ones p) ≡ a
unfolding shift_right shift_left bitwise_and ones
and-ones zero a h = omega (arith, h)
and-ones (suc p) a h =
    let half : (2 * shift_left p 1 - 1) / 2 ≡ shift_left p 1 - 1 =
      omega (arith, shift_left_pos p) in
    let odd : (2 * shift_left p 1 - 1) % 2 ≡ 1 = omega (arith, shift_left_pos p) in
    rw (half, odd) (omega (arith, and-ones p (a / 2) h))

and-shift :
    (k p width a m : ℕ)
    → width ≡ k + p
    → bitwise_and width a (shift_left k m) ≡ shift_left k (bitwise_and p (shift_right k a) m)
unfolding shift_right shift_left bitwise_and
and-shift zero p width a m e =
    let same : width ≡ p = omega (arith, e) in ap (λ w. bitwise_and w a m) same
and-shift (suc k) p zero a m e = ground (arith, e)
and-shift (suc k) p (suc width) a m e =
    let half : (2 * shift_left k m) / 2 ≡ shift_left k m = omega arith in
    let even : (2 * shift_left k m) % 2 ≡ 0 = omega arith in
    rw (half, even) (omega (arith, and-shift k p width (a / 2) m (omega (arith, e))))

shift_right-add :
    (k p width a : ℕ) → width ≡ k + p → shift_right width a ≡ shift_right p (shift_right k a)
unfolding shift_right
shift_right-add zero p width a e =
    let same : width ≡ p = omega (arith, e) in ap (λ w. shift_right w a) same
shift_right-add (suc k) p zero a e = ground (arith, e)
shift_right-add (suc k) p (suc width) a e = shift_right-add k p width (a / 2) (omega (arith, e))

shift_left-injective : (k m n : ℕ) → shift_left k m ≡ shift_left k n → m ≡ n
unfolding shift_left
shift_left-injective zero m n e = e
shift_left-injective (suc k) m n e = shift_left-injective k m n (omega (arith, e))

eqb-shift_left : (k m n : ℕ) → eqb (shift_left k m) (shift_left k n) ≡ eqb m n
eqb-shift_left k m n = elim (Bool-cases (eqb m n)) [
  | inl same ↦ let equal : m ≡ n = ground (arith, same) in rw equal (ground arith)
  | inr other ↦ ground (arith, other, shift_left-injective k m n)
]

-- What the mask leaves of an address of that width: its leading bits, where they stand.
masked :
    (bits p a : ℕ)
    → suc p ≤ bits
    → shift_right bits a ≡ 0
    → bitwise_and bits a (mask_of bits (suc p))
      ≡ shift_left (bits - suc p) (shift_right (bits - suc p) a)
masked bits p a fits small =
    let k = bits - suc p in
    let split : bits ≡ k + suc p = omega (arith, fits) in
    and-shift k (suc p) bits a (ones (suc p)) split
    ∙ ap (shift_left k)
        (and-ones (suc p) (shift_right k a) (sym (shift_right-add k (suc p) bits a split) ∙ small))

and_zero : (width a : ℕ) → bitwise_and width a 0 ≡ 0
unfolding bitwise_and
and_zero zero a = refl
and_zero (suc width) a = omega (arith, and_zero width (a / 2))

-- Two addresses of a width are in the same network of a prefix, by the mask, exactly if they agree
-- once the bits behind the prefix are shifted away: the mask and its shifts lose no bit of either
-- kind of address, at the prefixes 0 and the whole width as well.
pub same_network_lem :
    (bits prefix a n : ℕ)
    → prefix ≤ bits
    → shift_right bits a ≡ 0
    → shift_right bits n ≡ 0
    → same_network bits prefix a n
      ≡ eqb (shift_right (bits - prefix) a) (shift_right (bits - prefix) n)
unfolding same_network
same_network_lem bits zero a n fits small_a small_n =
    let whole : bits - 0 ≡ bits = omega arith in
    rw (and_zero bits a, and_zero bits n, whole, small_a, small_n) refl
same_network_lem bits (suc p) a n fits small_a small_n =
    rw (masked bits p a fits small_a, masked bits p n fits small_n)
      (eqb-shift_left (bits - suc p) (shift_right (bits - suc p) a) (shift_right (bits - suc p) n))
