-- ===== src/AssetCache.antt =====
-- Amounts and decimals of assets (src/asset-cache.js).
pub mod Numbers
pub mod Conversion
pub mod Printing
pub mod Tests
use x402_facilitator_stellar.Common.{
  str_append, str_ne, ℕ, zero, suc, ◌+◌, ◌-◌, ◌*◌, ◌/◌, ◌%◌, ◌^◌, ◌≤◌, ◌<◌, min, max, String, ◌≡◌,
  refl, sym, ap, ◌∙◌, ◌≢◌, ◌↔◌, ◌⊎◌, inl, inr, Bool, true, false, ◌&&◌, ◌||◌, not, Option, none,
  some, List, [], ◌∷◌, ◌++◌, map, arith, str_eq, eq_iff, eq_refl, ltb, leb, eqb, ltb→lt, lt→ltb,
  leb→le, le→leb, if◌then◌else◌, Bool-cases, Option-cases, get_or, or_else, is_some, length, take,
  drop, select, any, all, find, All, length-append, length-select-le, All-append, All-select,
  select-select, All-take, select-holds, nth, All-map, All-weaken, All-nth, any-append, any-map,
  any-select, any-weaken, any-map-with, take_all, length-take-le, length-select-not, Result, ok,
  err, ◌>>=◌, ◌>>◌, throw_if, >>=-eq-ok, Result-cases,
}

-- A JavaScript string: its code units.
abbrev pub Text : Type 0
Text = List ℕ

abbrev pub dot : ℕ
dot = b'.'

abbrev pub minus : ℕ
minus = b'-'

abbrev pub is_digit : ℕ → Bool
is_digit c = leb b'0' c && leb c b'9'

-- The number that decimal digits spell, behind those that stand for `acc`.
pub number_from : (acc : ℕ) → Text → ℕ
number_from acc [] = acc
number_from acc (c ∷ s) = number_from (acc * 10 + (c - b'0')) s

-- `BigInt(s)`, for texts of decimal digits; any other is taken for one that throws.
unfoldable pub big_int : Text → Option ℕ
big_int s = if all is_digit s then some (number_from 0 s) else none

-- The digits of a number, the last `fuel` of them at most, in front of a text.
pub digits : (fuel : ℕ) → ℕ → Text → Text
digits zero n s = s
digits (suc fuel) n s =
    let rest = digits fuel (n / 10) ((b'0' + n % 10) ∷ s) in
    if ltb n 10 then (b'0' + n) ∷ s else rest

-- `n.toString()`: a number has no more digits than itself plus one.
unfoldable pub to_string : ℕ → Text
to_string n = digits (n + 1) n []

abbrev pub zeros : ℕ → Text
zeros zero = []
zeros (suc n) = b'0' ∷ zeros n

-- `s.padStart(n, '0')` and `s.padEnd(n, '0')`.
abbrev pub pad_start : ℕ → Text → Text
pad_start n s = zeros (n - length s) ++ s

abbrev pub pad_end : ℕ → Text → Text
pad_end n s = s ++ zeros (n - length s)

-- `s.slice(0, -n)` and `s.slice(-n)`: -0 is 0.
abbrev pub slice_to : ℕ → Text → Text
slice_to zero s = []
slice_to (suc n) s = take (length s - suc n) s

abbrev pub slice_last : ℕ → Text → Text
slice_last zero s = s
slice_last (suc n) s = drop (length s - suc n) s

-- `s.replace(/0+$/, '')`.
abbrev pub strip_one : ℕ → Text → Text
strip_one c [] = if eqb c b'0' then [] else c ∷ []
strip_one c (d ∷ s) = c ∷ d ∷ s

pub strip_zeros : Text → Text
strip_zeros [] = []
strip_zeros (c ∷ s) = strip_one c (strip_zeros s)

-- `s || '0'`.
abbrev pub or_zero : Text → Text
or_zero [] = b'0' ∷ []
or_zero (c ∷ s) = c ∷ s

-- `s.startsWith('-') ? '-' : ''`.
abbrev pub sign_of : Text → Text
sign_of [] = []
sign_of (c ∷ s) = if eqb c minus then minus ∷ [] else []

-- `s.replace(/^-/, '')` and `s.replace(/^[+-]/, '')`.
abbrev pub without_minus : Text → Text
without_minus [] = []
without_minus (c ∷ s) = if eqb c minus then s else c ∷ s

abbrev pub without_sign : Text → Text
without_sign [] = []
without_sign (c ∷ s) = if eqb c minus || eqb c b'+' then s else c ∷ s

-- The first piece of `s.split('.')`, and the text after the first dot.
pub before_dot : Text → Text
before_dot [] = []
before_dot (c ∷ s) = let rest = before_dot s in if eqb c dot then [] else c ∷ rest

pub after_dot : Text → Text
after_dot [] = []
after_dot (c ∷ s) = let rest = after_dot s in if eqb c dot then s else rest

-- The second piece, '' where there is none.
abbrev pub frac_part : Text → Text
frac_part s = before_dot (after_dot s)

-- `toBaseUnits` of a text; none where it throws.
unfoldable pub to_base_units : Text → (decimals : ℕ) → Option Text
to_base_units amount decimals =
    let int_part = before_dot amount in
    let padded = pad_end decimals (take decimals (frac_part amount)) in
    elim (big_int (without_sign int_part ++ padded)) [
      | none ↦ none
      | some n ↦ some (sign_of int_part ++ to_string n)
    ]

-- `fromBaseUnits`, from the text that `toString` makes of the units.
unfoldable pub from_base_units : Text → (decimals : ℕ) → Text
from_base_units str decimals =
    let clean = without_minus str in
    if leb (length clean) decimals
    then sign_of str ++ (b'0' ∷ dot ∷ slice_to decimals (pad_start (decimals + 1) clean))
    else sign_of str
      ++ (slice_to decimals clean ++ (dot ∷ or_zero (strip_zeros (slice_last decimals clean))))

-- `validateAmountPrecision` of a text: whether it has no more places than the asset.
unfoldable pub is_precise : Text → (decimals : ℕ) → Bool
is_precise amount decimals = leb (length (frac_part amount)) decimals
