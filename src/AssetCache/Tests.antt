-- ===== src/AssetCache/Tests.antt =====
-- Amounts at concrete texts.
use x402_facilitator_stellar.Common.{
  suc, ◌+◌, ◌-◌, ◌*◌, ◌^◌, ◌≡◌, refl, true, false, some, [], ◌∷◌, ◌++◌, arith,
}
use x402_facilitator_stellar.AssetCache.{
  Text, dot, number_from, to_string, to_base_units, from_base_units, strip_zeros,
}
use x402_facilitator_stellar.AssetCache.Conversion.{sign, to_base_units_lem}
use x402_facilitator_stellar.AssetCache.Printing.{base_units_return, from_base_units_lost}

-- The texts "12" and "05".
abbrev twelve : Text
twelve = b'1' ∷ b'2' ∷ []

abbrev five_hundredths : Text
five_hundredths = b'0' ∷ b'5' ∷ []

to_base_units_lem_example :
    to_base_units (sign true ++ (twelve ++ (dot ∷ five_hundredths))) 7
    ≡ some (
        sign true
        ++ to_string (number_from 0 twelve * 10 ^ 7 + number_from 0 five_hundredths * 10 ^ (7 - 2)))
to_base_units_lem_example =
    to_base_units_lem true twelve five_hundredths 7 (refl, (refl, tt)) (refl, (refl, tt))
      (omega arith)

base_units_return_example :
    to_base_units (from_base_units (sign true ++ to_string 1250) (suc 1)) (suc 1)
    ≡ some (sign true ++ to_string 1250)
base_units_return_example = base_units_return true 1250 1 (omega arith)

from_base_units_lost_example :
    from_base_units (sign false ++ to_string 99) (suc 1) ≡ sign false ++ (b'0' ∷ dot ∷ b'0' ∷ [])
from_base_units_lost_example = from_base_units_lost false 99 1 (omega arith)

-- 12.50 is printed without its last zero.
printed : from_base_units (b'1' ∷ b'2' ∷ b'5' ∷ b'0' ∷ []) 2 ≡ b'1' ∷ b'2' ∷ dot ∷ b'5' ∷ []
unfolding from_base_units strip_zeros
printed = refl

-- Without decimals the whole part is lost.
printed_whole : from_base_units (b'5' ∷ []) 0 ≡ dot ∷ b'5' ∷ []
unfolding from_base_units strip_zeros
printed_whole = refl
