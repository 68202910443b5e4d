-- ===== src/Common/Text.antt =====
-- `String.prototype.trim`, over the characters of a text.
use Prim.Native.Nat.{ℕ, zero, suc, ◌+◌, ◌-◌, ◌/◌, ◌%◌}
use Prim.Native.Char.{Char, code}
use native.Mathlib.Omega.{arith}
use Prim.Native.String.{String, [], ◌∷◌}
use mathlib.Core.Path.{◌≡◌, refl}
use mathlib.Core.Bool.{Bool, true, false, ◌&&◌, ◌||◌}
use x402_facilitator_stellar.Common.Tests.{ltb, leb, eqb, if◌then◌else◌}

-- WhiteSpace and LineTerminator of ECMAScript.
pub is_space : Char → Bool
is_space c =
    let n = code c in
    (leb 9 n && leb n 13)
    || eqb n 32
    || eqb n 0xa0
    || eqb n 0x1680
    || (leb 0x2000 n && leb n 0x200a)
    || eqb n 0x2028
    || eqb n 0x2029
    || eqb n 0x202f
    || eqb n 0x205f
    || eqb n 0x3000
    || eqb n 0xfeff

abbrev pub is_empty : String → Bool
is_empty [] = true
is_empty (c ∷ s) = false

pub trim_start : String → String
trim_start [] = []
trim_start (c ∷ s) = if is_space c then trim_start s else c ∷ s

pub trim_end : String → String
trim_end [] = []
trim_end (c ∷ s) = let rest = trim_end s in if is_space c && is_empty rest then [] else c ∷ rest

unfoldable pub trim : String → String
unfolding trim_start trim_end is_space
trim s = trim_end (trim_start s)

trim-trims : trim "  a b\n" ≡ "a b"
unfolding trim
trim-trims = refl

-- The code of a letter of ASCII in upper case, and of any other character as it is.
pub upper_code : ℕ → ℕ
upper_code n = if leb b'a' n && leb n b'z' then n - 32 else n

-- `a.toUpperCase() === b.toUpperCase()`, for texts of ASCII.
unfoldable pub same_upper : String → String → Bool
unfolding upper_code
same_upper [] [] = true
same_upper (c ∷ s) (d ∷ t) = eqb (upper_code (code c)) (upper_code (code d)) && same_upper s t
same_upper _ _ = false

pub same_upper_self : (s : String) → same_upper s s ≡ true
unfolding same_upper
same_upper_self [] = refl
same_upper_self (c ∷ s) = ground (arith, same_upper_self s)

-- The character of a text at a place, or another one past its end.
pub nth_or : ℕ → String → Char → Char
nth_or n [] d = d
nth_or zero (c ∷ s) d = c
nth_or (suc n) (c ∷ s) d = nth_or n s d

pub upper_char : Char → Char
upper_char c =
    let n = code c in
    if leb b'a' n && leb n b'z' then nth_or (n - b'a') "ABCDEFGHIJKLMNOPQRSTUVWXYZ" c else c

-- `toUpperCase`, for texts of ASCII.
unfoldable pub upper : String → String
upper [] = []
upper (c ∷ s) = upper_char c ∷ upper s

upper-uppers : upper "key-1z" ≡ "KEY-1Z"
unfolding upper upper_char nth_or
upper-uppers = refl

pub digit : ℕ → Char
digit n = nth_or n "0123456789" "0"

-- The decimal digits of a number, the last `fuel` of them at most, in front of a text. A number
-- has no more digits than itself plus one.
pub digits : (fuel : ℕ) → ℕ → String → String
digits zero n s = s
digits (suc fuel) n s =
    let rest = digits fuel (n / 10) (digit (n % 10) ∷ s) in if ltb n 10 then digit n ∷ s else rest

-- A whole number in a template literal.
unfoldable pub show : ℕ → String
unfolding digits
show n = digits (n + 1) n ""

show-shows : show 1750 ≡ "1750"
unfolding show digit nth_or
show-shows = refl

-- `s.slice(0, n)`, where each character counts one.
pub slice_to : ℕ → String → String
slice_to n [] = []
slice_to zero (c ∷ s) = []
slice_to (suc n) (c ∷ s) = c ∷ slice_to n s
