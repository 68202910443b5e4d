-- ===== src/TrustProxy/Addresses.antt =====
-- Addresses as numbers (src/trust-proxy.js). Texts are read as `net.isIP` has let them through.
use x402_facilitator_stellar.Common.{
  zero, suc, ◌+◌, ◌-◌, ◌*◌, ◌/◌, ◌%◌, ◌≡◌, refl, Bool, true, false, ◌&&◌, ◌||◌, not, Option, none,
  some, List, ltb, leb, eqb, str_eq, if◌then◌else◌, length, ℕ, str_append,
}
use mathlib.Core.List.{[] as nil, ◌∷◌ as cons, ◌++◌}
use Prim.Native.Char.{Char, code}
use Prim.Native.String.{String, [], ◌∷◌}
use x402_facilitator_stellar.Common.Text.{trim}

pub data Kind : Type 0 where
  v4 v6 : Kind

-- The kind of an address and its number, of 32 or 128 bits.
abbrev pub Address : Type 0
Address = Kind × ℕ

abbrev same_char : Char → Char → Bool
same_char c d = eqb (code c) (code d)

abbrev pieces : String → List String
pieces s = cons s nil

abbrev on_first : Char → List String → List String
on_first c nil = pieces (c ∷ [])
on_first c (cons s ss) = cons (c ∷ s) ss

-- `s.split(c)`.
pub split_on : Char → String → List String
split_on c [] = pieces []
split_on c (d ∷ s) =
    let rest = split_on c s in if same_char c d then cons [] rest else on_first d rest

-- The text before the last `c` and the text after it, if there is one.
pub split_last : Char → String → Option (String × String)
split_last c [] = none
split_last c (d ∷ s) = elim (split_last c s) [
  | some (before, after) ↦ some (d ∷ before, after)
  | none ↦ if same_char c d then some ([], s) else none
]

abbrev held : Bool → List String → List String
held true pieces = on_first ":" pieces
held false pieces = pieces

-- `s.split('::')`; `pending` says that a single colon has been read before.
split_double : (pending : Bool) → String → List String
split_double pending [] = held pending (pieces [])
split_double pending (c ∷ s) =
    let colon = same_char c ":" in
    let rest = split_double (colon && not pending) s in
    if colon then (if pending then cons [] rest else rest) else held pending (on_first c rest)

-- The value of a digit, of base 16 at most.
digit_of : Char → ℕ
digit_of c =
    let n = code c in
    if leb n b'9' then n - b'0' else if leb b'a' n then n - b'a' + 10 else n - b'A' + 10

-- The number that digits of a base spell, behind those that stand for `acc`.
pub read : (base acc : ℕ) → String → ℕ
read base acc [] = acc
read base acc (c ∷ s) = read base (acc * base + digit_of c) s

is_digit : Char → Bool
is_digit c = leb b'0' (code c) && leb (code c) b'9'

pub all_digits : String → Bool
all_digits [] = true
all_digits (c ∷ s) = is_digit c && all_digits s

-- `Number(s)`, for texts that are empty or decimal digits; any other is taken for none.
pub number : String → Option ℕ
number s = if all_digits s then some (read 10 0 s) else none

-- `(acc << 8n) | BigInt(octet)`: the octet is below 256.
ipv4_from : ℕ → List String → ℕ
ipv4_from acc nil = acc
ipv4_from acc (cons octet rest) = ipv4_from (acc * 256 + read 10 0 octet) rest

pub ipv4_to_big_int : String → ℕ
ipv4_to_big_int ip = ipv4_from 0 (split_on "." ip)

-- `(value << 16n) | BigInt(parseInt(group, 16))`: the group is below 65536.
groups_from : ℕ → List String → ℕ
groups_from acc nil = acc
groups_from acc (cons group rest) = groups_from (acc * 65536 + read 16 0 group) rest

abbrev groups_of : String → List String
groups_of side = if str_eq side "" then nil else split_on ":" side

pub zeros : ℕ → List String
zeros zero = nil
zeros (suc n) = cons "0" (zeros n)

contains_dot : String → Bool
contains_dot [] = false
contains_dot (c ∷ s) = same_char c "." || contains_dot s

-- The sides of `::`: three of them make no address, one must be the eight groups.
expanded : List String → Option (List String)
expanded (cons left nil) = if eqb (length (groups_of left)) 8 then some (groups_of left) else none
expanded (cons left (cons right nil)) =
    let given = length (groups_of left) + length (groups_of right) in
    if ltb 8 given then none else some (groups_of left ++ zeros (8 - given) ++ groups_of right)
expanded _ = none

abbrev with_tail : ℕ → Option (List String) → Option ℕ
with_tail tail none = none
with_tail tail (some groups) = some (groups_from 0 groups + tail)

-- An IPv4 tail stands for the last two groups, whose place is kept by zeros, so that `|` adds it.
pub ipv6_to_big_int : String → Option ℕ
ipv6_to_big_int ip = elim (split_last ":" ip) [
  | none ↦ with_tail 0 (expanded (split_double false ip))
  | some (before, after) ↦
      if contains_dot after
      then with_tail (ipv4_to_big_int after)
          (expanded (split_double false (str_append before ":0:0")))
      else with_tail 0 (expanded (split_double false ip))
]

unfoldable pub parse_ip : (is_ip : String → ℕ) → String → Option Address
parse_ip is_ip ip =
    let trimmed = trim ip in
    if eqb (is_ip trimmed) 4
    then some (v4, ipv4_to_big_int trimmed)
    else if eqb (is_ip trimmed) 6
    then elim (ipv6_to_big_int trimmed) [ none ↦ none | some value ↦ some (v6, value) ]
    else none

-- `n >> k` and `n << k`.
unfoldable pub shift_right : ℕ → ℕ → ℕ
shift_right zero n = n
shift_right (suc k) n = shift_right k (n / 2)

unfoldable pub shift_left : ℕ → ℕ → ℕ
shift_left zero n = n
shift_left (suc k) n = 2 * shift_left k n

-- `(1n << k) - 1n`.
unfoldable pub ones : ℕ → ℕ
unfolding shift_left
ones k = shift_left k 1 - 1

-- `a & b`, in the lowest `width` bits.
unfoldable pub bitwise_and : (width : ℕ) → ℕ → ℕ → ℕ
bitwise_and zero a b = 0
bitwise_and (suc w) a b = (a % 2) * (b % 2) + 2 * bitwise_and w (a / 2) (b / 2)

unfoldable pub is_mapped : ℕ → Bool
unfolding shift_right
is_mapped value = eqb (shift_right 32 value) 0xffff

-- `value & 0xffffffffn`.
abbrev pub low_32 : ℕ → ℕ
low_32 value = value % 4294967296

reads_v4 : ipv4_to_big_int "10.1.2.3" ≡ 167838211
unfolding ipv4_to_big_int ipv4_from read digit_of split_on
reads_v4 = refl

reads_v6 : ipv6_to_big_int "::ffff:10.1.2.3" ≡ some 281470849581571
unfolding ipv6_to_big_int expanded split_double groups_from read digit_of split_on split_last
    ipv4_to_big_int ipv4_from contains_dot zeros
reads_v6 = refl
