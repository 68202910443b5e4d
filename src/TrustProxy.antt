-- ===== src/TrustProxy.antt =====
-- The client's address behind proxies (src/trust-proxy.js). `net.isIP` of Node is a parameter.
pub mod Addresses
pub mod Masks
pub mod Spoofing
pub mod Tests
use x402_facilitator_stellar.Common.{
  str_append, str_ne, ℕ, zero, suc, ◌+◌, ◌-◌, ◌*◌, ◌/◌, ◌%◌, ◌^◌, ◌≤◌, ◌<◌, min, max, String, ◌≡◌,
  refl, sym, ap, ◌∙◌, ◌≢◌, ◌↔◌, ◌⊎◌, inl, inr, Bool, true, false, ◌&&◌, ◌||◌, not, Option, none,
  some, List, [], ◌∷◌, ◌++◌, map, arith, str_eq, eq_iff, eq_refl, ltb, leb, eqb, ltb→lt, lt→ltb,
  leb→le, le→leb, if◌then◌else◌, Bool-cases, Option-cases, get_or, or_else, is_some, length, take,
  drop, select, any, all, find, All, length-append, length-select-le, All-append, All-select,
  select-select, All-take, select-holds, nth, All-map, All-weaken, All-nth, any-append, any-map,
  any-select, any-weaken, any-map-with, take_all, length-take-le, length-select-not, Result, ok,
  err, ◌>>=◌, ◌>>◌, throw_if, >>=-eq-ok, Result-cases,
}
use mathlib.Core.List.{reverse}
use x402_facilitator_stellar.Common.Text.{trim}
use x402_facilitator_stellar.TrustProxy.Addresses.{
  all_digits, split_on, split_last, parse_ip, Address, Kind, v4, v6, is_mapped, low_32, number,
  shift_right, shift_left, bitwise_and, ones,
}

abbrev pub bits_of : Kind → ℕ
bits_of v4 = 32
bits_of v6 = 128

-- `(1n << prefix) - 1n) << (bits - prefix)`, and 0 for the prefix 0.
abbrev pub mask_of : (bits prefix : ℕ) → ℕ
mask_of bits zero = 0
mask_of bits (suc p) = shift_left (bits - suc p) (ones (suc p))

-- `(addr & mask) === (net & mask)`.
unfoldable pub same_network : (bits prefix addr net : ℕ) → Bool
same_network bits prefix addr net =
    eqb (bitwise_and bits addr (mask_of bits prefix)) (bitwise_and bits net (mask_of bits prefix))

-- The two addresses in one space, where they have one.
unfoldable pub aligned : (addr net : Address) → Option (Address × Address)
aligned (v4, a) (v4, n) = some ((v4, a), (v4, n))
aligned (v6, a) (v6, n) = some ((v6, a), (v6, n))
aligned (v6, a) (v4, n) = if is_mapped a then some ((v4, low_32 a), (v4, n)) else none
aligned (v4, a) (v6, n) = if is_mapped n then some ((v4, a), (v4, low_32 n)) else none

-- A prefix: none for a bare address, and one that is not a number within the address.
pub data Prefix : Type 0 where
  bare invalid : Prefix
  length_of : ℕ → Prefix

unfoldable pub in_network : Address → Address → Prefix → Bool
in_network addr net prefix = elim (aligned addr net) [
  | none ↦ false
  | some (a, n) ↦ elim prefix [
    | bare ↦ eqb a.1 n.1
    | invalid ↦ false
    | length_of p ↦ leb p (bits_of n.0) && same_network (bits_of n.0) p a.1 n.1
  ]
]

abbrev pub prefix_of : Option ℕ → Prefix
prefix_of none = invalid
prefix_of (some p) = length_of p

module _ (is_ip : String → ℕ) where
  unfoldable pub ip_matches_cidr : (ip cidr : String) → Bool
  ip_matches_cidr ip cidr =
      let parts : String × Prefix = elim (split_last "/" cidr) [
        | none ↦ (cidr, bare)
        | some (before, after) ↦ (before, prefix_of (number after))
      ] in
      elim (parse_ip is_ip parts.0) [
        | none ↦ false
        | some n ↦ elim (parse_ip is_ip ip) [ none ↦ false | some a ↦ in_network a n parts.1 ]
      ]

  -- The matcher that `compileTrustList` makes of the ranges of a valid list.
  unfoldable pub matches_any : List String → Option String → Bool
  matches_any cidrs none = false
  matches_any cidrs (some ip) = any (ip_matches_cidr ip) cidrs

abbrev pub cloudflare_ipv4_ranges : List String
cloudflare_ipv4_ranges =
    "173.245.48.0/20" ∷ "103.21.244.0/22" ∷ "103.22.200.0/22" ∷ "103.31.4.0/22" ∷ "141.101.64.0/18"
    ∷ "108.162.192.0/18" ∷ "190.93.240.0/20" ∷ "188.114.96.0/20" ∷ "197.234.240.0/22"
    ∷ "198.41.128.0/17" ∷ "162.158.0.0/15" ∷ "104.16.0.0/13" ∷ "104.24.0.0/14" ∷ "172.64.0.0/13"
    ∷ "131.0.72.0/22" ∷ []

abbrev pub cloudflare_ipv6_ranges : List String
cloudflare_ipv6_ranges =
    "2400:cb00::/32" ∷ "2606:4700::/32" ∷ "2803:f800::/32" ∷ "2405:b500::/32" ∷ "2405:8100::/32"
    ∷ "2a06:98c0::/29" ∷ "2c0f:f248::/32" ∷ []

abbrev is_v4_like : Option Address → Bool
is_v4_like none = false
is_v4_like (some (v4, n)) = true
is_v4_like (some (v6, n)) = is_mapped n

unfoldable pub is_cloudflare_ip : (is_ip : String → ℕ) → String → Bool
is_cloudflare_ip is_ip ip =
    let trimmed = trim ip in
    let ranges =
      if is_v4_like (parse_ip is_ip trimmed)
      then cloudflare_ipv4_ranges
      else cloudflare_ipv6_ranges in
    not (eqb (is_ip trimmed) 0) && any (ip_matches_cidr is_ip trimmed) ranges

-- The named ranges.
abbrev pub preset : String → Option (List String)
preset name =
    if str_eq name "loopback"
    then some ("127.0.0.1/8" ∷ "::1/128" ∷ [])
    else if str_eq name "linklocal"
    then some ("169.254.0.0/16" ∷ "fe80::/10" ∷ [])
    else if str_eq name "uniquelocal"
    then some ("10.0.0.0/8" ∷ "172.16.0.0/12" ∷ "192.168.0.0/16" ∷ "fc00::/7" ∷ [])
    else none

abbrev pub is_prefix : (kind : ℕ) → String → Bool
is_prefix kind text =
    not (str_eq text "")
    && all_digits text
    && leb (get_or (number text) 0) (if eqb kind 6 then 128 else 32)

unfoldable pub is_entry : (is_ip : String → ℕ) → String → Bool
is_entry is_ip cidr = elim (split_last "/" cidr) [
  | none ↦ not (eqb (is_ip cidr) 0)
  | some (network, text) ↦ not (eqb (is_ip network) 0) && is_prefix (is_ip network) text
]

-- The ranges of a TRUST_PROXY list; none where an entry is refused.
unfoldable pub compile_trust_list : (is_ip : String → ℕ) → List String → Option (List String)
compile_trust_list is_ip [] = some []
compile_trust_list is_ip (entry ∷ entries) =
    let rest = compile_trust_list is_ip entries in
    elim rest [
      | none ↦ none
      | some cidrs ↦ elim (preset entry) [
        | some named ↦ some (named ++ cidrs)
        | none ↦ if is_entry is_ip (trim entry) then some (trim entry ∷ cidrs) else none
      ]
    ]

-- The entries of an X-Forwarded-For header.
unfoldable pub parse_forwarded_for : Option String → List String
parse_forwarded_for none = []
parse_forwarded_for (some raw) = select (λ e. not (str_eq e "")) (map trim (split_on "," raw))

-- The TRUST_PROXY setting: nothing, a number of hops, or a list with its matcher.
pub data Trust : Type 0 where
  nothing : Trust
  hops : ℕ → Trust
  proxies : (Option String → Bool) → Trust

-- The walk over the chain: the first entry that is not trusted, or the last of all.
unfoldable pub walk : (Option String → Bool) → Option String → List (Option String) → Option String
walk is_trusted entry [] = entry
walk is_trusted entry (next ∷ chain) =
    let rest = walk is_trusted next chain in if is_trusted entry then rest else entry

-- The address by the forwarding header, where the entries of the chain end at the peer.
unfoldable pub resolve_forwarded :
    (peer : Option String) → (forwarded : List String) → Trust → Option String
resolve_forwarded peer forwarded nothing = peer
resolve_forwarded peer forwarded (hops n) =
    if ltb (length forwarded) n
    then peer
    else or_else (get_or (nth (length forwarded - n) (map some forwarded ++ peer ∷ [])) none) peer
resolve_forwarded peer forwarded (proxies is_trusted) =
    or_else (walk is_trusted peer (map some (reverse forwarded))) peer

unfoldable pub resolve_client_ip :
    (is_ip : String → ℕ)
    → (is_cloudflare : String → Bool) → (peer cf_connecting : Option String)
    → (forwarded : List String) → Trust
    → Option String
resolve_client_ip is_ip is_cloudflare peer cf forwarded trust =
    let from_edge : Bool = elim peer [ none ↦ false | some p ↦ is_cloudflare p ] in
    let candidate : Option String = elim cf [
      | none ↦ none
      | some c ↦ if eqb (is_ip (trim c)) 0 then none else some (trim c)
    ] in
    if from_edge && is_some candidate then candidate else resolve_forwarded peer forwarded trust
