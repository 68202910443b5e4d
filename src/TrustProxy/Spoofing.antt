-- ===== src/TrustProxy/Spoofing.antt =====
-- What a client can make of its own address (src/trust-proxy.js).
use mathlib.Core.List.{reverse, reverse-append, map-append, append_assoc}
use x402_facilitator_stellar.Common.{
  ℕ, zero, suc, ◌+◌, ◌-◌, ◌≤◌, String, ◌≡◌, refl, ap, ◌∙◌, Bool, false, Option, some, List, [], ◌∷◌,
  ◌++◌, map, arith, ltb, or_else, length, all, length-append, nth,
}
use x402_facilitator_stellar.TrustProxy.{
  Trust, nothing, hops, proxies, walk, resolve_client_ip, resolve_forwarded,
}

walk-more :
    (t : Option String → Bool) (entry : Option String) (chain more : List (Option String))
    → all t (entry ∷ chain) ≡ false
    → walk t entry (chain ++ more) ≡ walk t entry chain
unfolding walk
walk-more t entry [] [] h = refl
walk-more t entry [] (x ∷ more) h = ground (arith, h)
walk-more t entry (next ∷ chain) more h = ground (arith, h, walk-more t next chain more)

length-map-some : (xs : List String) → length (map some xs) ≡ length xs
length-map-some [] = refl
length-map-some (x ∷ xs) = omega (arith, length-map-some xs)

-- An entry counted from the end of a list is not moved by entries in front.
nth-front :
    {A : Type 0} (xs ys : List A) (i n : ℕ) → i ≡ length xs + n → nth i (xs ++ ys) ≡ nth n ys
nth-front [] ys i n e = let same : i ≡ n = omega (arith, e) in ap (λ k. nth k ys) same
nth-front (x ∷ xs) ys zero n e = ground (arith, e)
nth-front (x ∷ xs) ys (suc i) n e = nth-front xs ys i n (omega (arith, e))

-- The operator's setting is right about the proxies: there are as many hops as it counts, or some
-- entry of the chain is none of the listed proxies.
abbrev pub IsAnchored : Option String → List String → Trust → Type 0
IsAnchored peer forwarded nothing = Unit
IsAnchored peer forwarded (hops n) = n ≤ length forwarded
IsAnchored peer forwarded (proxies t) = all t (peer ∷ map some (reverse forwarded)) ≡ false

unspoofed :
    (peer : Option String) (written forwarded : List String) (trust : Trust)
    → IsAnchored peer forwarded trust
    → resolve_forwarded peer (written ++ forwarded) trust ≡ resolve_forwarded peer forwarded trust
unfolding resolve_forwarded
unspoofed peer written forwarded nothing h = refl
unspoofed peer written forwarded (hops n) h =
    let chain = map some forwarded ++ peer ∷ [] in
    let split : map some (written ++ forwarded) ++ peer ∷ [] ≡ map some written ++ chain =
      ap (λ xs. xs ++ peer ∷ []) (map-append some written forwarded)
      ∙ append_assoc (map some written) (map some forwarded) (peer ∷ []) in
    let place =
      nth-front (map some written) chain (length (written ++ forwarded) - n) (length forwarded - n)
        (omega (arith, h, length-append written forwarded, length-map-some written)) in
    let near : ltb (length forwarded) n ≡ false = ground (arith, h) in
    let far : ltb (length (written ++ forwarded)) n ≡ false =
      ground (arith, h, length-append written forwarded) in
    rw (near, far, split, place) refl
unspoofed peer written forwarded (proxies t) h =
    let chain = map some (reverse forwarded) in
    let more = map some (reverse written) in
    let split : map some (reverse (written ++ forwarded)) ≡ chain ++ more =
      ap (map some) (reverse-append written forwarded)
      ∙ map-append some (reverse forwarded) (reverse written) in
    rw split (ap (λ o. or_else o peer) (walk-more t peer chain more h))

-- Entries that a client writes in front of the forwarding header do not change the address that it
-- gets, if the operator's setting is right about the proxies behind it.
pub resolve_client_ip_unspoofed :
    (is_ip : String → ℕ) (is_cloudflare : String → Bool) (peer cf : Option String)
    (written forwarded : List String) (trust : Trust)
    → IsAnchored peer forwarded trust
    → resolve_client_ip is_ip is_cloudflare peer cf (written ++ forwarded) trust
      ≡ resolve_client_ip is_ip is_cloudflare peer cf forwarded trust
unfolding resolve_client_ip
resolve_client_ip_unspoofed is_ip is_cloudflare peer cf written forwarded trust h =
    rw (unspoofed peer written forwarded trust h) refl
