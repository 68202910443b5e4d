-- ===== src/TrustProxy/Tests.antt =====
-- Clients behind proxies at concrete addresses.
use x402_facilitator_stellar.Common.{
  String, ◌≡◌, refl, Bool, true, false, Option, none, some, [], ◌∷◌, arith, str_eq, eqb,
}
use x402_facilitator_stellar.TrustProxy.Addresses.{
  shift_right, shift_left, bitwise_and, ones, is_mapped, v4, v6,
}
use x402_facilitator_stellar.TrustProxy.{
  in_network, aligned, same_network, length_of, proxies, resolve_client_ip,
}
use x402_facilitator_stellar.TrustProxy.Masks.{same_network_lem}
use x402_facilitator_stellar.TrustProxy.Spoofing.{resolve_client_ip_unspoofed}

-- 10.0.0.0/8 and an address within it.
small : shift_right 32 167838211 ≡ 0
unfolding shift_right
small = refl

network_small : shift_right 32 167772160 ≡ 0
unfolding shift_right
network_small = refl

same_network_lem_example :
    same_network 32 8 167838211 167772160
    ≡ eqb (shift_right 24 167838211) (shift_right 24 167772160)
same_network_lem_example =
    same_network_lem 32 8 167838211 167772160 (omega arith) small network_small

inside : same_network 32 8 167838211 167772160 ≡ true
unfolding same_network bitwise_and shift_left ones
inside = refl

-- A range that is written in the mapped form does not hold the address itself.
mapped_range : in_network (v4, 167838211) (v6, 281470849515520) (length_of 104) ≡ false
unfolding in_network aligned is_mapped shift_right
mapped_range = refl

abbrev proxy : Option String → Bool
proxy none = false
proxy (some ip) = str_eq ip "10.0.0.1"

resolve_client_ip_unspoofed_example :
    resolve_client_ip
      (λ ip. 4)
      (λ ip. false)
      (some "10.0.0.1")
      none
      ("1.1.1.1" ∷ "203.0.113.7" ∷ [])
      (proxies proxy)
    ≡ resolve_client_ip
        (λ ip. 4)
        (λ ip. false)
        (some "10.0.0.1")
        none
        ("203.0.113.7" ∷ [])
        (proxies proxy)
resolve_client_ip_unspoofed_example =
    resolve_client_ip_unspoofed (λ ip. 4) (λ ip. false) (some "10.0.0.1") none ("1.1.1.1" ∷ [])
      ("203.0.113.7" ∷ []) (proxies proxy) refl
