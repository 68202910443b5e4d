-- ===== src/RateLimit/Budget.antt =====
-- What the limiter lets through.
use x402_facilitator_stellar.Common.{
  ℕ, ◌+◌, String, ◌≡◌, refl, Bool, false, ◌&&◌, Option, none, some, arith, leb, find,
}
use x402_facilitator_stellar.RateLimit.{Ops, used, IsStore}
use x402_facilitator_stellar.RateLimit.Limiter.{
  Config, Caller, Verdict, owner_id, key_config, bucket_id, bypass, check, max_fee, check_settle,
  settle_verdict,
}

-- The window's count, when it can be read, has room for the amount.
abbrev pub fits : {S : Type 0} → Ops S → String → (limit amount now : ℕ) → S → Bool
fits ops id limit amount now s = elim (ops.get id now s) [
  | none ↦ false
  | some o ↦ leb (used o + amount) limit
]

module _ {S : Type 0} (ops : Ops S) (matches : String → String → Bool) (config : Config) where
  settle_verdict_allowed :
      (minute hour day fee : Verdict)
      → (settle_verdict minute hour day fee).allowed
        ≡ (minute.allowed && hour.allowed && day.allowed && fee.allowed)
  unfolding settle_verdict
  settle_verdict_allowed minute hour day fee = ground arith

  -- The caller's address is on no allowlist.
  abbrev pub IsMetered : Caller → Type 0
  IsMetered c = find (matches c.ip) config.allowlist ≡ none

  check_allowed :
      (owner type : String) (window limit amount now : ℕ) (s : S)
      → (check ops matches config owner type window limit amount now s).1.allowed
        ≡ fits ops (bucket_id owner type window now) limit amount now s
  unfolding check
  check_allowed owner type window limit amount now s = ground arith

  pub bypass_metered :
      (c : Caller) (limit window now : ℕ)
      → IsMetered c
      → bypass ops matches config c limit window now ≡ none
  unfolding bypass
  bypass_metered c limit window now h = rw (h, bypass)

  module _ (IsValid : S → Type 0) (law : IsStore ops IsValid) where
    check-IsValid :
        (owner type : String) (window limit amount now : ℕ) (s : S)
        → IsValid s
        → IsValid (check ops matches config owner type window limit amount now s).0
    unfolding check
    check-IsValid owner type window limit amount now s u = ground (arith, law.sweep-IsValid now s u)

    fits-check :
        (owner type : String) (window limit amount now : ℕ) (id : String) (l a : ℕ) (s : S)
        → IsValid s
        → fits ops id l a now (check ops matches config owner type window limit amount now s).0
          ≡ fits ops id l a now s
    unfolding check
    fits-check owner type window limit amount now id l a s u =
        ground (arith, law.get-sweep id now s u)

    -- The room that a window has is the same after a check of any window.
    room_after :
        (owner type : String) (window limit amount now : ℕ) (type' : String)
        (window' limit' amount' : ℕ) (s : S)
        → IsValid s
        → let s' = (check ops matches config owner type' window' limit' amount' now s).0 in
          IsValid s'
          × ((check ops matches config owner type window limit amount now s').1.allowed
              ≡ (check ops matches config owner type window limit amount now s).1.allowed)
    room_after owner type window limit amount now type' window' limit' amount' s u = (
      check-IsValid owner type' window' limit' amount' now s u,
      rw
          (
            check_allowed owner type window limit amount now _,
            check_allowed owner type window limit amount now s,
          )
          (fits-check owner type' window' limit' amount' now (bucket_id owner type window now) limit
            amount s u),
    )

    checks_allowed :
        (owner : String) (minute hour day ceiling fee now : ℕ) (s : S)
        → IsValid s
        → let a = check ops matches config owner "settle" 60 minute 1 now s in
          let b = check ops matches config owner "settle" 3600 hour 1 now a.0 in
          let c = check ops matches config owner "settle" 86400 day 1 now b.0 in
          let d = check ops matches config owner "fee" 86400 ceiling fee now c.0 in
          (settle_verdict a.1 b.1 c.1 d.1).allowed ≡ (
            fits ops (bucket_id owner "settle" 60 now) minute 1 now s
            && fits ops (bucket_id owner "settle" 3600 now) hour 1 now s
            && fits ops (bucket_id owner "settle" 86400 now) day 1 now s
            && fits ops (bucket_id owner "fee" 86400 now) ceiling fee now s)
    checks_allowed owner minute hour day ceiling fee now s u =
        let a = check ops matches config owner "settle" 60 minute 1 now s in
        let b = check ops matches config owner "settle" 3600 hour 1 now a.0 in
        let c = check ops matches config owner "settle" 86400 day 1 now b.0 in
        let d = check ops matches config owner "fee" 86400 ceiling fee now c.0 in
        let (ua, hour_a) = room_after owner "settle" 3600 hour 1 now "settle" 60 minute 1 s u in
        let (_, day_a) = room_after owner "settle" 86400 day 1 now "settle" 60 minute 1 s u in
        let (_, fee_a) = room_after owner "fee" 86400 ceiling fee now "settle" 60 minute 1 s u in
        let (ub, day_b) = room_after owner "settle" 86400 day 1 now "settle" 3600 hour 1 a.0 ua in
        let (_, fee_b) = room_after owner "fee" 86400 ceiling fee now "settle" 3600 hour 1 a.0 ua in
        let (_, fee_c) = room_after owner "fee" 86400 ceiling fee now "settle" 86400 day 1 b.0 ub in
        rw
          (
            settle_verdict_allowed a.1 b.1 c.1 d.1,
            fee_c,
            fee_b,
            fee_a,
            day_b,
            day_a,
            hour_a,
            check_allowed owner "settle" 60 minute 1 now s,
            check_allowed owner "settle" 3600 hour 1 now s,
            check_allowed owner "settle" 86400 day 1 now s,
            check_allowed owner "fee" 86400 ceiling fee now s,
          )
          refl

    -- A settlement is let through exactly if each of the four windows of the caller can be read
    -- and has room, the last for the ceiling of the network's fee: a store that does not answer
    -- one of them refuses it. A caller on the allowlist is not covered.
    pub check_settle_allowed :
        (c : Caller) (network : Option String) (now : ℕ) (s : S)
        → IsValid s
        → IsMetered c
        → let limits = key_config config c.key_id in
          let room = λ (type : String) (window limit amount : ℕ).
            fits ops (bucket_id (owner_id c) type window now) limit amount now s in
          (check_settle ops matches config c network now s).1.allowed ≡ (
            room "settle" 60 limits.settle_rpm 1
            && room "settle" 3600 limits.settle_rph 1
            && room "settle" 86400 limits.settle_rpd 1
            && room "fee" 86400 limits.fee_spd (max_fee config network))
    unfolding check_settle
    check_settle_allowed c network now s u metered =
        let limits = key_config config c.key_id in
        rw (bypass_metered c limits.settle_rpm 60 now metered, check_settle)
          (checks_allowed (owner_id c) limits.settle_rpm limits.settle_rph limits.settle_rpd
            limits.fee_spd (max_fee config network) now s u)
