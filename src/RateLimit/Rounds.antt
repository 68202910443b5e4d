-- ===== src/RateLimit/Rounds.antt =====
-- Requests of /verify one after another, and what their callers are told.
use x402_facilitator_stellar.Common.{
  ℕ, zero, suc, ◌+◌, ◌-◌, ◌≤◌, ◌<◌, min, String, ◌≡◌, ◌∙◌, inl, inr, Bool, true, false, Option,
  none, some, arith, leb, if◌then◌else◌, Bool-cases,
}
use x402_facilitator_stellar.RateLimit.{Bucket, Ops, used, IsStore, ReadsWrites}
use x402_facilitator_stellar.RateLimit.Store.{PostgresStore, Cell, postgres, postgres_get}
use x402_facilitator_stellar.Common.Dict
use x402_facilitator_stellar.RateLimit.Limiter.{
  Config, Caller, Verdict, owner_id, key_config, bucket_id, compute_reset_at, check, increment,
  check_verify, record_verify, post_record_remaining,
}
use x402_facilitator_stellar.RateLimit.Budget.{IsMetered, bypass_metered}

-- One request of /verify: it is counted if the check lets it through.
module _ {S : Type 0} (ops : Ops S) (matches : String → String → Bool) (config : Config) where
  abbrev counted : Caller → (now : ℕ) → S × Verdict → S × Bool
  counted c now (s, v) =
      if v.allowed then ((record_verify ops matches config c now s).0, true) else (s, false)

  pub verify_round : Caller → (now : ℕ) → S → S × Bool
  verify_round c now s = counted c now (check_verify ops matches config c now s)

  -- How many of `n` requests are let through.
  pub admitted : Caller → (now : ℕ) → (n : ℕ) → S → ℕ
  admitted c now zero s = 0
  admitted c now (suc n) s =
      let (s', passed) = verify_round c now s in
      let rest = admitted c now n s' in if passed then suc rest else rest

  module _ (IsValid : S → Type 0) (law : IsStore ops IsValid) (writes : ReadsWrites ops IsValid)
      (c : Caller) (now : ℕ) (metered : IsMetered ops matches config c) where
    id : String
    id = bucket_id (owner_id c) "verify" 60 now

    limit : ℕ
    limit = (key_config config c.key_id).verify_rpm

    later : now < compute_reset_at now 60
    unfolding compute_reset_at
    later = omega arith

    full :
        (s : S) (o : Option Bucket)
        → IsValid s
        → ops.get id now s ≡ some o
        → limit < used o + 1
        → verify_round c now s ≡ (ops.sweep now s, false)
    unfolding verify_round check_verify check id limit
    full s o u h over = ground (
      arith,
      bypass_metered ops matches config c ((key_config config c.key_id).verify_rpm) 60 now metered,
    )

    room :
        (s : S) (o : Option Bucket)
        → IsValid s
        → ops.get id now s ≡ some o
        → used o + 1 ≤ limit
        → verify_round c now s
          ≡ ((ops.increment id 1 (compute_reset_at now 60) now (ops.sweep now s)).0, true)
    unfolding verify_round check_verify check record_verify increment id limit
    room s o u h free = ground (
      arith,
      bypass_metered ops matches config c ((key_config config c.key_id).verify_rpm) 60 now metered,
    )

    admitted_from :
        (n : ℕ) (s : S) (o : Option Bucket)
        → IsValid s
        → ops.get id now s ≡ some o
        → admitted c now n s ≡ min n (limit - used o)
    unfolding admitted
    admitted_from zero s o u h = omega arith
    admitted_from (suc n) s o u h = elim (Bool-cases (leb (used o + 1) limit)) [
      | inr over ↦ rw (full s o u h (ground (arith, over))) (
          ground (
            arith,
            over,
            admitted_from n (ops.sweep now s) o (law.sweep-IsValid now s u)
                (law.get-sweep id now s u ∙ h),
          ))
      | inl free ↦
          let t = ops.sweep now s in
          let ut = law.sweep-IsValid now s u in
          let (b, shown, count) =
            writes.get-increment id 1 (compute_reset_at now 60) now t o ut
              (law.get-sweep id now s u ∙ h) later in
          rw (room s o u h (ground (arith, free))) (
            ground (
              arith,
              free,
              count,
              admitted_from n (ops.increment id 1 (compute_reset_at now 60) now t).0 (some b)
                  (law.increment-IsValid id 1 (compute_reset_at now 60) now t ut) shown,
            ))
    ]

    -- However many requests of /verify a caller makes one after another within a minute's window,
    -- exactly as many are let through as its limit leaves over what the window counts already,
    -- over any store that shows what was written to it.
    pub admitted_verify :
        (n : ℕ) (s : S) (o : Option Bucket)
        → IsValid s
        → ops.get (bucket_id (owner_id c) "verify" 60 now) now s ≡ some o
        → admitted c now n s ≡ min n ((key_config config c.key_id).verify_rpm - used o)
    unfolding id limit
    admitted_verify = admitted_from

    -- The remainder that a caller is told after its request of /verify was counted is the one that
    -- the check before it projected.
    pub record_verify-check_verify :
        (s : S) (o : Option Bucket)
        → IsValid s
        → ops.get (bucket_id (owner_id c) "verify" 60 now) now s ≡ some o
        → (check_verify ops matches config c now s).1.allowed ≡ true
        → let (s', v) = check_verify ops matches config c now s in
          (record_verify ops matches config c now s').1.remaining ≡ v.remaining
    unfolding check_verify record_verify check increment post_record_remaining id
    record_verify-check_verify s o u h passed =
        let t = ops.sweep now s in
        let (b, written, count) =
          law.increment_counts id 1 (compute_reset_at now 60) now t o (law.sweep-IsValid now s u)
            (law.get-sweep id now s u ∙ h) in
        ground (
          arith,
          h,
          written,
          count,
          bypass_metered ops matches config c ((key_config config c.key_id).verify_rpm) 60 now
              metered,
        )

-- Over the Postgres store the time at which a window that is in use ends is not a number.
pub check-postgres_reset :
    (matches : String → String → Bool) (config : Config) (owner type : String)
    (window limit amount now : ℕ) (s : PostgresStore) (cell : Cell)
    → s.up ≡ true
    → Dict.get (bucket_id owner type window now) s.rows ≡ some cell
    → now < cell.reset_at
    → (check postgres matches config owner type window limit amount now s).1.reset_at ≡ none
unfolding check postgres_get
check-postgres_reset matches config owner type window limit amount now s cell up h later =
    ground arith
