-- ===== src/RateLimit/Limiter.antt =====
-- The limiter (src/rate-limit.js), over any store of buckets.
-- One reading of the clock, in seconds, serves a whole call.
use x402_facilitator_stellar.Common.{
  str_append, ℕ, ◌+◌, ◌-◌, ◌%◌, String, Bool, true, false, ◌&&◌, not, Option, none, some, List, [],
  ◌∷◌, map, str_eq, ltb, leb, if◌then◌else◌, get_or, find,
}
use x402_facilitator_stellar.Common.Dict
use x402_facilitator_stellar.Common.Dict.{Map}
use x402_facilitator_stellar.Common.Text.{upper, show}
use x402_facilitator_stellar.RateLimit.{Bucket, Ops, used}

pub record Limits : Type 0 where
  pub verify_rpm : ℕ
  pub settle_rpm : ℕ
  pub settle_rph : ℕ
  pub settle_rpd : ℕ
  pub fee_spd : ℕ
  pub catalog_rpm : ℕ
  pub catalog_read_rpm : Option ℕ

-- `max_fees` holds the networks' `maxTransactionFeeStroops`.
pub record Config : Type 0 where
  pub global : Limits
  pub keys : Map Limits
  pub max_fees : Map ℕ
  pub allowlist : List String

pub record Caller : Type 0 where
  pub key_id : Option String
  pub ip : String

pub record Verdict : Type 0 where
  pub allowed : Bool
  pub bypassed : Bool
  pub limit : ℕ
  pub remaining : ℕ
  pub reset_at : Option ℕ
  pub reason : Option String

-- What the record calls answer: always allowed, and no reason.
abbrev pub recorded : (limit remaining : ℕ) → Option ℕ → Verdict
recorded limit remaining reset_at = record {
  allowed = true;
  bypassed = false;
  limit = limit;
  remaining = remaining;
  reset_at = reset_at;
  reason = none;
}

abbrev pub owner_id : Caller → String
owner_id c = elim c.key_id [ none ↦ c.ip | some k ↦ if str_eq k "" then c.ip else k ]

unfoldable pub key_config : Config → Option String → Limits
key_config config none = config.global
key_config config (some k) = get_or (Dict.get (upper k) config.keys) config.global

-- A remainder by 0 is not met: the windows are constants.
abbrev pub window_start : (now window : ℕ) → ℕ
window_start now window = now - now % window

unfoldable pub bucket_id : String → String → (window now : ℕ) → String
bucket_id owner type window now = str_append owner (
    str_append ":" (
      str_append type (
        str_append ":"
          (str_append (show (window_start now window)) (str_append ":" (show window))))))

unfoldable pub compute_reset_at : (now window : ℕ) → ℕ
compute_reset_at now window = window_start now window + window

abbrev unavailable : (limit reset : ℕ) → Verdict
unavailable limit reset = record {
  allowed = false;
  bypassed = false;
  limit = limit;
  remaining = 0;
  reset_at = some reset;
  reason = some "rate_limit_store_unavailable";
}

-- `bucket?.resetAt ?? computed`: NaN is not nullish.
abbrev reset_of : Option Bucket → ℕ → Option ℕ
reset_of none computed = some computed
reset_of (some b) computed = b.reset_at

abbrev judge : Option Bucket → (limit amount reset : ℕ) → Verdict
judge o limit amount reset = record {
  allowed = leb (used o + amount) limit;
  bypassed = false;
  limit = limit;
  remaining = if leb (used o + amount) limit then limit - used o - amount else 0;
  reset_at = reset_of o reset;
  reason = none;
}

-- `res.reason = …` on a refusal that has no reason yet.
abbrev pub with_reason : String → Verdict → Verdict
with_reason why v = if v.allowed then v else record v { reason = some (get_or v.reason why) }

-- A count that is not a finite number is taken for one request.
unfoldable pub post_record_remaining : (limit : ℕ) → Option Bucket → ℕ
post_record_remaining limit none = limit - 1
post_record_remaining limit (some b) = limit - b.count

abbrev min_remaining : Verdict → Verdict → Verdict
min_remaining tightest current =
    if ltb current.remaining tightest.remaining then current else tightest

-- The ceiling of a settlement's fee, which the check reserves.
unfoldable pub max_fee : Config → Option String → ℕ
max_fee config none = 50000
max_fee config (some network) =
    if str_eq network "" then 50000 else get_or (Dict.get network config.max_fees) 50000

-- The first of the three checks that refuses, or else the fee check, or else the tightest.
unfoldable pub settle_verdict : (minute hour day fee : Verdict) → Verdict
settle_verdict minute hour day fee =
    if not minute.allowed
    then with_reason "rate_limit_exceeded" minute
    else if not hour.allowed
    then with_reason "rate_limit_exceeded" hour
    else if not day.allowed
    then with_reason "rate_limit_exceeded" day
    else if not fee.allowed
    then with_reason "fee_ceiling_exceeded" fee
    else min_remaining (min_remaining minute hour) day

-- `ipMatchesCidr` of src/trust-proxy.js is `matches`.
module _ {S : Type 0} (ops : Ops S) (matches : String → String → Bool) (config : Config) where
  unfoldable pub bypass : Caller → (limit window now : ℕ) → Option Verdict
  bypass c limit window now = elim (find (matches c.ip) config.allowlist) [
    | none ↦ none
    | some cidr ↦ some (record {
      allowed = true;
      bypassed = true;
      limit = limit;
      remaining = limit;
      reset_at = some (now + window);
      reason = none;
    })
  ]

  unfoldable pub check : String → String → (window limit amount now : ℕ) → S → S × Verdict
  check owner type window limit amount now s =
      elim (ops.get (bucket_id owner type window now) now s) [
        | none ↦ (s, unavailable limit (compute_reset_at now window))
        | some o ↦ (ops.sweep now s, judge o limit amount (compute_reset_at now window))
      ]

  -- An increment that throws counts nothing; the bucket is then NaN, with the computed time.
  unfoldable pub increment : String → String → (window amount now : ℕ) → S → S × Option Bucket
  increment owner type window amount now s =
      ops.increment (bucket_id owner type window now) amount (compute_reset_at now window) now s

  abbrev reset_after : Option Bucket → (now window : ℕ) → Option ℕ
  reset_after none now window = some (compute_reset_at now window)
  reset_after (some b) now window = b.reset_at

  abbrev check_one : Caller → String → (limit : ℕ) → (why : String) → (now : ℕ) → S → S × Verdict
  check_one c type limit why now s = elim (bypass c limit 60 now) [
    | some v ↦ (s, v)
    | none ↦ let (s', v) = check (owner_id c) type 60 limit 1 now s in (s', with_reason why v)
  ]

  abbrev record_one : Caller → String → (limit now : ℕ) → S → S × Verdict
  record_one c type limit now s =
      let (s', o) = increment (owner_id c) type 60 1 now s in
      (s', recorded limit (post_record_remaining limit o) (reset_after o now 60))

  unfoldable pub check_verify : Caller → (now : ℕ) → S → S × Verdict
  check_verify c =
      check_one c "verify" ((key_config config c.key_id).verify_rpm) "rate_limit_exceeded"

  unfoldable pub record_verify : Caller → (now : ℕ) → S → S × Verdict
  record_verify c = record_one c "verify" ((key_config config c.key_id).verify_rpm)

  unfoldable pub check_catalog : Caller → (now : ℕ) → S → S × Verdict
  check_catalog c =
      check_one c "catalog" ((key_config config c.key_id).catalog_rpm) "catalog_rate_limited"

  unfoldable pub record_catalog : Caller → (now : ℕ) → S → S × Verdict
  record_catalog c = record_one c "catalog" ((key_config config c.key_id).catalog_rpm)

  abbrev read_limit : Caller → ℕ
  read_limit c = get_or ((key_config config c.key_id).catalog_read_rpm) 60

  unfoldable pub check_catalog_read : Caller → (now : ℕ) → S → S × Verdict
  check_catalog_read c = check_one c "catalog_read" (read_limit c) "catalog_read_rate_limited"

  unfoldable pub record_catalog_read : Caller → (now : ℕ) → S → S × Verdict
  record_catalog_read c = record_one c "catalog_read" (read_limit c)

  unfoldable pub check_settle : Caller → Option String → (now : ℕ) → S → S × Verdict
  check_settle c network now s =
      let limits = key_config config c.key_id in
      elim (bypass c limits.settle_rpm 60 now) [
        | some v ↦ (s, v)
        | none ↦
            let (s1, minute) = check (owner_id c) "settle" 60 limits.settle_rpm 1 now s in
            let (s2, hour) = check (owner_id c) "settle" 3600 limits.settle_rph 1 now s1 in
            let (s3, day) = check (owner_id c) "settle" 86400 limits.settle_rpd 1 now s2 in
            let (s4, fee) =
              check (owner_id c) "fee" 86400 limits.fee_spd (max_fee config network) now s3 in
            (
              if minute.allowed && hour.allowed && day.allowed then s4 else s3,
              settle_verdict minute hour day fee,
            )
      ]

  abbrev tighter : ℕ × ℕ → ℕ × ℕ → ℕ × ℕ
  tighter a b = if ltb b.1 a.1 then b else a

  -- The three counts, the fee if there is one, and the tightest remainder (the first of a tie).
  unfoldable pub record_settle : Caller → (fee now : ℕ) → S → S × Verdict
  record_settle c fee now s =
      let limits = key_config config c.key_id in
      let (s1, minute) = increment (owner_id c) "settle" 60 1 now s in
      let (s2, hour) = increment (owner_id c) "settle" 3600 1 now s1 in
      let (s3, day) = increment (owner_id c) "settle" 86400 1 now s2 in
      let s4 = if ltb 0 fee then (increment (owner_id c) "fee" 86400 fee now s3).0 else s3 in
      let (limit, remaining) =
        tighter
          (tighter (limits.settle_rpm, post_record_remaining limits.settle_rpm minute)
            (limits.settle_rph, post_record_remaining limits.settle_rph hour))
          (limits.settle_rpd, post_record_remaining limits.settle_rpd day) in
      (s4, recorded limit remaining (reset_after minute now 60))

  -- The counts of GET /usage, none where a read throws.
  unfoldable pub usage : String → (now : ℕ) → S → List (Option ℕ)
  usage key_id now s = map count windows
    where
      windows : List (String × ℕ)
      windows =
          ("verify", 60)
          ∷ ("settle", 60)
          ∷ ("settle", 3600)
          ∷ ("settle", 86400)
          ∷ ("fee", 86400)
          ∷ ("catalog", 60)
          ∷ []

      count : String × ℕ → Option ℕ
      count (type, window) = elim (ops.get (bucket_id key_id type window now) now s) [
        | none ↦ none
        | some o ↦ some (used o)
      ]
