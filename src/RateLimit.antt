-- ===== src/RateLimit.antt =====
-- Buckets of the rate limiter: what it asks of a store (src/rate-limit-store.js).
-- Times are whole seconds, and a time that is not a number (NaN) is `none`.
pub mod Store
pub mod Limiter
pub mod Rounds
pub mod Budget
pub mod Tests
use x402_facilitator_stellar.Common.{
  str_append, str_ne, ℕ, zero, suc, ◌+◌, ◌-◌, ◌*◌, ◌/◌, ◌%◌, ◌^◌, ◌≤◌, ◌<◌, min, max, String, ◌≡◌,
  refl, sym, ap, ◌∙◌, ◌≢◌, ◌↔◌, ◌⊎◌, inl, inr, Bool, true, false, ◌&&◌, ◌||◌, not, Option, none,
  some, List, [], ◌∷◌, ◌++◌, map, arith, str_eq, eq_iff, eq_refl, ltb, leb, eqb, ltb→lt, lt→ltb,
  leb→le, le→leb, if◌then◌else◌, Bool-cases, Option-cases, get_or, or_else, is_some, length, take,
  drop, select, any, all, find, All, length-append, length-select-le, All-append, All-select,
  select-select, Result, ok, err, ◌>>=◌, ◌>>◌, throw_if, >>=-eq-ok,
}

pub record Bucket : Type 0 where
  pub count : ℕ
  pub reset_at : Option ℕ

-- The operations that the limiter reaches its store by. A call that throws is `none`.
pub record Ops (S : Type 0) : Type 0 where
  pub get : String → (now : ℕ) → S → Option (Option Bucket)
  pub increment : String → (amount reset now : ℕ) → S → S × Option Bucket
  pub sweep : (now : ℕ) → S → S

-- `bucket?.count ?? 0`.
abbrev pub used : Option Bucket → ℕ
used none = 0
used (some b) = b.count

-- What a store promises of its valid states, which its operations keep: a sweep takes nothing that
-- a read at that time shows; where a read answers, an increment does too, with the count that was
-- shown and its amount, and reads still answer.
pub record IsStore {S : Type 0} (ops : Ops S) (IsValid : S → Type 0) : Type 0 where
  pub get-sweep :
      (id : String) (now : ℕ) (s : S)
      → IsValid s
      → ops.get id now (ops.sweep now s) ≡ ops.get id now s
  pub increment_counts :
      (id : String) (amount reset now : ℕ) (s : S) (o : Option Bucket)
      → IsValid s
      → ops.get id now s ≡ some o
      → (b : Bucket) × ((ops.increment id amount reset now s).1 ≡ some b)
        × (b.count ≡ used o + amount)
  pub sweep-IsValid : (now : ℕ) (s : S) → IsValid s → IsValid (ops.sweep now s)
  pub increment-IsValid :
      (id : String) (amount reset now : ℕ) (s : S)
      → IsValid s
      → IsValid (ops.increment id amount reset now s).0

-- A store where a window that has not run out shows what was added to it.
pub record ReadsWrites {S : Type 0} (ops : Ops S) (IsValid : S → Type 0) : Type 0 where
  pub get-increment :
      (id : String) (amount reset now : ℕ) (s : S) (o : Option Bucket)
      → IsValid s
      → ops.get id now s ≡ some o
      → now < reset
      → (b : Bucket) × (ops.get id now (ops.increment id amount reset now s).0 ≡ some (some b))
        × (b.count ≡ used o + amount)
