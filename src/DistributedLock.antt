-- ===== src/DistributedLock.antt =====
-- The locks that serialize settlements (src/distributed-lock.js).
pub mod Order
pub mod Exclusion
pub mod Redlock
pub mod Waiting
pub mod Tests
use x402_facilitator_stellar.Common.{
  str_append, str_ne, ℕ, zero, suc, ◌+◌, ◌-◌, ◌*◌, ◌/◌, ◌%◌, ◌^◌, ◌≤◌, ◌<◌, min, max, String, ◌≡◌,
  refl, sym, ap, ◌∙◌, ◌≢◌, ◌↔◌, ◌⊎◌, inl, inr, Bool, true, false, ◌&&◌, ◌||◌, not, Option, none,
  some, List, [], ◌∷◌, ◌++◌, map, arith, str_eq, eq_iff, eq_refl, ltb, leb, eqb, ltb→lt, lt→ltb,
  leb→le, le→leb, if◌then◌else◌, Bool-cases, Option-cases, get_or, or_else, is_some, length, take,
  drop, select, any, all, find, All, length-append, length-select-le, All-append, All-select,
  select-select, All-take, select-holds, nth, All-map, All-weaken, All-nth, any-append, any-map,
  any-select, any-weaken, any-map-with, take_all, length-take-le, length-select-not, Result, ok,
  err, ◌>>=◌, ◌>>◌, throw_if, >>=-eq-ok, Result-cases,
}
use x402_facilitator_stellar.Common.Dict
use x402_facilitator_stellar.Common.Dict.{Map}

-- One call of `acquire`: `id` is the promise `done` that its release resolves, `prev` the one that it
-- waits for, where there is one.
pub record Ticket : Type 0 where
  pub key : String
  pub id : ℕ
  pub prev : Option ℕ

-- The manager in memory, with the calls that were made, the newest first, and the promises that are
-- resolved.
pub record Locks : Type 0 where
  pub tails : Map ℕ
  pub tickets : List Ticket
  pub resolved : List ℕ

abbrev pub create_memory_lock_manager : Locks
create_memory_lock_manager = record { tails = []; tickets = []; resolved = [] }

unfoldable pub acquire : String → Locks → Locks × Ticket
acquire key s =
    let t : Ticket = record { key = key; id = length s.tickets; prev = Dict.get key s.tails } in
    (record s { tails = Dict.set key t.id s.tails; tickets = t ∷ s.tickets }, t)

unfoldable pub release : Ticket → Locks → Locks
release t s = record s { resolved = t.id ∷ s.resolved }

abbrev pub is_resolved : (resolved : List ℕ) → ℕ → Bool
is_resolved resolved id = any (λ n. eqb n id) resolved

-- Whether the wait for a promise is over.
abbrev pub is_free : (resolved : List ℕ) → Option ℕ → Bool
is_free resolved none = true
is_free resolved (some id) = is_resolved resolved id

-- Whether the promise that `acquire` returned is resolved: the caller runs its function.
abbrev pub is_granted : Locks → Ticket → Bool
is_granted s t = is_free s.resolved t.prev

-- `withLock`: a call acquires the key, and when it was granted and its function has returned or
-- thrown, it releases the key.
pub data Step (s : Locks) : Locks → Type 0 where
  calls : (key : String) → Step s (acquire key s).0
  ends :
      (i : ℕ) {t : Ticket} → nth i s.tickets ≡ some t → is_granted s t ≡ true → Step s (release t s)

pub data Reach : Locks → Type 0 where
  start : Reach create_memory_lock_manager
  later : {s t : Locks} → Reach s → Step s t → Reach t

abbrev pub of_key : String → List Ticket → List Ticket
of_key key = select λ t. str_eq t.key key

abbrev pub is_unended : (resolved : List ℕ) → Ticket → Bool
is_unended resolved t = not (is_resolved resolved t.id)

-- The calls for the key that have not ended, the newest first.
abbrev pub waiting : String → Locks → List Ticket
waiting key s = select (is_unended s.resolved) (of_key key s.tickets)
