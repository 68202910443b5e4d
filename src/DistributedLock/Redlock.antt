-- ===== src/DistributedLock/Redlock.antt =====
-- Locks over Redis nodes, and what is done without them (src/distributed-lock.js). Times are whole
-- milliseconds.
use x402_facilitator_stellar.Common.{
  ℕ, zero, suc, ◌+◌, String, Bool, true, Option, none, some, List, leb, if◌then◌else◌, any,
}
use x402_facilitator_stellar.DistributedLock.{Ticket, Locks, acquire}

-- What an attempt of the `redlock` package answers: whether it got the lock, and the time at which
-- the answer is handled.
pub record Attempt : Type 0 where
  pub got : Bool
  pub at : ℕ

pub data Acquired : Type 0 where
  held timed_out : (attempt : ℕ) → Acquired

-- The `for (;;)` of `withRedlock`, from attempt `i` on.
unfoldable pub acquire_from : (answers : ℕ → Attempt) → (deadline fuel i : ℕ) → Option Acquired
acquire_from answers deadline zero i = none
acquire_from answers deadline (suc fuel) i =
    let rest = acquire_from answers deadline fuel (i + 1) in
    if (answers i).got
    then some (held i)
    else if leb deadline (answers i).at
    then some (timed_out i)
    else rest

pub record Manager : Type 0 where
  pub degraded : Bool
  pub memory_fallback : Locks

-- How the function of a call is run.
pub data Way : Type 0 where
  on_redlock : (attempt : ℕ) → Way
  in_process : Ticket → Way
  refused : Way

unfoldable pub run_in_process : String → Manager → Manager × Way
run_in_process key m =
    let (locks, ticket) = acquire key m.memory_fallback in
    (record m { memory_fallback = locks }, in_process ticket)

-- The `catch` of `withLock`; `ready` says of each client whether its status is 'ready'.
unfoldable pub after_redlock : String → (ready : List Bool) → Manager → Acquired → Manager × Way
after_redlock key ready m (held i) = (m, on_redlock i)
after_redlock key ready m (timed_out i) =
    if any (λ r. r) ready then (m, refused) else run_in_process key (record m { degraded = true })

-- `withLock`, up to where its function starts.
unfoldable pub with_lock :
    (acquire_timeout fuel : ℕ)
    → (answers : ℕ → Attempt) → (ready : List Bool) → (now : ℕ) → String
    → Manager
    → Option (Manager × Way)
with_lock acquire_timeout fuel answers ready now key m =
    let end = acquire_from answers (now + acquire_timeout) fuel 0 in
    if m.degraded
    then some (run_in_process key m)
    else elim end [ none ↦ none | some a ↦ some (after_redlock key ready m a) ]
