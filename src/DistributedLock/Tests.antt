-- ===== src/DistributedLock/Tests.antt =====
-- Locks at concrete calls.
use x402_facilitator_stellar.Common.{
  ℕ, ◌+◌, ◌*◌, ◌≡◌, refl, false, some, [], ◌∷◌, map, arith, length, select,
}
use x402_facilitator_stellar.Common.Dict
use x402_facilitator_stellar.DistributedLock.{
  Locks, create_memory_lock_manager, acquire, release, is_granted, Reach, start, later, calls, ends,
  waiting,
}
use x402_facilitator_stellar.DistributedLock.Order.{oldest}
use x402_facilitator_stellar.DistributedLock.Exclusion.{granted_first}
use x402_facilitator_stellar.DistributedLock.Redlock.{Attempt, Manager, Way, with_lock}
use x402_facilitator_stellar.DistributedLock.Waiting.{IsPaced, IsOutcome, with_lock_ends}

-- Two calls for one key, and one for another between them; then the first one ends.
abbrev called : Locks
called = (acquire "a" (acquire "b" (acquire "a" create_memory_lock_manager).0).0).0

abbrev first_ended : Locks
first_ended = release (acquire "a" create_memory_lock_manager).1 called

first_ended-Reach : Reach first_ended
unfolding acquire Dict.get
first_ended-Reach =
    later (later (later (later start (calls "a")) (calls "b")) (calls "a")) (ends 2 refl refl)

granted_first_example :
    select (is_granted first_ended) (waiting "a" first_ended) ≡ oldest (waiting "a" first_ended)
granted_first_example = granted_first "a" first_ended-Reach

-- Both calls wait before the first one ends, and the second one runs after it.
waiting_before : length (waiting "a" called) ≡ 2
unfolding acquire
waiting_before = refl

running_after : map (λ t. t.id) (select (is_granted first_ended) (waiting "a" first_ended)) ≡ 2 ∷ []
unfolding acquire release Dict.get Dict.set
running_after = refl

abbrev never : ℕ → Attempt
never i = record { got = false; at = 50 + i * 200 }

abbrev fresh_manager : Manager
fresh_manager = record { degraded = false; memory_fallback = create_memory_lock_manager }

never-IsPaced : IsPaced 200 40 never
never-IsPaced = (omega arith, λ i. omega arith)

with_lock_ends_example :
    (out : Manager × Way) × (with_lock 1000 6 never (false ∷ false ∷ []) 40 "a" fresh_manager
      ≡ some out)
    × IsOutcome never (false ∷ false ∷ []) 1040 "a" fresh_manager out
with_lock_ends_example =
    with_lock_ends 1000 200 5 never (false ∷ false ∷ []) 40 "a" fresh_manager never-IsPaced
      (omega arith)
