-- ===== src/DistributedLock/Waiting.antt =====
-- How long a call waits for its lock, and how it is then run (src/distributed-lock.js).
use x402_facilitator_stellar.Common.{
  ℕ, zero, suc, ◌+◌, ◌*◌, ◌≤◌, ◌<◌, String, ◌≡◌, refl, ◌⊎◌, inl, inr, Bool, true, false, some, List,
  arith, leb, eqb, leb→le, le→leb, Bool-cases, any,
}
use x402_facilitator_stellar.DistributedLock.{acquire}
use x402_facilitator_stellar.DistributedLock.Redlock.{
  Attempt, Acquired, held, timed_out, acquire_from, Manager, Way, on_redlock, in_process, refused,
  run_in_process, after_redlock, with_lock,
}

-- Every attempt is answered at least the retry delay after the one before it.
abbrev pub IsPaced : (retry_delay now : ℕ) → (ℕ → Attempt) → Type 0
IsPaced retry_delay now answers =
    (now ≤ (answers 0).at) × ((i : ℕ) → (answers i).at + retry_delay ≤ (answers (i + 1)).at)

-- The attempt that the loop ends with got the lock, and no attempt before it did, or none got it
-- and the last was answered at the deadline or later.
abbrev pub IsEnd : (answers : ℕ → Attempt) → (deadline i : ℕ) → Acquired → Type 0
IsEnd answers deadline i (held n) =
    ((answers n).got ≡ true)
    × (i ≤ n)
    × ((j : ℕ) → i ≤ j → j < n → ((answers j).got ≡ false) × ((answers j).at < deadline))
IsEnd answers deadline i (timed_out n) =
    (deadline ≤ (answers n).at) × (i ≤ n) × ((j : ℕ) → i ≤ j → j ≤ n → (answers j).got ≡ false)

widen :
    (answers : ℕ → Attempt) (deadline i : ℕ) (a : Acquired)
    → (answers i).got ≡ false
    → (answers i).at < deadline
    → IsEnd answers deadline (i + 1) a
    → IsEnd answers deadline i a
widen answers deadline i (held n) missed early (got, le, before) = (
  got,
  omega (arith, le),
  λ j a b. elim (Bool-cases (eqb i j)) [
    | inl same ↦ let name : i ≡ j = ground (arith, same) in rw (← name) (missed, early)
    | inr other ↦ before j (ground (arith, other, a)) b
  ],
)
widen answers deadline i (timed_out n) missed early (late, le, before) = (
  late,
  omega (arith, le),
  λ j a b. elim (Bool-cases (eqb i j)) [
    | inl same ↦ let name : i ≡ j = ground (arith, same) in rw (← name) missed
    | inr other ↦ before j (ground (arith, other, a)) b
  ],
)

ends_here :
    (answers : ℕ → Attempt) (deadline fuel i : ℕ)
    → (answers i).got ≡ true ⊎ (deadline ≤ (answers i).at)
    → (a : Acquired) × (acquire_from answers deadline (suc fuel) i ≡ some a)
      × IsEnd answers deadline i a
unfolding acquire_from
ends_here answers deadline fuel i h = elim (Bool-cases (answers i).got) [
  | inl got ↦ (
    held i,
    rw got refl,
    (got, omega arith, λ j a b. (ground (arith, a, b), ground (arith, a, b))),
  )
  | inr missed ↦
      let late : deadline ≤ (answers i).at = ground (arith, h, missed) in
      (
        timed_out i,
        rw (missed, le→leb deadline (answers i).at late) refl,
        (late, omega arith, λ j a b. let name : i ≡ j = omega (arith, a, b) in rw (← name) missed),
      )
]

acquire_from_ends :
    (answers : ℕ → Attempt) (retry_delay deadline fuel i : ℕ)
    → ((j : ℕ) → (answers j).at + retry_delay ≤ (answers (j + 1)).at)
    → deadline ≤ (answers i).at + fuel * retry_delay
    → (a : Acquired) × (acquire_from answers deadline (suc fuel) i ≡ some a)
      × IsEnd answers deadline i a
unfolding acquire_from
acquire_from_ends answers d deadline zero i paced enough =
    ends_here answers deadline zero i (inr (omega (arith, enough)))
acquire_from_ends answers d deadline (suc fuel) i paced enough = elim (Bool-cases (answers i).got) [
  | inl got ↦ ends_here answers deadline (suc fuel) i (inl got)
  | inr missed ↦ elim (Bool-cases (leb deadline (answers i).at)) [
    | inl late ↦ ends_here answers deadline (suc fuel) i (inr (leb→le deadline (answers i).at late))
    | inr early ↦
        let (a, e, end) =
          acquire_from_ends answers d deadline fuel (i + 1) paced
            (omega (arith, enough, paced i)) in
        (a, rw (missed, early) e, widen answers deadline i a missed (ground (arith, early)) end)
  ]
]

-- What a call's way says of the attempts, of the nodes and of the manager after it.
abbrev pub IsOutcome :
    (answers : ℕ → Attempt)
    → (ready : List Bool) → (deadline : ℕ) → String
    → Manager
    → Manager × Way
    → Type 0
IsOutcome answers ready deadline key m (m', on_redlock i) =
    (m.degraded ≡ false) × (m' ≡ m) × IsEnd answers deadline 0 (held i)
IsOutcome answers ready deadline key m (m', in_process t) =
    (m'.degraded ≡ true)
    × ((m'.memory_fallback, t) ≡ acquire key m.memory_fallback)
    × (m.degraded ≡ true
        ⊎ ((any (λ r. r) ready ≡ false) × (i : ℕ) × IsEnd answers deadline 0 (timed_out i)))
IsOutcome answers ready deadline key m (m', refused) =
    (m.degraded ≡ false)
    × (m' ≡ m)
    × (any (λ r. r) ready ≡ true)
    × (i : ℕ) × IsEnd answers deadline 0 (timed_out i)

after_redlock_lem :
    (answers : ℕ → Attempt) (ready : List Bool) (deadline : ℕ) (key : String) (m : Manager)
    (a : Acquired)
    → m.degraded ≡ false
    → IsEnd answers deadline 0 a
    → IsOutcome answers ready deadline key m (after_redlock key ready m a)
unfolding after_redlock run_in_process
after_redlock_lem answers ready deadline key m (held i) up end = (up, refl, end)
after_redlock_lem answers ready deadline key m (timed_out i) up end =
    elim (Bool-cases (any (λ r. r) ready)) [
      | inl some_ready ↦ rw some_ready (up, refl, some_ready, i, end)
      | inr none_ready ↦ rw none_ready (refl, refl, inr (none_ready, i, end))
    ]

-- Where the attempts come at least the retry delay apart, a call of `withLock` comes to its function
-- or is refused after ⌈timeout / delay⌉ + 1 attempts at most: its function runs under the lock of
-- the nodes where an attempt before the deadline or the first one after it got it; it is refused
-- where none did and some node is ready; and it is put on the manager in memory where none did and
-- no node is ready, or where the manager had degraded before, which it then stays.
pub with_lock_ends :
    (acquire_timeout retry_delay n : ℕ) (answers : ℕ → Attempt) (ready : List Bool) (now : ℕ)
    (key : String) (m : Manager)
    → IsPaced retry_delay now answers
    → acquire_timeout ≤ n * retry_delay
    → (out : Manager × Way) × (with_lock acquire_timeout (suc n) answers ready now key m ≡ some out)
      × IsOutcome answers ready (now + acquire_timeout) key m out
unfolding with_lock run_in_process
with_lock_ends timeout d n answers ready now key m (first, paced) enough =
    let (a, e, end) =
      acquire_from_ends answers d (now + timeout) n 0 paced (omega (arith, first, enough)) in
    elim (Bool-cases m.degraded) [
      | inl down ↦ (run_in_process key m, rw down refl, (down, refl, inl down))
      | inr up ↦ (
        after_redlock key ready m a,
        simp (up, e) refl,
        after_redlock_lem answers ready (now + timeout) key m a up end,
      )
    ]
