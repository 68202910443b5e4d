-- ===== src/RpcRetry/Breaker.antt =====
-- When the breaker opens, what passes it, and how it can stay shut for good.
use x402_facilitator_stellar.Common.{
  ℕ, zero, suc, ◌+◌, ◌≤◌, ◌≡◌, ◌≢◌, ◌↔◌, Bool, true, false, ◌&&◌, not, Option, List, [], ◌∷◌, arith,
  leb, eqb, if◌then◌else◌, length,
}
use x402_facilitator_stellar.RpcRetry.{
  State, closed, opened, Circuit, record_failure, record_success, gate, Options, Dial, thrown,
  breaker_open, attempts_from, until_of, retrying_fetch, other_error,
}

pub failures : (threshold : ℕ) → List ℕ → Circuit → Circuit
failures threshold [] b = b
failures threshold (t ∷ ts) b = failures threshold ts (record_failure threshold t b)

abbrev opened_by : (threshold count : ℕ) → State
opened_by threshold count = if leb threshold count then opened else closed

failures_from :
    (threshold : ℕ) (ts : List ℕ) (b : Circuit)
    → 1 ≤ threshold
    → b.state ≡ opened_by threshold b.consecutive_failures
    → (failures threshold ts b).state ≡ opened_by threshold (b.consecutive_failures + length ts)
unfolding failures record_failure
failures_from threshold [] b h k = ground (arith, k)
failures_from threshold (t ∷ ts) b h k =
    ground (arith, k, failures_from threshold ts (record_failure threshold t b) h)

-- After a success the breaker is open exactly if at least as many failures as the threshold (which
-- is positive) have followed, without a success between them.
pub failures_open :
    (threshold : ℕ) (ts : List ℕ) (b : Circuit)
    → 1 ≤ threshold
    → (failures threshold ts (record_success b)).state
      ≡ (if leb threshold (length ts) then opened else closed)
unfolding record_success
failures_open threshold ts b h =
    ground (arith, h, failures_from threshold ts (record_success b) h (ground (arith, h)))

attempts_dials :
    (o : Options) (until : Option ℕ) (dials : ℕ → Dial) (left attempt : ℕ) (b : Circuit)
    → let (_, answer, n) = attempts_from o until dials left attempt b in
      (n ≤ left) × (answer ≢ breaker_open)
unfolding attempts_from
attempts_dials o until dials zero attempt b = (omega arith, cc)
attempts_dials o until dials (suc left) attempt b = ground (
  arith,
  attempts_dials o until dials left (suc attempt)
      (record_failure o.threshold (dials attempt).ended b),
)

dialled :
    (o : Options) (until : Option ℕ) (dials : ℕ → Dial) (left : ℕ) (b : Circuit)
    → 1 ≤ left
    → let (_, answer, n) = attempts_from o until dials left 1 b in
      (answer ≢ breaker_open) × (1 ≤ n) × (n ≤ left)
unfolding attempts_from
dialled o until dials zero b h = ground arith
dialled o until dials (suc left) b h =
    let (bound, other) = attempts_dials o until dials (suc left) 1 b in (other, ground arith, bound)

aborted :
    (o : Options) (until : Option ℕ) (dials : ℕ → Dial) (left : ℕ) (b : Circuit)
    → 1 ≤ left
    → (dials 1).outcome ≡ other_error
    → attempts_from o until dials left 1 b ≡ (b, thrown, 1)
unfolding attempts_from
aborted o until dials zero b h e = ground arith
aborted o until dials (suc left) b h e = ground (arith, e)

-- With at least one attempt, a call is refused unheard exactly if it is not a sendTransaction and
-- the gate does not let it pass; then nothing is dialled. Any other call is dialled, and as often
-- as there are attempts at most.
pub retrying_fetch_dials :
    (o : Options) (protected : Bool) (now : ℕ) (dials : ℕ → Dial) (b : Circuit)
    → 1 ≤ o.attempts
    → let (_, answer, n) = retrying_fetch o protected now dials b in
      let refused = not protected && not (gate o.cooldown now b).1 in
      ((answer ≡ breaker_open) ↔ (refused ≡ true)) × (eqb n 0 ≡ refused) × (n ≤ o.attempts)
unfolding retrying_fetch
retrying_fetch_dials o true now dials b h =
    ground (arith, h, dialled o (until_of o now) dials o.attempts b)
retrying_fetch_dials o false now dials b h =
    ground (arith, h, dialled o (until_of o now) dials o.attempts (gate o.cooldown now b).0)

-- A probe that ends with an error that is not retried, such as an abort, leaves the breaker half
-- open with the probe in flight: from then on every call but a sendTransaction is refused, however
-- late it comes, and the breaker stays as it is.
pub probe_stuck :
    (o : Options) (now later : ℕ) (dials dials' : ℕ → Dial) (b : Circuit)
    → 1 ≤ o.attempts
    → b.state ≡ opened
    → b.opened_at + o.cooldown ≤ now
    → (dials 1).outcome ≡ other_error
    → let b' = (retrying_fetch o false now dials b).0 in
      retrying_fetch o false later dials' b' ≡ (b', breaker_open, 0)
unfolding retrying_fetch gate
probe_stuck o now later dials dials' b h tripped cool abort = ground (
  arith,
  h,
  tripped,
  cool,
  aborted o (until_of o now) dials o.attempts (gate o.cooldown now b).0 h abort,
)
