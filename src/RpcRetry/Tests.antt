-- ===== src/RpcRetry/Tests.antt =====
-- A breaker with a threshold of two, and a probe that is aborted.
use x402_facilitator_stellar.Common.{
  ℕ, ◌≤◌, ◌≡◌, refl, ◌↔◌, true, false, ◌&&◌, not, none, some, arith, eqb,
}
use x402_facilitator_stellar.RpcRetry.{
  opened, Circuit, new, record_failure, gate, Options, Dial, breaker_open, retrying_fetch,
  attempts_from, calculate_backoff, Outcome, answers, retryable,
}
use x402_facilitator_stellar.RpcRetry.Breaker.{retrying_fetch_dials}

abbrev options : Options
options = record {
  attempts = 3;
  base_delay = 800;
  max_delay = 10000;
  max_jitter = 1000;
  jitter = none;
  deadline = some 30000;
  threshold = 2;
  cooldown = 30000;
}

abbrev dial : Outcome → ℕ → Dial
dial o attempt = record { started = attempt; outcome = o; ended = attempt; draw = λ n. 0 }

abbrev down : Circuit
down = record new { state = opened; consecutive_failures = 2; opened_at = 10 }

refused : retrying_fetch options false 20 (dial answers) down ≡ (down, breaker_open, 0)
unfolding retrying_fetch gate
refused = refl

tried : (retrying_fetch options false 20 (dial retryable) new).2 ≡ 3
unfolding retrying_fetch gate attempts_from record_failure calculate_backoff
tried = refl

retrying_fetch_dials_example :
    let (_, answer, n) = retrying_fetch options false 20 (dial answers) down in
    let refused = not false && not (gate 30000 20 down).1 in
    ((answer ≡ breaker_open) ↔ (refused ≡ true)) × (eqb n 0 ≡ refused) × (n ≤ 3)
retrying_fetch_dials_example =
    retrying_fetch_dials options false 20 (dial answers) down (omega arith)
