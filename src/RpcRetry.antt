-- ===== src/RpcRetry.antt =====
-- Retries and the circuit breaker of the Soroban RPC (src/rpc-retry.js).
-- Times are whole milliseconds. What the network does is given for each attempt, and no other call
-- of the host comes between the attempts of one.
pub mod Breaker
pub mod Tests
use x402_facilitator_stellar.Common.{
  str_append, str_ne, ℕ, zero, suc, ◌+◌, ◌-◌, ◌*◌, ◌/◌, ◌%◌, ◌^◌, ◌≤◌, ◌<◌, min, max, String, ◌≡◌,
  refl, sym, ap, ◌∙◌, ◌≢◌, ◌↔◌, ◌⊎◌, inl, inr, Bool, true, false, ◌&&◌, ◌||◌, not, Option, none,
  some, List, [], ◌∷◌, ◌++◌, map, arith, str_eq, eq_iff, eq_refl, ltb, leb, eqb, ltb→lt, lt→ltb,
  leb→le, le→leb, if◌then◌else◌, Bool-cases, Option-cases, get_or, or_else, is_some, length, take,
  drop, select, any, all, find, All, length-append, length-select-le, All-append, All-select,
  select-select, All-take, select-holds, nth, All-map, All-weaken, All-nth, any-append, any-map,
  any-select, any-weaken, any-map-with, take_all, length-take-le, length-select-not, Result, ok,
  err, ◌>>=◌, ◌>>◌, throw_if, >>=-eq-ok,
}

pub data State : Type 0 where
  closed opened half_open : State

-- The breaker of one host.
pub record Circuit : Type 0 where
  pub state : State
  pub consecutive_failures : ℕ
  pub opened_at : ℕ
  pub probe_in_flight : Bool

abbrev pub new : Circuit
new = record { state = closed; consecutive_failures = 0; opened_at = 0; probe_in_flight = false }

abbrev is_open : State → Bool
is_open opened = true
is_open _ = false

abbrev is_half_open : State → Bool
is_half_open half_open = true
is_half_open _ = false

unfoldable pub record_failure : (threshold now : ℕ) → Circuit → Circuit
record_failure threshold now b =
    let b' = record b { consecutive_failures = b.consecutive_failures + 1 } in
    if (is_half_open b.state || leb threshold b'.consecutive_failures) && not (is_open b.state)
    then record b' { state = opened; opened_at = now }
    else b'

unfoldable pub record_success : Circuit → Circuit
record_success b = record b { state = closed; consecutive_failures = 0; probe_in_flight = false }

-- Whether a call may be dialled, and the breaker after the question.
unfoldable pub gate : (cooldown now : ℕ) → Circuit → Circuit × Bool
gate cooldown now b = elim b.state [
  | opened ↦
      if ltb now (b.opened_at + cooldown)
      then (b, false)
      else (record b { state = half_open; probe_in_flight = true }, true)
  | half_open ↦ (b, not b.probe_in_flight)
  | closed ↦ (b, true)
]

-- `jitter`: none is false, `some none` is true, `some (some n)` a bound of its own.
pub record Options : Type 0 where
  pub attempts : ℕ
  pub base_delay : ℕ
  pub max_delay : ℕ
  pub max_jitter : ℕ
  pub jitter : Option (Option ℕ)
  pub deadline : Option ℕ
  pub threshold : ℕ
  pub cooldown : ℕ

abbrev pub exp_delay : Options → (attempt : ℕ) → ℕ
exp_delay o attempt = min o.max_delay (o.base_delay * 2 ^ (max 1 attempt - 1))

-- `draw n` is `Math.floor(random() * n)`.
unfoldable pub calculate_backoff : Options → (draw : ℕ → ℕ) → (attempt : ℕ) → ℕ
calculate_backoff o draw attempt = elim o.jitter [
  | none ↦ exp_delay o attempt
  | some own ↦
      let bound = get_or own (min (exp_delay o attempt) o.max_jitter) in
      let value = if ltb 0 bound then draw bound else 0 in
      min o.max_delay (exp_delay o attempt + value)
]

-- How a dial ends: an answer, a connection error that is retried, or any other error.
pub data Outcome : Type 0 where
  answers retryable other_error : Outcome

-- One attempt: its start, how and when it ends, and the draw of its jitter.
pub record Dial : Type 0 where
  pub started : ℕ
  pub outcome : Outcome
  pub ended : ℕ
  pub draw : ℕ → ℕ

pub data Answer : Type 0 where
  answered thrown breaker_open : Answer

abbrev is_past : Option ℕ → ℕ → Bool
is_past none t = false
is_past (some d) t = leb d t

-- `t > deadline`.
abbrev is_after : Option ℕ → ℕ → Bool
is_after none t = false
is_after (some d) t = ltb d t

abbrev retried : Circuit × Answer × ℕ → Circuit × Answer × ℕ
retried (b, answer, n) = (b, answer, suc n)

-- The loop from an attempt on, with `left` attempts left; the last number counts the dials.
unfoldable pub attempts_from :
    Options → (until : Option ℕ) → (ℕ → Dial) → (left attempt : ℕ) → Circuit → Circuit × Answer × ℕ
attempts_from o until dials zero attempt b = (b, thrown, 0)
attempts_from o until dials (suc left) attempt b =
    let dial = dials attempt in
    let failed = record_failure o.threshold dial.ended b in
    let rest = attempts_from o until dials left (suc attempt) failed in
    if ltb 1 attempt && is_past until dial.started then (b, thrown, 0) else elim dial.outcome [
      | answers ↦ (record_success b, answered, 1)
      | other_error ↦ (b, thrown, 1)
      | retryable ↦
          if eqb left 0
            || is_past until dial.ended
            || is_after until (dial.ended + calculate_backoff o dial.draw attempt)
          then (failed, thrown, 1)
          else retried rest
    ]

abbrev until_of : Options → (now : ℕ) → Option ℕ
until_of o now = elim o.deadline [ none ↦ none | some d ↦ if eqb d 0 then none else some (now + d) ]

-- A sendTransaction is `protected`: it passes by the gate.
unfoldable pub retrying_fetch :
    Options → (protected : Bool) → (now : ℕ) → (ℕ → Dial) → Circuit → Circuit × Answer × ℕ
retrying_fetch o protected now dials b =
    if protected
    then attempts_from o (until_of o now) dials o.attempts 1 b
    else (let (b', passes) = gate o.cooldown now b in
        if passes
        then attempts_from o (until_of o now) dials o.attempts 1 b'
        else (b', breaker_open, 0))
