-- ===== src/Settle/System.antt =====
-- Overlapping calls of /settle (src/app.js) as a sequence of events on one process.
use x402_facilitator_stellar.Common.{
  ℕ, String, ◌≡◌, Bool, true, false, Option, none, some, List, [], ◌∷◌, if◌then◌else◌,
}
use x402_facilitator_stellar.Common.Dict
use x402_facilitator_stellar.Common.Dict.{Map}
use x402_facilitator_stellar.EventStore.{Response}
use x402_facilitator_stellar.Request.{Request, Digests}
use x402_facilitator_stellar.Settle.{
  World, Reply, claim, settled_once, settle_failed, Cause, submitted_timeout, request_timeout,
}

-- A request that the facilitator is at work on; it may have been answered already, by a time limit.
pub record Running : Type 0 where
  pub request : Request
  pub answered : Bool

pub record System : Type 0 where
  pub world : World
  pub running : Map Running

-- What happens, in the order in which it takes effect, where no distributed lock is configured,
-- which is the default. `arrives`: a request whose record, read at
-- some earlier time, did not answer it, claims its key. `returns` and `raises`: the facilitator
-- answers or throws. `times_out`: the time limit ends the race, and the facilitator works on.
pub data Act : Type 0 where
  arrives : String → Request → ℕ → Act
  returns : String → Response → ℕ → Act
  raises : String → Cause → (submitted : Bool) → (message : String) → ℕ → Act
  times_out : String → (submitted : Bool) → (message : String) → ℕ → Act

abbrev pub timeout_cause : Bool → Cause
timeout_cause submitted = if submitted then submitted_timeout else request_timeout

module _ (d : Digests) where
  -- The request runs if it owns its key, and is answered if not.
  unfoldable pub admit : System → String → Request → World → Option Reply → System
  admit s id r w none = record {
    world = w;
    running = Dict.set id (record { request = r; answered = false }) s.running;
  }
  admit s id r w (some answer) = record s { world = w }

  unfoldable pub arrive : System → String → Request → ℕ → System
  arrive s id r now = let (w, reply) = claim d s.world r now in admit s id r w reply

  unfoldable pub return_to : System → String → Running → Response → ℕ → System
  return_to s id x result now = record {
    world = settled_once d s.world x.request result now;
    running = Dict.delete id s.running;
  }

  -- After the time limit the handler is over, and an error of the facilitator reaches nobody.
  unfoldable pub raise_to : System → String → Running → Cause → Bool → String → ℕ → System
  raise_to s id x cause submitted message now = record {
    world =
        if x.answered
        then s.world
        else (settle_failed d s.world x.request cause submitted message now).0;
    running = Dict.delete id s.running;
  }

  unfoldable pub time_out : System → String → Running → Bool → String → ℕ → System
  time_out s id x submitted message now = if x.answered then s else record {
    world = (settle_failed d s.world x.request (timeout_cause submitted) submitted message now).0;
    running = Dict.set id (record x { answered = true }) s.running;
  }

  unfoldable pub exec : System → Act → System
  exec s (arrives id r now) = elim (Dict.get id s.running) [ none ↦ arrive s id r now | some x ↦ s ]
  exec s (returns id result now) = elim (Dict.get id s.running) [
    | none ↦ s
    | some x ↦ return_to s id x result now
  ]
  exec s (raises id cause submitted message now) = elim (Dict.get id s.running) [
    | none ↦ s
    | some x ↦ raise_to s id x cause submitted message now
  ]
  exec s (times_out id submitted message now) = elim (Dict.get id s.running) [
    | none ↦ s
    | some x ↦ time_out s id x submitted message now
  ]

  unfoldable pub exec_all : System → List Act → System
  exec_all s [] = s
  exec_all s (a ∷ as_) = exec_all (exec s a) as_

-- No time limit ends before the transaction was submitted.
abbrev pub IsLate : Act → Type 0
IsLate (times_out id submitted message now) = submitted ≡ true
IsLate _ = Unit {0}
