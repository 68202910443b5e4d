-- ===== src/Request.antt =====
-- A request of POST /settle and the keys that are derived from it (src/app.js, src/store/memory.js,
-- src/idempotency.js).
use x402_facilitator_stellar.Common.{str_append, String, Option, none, some, str_eq, if◌then◌else◌}
use x402_facilitator_stellar.Common.Text.{trim}
use x402_facilitator_stellar.Idempotency
use x402_facilitator_stellar.Idempotency.{Entry, Claim, owned, replayed, conflict}

-- The parts of a request's body that the handler reads.
pub record Payment : Type 0 where
  pub network : String
  pub scheme : String
  pub payer : Option String
  pub pay_to : Option String
  pub asset : Option String
  pub amount : Option String
  pub transaction : Option String

-- `header` is the Idempotency-Key header; `key_id` is that of the API key, none in open mode.
pub record Request : Type 0 where
  pub key_id : Option String
  pub header : Option String
  pub payment : Payment

-- SHA-256 in hexadecimal, and the JSON texts of a body and of its payment payload.
pub record Digests : Type 0 where
  pub sha : String → String
  pub body_json : Payment → String
  pub payload_json : Payment → String

-- `x && x.trim()`, as a text that is not empty.
abbrev pub non_empty : Option String → Option String
non_empty none = none
non_empty (some s) = if str_eq s "" then none else some s

abbrev trimmed : Option String → Option String
trimmed none = none
trimmed (some s) = non_empty (some (trim s))

module _ (d : Digests) where
  unfoldable pub derive_idempotency_key : Request → String
  derive_idempotency_key r = elim (trimmed r.header) [
    | some h ↦ h
    | none ↦ elim (trimmed r.payment.transaction) [
      | some tx ↦ str_append "derived:" (d.sha tx)
      | none ↦ str_append "derived:" (d.sha (d.payload_json r.payment))
    ]
  ]

  -- Keyed callers have a namespace each.
  unfoldable pub store_key : Request → String
  store_key r = elim (non_empty r.key_id) [
    | some id ↦ str_append id (str_append ":" (derive_idempotency_key r))
    | none ↦ derive_idempotency_key r
  ]

  -- The key of the idempotency store is read from the header and the body alone.
  unfoldable pub idempotency_key : Request → String
  idempotency_key r = Idempotency.key_for (λ p. d.sha (d.body_json p)) r.header r.payment
