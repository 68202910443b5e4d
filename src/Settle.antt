-- ===== src/Settle.antt =====
-- The /settle handler (src/app.js) over the in-memory settlement and idempotency stores.
-- The facilitator (@x402/core) is not part of this repository: what it answers or throws is an
-- argument. Metrics, spans, audit lines and the cataloguing of the resource are left out.
pub mod Replies
pub mod System
pub mod Claims
pub mod Exclusion
pub mod Overlap
pub mod Tests
pub mod Anomalies
pub mod Outcome
use x402_facilitator_stellar.Common.{
  str_append, ℕ, zero, suc, ◌+◌, ◌-◌, ◌*◌, ◌/◌, ◌%◌, ◌^◌, ◌≤◌, ◌<◌, min, max, String, ◌≡◌, refl,
  sym, ap, ◌∙◌, ◌≢◌, ◌↔◌, ◌⊎◌, inl, inr, Bool, true, false, ◌&&◌, ◌||◌, not, Option, none, some,
  List, [], ◌∷◌, ◌++◌, map, arith, str_eq, eq_iff, eq_refl, ltb, leb, eqb, ltb→lt, lt→ltb, leb→le,
  le→leb, if◌then◌else◌, Bool-cases, Option-cases, get_or, or_else, is_some, length, take, drop,
  select, any, all, find, All, length-append, length-select-le, All-append, All-select,
  select-select, Result, ok, err, ◌>>=◌, ◌>>◌, throw_if, >>=-eq-ok,
}
use x402_facilitator_stellar.Common.Dict
use x402_facilitator_stellar.Common.Dict.{Map}
use x402_facilitator_stellar.Common.Text.{trim, same_upper}
use x402_facilitator_stellar.EventStore.{State, Response, Projection, EventError}
use x402_facilitator_stellar.Settlement.{
  Store, Record, Details, Notification, get, save, update_state, settle_and_enqueue, after,
}
use x402_facilitator_stellar.Idempotency
use x402_facilitator_stellar.Idempotency.{Entry, Claim, owned, replayed, conflict}
use x402_facilitator_stellar.Request.{
  Payment, Request, Digests, non_empty, derive_idempotency_key, store_key, idempotency_key,
}

-- `webhooks` says whether they are configured; `published` is what was handed to them directly.
pub record World : Type 0 where
  pub store : Store
  pub records : Map (Entry Response)
  pub webhooks : Bool
  pub published : List Notification

pub data Reply : Type 0 where
  rate_limited : Reply
  sent : (status : ℕ) → Response → Reply
  replay_sent : (status : Option ℕ) → Option Response → Reply
  conflict_sent : Reply

-- A key id that is absent or empty on either side owns every record.
abbrev pub same_owner : (recorded mine : Option String) → Bool
same_owner none mine = true
same_owner (some id) none = true
same_owner (some id) (some own) = same_upper id own

abbrev pub owned_by_caller : Projection → Request → Bool
owned_by_caller p r = same_owner (non_empty p.key_id) (non_empty r.key_id)

unfoldable pub retryable_reasons : List String
retryable_reasons =
    "rate_limited" ∷ "catalog_rate_limited" ∷ "soroban_rpc_unreachable" ∷ "lock_timeout"
    ∷ "request_timeout" ∷ []

abbrev pub is_retryable : Option String → Bool
is_retryable none = false
is_retryable (some reason) = any (str_eq reason) retryable_reasons

abbrev pub answer :
    Bool → (transaction network payer error_reason error_message : Option String) → Response
answer success transaction network payer error_reason error_message = record {
  success = success;
  transaction = transaction;
  network = network;
  payer = payer;
  error_reason = error_reason;
  error_message = error_message;
  fee_stroops = none;
}

-- `x || ''`.
abbrev or_empty : Option String → Option String
or_empty o = some (get_or (non_empty o) "")

unfoldable pub settled_reply : Projection → Reply
settled_reply p = elim p.response [
  | some r ↦ sent 200 r
  | none ↦ sent 200 (answer true p.tx_hash (some p.network) p.payer none none)
]

unfoldable pub unknown_reply : Projection → Reply
unknown_reply p = sent 200 (
    answer false (or_empty p.tx_hash) (some p.network) none (some "submitted_outcome_unknown")
      (some (get_or (non_empty p.error_message) "settlement in progress or outcome unknown")))

unfoldable pub failed_reply : Projection → Reply
failed_reply p = elim p.response [
  | some r ↦ sent 200 r
  | none ↦
      sent 200
        (answer false (or_empty p.tx_hash) (some p.network) none p.error_reason p.error_message)
]

-- The answer from the record that is there, or none where the settlement may go ahead.
unfoldable pub answer_from_record : Option Projection → Request → Option Reply
answer_from_record none r = none
answer_from_record (some p) r =
    if owned_by_caller p r
    then elim p.state [
      | State.settled ↦ some (settled_reply p)
      | State.submitted ↦ some (unknown_reply p)
      | State.unknown ↦ some (unknown_reply p)
      | State.failed ↦ if is_retryable p.error_reason then none else some (failed_reply p)
    ]
    else none

abbrev pub record_of : Digests → Request → Record
record_of d r = record {
  idempotency_key = store_key d r;
  network = some r.payment.network;
  scheme = some r.payment.scheme;
  payer = r.payment.payer;
  pay_to = r.payment.pay_to;
  asset = r.payment.asset;
  amount = r.payment.amount;
  tx_hash = none;
  key_id = r.key_id;
}

-- From `settlementStore.save` to the claim of the idempotency key: none where the caller owns it.
unfoldable pub claim : Digests → World → Request → (now : ℕ) → World × Option Reply
claim d w r now =
    let w' = record w { store = after w.store (save w.store (record_of d r) now) } in
    let (records, c) = Idempotency.begin (idempotency_key d r) w'.records in
    (
      record w' { records = records },
      elim c [
        | owned ↦ none
        | replayed code response ↦ some (replay_sent code response)
        | conflict ↦ some conflict_sent
      ],
    )

abbrev event_of : World → Request → Response → Option Notification
event_of w r result =
    if w.webhooks
    then some (record {
      transaction = result.transaction;
      network = result.network;
      payer = result.payer;
      pay_to = r.payment.pay_to;
      amount = r.payment.amount;
      asset = r.payment.asset;
    })
    else none

abbrev publish_direct : Option Notification → World → World
publish_direct none w = w
publish_direct (some e) w = record w { published = w.published ++ e ∷ [] }

abbrev settled_details : Response → Details
settled_details result = record {
  tx_hash = result.transaction;
  error_reason = none;
  error_message = none;
  response = some result;
}

abbrev failed_details : Response → Details
failed_details result = record {
  tx_hash = non_empty result.transaction;
  error_reason = some (get_or (non_empty result.error_reason) "facilitator_error");
  error_message = non_empty result.error_message;
  response = some result;
}

-- `settleOnce` after the facilitator has answered. The memory store never enqueues the event
-- itself, so a configured webhook is handed it here.
unfoldable pub settled_once : Digests → World → Request → Response → (now : ℕ) → World
settled_once d w r result now =
    let records = Idempotency.complete (idempotency_key d r) 200 result w.records in
    let event = event_of w r result in
    let enqueued = settle_and_enqueue w.store (store_key d r) (settled_details result) event now in
    let updated = update_state w.store (store_key d r) State.failed (failed_details result) now in
    if result.success
    then publish_direct event (record w { store = after w.store enqueued; records = records })
    else record w { store = after w.store updated; records = records }

-- What the `catch` of the handler can see: the error, and its message.
pub data Cause : Type 0 where
  submitted_timeout request_timeout lock_timeout breaker_open unregistered unexpected : Cause

-- `submitted` is the flag of the request's state: a sendTransaction has been dialled.
unfoldable pub error_reason : Cause → (submitted : Bool) → String
error_reason submitted_timeout submitted = "submitted_outcome_unknown"
error_reason request_timeout submitted =
    if submitted then "submitted_outcome_unknown" else "request_timeout"
error_reason lock_timeout submitted = "lock_timeout"
error_reason breaker_open submitted = "soroban_rpc_unreachable"
error_reason unregistered submitted = "unsupported_scheme_network"
error_reason unexpected submitted = "facilitator_error"

abbrev caught_details : Option String → String → String → Details
caught_details transaction reason message = record {
  tx_hash = transaction;
  error_reason = some reason;
  error_message = some message;
  response = none;
}

unfoldable pub settle_failed :
    Digests
    → World
    → Request
    → Cause
    → (submitted : Bool) → (message : String) → (now : ℕ) → World × Reply
settle_failed d w r cause submitted message now =
    let reason = error_reason cause submitted in
    let is_unknown = str_eq reason "submitted_outcome_unknown" in
    let transaction = some (get_or r.payment.transaction "") in
    let records =
      if is_unknown then w.records else Idempotency.fail (idempotency_key d r) w.records in
    let target = if is_unknown then State.unknown else State.failed in
    (
      record w {
        store = after w.store (
            update_state w.store (store_key d r) target (caught_details transaction reason message)
              now);
        records = records;
      },
      sent 200
          (answer false transaction (some r.payment.network) none (some reason) (some message)),
    )

-- How the race of the settlement against its time limit ends.
pub data Ending : Type 0 where
  answers : Response → Ending
  throws : Cause → (submitted : Bool) → (message : String) → Ending

unfoldable pub finish : Digests → World → Request → Ending → (now : ℕ) → World × Reply
finish d w r (answers result) now = (settled_once d w r result now, sent 200 result)
finish d w r (throws cause submitted message) now = settle_failed d w r cause submitted message now

claimed : Digests → World × Option Reply → Request → Ending → ℕ → World × Reply
claimed d (w, some reply) r ending now = (w, reply)
claimed d (w, none) r ending now = finish d w r ending now

-- One request from its arrival to its answer, with no other request in between. `allowed` is the
-- verdict of the rate limiter.
unfoldable pub settle :
    Digests → World → (allowed : Bool) → Request → Ending → (now : ℕ) → World × Reply
unfolding claimed
settle d w allowed r ending now =
    if allowed
    then elim (answer_from_record (get w.store (store_key d r)) r) [
      | some reply ↦ (w, reply)
      | none ↦ claimed d (claim d w r now) r ending now
    ]
    else (w, rate_limited)
