-- ===== src/Settle/Replies.antt =====
-- What a repeated request is answered with: a retry never settles twice.
use x402_facilitator_stellar.Common.{
  ℕ, String, ◌≡◌, refl, sym, ap, ◌∙◌, ◌≢◌, ◌⊎◌, true, false, Option, none, some, arith, str_eq,
  eq_iff, eq_refl, if◌then◌else◌, get_or,
}
use x402_facilitator_stellar.Common.Text.{same_upper_self}
use x402_facilitator_stellar.EventStore.{State, Projection, initiate}
use x402_facilitator_stellar.Settlement.{Details, get, save, after, saved_payload}
use x402_facilitator_stellar.Settlement.Log.{ended}
use x402_facilitator_stellar.Settlement.Lifecycle.{
  get-after-save, get-after-update_state, get-after-settle_and_enqueue,
}
use x402_facilitator_stellar.Idempotency
use x402_facilitator_stellar.Idempotency.{Entry, Claim, owned, replayed, conflict}
use x402_facilitator_stellar.Request.{Request, Digests, store_key, idempotency_key, non_empty}
use x402_facilitator_stellar.Settle.{
  World, Reply, owned_by_caller, same_owner, answer_from_record, record_of, claim, settled_once,
  settle_failed, finish, settle, Ending, answers, throws, error_reason, is_retryable, settled_reply,
  unknown_reply, failed_reply, settled_details, failed_details, caught_details, event_of,
}

module _ (d : Digests) (w : World) (r : Request) (now : ℕ) where
  -- The request may settle: no record answers it, and it can claim its idempotency key.
  pub record MaySettle : Type 0 where
    pub unanswered : answer_from_record (get w.store (store_key d r)) r ≡ none
    pub unclaimed : (Idempotency.begin (idempotency_key d r) w.records).1 ≡ owned

  -- The world after the claim.
  abbrev pub held : World
  held = record w {
    store = after w.store (save w.store (record_of d r) now);
    records = (Idempotency.begin (idempotency_key d r) w.records).0;
  }

  -- The record that the claim saves.
  unfoldable pub held_record : Projection
  held_record = initiate (get w.store (store_key d r)) (saved_payload (record_of d r)) now

  claim_lem :
      (Idempotency.begin (idempotency_key d r) w.records).1 ≡ owned → claim d w r now ≡ (held, none)
  unfolding claim
  claim_lem h = ground arith

  pub settle_lem :
      MaySettle → (ending : Ending) → settle d w true r ending now ≡ finish d held r ending now
  unfolding settle
  settle_lem may ending = rw (may.unanswered, claim_lem may.unclaimed)

  pub get-held : get held.store (store_key d r) ≡ some held_record
  unfolding held_record
  get-held =
      ground
        (arith, get-after-save w.store (record_of d r) now (store_key d r), eq_refl (store_key d r))

pub settle_answered :
    (d : Digests) (w : World) (r : Request) (now : ℕ) (ending : Ending) {reply : Reply}
    → answer_from_record (get w.store (store_key d r)) r ≡ some reply
    → settle d w true r ending now ≡ (w, reply)
unfolding settle
settle_answered d w r now ending h = rw h

-- The state and the details that an ending is recorded with.
abbrev pub final_state : Ending → State
final_state (answers result) = if result.success then State.settled else State.failed
final_state (throws cause submitted message) =
    if str_eq (error_reason cause submitted) "submitted_outcome_unknown"
    then State.unknown
    else State.failed

abbrev pub final_details : Request → Ending → Details
final_details r (answers result) =
    if result.success then settled_details result else failed_details result
final_details r (throws cause submitted message) =
    caught_details (some (get_or r.payment.transaction "")) (error_reason cause submitted) message

-- An ending that a repeated request must not try again. A message of an error is not empty.
abbrev pub IsFinal : Ending → Type 0
IsFinal (answers result) =
    (result.success ≡ true)
    ⊎ (is_retryable (some (get_or (non_empty result.error_reason) "facilitator_error")) ≡ false)
IsFinal (throws cause submitted message) =
    (is_retryable (some (error_reason cause submitted)) ≡ false) × (message ≢ "")

final_state-ne : (ending : Ending) → final_state ending ≢ State.submitted
final_state-ne (answers result) e = ground arith
final_state-ne (throws cause submitted message) e = ground arith

same_owner_self : (o : Option String) → same_owner o o ≡ true
same_owner_self none = refl
same_owner_self (some id) = same_upper_self id

pub owned_lem : (p : Projection) (r : Request) → p.key_id ≡ r.key_id → owned_by_caller p r ≡ true
owned_lem p r e =
    ap (λ (o : Option String). same_owner (non_empty p.key_id) (non_empty o)) (sym e)
    ∙ same_owner_self (non_empty p.key_id)

module _ (d : Digests) (w : World) (r : Request) (now : ℕ) where
  unfoldable pub ended_record : Ending → Projection
  ended_record ending =
      ended (held_record d w r now) (final_state ending) (final_details r ending) now

  pub get-finish :
      (ending : Ending)
      → get (finish d (held d w r now) r ending now).0.store (store_key d r)
        ≡ some (ended_record ending)
  unfolding ended_record finish settled_once settle_failed
  get-finish (answers result) = ground (
    arith,
    eq_refl (store_key d r),
    get-after-settle_and_enqueue (held d w r now).store (store_key d r) (settled_details result)
        (event_of (held d w r now) r result) now (held_record d w r now) (store_key d r)
        (get-held d w r now),
    get-after-update_state (held d w r now).store (store_key d r) State.failed
        (failed_details result) now (held_record d w r now) (store_key d r) (get-held d w r now)
        (λ e. cc),
  )
  get-finish (throws cause submitted message) = ground (
    arith,
    eq_refl (store_key d r),
    get-after-update_state (held d w r now).store (store_key d r)
        (final_state (throws cause submitted message))
        (final_details r (throws cause submitted message)) now (held_record d w r now)
        (store_key d r) (get-held d w r now) (final_state-ne (throws cause submitted message)),
  )

  -- No other key's record is touched.
  pub get-finish_other :
      (ending : Ending) (j : String)
      → str_eq (store_key d r) j ≡ false
      → get (finish d (held d w r now) r ending now).0.store j ≡ get w.store j
  unfolding finish settled_once settle_failed
  get-finish_other (answers result) j apart = ground (
    arith,
    get-after-save w.store (record_of d r) now j,
    get-after-settle_and_enqueue (held d w r now).store (store_key d r) (settled_details result)
        (event_of (held d w r now) r result) now (held_record d w r now) j (get-held d w r now),
    get-after-update_state (held d w r now).store (store_key d r) State.failed
        (failed_details result) now (held_record d w r now) j (get-held d w r now) (λ e. cc),
  )
  get-finish_other (throws cause submitted message) j apart = ground (
    arith,
    get-after-save w.store (record_of d r) now j,
    get-after-update_state (held d w r now).store (store_key d r)
        (final_state (throws cause submitted message))
        (final_details r (throws cause submitted message)) now (held_record d w r now) j
        (get-held d w r now) (final_state-ne (throws cause submitted message)),
  )

  -- The reply of the first request.
  unfoldable pub first_reply : Ending → Reply
  first_reply ending = (finish d (held d w r now) r ending now).1

  pub ended_answer :
      (ending : Ending)
      → IsFinal ending
      → answer_from_record (some (ended_record ending)) r ≡ some (first_reply ending)
  unfolding ended_record held_record initiate answer_from_record settled_reply unknown_reply
      failed_reply first_reply finish settle_failed
  ended_answer (answers result) final =
      ground (arith, owned_lem (ended_record (answers result)) r refl)
  ended_answer (throws cause submitted message) final = ground (
    arith,
    owned_lem (ended_record (throws cause submitted message)) r refl,
    eq_iff (get_or r.payment.transaction "") "",
    eq_iff message "",
    eq_iff (error_reason cause submitted) "submitted_outcome_unknown",
  )

  -- A request that has ended for good is answered once: the same request sent again, at any later
  -- time and whatever the facilitator would say to it, gets the same answer, and nothing changes.
  -- This holds of a success, of a failure whose reason is not a retryable one, and of an outcome
  -- that is unknown.
  pub settle_again :
      (ending again : Ending) (later : ℕ)
      → MaySettle d w r now
      → IsFinal ending
      → let (w', reply) = settle d w true r ending now in
        settle d w' true r again later ≡ (w', reply)
  unfolding first_reply
  settle_again ending again later may final = rw (settle_lem d w r now may ending) (
      settle_answered d (finish d (held d w r now) r ending now).0 r later again
        (ap (λ o. answer_from_record o r) (get-finish ending) ∙ ended_answer ending final))
