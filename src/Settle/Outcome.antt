-- ===== src/Settle/Outcome.antt =====
-- What one settlement leaves behind, and when it can be tried again.
use mathlib.Core.List.{append-nil}
use x402_facilitator_stellar.Common.{
  ℕ, String, ◌≡◌, refl, sym, Bool, true, false, Option, none, some, List, [], ◌∷◌, ◌++◌, arith,
  str_eq, get_or,
}
use x402_facilitator_stellar.Common.Dict
use x402_facilitator_stellar.Common.Dict.{Map}
use x402_facilitator_stellar.EventStore.{State, Response, initiate}
use x402_facilitator_stellar.Settlement.{Notification, get, settle_and_enqueue, after}
use x402_facilitator_stellar.Settlement.Log.{ended}
use x402_facilitator_stellar.Idempotency
use x402_facilitator_stellar.Idempotency.{Entry, Claim, owned, replayed, conflict, completed}
use x402_facilitator_stellar.Idempotency.Memory.{fail_releases, get-complete}
use x402_facilitator_stellar.Request.{Request, Digests, store_key, idempotency_key}
use x402_facilitator_stellar.Settle.{
  World, answer_from_record, settled_once, settle_failed, finish, settle, answers, throws, Cause,
  error_reason, is_retryable, settled_details, caught_details, event_of, publish_direct,
  submitted_timeout, request_timeout, lock_timeout, breaker_open, unregistered, unexpected,
  retryable_reasons,
}
use x402_facilitator_stellar.Settle.Replies.{
  MaySettle, held, held_record, settle_lem, ended_record, get-finish, owned_lem,
}

abbrev pub notices : Option Notification → List Notification
notices none = []
notices (some e) = e ∷ []

publish_direct_lem :
    (e : Option Notification) (w : World)
    → ((publish_direct e w).store ≡ w.store)
      × ((publish_direct e w).records ≡ w.records)
      × ((publish_direct e w).published ≡ w.published ++ notices e)
publish_direct_lem none w = (refl, refl, sym (append-nil w.published))
publish_direct_lem (some e) w = (refl, refl, refl)

retryable_known :
    (cause : Cause) (submitted : Bool)
    → is_retryable (some (error_reason cause submitted)) ≡ true
    → str_eq (error_reason cause submitted) "submitted_outcome_unknown" ≡ false
unfolding error_reason retryable_reasons
retryable_known submitted_timeout submitted h = cc
retryable_known request_timeout true h = cc
retryable_known request_timeout false h = refl
retryable_known lock_timeout submitted h = refl
retryable_known breaker_open submitted h = refl
retryable_known unregistered submitted h = refl
retryable_known unexpected submitted h = refl

module _ (d : Digests) (w : World) (r : Request) (now : ℕ) (may : MaySettle d w r now) where
  settled_world :
      (result : Response)
      → result.success ≡ true
      → settled_once d (held d w r now) r result now
        ≡ publish_direct (event_of w r result) (record (held d w r now) {
          store = after (held d w r now).store (
              settle_and_enqueue
                (held d w r now).store
                (store_key d r)
                (settled_details result)
                (event_of w r result)
                now);
          records = Idempotency.complete (idempotency_key d r) 200 result (held d w r now).records;
        })
  unfolding settled_once
  settled_world result good = rw good

  pub recorded :
      (result : Response)
      → Dict.get (idempotency_key d r) (settled_once d (held d w r now) r result now).records
        ≡ some (completed 200 (some result))
  unfolding settled_once
  recorded result = ground (
    arith,
    get-complete (idempotency_key d r) 200 result (held d w r now).records,
    publish_direct_lem (event_of w r result),
  )

  published_lem :
      (result : Response)
      → result.success ≡ true
      → (settled_once d (held d w r now) r result now).published
        ≡ w.published ++ notices (event_of w r result)
  published_lem result good =
      rw (settled_world result good) (publish_direct_lem (event_of w r result) _).2

  -- A successful settlement is recorded with its hash and its answer, and completes the claim; a
  -- configured webhook is handed the notification once, and an absent one nothing.
  pub settle_success :
      (result : Response)
      → result.success ≡ true
      → let w' = (settle d w true r (answers result) now).0 in
        (get w'.store (store_key d r)
          ≡ some (ended (held_record d w r now) State.settled (settled_details result) now))
        × (Dict.get (idempotency_key d r) w'.records ≡ some (completed 200 (some result)))
        × (w'.published ≡ w.published ++ notices (event_of w r result))
  unfolding ended_record finish
  settle_success result good = rw (settle_lem d w r now may (answers result)) (
    ground (arith, get-finish d w r now (answers result)),
    recorded result,
    published_lem result good,
  )

  pub released :
      (cause : Cause) (submitted : Bool) (message : String)
      → str_eq (error_reason cause submitted) "submitted_outcome_unknown" ≡ false
      → (finish d (held d w r now) r (throws cause submitted message) now).0.records
        ≡ Idempotency.fail (idempotency_key d r) (held d w r now).records
  unfolding finish settle_failed
  released cause submitted message h = rw h

  -- An error that is thrown with a retryable reason is recorded as failed, with that reason and its
  -- message, and gives the claim back: the same request may settle again at any later time.
  pub settle_retry :
      (cause : Cause) (submitted : Bool) (message : String) (later : ℕ)
      → is_retryable (some (error_reason cause submitted)) ≡ true
      → let w' = (settle d w true r (throws cause submitted message) now).0 in
        (get w'.store (store_key d r)
          ≡ some (
              ended
                (held_record d w r now)
                State.failed
                (caught_details
                  (some (get_or r.payment.transaction ""))
                  (error_reason cause submitted)
                  message)
                now))
        × MaySettle d w' r later
  unfolding ended_record answer_from_record held_record initiate
  settle_retry cause submitted message later retryable =
      let known = retryable_known cause submitted retryable in
      let ending = throws cause submitted message in
      rw (settle_lem d w r now may ending) (
        ground (arith, known, get-finish d w r now ending),
        record {
          unanswered = ground (
            arith,
            known,
            get-finish d w r now (throws cause submitted message),
            owned_lem (ended_record d w r now (throws cause submitted message)) r refl,
          );
          unclaimed =
              rw (released cause submitted message known)
                ((fail_releases (idempotency_key d r) w.records).0 may.unclaimed);
        },
      )
