-- ===== src/Settle/Anomalies.antt =====
-- Where a settlement ends otherwise than its caller is to expect.
use x402_facilitator_stellar.Settle.Outcome.{recorded, released}
use x402_facilitator_stellar.Common.{
  ℕ, String, ◌≡◌, refl, ap, ◌∙◌, ◌≢◌, true, false, none, some, arith, eq_iff, eq_refl, get_or,
}
use x402_facilitator_stellar.Common.Dict
use x402_facilitator_stellar.Common.Dict.{Map}
use x402_facilitator_stellar.EventStore.{State, Response, Projection, initiate}
use x402_facilitator_stellar.Settlement.{get, save, after, saved_payload}
use x402_facilitator_stellar.Settlement.Lifecycle.{get-after-save}
use x402_facilitator_stellar.Idempotency
use x402_facilitator_stellar.Idempotency.{Entry, Claim, owned, replayed, conflict, completed}
use x402_facilitator_stellar.Idempotency.Memory.{fail_releases, begin_completed}
use x402_facilitator_stellar.Request.{Request, Digests, store_key, idempotency_key, non_empty}
use x402_facilitator_stellar.Settle.{
  World, Reply, replay_sent, answer_from_record, record_of, claim, finish, settle, Ending, answers,
  throws, error_reason, is_retryable, unknown_reply, unexpected,
}
use x402_facilitator_stellar.Settle.Replies.{
  MaySettle, held, held_record, settle_lem, settle_answered, ended_record, get-finish,
  get-finish_other, owned_lem,
}

settle_replayed :
    (d : Digests) (w : World) (r : Request) (now : ℕ) (ending : Ending) (code : ℕ)
    (result : Response)
    → answer_from_record (get w.store (store_key d r)) r ≡ none
    → Dict.get (idempotency_key d r) w.records ≡ some (completed code (some result))
    → settle d w true r ending now ≡ (
      record w { store = after w.store (save w.store (record_of d r) now) },
      replay_sent (some code) (some result),
    )
unfolding settle claim
settle_replayed d w r now ending code result unanswered done =
    ground (arith, begin_completed (idempotency_key d r) code result w.records done)

same_header :
    (d : Digests) (a b : Request) (h : String)
    → a.header ≡ some h
    → b.header ≡ some h
    → h ≢ ""
    → idempotency_key d a ≡ idempotency_key d b
unfolding idempotency_key Idempotency.key_for
same_header d a b h e f ne = ground (arith, eq_iff h "")

-- Two callers with keys of their own may meet in the idempotency store: whoever sends the same
-- Idempotency-Key header as an earlier caller is handed the earlier caller's answer.
pub settle_crosses_tenants :
    (d : Digests) (w : World) (mine theirs : Request) (now later : ℕ) (h : String)
    (result : Response) (ending : Ending)
    → MaySettle d w mine now
    → mine.header ≡ some h
    → theirs.header ≡ some h
    → h ≢ ""
    → store_key d mine ≢ store_key d theirs
    → get w.store (store_key d theirs) ≡ none
    → let w' = (settle d w true mine (answers result) now).0 in
      (settle d w' true theirs ending later).1 ≡ replay_sent (some 200) (some result)
unfolding finish answer_from_record
settle_crosses_tenants d w mine theirs now later h result ending may e f ne apart absent =
    rw (settle_lem d w mine now may (answers result)) (
      ap (λ (p : World × Reply). p.1)
        (settle_replayed d _ theirs later ending 200 result
          (ground (
            arith,
            absent,
            eq_iff (store_key d mine) (store_key d theirs),
            get-finish_other d w mine now (answers result) (store_key d theirs),
          ))
          (rw (← same_header d mine theirs h e f ne) (recorded d w mine now may result))))

-- A failure that the facilitator answers with a retryable reason cannot be tried again, and its
-- record is lost: the second request is handed the first answer, and leaves the settlement in state
-- `submitted`, so that the third is told that the outcome is unknown.
pub settle_stuck :
    (d : Digests) (w : World) (r : Request) (now t u : ℕ) (result : Response) (e f : Ending)
    → MaySettle d w r now
    → result.success ≡ false
    → is_retryable (some (get_or (non_empty result.error_reason) "facilitator_error")) ≡ true
    → let w' = (settle d w true r (answers result) now).0 in
      let (w'', second) = settle d w' true r e t in
      (second ≡ replay_sent (some 200) (some result))
      × ((p : Projection) × (p.state ≡ State.submitted)
          × (get w''.store (store_key d r) ≡ some p)
          × ((settle d w'' true r f u).1 ≡ unknown_reply p))
unfolding ended_record held_record initiate answer_from_record finish
settle_stuck d w r now t u result e f may bad retryable =
    rw
      (
        settle_lem d w r now may (answers result),
        settle_replayed d w1 r t e 200 result open_again done,
      )
      (
        refl,
        (
          p2,
          refl,
          saved_again,
          ap (λ (p : World × Reply). p.1)
              (settle_answered d w2 r u f
                (ap (λ o. answer_from_record o r) saved_again ∙ unknown_again)),
        ),
      )
  where
    w1 : World
    w1 = (finish d (held d w r now) r (answers result) now).0

    w2 : World
    w2 = record w1 { store = after w1.store (save w1.store (record_of d r) t) }

    p2 : Projection
    p2 = initiate (get w1.store (store_key d r)) (saved_payload (record_of d r)) t

    unknown_again : answer_from_record (some p2) r ≡ some (unknown_reply p2)
    unknown_again = ground (arith, owned_lem p2 r refl)

    open_again : answer_from_record (get w1.store (store_key d r)) r ≡ none
    open_again = ground (
      arith,
      get-finish d w r now (answers result),
      owned_lem (ended_record d w r now (answers result)) r refl,
    )

    done : Dict.get (idempotency_key d r) w1.records ≡ some (completed 200 (some result))
    done = recorded d w r now may result

    saved_again : get w2.store (store_key d r) ≡ some p2
    saved_again =
        ground (
          arith,
          get-after-save w1.store (record_of d r) t (store_key d r),
          eq_refl (store_key d r),
        )

-- An error of no known kind gives the claim back and records a failure, also where the transaction
-- had been submitted by then.
pub settle_forgets_submission :
    (d : Digests) (w : World) (r : Request) (now : ℕ) (message : String)
    → MaySettle d w r now
    → let w' = (settle d w true r (throws unexpected true message) now).0 in
      ((Idempotency.begin (idempotency_key d r) w'.records).1 ≡ owned)
      × ((p : Projection) × (get w'.store (store_key d r) ≡ some p) × (p.state ≡ State.failed))
unfolding ended_record error_reason
settle_forgets_submission d w r now message may =
    rw (settle_lem d w r now may (throws unexpected true message)) (
      rw (released d w r now may unexpected true message refl)
          ((fail_releases (idempotency_key d r) w.records).0 may.unclaimed),
      (
        ended_record d w r now (throws unexpected true message),
        get-finish d w r now (throws unexpected true message),
        refl,
      ),
    )
