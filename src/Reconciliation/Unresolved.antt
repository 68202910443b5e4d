-- ===== src/Reconciliation/Unresolved.antt =====
-- The sweep over what POST /settle records of an unknown outcome (src/store/reconciliation.js,
-- src/app.js).
use x402_facilitator_stellar.Common.{
  ℕ, String, ◌≡◌, refl, sym, ap, ◌∙◌, ◌≢◌, true, Option, none, some, arith, eq_iff, eq_refl, get_or,
}
use x402_facilitator_stellar.EventStore.{State, Projection, initiate}
use x402_facilitator_stellar.Settlement.{Store, get, settle_and_enqueue}
use x402_facilitator_stellar.Settlement.Log.{ended}
use x402_facilitator_stellar.Settlement.Lifecycle.{get-after-settle_and_enqueue}
use x402_facilitator_stellar.Request.{Request, Digests, store_key}
use x402_facilitator_stellar.Settle.{
  World, sent, answer, settle, throws, submitted_timeout, answer_from_record, settled_reply,
  error_reason,
}
use x402_facilitator_stellar.Settle.Replies.{
  MaySettle, held_record, settle_lem, ended_record, get-finish, owned_lem,
}
use x402_facilitator_stellar.Reconciliation.Resolution.{counted-after}
use x402_facilitator_stellar.Reconciliation.{
  Answer, success, question, rpc_url, details, key_of, notification, act, resolve, set_text,
}

-- The record of a settlement whose outcome is unknown.
abbrev pub unknown_record : Digests → World → Request → (now : ℕ) → (message : String) → Projection
unknown_record d w r now message = ended_record d w r now (throws submitted_timeout true message)

get-unknown :
    (d : Digests) (w : World) (r : Request) (now : ℕ) (message : String)
    → MaySettle d w r now
    → get (settle d w true r (throws submitted_timeout true message) now).0.store (store_key d r)
      ≡ some (unknown_record d w r now message)
get-unknown d w r now message may =
    rw (settle_lem d w r now may (throws submitted_timeout true message))
      (get-finish d w r now (throws submitted_timeout true message))

unknown_record_lem :
    (d : Digests) (w : World) (r : Request) (now : ℕ) (message : String)
    → let p = unknown_record d w r now message in
      (p.state ≡ State.unknown)
      × (p.tx_hash ≡ some (get_or r.payment.transaction ""))
      × (p.idempotency_key ≡ some (store_key d r))
      × (p.network ≡ r.payment.network)
unfolding ended_record held_record initiate error_reason
unknown_record_lem d w r now message = (refl, refl, refl, refl)

resolve_skips :
    (urls : String → Option String) (rpc : String → String → Answer) (s : Store) (p : Projection)
    (later : ℕ)
    → set_text p.tx_hash ≡ none
    → resolve urls rpc s p later ≡ (s, 0)
unfolding resolve question
resolve_skips urls rpc s p later h = rw (resolve, question, h) refl

-- A settlement whose outcome is unknown and whose payment names no transaction is recorded without
-- a hash, so that no sweep asks about it: it stays unknown whatever the chain says.
pub settle_unresolved :
    (d : Digests) (w : World) (r : Request) (now : ℕ) (message : String)
    → MaySettle d w r now
    → r.payment.transaction ≡ none
    → let w' = (settle d w true r (throws submitted_timeout true message) now).0 in
      (p : Projection) × (get w'.store (store_key d r) ≡ some p)
      × (p.state ≡ State.unknown)
      × ((urls : String → Option String) (rpc : String → String → Answer) (s : Store) (later : ℕ)
          → resolve urls rpc s p later ≡ (s, 0))
settle_unresolved d w r now message may absent =
    let (state, hash, key, network) = unknown_record_lem d w r now message in
    (
      unknown_record d w r now message,
      get-unknown d w r now message may,
      state,
      λ urls rpc s later.
          resolve_skips urls rpc s (unknown_record d w r now message) later
            (ap set_text (hash ∙ ap (λ (o : Option String). some (get_or o "")) absent)),
    )

set_text_lem : (x : String) → x ≢ "" → set_text (some x) ≡ some x
set_text_lem x ne = ground (arith, eq_iff x "")

question_lem :
    (urls : String → Option String) (p : Projection) (url tx : String)
    → p.tx_hash ≡ some tx
    → tx ≢ ""
    → urls p.network ≡ some url
    → url ≢ ""
    → question urls p ≡ some (url, tx)
unfolding question rpc_url
question_lem urls p url tx hash ne known host =
    rw (question, ap set_text hash ∙ set_text_lem tx ne, rpc_url, known, set_text_lem url host) refl

resolve_asks :
    (urls : String → Option String) (rpc : String → String → Answer) (s : Store) (p : Projection)
    (url tx : String) (later : ℕ)
    → p.tx_hash ≡ some tx
    → tx ≢ ""
    → urls p.network ≡ some url
    → url ≢ ""
    → rpc url tx ≡ success
    → resolve urls rpc s p later ≡ act s p success later
unfolding resolve
resolve_asks urls rpc s p url tx later hash ne known host confirmed =
    rw (resolve, question_lem urls p url tx hash ne known host, confirmed) refl

get-act :
    (s : Store) (p q : Projection) (later : ℕ)
    → get s (key_of p) ≡ some q
    → get (act s p success later).0 (key_of p)
      ≡ some (ended q State.settled (details p none none) later)
unfolding act
get-act s p q later known =
    rw
      (counted-after s
        (settle_and_enqueue s (key_of p) (details p none none) (some (notification p)) later))
      (get-after-settle_and_enqueue s (key_of p) (details p none none) (some (notification p)) later
          q (key_of p) known
        ∙ rw (eq_refl (key_of p)) refl)

confirmed_answer :
    (d : Digests) (w : World) (r : Request) (now : ℕ) (message tx : String) (later : ℕ)
    → r.payment.transaction ≡ some tx
    → let p = unknown_record d w r now message in
      answer_from_record (some (ended p State.settled (details p none none) later)) r
      ≡ some (sent 200 (answer true (some tx) (some r.payment.network) r.payment.payer none none))
unfolding ended_record held_record initiate answer_from_record settled_reply
confirmed_answer d w r now message tx later named =
    let p = unknown_record d w r now message in
    ground (arith, named, owned_lem (ended p State.settled (details p none none) later) r refl)

-- A sweep believes the transaction that the caller wrote into the payment: if the chain knows that
-- one as successful, whatever it paid, the settlement whose outcome is unknown becomes settled, and
-- the same request sent again is answered with success and the caller's transaction.
pub settle_confirmed_by_caller :
    (d : Digests) (w : World) (r : Request) (now : ℕ) (message : String)
    (urls : String → Option String) (rpc : String → String → Answer) (url tx : String) (later : ℕ)
    → MaySettle d w r now
    → r.payment.transaction ≡ some tx
    → tx ≢ ""
    → urls r.payment.network ≡ some url
    → url ≢ ""
    → rpc url tx ≡ success
    → let w' = (settle d w true r (throws submitted_timeout true message) now).0 in
      (p : Projection) × (get w'.store (store_key d r) ≡ some p)
      × (p.state ≡ State.unknown)
      × (answer_from_record (get (resolve urls rpc w'.store p later).0 (store_key d r)) r
          ≡ some
              (sent 200 (answer true (some tx) (some r.payment.network) r.payment.payer none none)))
unfolding ended_record held_record initiate
settle_confirmed_by_caller d w r now message urls rpc url tx later may named ne host_known host
      confirmed =
    let p = unknown_record d w r now message in
    let (state, hash, key, network) = unknown_record_lem d w r now message in
    let s = (settle d w true r (throws submitted_timeout true message) now).0.store in
    let same = ap (λ (o : Option String). get_or o "") key in
    let stored = get-unknown d w r now message may in
    let known_after =
      ap (get (act s p success later).0) (sym same)
      ∙ get-act s p p later (ap (get s) same ∙ stored) in
    (
      p,
      get-unknown d w r now message may,
      state,
      rw
          (
            resolve_asks urls rpc s p url tx later
                (hash ∙ ap (λ (o : Option String). some (get_or o "")) named) ne host_known host
                confirmed,
            known_after,
          )
          (confirmed_answer d w r now message tx later named),
    )
