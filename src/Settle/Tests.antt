-- ===== src/Settle/Tests.antt =====
-- Concrete settlements: runs of the handler, and the theorems at inputs that meet their hypotheses.
use x402_facilitator_stellar.Common.{
  str_append, str_ne, ◌≡◌, refl, ◌≢◌, inl, true, false, none, some, List, [], ◌∷◌, length,
}
use x402_facilitator_stellar.Common.Dict
use x402_facilitator_stellar.Common.Dict.{Map}
use x402_facilitator_stellar.Common.Text.{trim, same_upper}
use x402_facilitator_stellar.EventStore.{
  State, Response, project_settlement, project_from, apply_event, check_fields,
  create_settlement_event, event_type_for_state, initiate, terminate,
}
use x402_facilitator_stellar.Settlement
use x402_facilitator_stellar.Settlement.{Store, new, get, Notification}
use x402_facilitator_stellar.Idempotency
use x402_facilitator_stellar.Idempotency.{Entry, pending, completed, owned}
use x402_facilitator_stellar.Settle
use x402_facilitator_stellar.Request.{
  Payment, Request, Digests, store_key, idempotency_key, derive_idempotency_key,
}
use x402_facilitator_stellar.Settle.{
  World, Reply, rate_limited, sent, replay_sent, conflict_sent, answer_from_record, settle, Ending,
  answers, throws, breaker_open, submitted_timeout, request_timeout, unexpected, settled_details,
  event_of, unknown_reply, is_retryable, retryable_reasons, error_reason, caught_details,
}
use x402_facilitator_stellar.Settle.System.{Act, arrives, returns, times_out, exec_all}
use x402_facilitator_stellar.Settle.Replies.{MaySettle, settle_again, held_record}
use x402_facilitator_stellar.Settle.Outcome.{settle_success, settle_retry, notices}
use x402_facilitator_stellar.Settle.Anomalies.{settle_crosses_tenants}
use x402_facilitator_stellar.Settle.Exclusion.{settle-IsExclusive}
use x402_facilitator_stellar.Settle.Claims.{IsExclusive}
use x402_facilitator_stellar.Settle.Overlap.{settle_overlaps}
use x402_facilitator_stellar.Settlement.Log.{ended}

abbrev pub digests : Digests
digests = record {
  sha = λ s. str_append "#" s;
  body_json = λ p. "body";
  payload_json = λ p. "payload";
}

abbrev pub world : World
world = record { store = new; records = []; webhooks = true; published = [] }

abbrev pub payment : Payment
payment = record {
  network = "stellar:testnet";
  scheme = "exact";
  payer = some "GPAYER";
  pay_to = some "GSELLER";
  asset = some "USDC";
  amount = some "100";
  transaction = some " AAAA ";
}

abbrev pub request : Request
request = record { key_id = some "A"; header = some " k1 "; payment = payment }

abbrev other_tenant : Request
other_tenant = record request { key_id = some "B" }

abbrev success : Response
success = record {
  success = true;
  transaction = some "hash";
  network = some "stellar:testnet";
  payer = some "GPAYER";
  error_reason = none;
  error_message = none;
  fee_stroops = some 100;
}

-- A failure that the facilitator answers, with a reason that a caller may retry.
abbrev unreachable : Response
unreachable = record success {
  success = false;
  transaction = none;
  error_reason = some "soroban_rpc_unreachable";
}

pub fresh : MaySettle digests world request 1
unfolding answer_from_record get project_settlement project_from store_key derive_idempotency_key
    Dict.get idempotency_key Idempotency.key_for Idempotency.begin
fresh = record { unanswered = refl; unclaimed = refl }

keys : store_key digests request ≡ "A:k1"
unfolding store_key derive_idempotency_key trim
keys = refl

derived : derive_idempotency_key digests (record request { header = some "  " }) ≡ "derived:#AAAA"
unfolding derive_idempotency_key trim
derived = refl

settle_again_example :
    let (w', reply) = settle digests world true request (answers success) 1 in
    settle digests w' true request (answers unreachable) 9 ≡ (w', reply)
settle_again_example =
    settle_again digests world request 1 (answers success) (answers unreachable) 9 fresh (inl refl)

settle_success_example :
    let w' = (settle digests world true request (answers success) 1).0 in
    (get w'.store (store_key digests request)
      ≡ some
          (ended (held_record digests world request 1) State.settled (settled_details success) 1))
    × (Dict.get (idempotency_key digests request) w'.records ≡ some (completed 200 (some success)))
    × (w'.published ≡ notices (event_of world request success))
settle_success_example = settle_success digests world request 1 fresh success refl

settle_retry_example :
    let w' = (settle digests world true request (throws breaker_open false "down") 1).0 in
    (get w'.store (store_key digests request)
      ≡ some (
          ended
            (held_record digests world request 1)
            State.failed
            (caught_details (some " AAAA ") (error_reason breaker_open false) "down")
            1))
    × MaySettle digests w' request 5
unfolding retryable_reasons error_reason
settle_retry_example =
    settle_retry digests world request 1 fresh breaker_open false "down" 5 retryable
  where
    retryable : is_retryable (some (error_reason breaker_open false)) ≡ true
    retryable = refl

apart : store_key digests request ≢ store_key digests other_tenant
unfolding store_key derive_idempotency_key trim
apart = str_ne _ _ refl

absent : get world.store (store_key digests other_tenant) ≡ none
unfolding get project_settlement project_from Dict.get
absent = refl

settle_crosses_tenants_example :
    let w' = (settle digests world true request (answers success) 1).0 in
    (settle digests w' true other_tenant (answers unreachable) 2).1
    ≡ replay_sent (some 200) (some success)
settle_crosses_tenants_example =
    settle_crosses_tenants digests world request other_tenant 1 2 " k1 " success
      (answers unreachable) fresh refl refl (str_ne _ _ refl) apart absent

-- Two attempts of one key and a third of another; the first times out after its submission.
abbrev overlapping : List Act
overlapping =
    arrives "r1" request 1
    ∷ arrives "r2" request 2
    ∷ times_out "r1" true "slow" 3
    ∷ arrives "r3" (record request { header = some "k2" }) 4
    ∷ returns "r1" success 5
    ∷ []

settle-IsExclusive_example :
    let s = exec_all digests (record { world = world; running = [] }) overlapping in
    IsExclusive digests s.world.records s.running
settle-IsExclusive_example =
    settle-IsExclusive digests world overlapping (tt, (tt, (refl, (tt, (tt, tt)))))

settle_overlaps_example :
    let s =
      exec_all digests
        (record { world = world; running = [] })
        (arrives "r1" request 1 ∷ times_out "r1" false "slow" 2 ∷ arrives "r2" request 3 ∷ []) in
    let timed_out =
      exec_all digests
        (record { world = world; running = [] })
        (arrives "r1" request 1 ∷ times_out "r1" false "slow" 2 ∷ []) in
    (answer_from_record (get timed_out.world.store (store_key digests request)) request ≡ none)
    × (Dict.get "r1" s.running ≡ some (record { request = request; answered = true }))
    × (Dict.get "r2" s.running ≡ some (record { request = request; answered = false }))
settle_overlaps_example =
    settle_overlaps digests world request "r1" "r2" "slow" 1 2 3 fresh.unclaimed (str_ne _ _ refl)

handler : Unit {0}
unfolding settle answer_from_record get project_settlement project_from Dict.get Dict.set
    Dict.delete Settle.claim Idempotency.begin Settle.finish Settle.settled_once
    Settlement.settle_and_enqueue Settlement.update_state Settlement.save store_key
    derive_idempotency_key trim Settlement.transition same_upper apply_event check_fields
    create_settlement_event event_type_for_state initiate terminate Idempotency.complete
    Idempotency.fail Idempotency.key_for error_reason Settle.failed_reply idempotency_key
    retryable_reasons Settle.settle_failed Settle.settled_reply unknown_reply
handler = tt

-- The whole handler at once: a success, its replay, and what the webhooks were handed.
run_twice :
    let (w1, first) = settle digests world true request (answers success) 1 in
    let (w2, second) = settle digests w1 true request (throws breaker_open false "down") 2 in
    (first ≡ sent 200 success) × (second ≡ sent 200 success) × (length w2.published ≡ 1)
unfolding handler
run_twice = (refl, refl, refl)
