-- ===== src/Dlq/Tests.antt =====
-- A queue of one letter, and the theorems at its retries.
use x402_facilitator_stellar.Common.{String, ◌≡◌, refl, none, some, [], ◌∷◌, arith, ok}
use x402_facilitator_stellar.Common.Sort.{sort_by}
use x402_facilitator_stellar.Dlq.{
  pending, Letter, Table, Depth, default_options, due, is_due, claim_due, fail_row, get, discard,
  Outcome, accepts, throws, attempt_redelivery, poll_dlq_once, redeliver_all,
}
use x402_facilitator_stellar.Dlq.Manager.{purge}
use x402_facilitator_stellar.Dlq.Retries.{discard_undone}

abbrev letter : Letter String
letter = record {
  id = 1;
  message_id = "e1";
  source = "outbox";
  type = none;
  payload = "{}";
  error = none;
  delivery_attempts = 10;
  dlq_attempts = 0;
  status = pending;
  next_retry_at = 5;
  claimed_at = none;
  created_at = 5;
}

abbrev queue : Table String
queue = record { rows = letter ∷ []; next_id = 2 }

abbrev outcome : Letter String → Outcome
outcome r = accepts

polled : (poll_dlq_once default_options 50 60000 10 outcome queue).1.resolved ≡ 1
unfolding poll_dlq_once claim_due due is_due sort_by redeliver_all attempt_redelivery
polled = refl

there : get 1 queue ≡ some letter
unfolding get
there = refl

discard_undone_example :
    get 1 (attempt_redelivery default_options letter (throws "down") 10 (discard 1 queue)).0
    ≡ some (record (fail_row default_options "down" 10 letter) { status = pending })
discard_undone_example = discard_undone default_options letter "down" 10 queue there (omega arith)

purged : purge (some pending) none queue ≡ ok (record queue { rows = [] }, 1)
unfolding purge
purged = refl

abbrev deep : Depth
deep = record { pending = 3; exhausted = 1; resolved = 0; discarded = 0 }

abbrev shallow : Depth
shallow = record { pending = 1; exhausted = 0; resolved = 4; discarded = 0 }
