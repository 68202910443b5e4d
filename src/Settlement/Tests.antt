-- ===== src/Settlement/Tests.antt =====
-- A short history of the memory store, and the theorems about it.
use x402_facilitator_stellar.Common.{◌≡◌, refl, none, some, List, [], ◌∷◌}
use x402_facilitator_stellar.Common.Dict
use x402_facilitator_stellar.EventStore.{
  State, Projection, project_settlement, apply_event, initiate, terminate, create_settlement_event,
  event_type_for_state,
}
use x402_facilitator_stellar.Settlement.{
  Store, Record, Details, new, get, save, update_state, stream, append, transition, saved_payload,
}
use x402_facilitator_stellar.Settlement.Refinement.{
  Op, saves, updates, step, run, run_refines, status, spec_run,
}
use x402_facilitator_stellar.Settlement.Audit.{IsLog, run-new-IsLog}

abbrev pub record_k : Record
record_k = record {
  idempotency_key = "k";
  network = some "stellar:testnet";
  scheme = some "exact";
  payer = none;
  pay_to = none;
  asset = none;
  amount = some "5";
  tx_hash = none;
  key_id = none;
}

abbrev pub details : Details
details = record { tx_hash = some "h"; error_reason = none; error_message = none; response = none }

abbrev pub history : List Op
history =
    saves record_k 1
    ∷ updates "k" State.unknown details 2
    ∷ updates "j" State.settled details 3
    ∷ updates "k" State.submitted details 4
    ∷ updates "k" State.settled details 5
    ∷ []

abbrev submitted_k : Projection
submitted_k = initiate none (saved_payload record_k) 1

abbrev one : Store
one = run new (saves record_k 1 ∷ [])

opened : Unit {0}
unfolding run step save append get project_settlement apply_event initiate terminate
    create_settlement_event Dict.get Dict.set update_state transition event_type_for_state
opened = tt

one-get : get one "k" ≡ some submitted_k
unfolding opened
one-get = refl

run_refines_example : status (run new history) "k" ≡ spec_run (λ j. none) history "k"
run_refines_example = run_refines history "k"

run-new-IsLog_example : IsLog "k" (stream (run new history) "k")
run-new-IsLog_example = run-new-IsLog history "k"

settled_at_last : status (run new history) "k" ≡ some State.settled
unfolding opened
settled_at_last = refl
