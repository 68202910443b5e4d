-- ===== src/EventStore/Tests.antt =====
-- A stream with a retry and an event of a later version, and the theorems about it.
use x402_facilitator_stellar.Common.{
  ℕ, ◌≡◌, refl, none, some, List, map, [], ◌∷◌, ◌++◌, get_or, err,
}
use x402_facilitator_stellar.EventStore.{
  EventType, initiated, Payload, Event, Projection, create_settlement_event, missing_field, scheme,
  project_settlement, initiate, terminate,
}
use x402_facilitator_stellar.EventStore.Fold.{
  project_settlement_summary, summarise, extend, last_state, first_time, last_time, with_version,
}

abbrev empty_payload : Payload
empty_payload = record {
  idempotency_key = some "k";
  network = none;
  scheme = none;
  payer = none;
  pay_to = none;
  asset = none;
  amount = none;
  tx_hash = none;
  key_id = none;
  error_reason = none;
  error_message = none;
  response = none;
}

abbrev event : EventType → Payload → ℕ → Event
event t p at = record {
  envelope = record { event_type = t; event_version = 1; payload = p };
  seq = 1;
  recorded_at = at;
}

abbrev first_attempt : List Event
first_attempt =
    event initiated empty_payload 10
    ∷ event EventType.failed (record empty_payload { error_reason = some "down" }) 20
    ∷ []

abbrev second_attempt : List Event
second_attempt =
    event (EventType.other "SettlementReversed") empty_payload 40
    ∷ event EventType.settled (record empty_payload { tx_hash = some "h" }) 50
    ∷ []

abbrev retry : Event
retry = event initiated empty_payload 30

failed_record : Projection
unfolding project_settlement initiate terminate
failed_record = get_or (project_settlement first_attempt) (initiate none empty_payload 0)

failed_record_lem : project_settlement first_attempt ≡ some failed_record
unfolding failed_record
failed_record_lem = refl

project_settlement_summary_example :
    let es = first_attempt ++ retry ∷ second_attempt in
    (summarise (project_settlement es) ≡ extend none (last_state es) (first_time es) (last_time es))
    × ((v : Event → ℕ) → project_settlement (map (with_version v) es) ≡ project_settlement es)
project_settlement_summary_example =
    project_settlement_summary (first_attempt ++ retry ∷ second_attempt)

refused :
    create_settlement_event initiated (record empty_payload { network = some "n" })
    ≡ err (missing_field initiated scheme)
unfolding create_settlement_event
refused = refl
