-- ===== src/ReadModel/Tests.antt =====
-- The projection worker at concrete inputs.
use x402_facilitator_stellar.Common.{
  ◌≤◌, String, ◌≡◌, refl, Bool, true, false, none, some, [], ◌∷◌, arith, str_eq, any,
}
use x402_facilitator_stellar.Common.Dict
use x402_facilitator_stellar.Common.Sort.{insert_by, sort_by}
use x402_facilitator_stellar.EventStore.{
  event_type_for_state, State, Projection, project_settlement, apply_event, initiate, terminate,
}
use x402_facilitator_stellar.Settlement.{Record, saved_payload, updated_payload}
use x402_facilitator_stellar.Settlement.Tests.{record_k, details}
use x402_facilitator_stellar.PgSettlement.{
  Database, max_seq, log_sql, events_of, save_sql, update_sql,
}
use x402_facilitator_stellar.PgSettlement.Refinement.{run_sql, step_sql, empty}
use x402_facilitator_stellar.Settlement.Refinement.{Op}
use x402_facilitator_stellar.ReadModel.{
  Worker, read_batch, process_batch, max_sequence, process_to_caught_up,
}
use x402_facilitator_stellar.ReadModel.Reading.{IsNamed, Shows}
use x402_facilitator_stellar.ReadModel.Progress.{process_to_caught_up_ends}
use x402_facilitator_stellar.ReadModel.Delivery.{
  process_batch-Shows, process_batches, process_batches_skip,
}

abbrev keyed : Record
keyed = record record_k { key_id = some "A" }

abbrev late : Record
late = record keyed { idempotency_key = "late" }

-- The settlement "k" has two events, the later one "late" has one.
two : Database
two =
    run_sql empty (Op.saves keyed 1 ∷ Op.updates "k" State.settled details 2 ∷ Op.saves late 3 ∷ [])

opened : Unit {0}
unfolding event_type_for_state two run_sql step_sql save_sql update_sql events_of max_seq Dict.get
    Dict.set log_sql read_batch sort_by insert_by max_sequence
opened = tt

abbrev none_fails : String → Bool
none_fails k = false

abbrev start : Worker
start = record { offset = 0; table = [] }

two-IsNamed : IsNamed two.logged
unfolding opened
two-IsNamed = (refl, (refl, (refl, tt)))

settled_k : Projection
settled_k =
    terminate (initiate none (saved_payload keyed) 1) State.settled (updated_payload "k" details) 2

two_projects : project_settlement (log_sql two "k") ≡ some settled_k
unfolding opened settled_k project_settlement apply_event initiate terminate
two_projects = refl

in_batch : any (λ e. str_eq e.0 "k") (read_batch two 0 10) ≡ true
unfolding opened
in_batch = refl

settled_key : settled_k.key_id ≡ some "A"
unfolding settled_k initiate terminate
settled_key = refl

process_batch-Shows_example :
    Shows "A" settled_k
      (Dict.get "k" start.table)
      (Dict.get "k" (process_batch two none_fails 10 start).table)
process_batch-Shows_example =
    process_batch-Shows two none_fails 10 start "k" "A" settled_k two-IsNamed in_batch refl
      two_projects settled_key

-- The checkpoint after the two events of "k".
abbrev ahead : Worker
ahead = record { offset = 2; table = [] }

late_low : max_seq (events_of "late" two.logged) ≤ 2
unfolding opened
late_low = omega arith

process_batches_skip_example :
    Dict.get "late" (process_batches two 10 (none_fails ∷ none_fails ∷ []) ahead).table
    ≡ Dict.get "late" ahead.table
process_batches_skip_example =
    process_batches_skip two 10 (none_fails ∷ none_fails ∷ []) ahead "late" two-IsNamed late_low

greatest : max_sequence two ≡ 2
unfolding opened
greatest = refl

process_to_caught_up_ends_example :
    process_to_caught_up two none_fails 10 100 start
    ≡ process_to_caught_up two none_fails 10 4 start
process_to_caught_up_ends_example =
    process_to_caught_up_ends two none_fails 10 4 100 start (omega (arith, greatest))
      (omega (arith, greatest)) (omega arith)
