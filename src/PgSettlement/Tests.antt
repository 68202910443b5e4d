-- ===== src/PgSettlement/Tests.antt =====
-- The Postgres settlement store at concrete inputs.
use x402_facilitator_stellar.Common.{
  ◌+◌, String, ◌≡◌, refl, ◌⊎◌, true, false, none, some, List, [], ◌∷◌, ◌++◌, map, is_some, length,
  err,
}
use x402_facilitator_stellar.Common.Dict
use x402_facilitator_stellar.EventStore.{
  State, Projection, project_settlement, apply_event, initiate, terminate, create_settlement_event,
  event_type_for_state,
}
use x402_facilitator_stellar.Settlement
use x402_facilitator_stellar.Settlement.{get_event_log, new, save, append, get}
use x402_facilitator_stellar.Settlement.Tests.{record_k, details, history}
use x402_facilitator_stellar.Settlement.Audit.{Numbered}
use x402_facilitator_stellar.Settlement.Refinement.{Op, run}
use x402_facilitator_stellar.PgSettlement.{
  Database, Notice, get_sql, log_sql, events_of, max_seq, save_sql, update_sql,
}
use x402_facilitator_stellar.PgSettlement.Store.{
  answered, refused, lost, Store, World, rebuild_projection,
}
use x402_facilitator_stellar.PgSettlement.Log.{IsKept, versioned}
use x402_facilitator_stellar.PgSettlement.Refinement.{run_sql, step_sql, empty, run_sql_refines}
use x402_facilitator_stellar.PgSettlement.Writes.{Call}
use x402_facilitator_stellar.PgSettlement.Safety.{Made, state_in, has_event}
use x402_facilitator_stellar.PgSettlement.History
use x402_facilitator_stellar.PgSettlement.History.{Deed, writes, rebuilds, history-IsKept}
use x402_facilitator_stellar.PgSettlement.Transaction.{
  is_answer, at_insert, settle_transaction, settle_and_enqueue_atomic,
}
use x402_facilitator_stellar.PgSettlement.Repair.{rebuild_projection-from_memory}

abbrev pod : Store
pod = record { pool = true; replica = false; degraded = false; local = new }

abbrev notice : Notice
notice = record { type = "settlement.completed"; id = none; payload = "{}" }

abbrev calls : List Made
calls =
    record { store = pod; call = Call.saves record_k; now = 1; here = 1; fate = answered }
    ∷ record {
      store = pod;
      call = Call.updates "k" State.unknown details;
      now = 2;
      here = 2;
      fate = refused;
    }
    ∷ record {
      store = pod;
      call = Call.settles "k" details (some notice) none "r";
      now = 3;
      here = 3;
      fate = lost;
    }
    ∷ []

-- The tables with one settlement that was submitted.
abbrev one_row : Database
one_row = run_sql empty (Op.saves record_k 1 ∷ [])

abbrev local_one : Settlement.Store
local_one = run new (Op.saves record_k 1 ∷ [])

abbrev shared : World
shared = record { store = record pod { local = local_one }; database = one_row }

opened : Unit {0}
unfolding run_sql step_sql save_sql update_sql events_of max_seq Dict.get Dict.set get_sql
    project_settlement apply_event initiate terminate versioned run Settlement.Refinement.step save
    append get create_settlement_event event_type_for_state log_sql get_event_log
opened = tt

run_sql_refines_example :
    (log_sql (run_sql empty history) "k" ≡ get_event_log (run new history) "k")
    × (get_sql (run_sql empty history) "k"
        ≡ versioned (get (run new history) "k") (length (get_event_log (run new history) "k")))
run_sql_refines_example = run_sql_refines history "k"

empty-IsKept : (k : String) → IsKept empty k
unfolding opened
empty-IsKept k = (tt, refl)

one-IsKept : IsKept one_row "k"
unfolding opened
one-IsKept = ((refl, tt), refl)

one_there : is_some (get_sql one_row "k") ≡ true
unfolding opened
one_there = refl

one_projection : Projection
one_projection = initiate none (Settlement.saved_payload record_k) 1

local_known : get local_one "k" ≡ some one_projection
unfolding opened one_projection
local_known = refl

one_projects : project_settlement (events_of "k" one_row.logged) ≡ some one_projection
unfolding opened one_projection
one_projects = refl

one-Numbered : Numbered 0 (events_of "k" one_row.logged)
unfolding opened
one-Numbered = (refl, tt)

one_submitted : one_projection.state ≡ State.submitted
unfolding one_projection initiate
one_submitted = refl

abbrev deeds : List Deed
deeds = rebuilds pod "k" answered lost ∷ map writes calls ++ rebuilds pod "k" answered answered ∷ []

history-IsKept_example : IsKept (History.history empty deeds) "k"
history-IsKept_example =
    history-IsKept empty deeds empty-IsKept (refl, (tt, (tt, (tt, (refl, tt))))) "k"

settle_and_enqueue_atomic_example :
    let (s, r) = settle_transaction at_insert one_row "k" details (some notice) "r" 3 in
    (s.work ≡ none)
    × (is_answer r ≡ false)
    × (((s.committed ≡ one_row) × (r ≡ err tt))
        ⊎ ((length (log_sql s.committed "k") ≡ length (log_sql one_row "k") + 1)
            × (state_in s.committed "k" ≡ some State.settled)
            × (has_event "r" s.committed.outbox ≡ true)))
settle_and_enqueue_atomic_example =
    settle_and_enqueue_atomic at_insert one_row "k" details notice "r" 3 one-IsKept one_there

-- The projection's row is lost.
abbrev damaged : World
damaged = record shared { database = record one_row { projections = [] } }

-- Another process has settled it meanwhile.
abbrev behind : World
behind = record shared { database = step_sql one_row (Op.updates "k" State.settled details 2) }

rebuild_projection-from_memory_example :
    get_sql (rebuild_projection behind "k" refused answered).0.database "k"
    ≡ some (record { projection = one_projection; version = length (get_event_log local_one "k") })
rebuild_projection-from_memory_example =
    rebuild_projection-from_memory behind "k" one_projection refl local_known
