-- ===== src/PgSettlement/Repair.antt =====
-- The repair of a projection, and reads that do not show the tables (src/store/postgres.js).
use x402_facilitator_stellar.Common.{
  ℕ, String, ◌≡◌, refl, ap, ◌∙◌, ◌≢◌, true, false, Option, none, some, List, arith, eq_iff, eq_refl,
  is_some, length,
}
use x402_facilitator_stellar.Common.Dict
use x402_facilitator_stellar.Common.Sort.{sort_by_sorted}
use x402_facilitator_stellar.EventStore.{
  event_type_for_state, EventType, State, Event, Projection, project_settlement,
}
use x402_facilitator_stellar.Settlement
use x402_facilitator_stellar.Settlement.{Record, Details, updated_payload, stamp}
use x402_facilitator_stellar.Settlement.Audit.{Numbered}
use x402_facilitator_stellar.Settlement.Refinement.{Op}
use x402_facilitator_stellar.PgSettlement.{
  Row, Database, by_seq, events_of, get_sql, rebuild_sql, log_sql,
}
use x402_facilitator_stellar.PgSettlement.Store.{
  Fate, answered, refused, World, Shown, is_local, rebuild_projection, get_event_log,
  get_consistent, Poll,
}
use x402_facilitator_stellar.PgSettlement.Log.{IsKept, versioned}
use x402_facilitator_stellar.PgSettlement.Refinement.{step_sql, Numbered-IsSorted}
use x402_facilitator_stellar.PgSettlement.Safety.{state_in, state_of_row, update_sql-there}

rebuilt :
    (w : World) (k : String) (fate : Fate) (log : List Event) (p : Projection)
    → is_local w.store ≡ false
    → (get_event_log w k fate).1 ≡ log
    → project_settlement log ≡ some p
    → (rebuild_projection w k fate answered).0.database ≡ record w.database {
      projections =
          Dict.set k (record { projection = p; version = length log }) w.database.projections;
    }
unfolding rebuild_projection rebuild_sql
rebuilt w k fate log p shared logged projects = rw (shared, logged, projects) (rw logged refl)

pub log_read :
    (w : World) (k : String)
    → is_local w.store ≡ false
    → Numbered 0 (events_of k w.database.logged)
    → (get_event_log w k answered).1 ≡ events_of k w.database.logged
unfolding get_event_log log_sql
log_read w k shared numbered = rw shared (sort_by_sorted by_seq _ (Numbered-IsSorted 0 _ numbered))

-- Whatever became of a projection's row, a rebuild from a log that projects to something puts the
-- row of that log there, and touches no other key's.
pub rebuild_projection_repairs :
    (w : World) (k : String) (p : Projection)
    → is_local w.store ≡ false
    → Numbered 0 (events_of k w.database.logged)
    → project_settlement (events_of k w.database.logged) ≡ some p
    → let db' = (rebuild_projection w k answered answered).0.database in
      IsKept db' k × ((j : String) → j ≢ k → get_sql db' j ≡ get_sql w.database j)
unfolding get_sql versioned
rebuild_projection_repairs w k p shared numbered projects =
    let log = events_of k w.database.logged in
    let row : Row = record { projection = p; version = length log } in
    rw (rebuilt w k answered log p shared (log_read w k shared numbered) projects) (
      (numbered, rw (projects, Dict.get-set k k row w.database.projections, eq_refl k) refl),
      λ j other. ground (arith, eq_iff k j, Dict.get-set k j row w.database.projections, other),
    )

-- A rebuild whose read of the log fails answers that read from the process's own memory, and then
-- writes what the memory projects to into the database, whatever the log there says.
pub rebuild_projection-from_memory :
    (w : World) (k : String) (p : Projection)
    → is_local w.store ≡ false
    → Settlement.get w.store.local k ≡ some p
    → get_sql (rebuild_projection w k refused answered).0.database k
      ≡ some
          (record { projection = p; version = length (Settlement.get_event_log w.store.local k) })
unfolding get_sql get_event_log Settlement.get Settlement.get_event_log
rebuild_projection-from_memory w k p shared known =
    let log = Settlement.stream w.store.local k in
    let row : Row = record { projection = p; version = length log } in
    rw
      (
        rebuilt w k refused log p shared (rw shared refl) known,
        Dict.get-set k k row w.database.projections,
        eq_refl k,
      )
      refl

abbrev pub shown_state : Option Shown → Option State
shown_state none = none
shown_state (some x) = some x.projection.state

-- A process that saved a settlement answers its own status reads from its own copy: after another
-- process has settled it, the tables say that it is settled, and the consistent read still says
-- that it is submitted, whatever the replica shows and however long it waits.
pub get_consistent_stale :
    (w : World) (k : String) (p : Projection) (d : Details) (later : ℕ)
    → is_some (get_sql w.database k) ≡ true
    → Settlement.get w.store.local k ≡ some p
    → p.state ≡ State.submitted
    → let v : World = record w {
      database = step_sql w.database (Op.updates k State.settled d later);
    } in
      (state_in v.database k ≡ some State.settled)
      × ((seen : Database) (limit : ℕ) (polls : List Poll) (fate : Fate)
          → shown_state (get_consistent v seen limit polls k fate).1 ≡ some State.submitted)
unfolding get_sql step_sql event_type_for_state get_consistent
get_consistent_stale w k p d later there local submitted =
    let (r, returned, stored, settled) =
      update_sql-there w.database k EventType.settled State.settled d later there in
    (
      ap state_of_row stored ∙ ap some settled,
      λ seen limit polls fate. rw (get_consistent, local) (ap some submitted),
    )
