-- ===== src/PgSettlement/History.antt =====
-- The tables after any calls, rebuilds among them (src/store/postgres.js).
use x402_facilitator_stellar.Common.{
  String, ◌≡◌, refl, inl, inr, Bool, true, false, none, some, List, [], ◌∷◌, arith, str_eq, eq_iff,
  eq_refl, if◌then◌else◌, Bool-cases, Option-cases, length, All,
}
use x402_facilitator_stellar.Common.Dict
use x402_facilitator_stellar.EventStore.{Event, Projection, project_settlement}
use x402_facilitator_stellar.PgSettlement.{Row, Database, events_of, rebuild_sql}
use x402_facilitator_stellar.PgSettlement.Store.{
  Fate, answered, lost, refused, Store, World, is_local, rebuild_projection, get_event_log,
}
use x402_facilitator_stellar.PgSettlement.Log.{IsKept, versioned}
use x402_facilitator_stellar.PgSettlement.Writes.{perform, world}
use x402_facilitator_stellar.PgSettlement.Safety.{Made, perform-IsKept}
use x402_facilitator_stellar.PgSettlement.Repair.{log_read}

-- A call that writes, or a rebuild of a projection, with what becomes of its two statements.
pub data Deed : Type 0 where
  writes : Made → Deed
  rebuilds : Store → String → (log_fate fate : Fate) → Deed

abbrev pub after_deed : Database → Deed → Database
after_deed db (writes m) = perform m.store db m.call m.now m.here m.fate
after_deed db (rebuilds s k log_fate fate) =
    (rebuild_projection (world s db) k log_fate fate).0.database

pub history : Database → List Deed → Database
history db [] = db
history db (d ∷ ds) = history (after_deed db d) ds

-- The query for the log of a rebuild does not fail.
abbrev pub ReadsLog : Deed → Type 0
ReadsLog (writes m) = Unit
ReadsLog (rebuilds s k log_fate fate) = log_fate ≡ answered

replaced-IsKept :
    (db : Database) (k : String) (p : Projection)
    → ((j : String) → IsKept db j)
    → project_settlement (events_of k db.logged) ≡ some p
    → (j : String) → IsKept (rebuild_sql db k p (length (events_of k db.logged))).0 j
unfolding rebuild_sql versioned
replaced-IsKept db k p kept projects j =
    let row : Row = record { projection = p; version = length (events_of k db.logged) } in
    elim (Bool-cases (str_eq k j)) [
      | inl same ↦
          let name : k ≡ j = ground (arith, eq_iff k j, same) in
          ((kept j).0, rw (← name, projects, Dict.get-set k k row db.projections, eq_refl k) refl)
      | inr other ↦ ((kept j).0, rw (Dict.get-set k j row db.projections, other) (kept j).1)
    ]

-- What a rebuild writes where the log projects to nothing, and where it projects to something.
rebuilt_none :
    (w : World) (k : String) (fate : Fate) (log : List Event)
    → is_local w.store ≡ false
    → (get_event_log w k answered).1 ≡ log
    → project_settlement log ≡ none
    → (rebuild_projection w k answered fate).0.database ≡ w.database
unfolding rebuild_projection
rebuilt_none w k fate log shared logged nothing = rw (shared, logged, nothing) refl

abbrev is_done : Fate → Bool
is_done refused = false
is_done _ = true

rebuilt_some :
    (w : World) (k : String) (fate : Fate) (log : List Event) (p : Projection)
    → is_local w.store ≡ false
    → (get_event_log w k answered).1 ≡ log
    → project_settlement log ≡ some p
    → (rebuild_projection w k answered fate).0.database
      ≡ (if is_done fate then (rebuild_sql w.database k p (length log)).0 else w.database)
unfolding rebuild_projection rebuild_sql
rebuilt_some w k answered log p shared logged projects =
    rw (shared, logged, projects) (rw logged refl)
rebuilt_some w k lost log p shared logged projects = rw (shared, logged, projects) (rw logged refl)
rebuilt_some w k refused log p shared logged projects = rw (shared, logged, projects) refl

rebuild-IsKept :
    (s : Store) (db : Database) (k : String) (fate : Fate)
    → ((j : String) → IsKept db j)
    → (j : String) → IsKept (rebuild_projection (world s db) k answered fate).0.database j
unfolding rebuild_projection
rebuild-IsKept s db k fate kept j = elim (Bool-cases (is_local s)) [
  | inl alone ↦ rw alone (kept j)
  | inr shared ↦
      let read = log_read (world s db) k shared (kept k).0 in
      elim (Option-cases (project_settlement (events_of k db.logged))) [
        | inl nothing ↦ rw (rebuilt_none (world s db) k fate _ shared read nothing) (kept j)
        | inr (p, projects) ↦ elim (Bool-cases (is_done fate)) [
          | inl done ↦
              rw (rebuilt_some (world s db) k fate _ p shared read projects, done)
                (replaced-IsKept db k p kept projects j)
          | inr failed ↦
              rw (rebuilt_some (world s db) k fate _ p shared read projects, failed) (kept j)
        ]
      ]
]

-- Whatever saves, updates, settlements and rebuilds processes call, and whatever statements fail or
-- lose their answer, except that the query of a rebuild for the log does not fail and that nothing
-- is written between it and the rebuild's own write: each key's events stay numbered from 1 without
-- gaps and its projection stays the one of its log, with the length of the log for its version.
pub history-IsKept :
    (db : Database) (ds : List Deed)
    → ((k : String) → IsKept db k)
    → All ReadsLog ds
    → (j : String) → IsKept (history db ds) j
unfolding history
history-IsKept db [] kept reads j = kept j
history-IsKept db (writes m ∷ ds) kept reads j =
    history-IsKept (after_deed db (writes m)) ds (perform-IsKept db m kept) reads.1 j
history-IsKept db (rebuilds s k log_fate fate ∷ ds) kept (read, reads) j =
    history-IsKept (after_deed db (rebuilds s k log_fate fate)) ds
      (λ i. rw read (rebuild-IsKept s db k fate kept i)) reads j
