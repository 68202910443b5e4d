-- ===== src/PgSettlement/Store.antt =====
-- The Postgres settlement store of one process: the database, the mirror of the process's own
-- writes in memory, and what happens when a statement fails (src/store/postgres.js).
use x402_facilitator_stellar.Common.{
  ℕ, String, Bool, true, false, ◌&&◌, ◌||◌, not, Option, none, some, List, [], ◌∷◌, map, leb,
  if◌then◌else◌, get_or, is_some, length, Result, ok, err, ◌>>=◌,
}
use x402_facilitator_stellar.EventStore.{
  State, Event, EventError, Projection, event_type_for_state, project_settlement,
}
use x402_facilitator_stellar.Settlement
use x402_facilitator_stellar.Settlement.{Record, Details, after}
use x402_facilitator_stellar.PgSettlement.{
  Row, Database, Notice, save_sql, update_sql, get_sql, unknown_sql, log_sql, audit_sql,
  rebuild_sql, settle_sql,
}

-- What becomes of a statement: its answer arrives; it is carried out but the answer is lost; it is
-- refused. The last two throw.
pub data Fate : Type 0 where
  answered lost refused : Fate

-- `local` is the state of the superclass, the store in memory.
pub record Store : Type 0 where
  pub pool : Bool
  pub replica : Bool
  pub degraded : Bool
  pub local : Settlement.Store

pub record World : Type 0 where
  pub store : Store
  pub database : Database

-- A settlement as a call returns it; only rows of the database have a version.
pub record Shown : Type 0 where
  pub projection : Projection
  pub version : Option ℕ

abbrev pub of_row : Row → Shown
of_row r = record { projection = r.projection; version = some r.version }

abbrev pub of_local : Option Projection → Option Shown
of_local none = none
of_local (some p) = some (record { projection = p; version = none })

abbrev pub of_rows : Option Row → Option Shown
of_rows none = none
of_rows (some r) = some (of_row r)

abbrev pub degrade : Store → Store
degrade s = record s { degraded = true }

abbrev pub is_local : Store → Bool
is_local s = s.degraded || not s.pool

abbrev pub uses_replica : Store → Bool
uses_replica s = s.replica && not s.degraded

-- The row that `super.save` is handed after a write.
abbrev pub record_of : String → Projection → Record
record_of k p = record {
  idempotency_key = k;
  network = some p.network;
  scheme = some p.scheme;
  payer = p.payer;
  pay_to = p.pay_to;
  asset = p.asset;
  amount = p.amount;
  tx_hash = p.tx_hash;
  key_id = p.key_id;
}

abbrev pub save_local : World → Record → ℕ → Result EventError (World × Option Shown)
save_local w r now = do
  s ← Settlement.save w.store.local r now
  ok (record w { store = record w.store { local = s.0 } }, of_local s.1)

-- `now` is the clock of the database, `here` that of the process.
unfoldable pub save :
    World → Record → (now here : ℕ) → Fate → Result EventError (World × Option Shown)
save w r now here fate =
    let (db, row) = save_sql w.database r now in
    let failed = record w { store = degrade w.store } in
    if is_local w.store then save_local w r here else elim fate [
      | answered ↦ do
        s ← Settlement.save w.store.local (record_of r.idempotency_key row.projection) here
        ok (record { store = record w.store { local = s.0 }; database = db }, some (of_row row))
      | lost ↦ save_local (record failed { database = db }) r here
      | refused ↦ save_local failed r here
    ]

abbrev pub update_local :
    World → String → State → Details → ℕ → Result EventError (World × Option Shown)
update_local w k st d now = do
  s ← Settlement.update_state w.store.local k st d now
  ok (record w { store = record w.store { local = s.0 } }, of_local s.1)

-- The mirror's answer is not looked at.
abbrev pub mirrored :
    World → String → State → Details → ℕ → Row → Result EventError (World × Option Shown)
mirrored w k st d now row = do r ← update_local w k st d now; ok (r.0, some (of_row row))

unfoldable pub update_state :
    World
    → String
    → State
    → Details
    → (now here : ℕ) → Fate
    → Result EventError (World × Option Shown)
update_state w k st d now here fate =
    let failed = record w { store = degrade w.store } in
    if is_local w.store then update_local w k st d here else elim (event_type_for_state st) [
      | err e ↦ update_local failed k st d here
      | ok t ↦
          let (db, row) = update_sql w.database k t st d now in
          elim fate [
            | answered ↦ elim row [
              | none ↦ ok (record w { database = db }, none)
              | some r ↦ mirrored (record w { database = db }) k st d here r
            ]
            | lost ↦ update_local (record failed { database = db }) k st d here
            | refused ↦ update_local failed k st d here
          ]
    ]

-- A read of a table: its answer, and the store after it.
unfoldable pub get : World → (seen : Database) → String → Fate → Store × Option Shown
get w seen k fate =
    let from = if uses_replica w.store then seen else w.database in
    if is_local w.store then (w.store, of_local (Settlement.get w.store.local k)) else elim fate [
      | answered ↦ (w.store, of_rows (get_sql from k))
      | _ ↦ (degrade w.store, of_local (Settlement.get w.store.local k))
    ]

-- One poll of the replica: what it shows, unless the query fails, and the time after it.
pub record Poll : Type 0 where
  pub shows : Option Database
  pub time : ℕ

abbrev pub polled : Option Database → String → Option Row
polled none k = none
polled (some d) k = get_sql d k

-- The loop of `_queryGetWithLag`: none when it breaks.
unfoldable pub poll_replica : (limit : ℕ) → List Poll → String → Option Row
poll_replica limit [] k = none
poll_replica limit (p ∷ ps) k =
    let rest = poll_replica limit ps k in
    elim (polled p.shows k) [
      | some r ↦ some r
      | none ↦ if not (is_some p.shows) || leb limit p.time then none else rest
    ]

unfoldable pub query_with_lag : World → (limit : ℕ) → List Poll → String → Option Row
query_with_lag w limit polls k =
    let seen = if uses_replica w.store then poll_replica limit polls k else none in
    elim seen [ some r ↦ some r | none ↦ get_sql w.database k ]

-- This process's own copy first. `fate` is that of the read of the primary; a store that has
-- degraded reads its memory whatever becomes of a statement.
unfoldable pub get_consistent :
    World → (seen : Database) → (limit : ℕ) → List Poll → String → Fate → Store × Option Shown
get_consistent w seen limit polls k fate = elim (Settlement.get w.store.local k) [
  | some p ↦ (w.store, of_local (some p))
  | none ↦ if is_local w.store then get w seen k fate else elim fate [
    | answered ↦ (w.store, of_rows (query_with_lag w limit polls k))
    | _ ↦ get (record w { store = degrade w.store }) seen k refused
  ]
]

unfoldable pub list_unknown : World → (seen : Database) → Fate → Store × List Shown
list_unknown w seen fate =
    let from = if uses_replica w.store then seen else w.database in
    let local_unknown =
      map (λ (p : Projection). record { projection = p; version = none })
        (Settlement.list_unknown w.store.local) in
    if w.store.degraded || not (w.store.pool || w.store.replica)
    then (w.store, local_unknown)
    else elim fate [
      | answered ↦ (w.store, map of_row (unknown_sql from))
      | _ ↦ (degrade w.store, local_unknown)
    ]

unfoldable pub get_event_log : World → String → Fate → Store × List Event
get_event_log w k fate =
    if is_local w.store then (w.store, Settlement.get_event_log w.store.local k) else elim fate [
      | answered ↦ (w.store, log_sql w.database k)
      | _ ↦ (degrade w.store, Settlement.get_event_log w.store.local k)
    ]

unfoldable pub export_audit_log : World → (since until limit : Option ℕ) → Fate → Store × List Event
export_audit_log w since until limit fate =
    let local_export = Settlement.export_audit_log w.store.local since until limit in
    if is_local w.store then (w.store, local_export) else elim fate [
      | answered ↦ (w.store, audit_sql w.database since until (get_or limit 10000))
      | _ ↦ (degrade w.store, local_export)
    ]

-- `log_fate` is that of the query of the events, which `getEventLog` answers from memory when it
-- fails; `fate` is that of the upsert.
unfoldable pub rebuild_projection : World → String → (log_fate fate : Fate) → World × Option Shown
rebuild_projection w k log_fate fate =
    let (s, events) = get_event_log w k log_fate in
    let local_rebuilt = of_local (Settlement.rebuild_projection w.store.local k) in
    if is_local w.store then (w, local_rebuilt) else elim (project_settlement events) [
      | none ↦ (record w { store = s }, none)
      | some p ↦
          let (db, row) = rebuild_sql w.database k p (length events) in
          elim fate [
            | answered ↦ (record { store = s; database = db }, some (of_row row))
            | lost ↦ (record { store = degrade s; database = db }, local_rebuilt)
            | refused ↦ (record w { store = degrade s }, local_rebuilt)
          ]
    ]

pub record Enqueued : Type 0 where
  pub atomically_enqueued : Bool
  pub saved : Option Shown
  pub event : Option Notice

abbrev pub settle_local :
    World → String → Details → Option Notice → ℕ → Result EventError (World × Enqueued)
settle_local w k d notice now = do
  r ← update_local w k State.settled d now
  ok (r.0, record { atomically_enqueued = false; saved = r.1; event = notice })

-- `eventId ?? event.id ?? crypto.randomUUID()`.
abbrev pub resolved_id : Option String → Option Notice → (random : String) → String
resolved_id (some id) notice random = id
resolved_id none none random = random
resolved_id none (some n) random = get_or n.id random

abbrev pub resolved : Option Notice → String → Option Notice
resolved none id = none
resolved (some n) id = some (record n { id = some id })

unfoldable pub settle_and_enqueue :
    World
    → String
    → Details
    → Option Notice
    → (event_id : Option String) → (random : String) → (now here : ℕ) → Fate
    → Result EventError (World × Enqueued)
settle_and_enqueue w k d notice event_id random now here fate =
    let failed = record w { store = degrade w.store } in
    let id = resolved_id event_id notice random in
    let (db, row) = settle_sql w.database k d (resolved notice id) id now in
    if is_local w.store then settle_local w k d notice here else elim fate [
      | answered ↦ elim row [
        | none ↦ ok (
          record w { database = db },
          record { atomically_enqueued = true; saved = none; event = resolved notice id },
        )
        | some r ↦ do
          m ← mirrored (record w { database = db }) k State.settled d here r
          ok (m.0, record { atomically_enqueued = true; saved = m.1; event = resolved notice id })
      ]
      | lost ↦ settle_local (record failed { database = db }) k d notice here
      | refused ↦ settle_local failed k d notice here
    ]
