-- ===== src/PgSettlement.antt =====
-- The tables of the Postgres settlement store and its statements (src/store/postgres.js). One
-- statement, or one transaction, is one step; the database's clock is an argument.
pub mod Store
pub mod Log
pub mod Refinement
pub mod Writes
pub mod Safety
pub mod Repair
pub mod History
pub mod Transaction
pub mod Tests
use x402_facilitator_stellar.Common.{
  ℕ, ◌+◌, max, String, Bool, true, false, ◌&&◌, Option, none, some, List, [], ◌∷◌, ◌++◌, map,
  str_eq, leb, get_or, or_else, take, select,
}
use x402_facilitator_stellar.Common.Dict
use x402_facilitator_stellar.Common.Dict.{Map}
use x402_facilitator_stellar.Common.Sort.{sort_by}
use x402_facilitator_stellar.EventStore.{EventType, initiated, State, Payload, Event, Projection}
use x402_facilitator_stellar.Settlement.{
  Record, Details, saved_payload, updated_payload, from_time, to_time,
}
use x402_facilitator_stellar.Outbox
use x402_facilitator_stellar.Outbox.{insert_event}

-- A row of `settlement_projections`, whose key is the map's.
pub record Row : Type 0 where
  pub projection : Projection
  pub version : ℕ

-- `logged` has the rows of `settlement_events` in the order of their identifiers.
pub record Database : Type 0 where
  pub logged : List (String × Event)
  pub projections : Map Row
  pub outbox : Outbox.Table

abbrev is_of : String → String × Event → Bool
is_of k e = str_eq e.0 k

-- The rows of `WHERE idempotency_key = $1`.
unfoldable pub events_of : String → List (String × Event) → List Event
events_of k rows = map (λ e. e.1) (select (is_of k) rows)

-- `COALESCE(MAX(seq), 0)`.
unfoldable pub max_seq : List Event → ℕ
max_seq [] = 0
max_seq (e ∷ es) = max e.seq (max_seq es)

abbrev pub event_row : Database → String → EventType → Payload → ℕ → Event
event_row db k t p now = record {
  envelope = record { event_type = t; event_version = 1; payload = p };
  seq = max_seq (events_of k db.logged) + 1;
  recorded_at = now;
}

-- The row that the INSERT of `save` proposes.
abbrev pub proposed : Record → ℕ → ℕ → Row
proposed r seq now = record {
  projection = record {
    idempotency_key = some r.idempotency_key;
    network = get_or r.network "";
    scheme = get_or r.scheme "";
    payer = r.payer;
    pay_to = r.pay_to;
    asset = r.asset;
    amount = r.amount;
    state = State.submitted;
    tx_hash = r.tx_hash;
    error_reason = none;
    error_message = none;
    response = none;
    key_id = r.key_id;
    created_at = now;
    updated_at = now;
  };
  version = seq;
}

-- `ON CONFLICT (idempotency_key) DO UPDATE`: the time of creation stays.
abbrev pub upserted : Option Row → Row → Row
upserted none new = new
upserted (some old) new = record new {
  projection = record new.projection { created_at = old.projection.created_at };
}

unfoldable pub save_sql : Database → Record → ℕ → Database × Row
unfolding events_of max_seq
save_sql db r now =
    let k = r.idempotency_key in
    let e = event_row db k initiated (saved_payload r) now in
    let row = upserted (Dict.get k db.projections) (proposed r e.seq now) in
    (
      record db { logged = db.logged ++ (k, e) ∷ []; projections = Dict.set k row db.projections },
      row,
    )

-- The SET list of the UPDATE.
abbrev pub moved : Row → State → Details → ℕ → ℕ → Row
moved row st d seq now = record {
  projection = record row.projection {
    state = st;
    tx_hash = or_else d.tx_hash row.projection.tx_hash;
    error_reason = or_else d.error_reason row.projection.error_reason;
    error_message = or_else d.error_message row.projection.error_message;
    response = or_else d.response row.projection.response;
    updated_at = now;
  };
  version = seq;
}

-- The event is inserted if the projection is there, and the projection updated from the event.
unfoldable pub update_sql :
    Database → String → EventType → State → Details → ℕ → Database × Option Row
unfolding events_of max_seq
update_sql db k t st d now = elim (Dict.get k db.projections) [
  | none ↦ (db, none)
  | some old ↦
      let e = event_row db k t (updated_payload k d) now in
      let row = moved old st d e.seq now in
      (
        record db {
          logged = db.logged ++ (k, e) ∷ [];
          projections = Dict.set k row db.projections;
        },
        some row,
      )
]

unfoldable pub get_sql : Database → String → Option Row
get_sql db k = Dict.get k db.projections

abbrev is_unknown : Row → Bool
is_unknown r = elim r.projection.state [ State.unknown ↦ true | _ ↦ false ]

unfoldable pub unknown_sql : Database → List Row
unknown_sql db = select is_unknown (Dict.values db.projections)

abbrev pub by_seq : Event → Event → Bool
by_seq a b = leb a.seq b.seq

unfoldable pub log_sql : Database → String → List Event
unfolding events_of
log_sql db k = sort_by by_seq (events_of k db.logged)

-- `ORDER BY recorded_at ASC, id ASC`, where the rows are in the order of their identifiers.
abbrev pub by_time : Event → Event → Bool
by_time a b = leb a.recorded_at b.recorded_at

unfoldable pub audit_sql : Database → (since until : Option ℕ) → (limit : ℕ) → List Event
audit_sql db since until limit = take limit (
    sort_by by_time (select (λ e. from_time since e && to_time until e) (map (λ e. e.1) db.logged)))

-- The upsert of `rebuildProjection` overwrites every column.
unfoldable pub rebuild_sql : Database → String → Projection → ℕ → Database × Row
rebuild_sql db k p n =
    let row : Row = record { projection = p; version = n } in
    (record db { projections = Dict.set k row db.projections }, row)

-- The notification of a settlement: its type, its own identifier and the JSON text of the rest.
pub record Notice : Type 0 where
  pub type : String
  pub id : Option String
  pub payload : String

-- What the transaction of `settleAndEnqueue` does where it commits, of which
-- PgSettlement/Transaction has the statements; `id` is the identifier that the event gets.
unfoldable pub settle_sql :
    Database
    → String
    → Details
    → (notice : Option Notice) → (id : String) → ℕ
    → Database × Option Row
settle_sql db k d notice id now =
    let (db', row) = update_sql db k EventType.settled State.settled d now in
    elim row [
      | none ↦ (db', none)
      | some r ↦ elim notice [
        | none ↦ (db', some r)
        | some n ↦ (record db' { outbox = insert_event id n.type n.payload now db'.outbox }, some r)
      ]
    ]
