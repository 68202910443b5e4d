-- ===== src/PgSettlement/Log.antt =====
-- The rows of one key after a write of the Postgres settlement store (src/store/postgres.js).
use x402_facilitator_stellar.Common.{
  ℕ, suc, ◌+◌, max, String, ◌≡◌, refl, sym, ◌∙◌, ◌≢◌, inl, inr, true, false, Option, none, some,
  List, [], ◌∷◌, ◌++◌, arith, str_eq, eq_iff, if◌then◌else◌, Bool-cases, Option-cases, is_some,
  length, length-append,
}
use x402_facilitator_stellar.Common.Dict
use x402_facilitator_stellar.EventStore.{
  EventType, initiated, State, Payload, Event, Projection, project_settlement, apply_event,
  initiate,
}
use x402_facilitator_stellar.Settlement.{Record, Details, saved_payload, updated_payload, stamp}
use x402_facilitator_stellar.Settlement.Log.{
  envelope, terminal_type, project_settlement-snoc, apply_event-terminal,
}
use x402_facilitator_stellar.Settlement.Audit.{Numbered, Numbered-snoc}
use x402_facilitator_stellar.PgSettlement.{
  Row, Database, events_of, max_seq, event_row, proposed, upserted, moved, save_sql, update_sql,
}

unfoldable pub versioned : Option Projection → ℕ → Option Row
versioned none n = none
versioned (some p) n = some (record { projection = p; version = n })

-- The row that a log calls for: what the log projects to, with its length for the version.
abbrev pub row_of : List Event → Option Row
row_of log = versioned (project_settlement log) (length log)

-- The events of a key are numbered from 1 without gaps, and its projection is theirs.
abbrev pub IsKept : Database → String → Type 0
IsKept db k =
    Numbered 0 (events_of k db.logged)
    × (Dict.get k db.projections ≡ row_of (events_of k db.logged))

pub events_of-snoc :
    (rows : List (String × Event)) (j k : String) (e : Event)
    → events_of k (rows ++ (j, e) ∷ [])
      ≡ (if str_eq j k then events_of k rows ++ e ∷ [] else events_of k rows)
unfolding events_of
events_of-snoc [] j k e = ground arith
events_of-snoc ((i, x) ∷ rows) j k e = ground (arith, events_of-snoc rows j k e)

max_seq_from : (n : ℕ) (log : List Event) → Numbered n log → max n (max_seq log) ≡ n + length log
unfolding max_seq
max_seq_from n [] h = omega arith
max_seq_from n (e ∷ log) h = omega (arith, h.0, max_seq_from (suc n) log h.1)

pub max_seq-length : (log : List Event) → Numbered 0 log → max_seq log ≡ length log
max_seq-length log h = omega (arith, max_seq_from 0 log h)

-- The event of a write is the one that the memory store would append.
pub event_row-stamp :
    (db : Database) (k : String) (t : EventType) (p : Payload) (now : ℕ)
    → Numbered 0 (events_of k db.logged)
    → event_row db k t p now ≡ stamp (events_of k db.logged) now (envelope t p)
event_row-stamp db k t p now h = rw (max_seq-length (events_of k db.logged) h) refl

upserted_case :
    (q : Option Projection) (log : List Event) (r : Record) (now : ℕ)
    → some (upserted (versioned q (length log)) (proposed r (length log + 1) now))
      ≡ versioned
          (apply_event q (stamp log now (envelope initiated (saved_payload r))))
          (length log + 1)
unfolding apply_event initiate versioned
upserted_case none log r now = refl
upserted_case (some p) log r now = refl

-- The row of a log with one more event.
row_of-snoc :
    (log : List Event) (e : Event)
    → row_of (log ++ e ∷ []) ≡ versioned (apply_event (project_settlement log) e) (length log + 1)
row_of-snoc log e = rw (project_settlement-snoc log e, length-append log (e ∷ [])) refl

upserted_lem :
    (log : List Event) (r : Record) (now : ℕ)
    → some (upserted (row_of log) (proposed r (length log + 1) now))
      ≡ row_of (log ++ stamp log now (envelope initiated (saved_payload r)) ∷ [])
upserted_lem log r now =
    upserted_case (project_settlement log) log r now
    ∙ sym (row_of-snoc log (stamp log now (envelope initiated (saved_payload r))))

moved_lem :
    (log : List Event) (p : Projection) (k : String) (st : State) (d : Details) (now : ℕ)
    → project_settlement log ≡ some p
    → st ≢ State.submitted
    → some (moved (record { projection = p; version = length log }) st d (length log + 1) now)
      ≡ row_of (log ++ stamp log now (envelope (terminal_type st) (updated_payload k d)) ∷ [])
unfolding versioned
moved_lem log p k st d now known h =
    let e = stamp log now (envelope (terminal_type st) (updated_payload k d)) in
    rw (row_of-snoc log e, known, apply_event-terminal p log k st d now h) refl

-- A write of a key: its event stands behind the log, its projection is the log's.
abbrev pub AfterEvent : Database → Database → String → EventType → Payload → ℕ → Type 0
AfterEvent db db' k t p now =
    (j : String)
    → let log = events_of j db.logged in
      let next = log ++ stamp log now (envelope t p) ∷ [] in
      (events_of j db'.logged ≡ (if str_eq k j then next else log))
      × (Dict.get j db'.projections
          ≡ (if str_eq k j then row_of next else Dict.get j db.projections))

pub save_sql-AfterEvent :
    (db : Database) (r : Record) (now : ℕ)
    → IsKept db r.idempotency_key
    → AfterEvent db (save_sql db r now).0 r.idempotency_key initiated (saved_payload r) now
unfolding save_sql
save_sql-AfterEvent db r now h j =
    let k = r.idempotency_key in
    let e = event_row db k initiated (saved_payload r) now in
    let row = upserted (Dict.get k db.projections) (proposed r e.seq now) in
    (
      ground (
        arith,
        eq_iff k j,
        events_of-snoc db.logged k j e,
        event_row-stamp db k initiated (saved_payload r) now h.0,
      ),
      ground (
        arith,
        eq_iff k j,
        h.1,
        max_seq-length (events_of k db.logged) h.0,
        Dict.get-set k j row db.projections,
        upserted_lem (events_of k db.logged) r now,
      ),
    )

-- The row of a key that is there is the one that its log calls for.
pub kept_row :
    (db : Database) (k : String)
    → IsKept db k
    → is_some (Dict.get k db.projections) ≡ true
    → (p : Projection) × (project_settlement (events_of k db.logged) ≡ some p)
      × (Dict.get k db.projections
          ≡ some (record { projection = p; version = length (events_of k db.logged) }))
unfolding versioned
kept_row db k h there = elim (Option-cases (project_settlement (events_of k db.logged))) [
  | inl e ↦ absurd (ground (arith, h.1, e, there))
  | inr (p, e) ↦ (p, e, rw (h.1, e) refl)
]

pub update_sql-AfterEvent :
    (db : Database) (k : String) (st : State) (d : Details) (now : ℕ)
    → IsKept db k
    → st ≢ State.submitted
    → is_some (Dict.get k db.projections) ≡ true
    → AfterEvent db
        (update_sql db k (terminal_type st) st d now).0
        k
        (terminal_type st)
        (updated_payload k d)
        now
unfolding update_sql
update_sql-AfterEvent db k st d now h moves there j =
    let (p, projects, known) = kept_row db k h there in
    let log = events_of k db.logged in
    let e = event_row db k (terminal_type st) (updated_payload k d) now in
    let old : Row = record { projection = p; version = length log } in
    rw (update_sql, known)
      (
        ground (
          arith,
          eq_iff k j,
          events_of-snoc db.logged k j e,
          event_row-stamp db k (terminal_type st) (updated_payload k d) now h.0,
        ),
        ground (
          arith,
          eq_iff k j,
          max_seq-length log h.0,
          Dict.get-set k j (moved old st d e.seq now) db.projections,
          moved_lem log p k st d now projects moves,
        ),
      )

pub update_sql_missing :
    (db : Database) (k : String) (t : EventType) (st : State) (d : Details) (now : ℕ)
    → is_some (Dict.get k db.projections) ≡ false
    → update_sql db k t st d now ≡ (db, none)
unfolding update_sql
update_sql_missing db k t st d now h = ground (arith, h)

pub AfterEvent-IsKept :
    (db db' : Database) (k : String) (t : EventType) (p : Payload) (now : ℕ) (j : String)
    → AfterEvent db db' k t p now
    → IsKept db j
    → IsKept db' j
AfterEvent-IsKept db db' k t p now j w h =
    let log = events_of j db.logged in
    elim (Bool-cases (str_eq k j)) [
      | inl e ↦
          rw ((w j).0, (w j).1, e)
            (Numbered-snoc 0 log (stamp log now (envelope t p)) h.0 (omega arith), refl)
      | inr e ↦ rw ((w j).0, (w j).1, e) h
    ]
