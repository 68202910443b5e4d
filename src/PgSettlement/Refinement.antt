-- ===== src/PgSettlement/Refinement.antt =====
-- The tables of the Postgres settlement store refine the store in memory (src/store/postgres.js,
-- src/store/memory.js).
use x402_facilitator_stellar.Common.{
  ℕ, suc, ◌<◌, String, ◌≡◌, refl, sym, inl, inr, ◌&&◌, Option, none, some, List, [], ◌∷◌, arith,
  if◌then◌else◌, Bool-cases, is_some, length, All, All-weaken, ok, err,
}
use x402_facilitator_stellar.Common.Dict
use x402_facilitator_stellar.Common.Sort.{IsSorted, sort_by_sorted}
use x402_facilitator_stellar.EventStore.{
  EventType, State, Event, Projection, initiated, event_type_for_state, project_settlement,
}
use x402_facilitator_stellar.Settlement.{
  Store, Record, Details, stream, get, get_event_log, new, saved_payload, updated_payload,
}
use x402_facilitator_stellar.Settlement.Log.{terminal_type, stream-extended}
use x402_facilitator_stellar.Settlement.Audit.{Numbered}
use x402_facilitator_stellar.Settlement.Refinement.{
  Op, saves, updates, step, run, step-saves, step-updates, step-IsLive, IsLive, is_terminal,
  new-IsLive, terminal_lem,
}
use x402_facilitator_stellar.PgSettlement.{
  Database, events_of, save_sql, update_sql, get_sql, log_sql, by_seq,
}
use x402_facilitator_stellar.PgSettlement.Log.{
  versioned, IsKept, save_sql-AfterEvent, update_sql-AfterEvent, update_sql_missing,
  AfterEvent-IsKept,
}

-- What one write of any process does to the tables; a state without an event is refused before it.
unfoldable pub step_sql : Database → Op → Database
step_sql db (saves r now) = (save_sql db r now).0
step_sql db (updates k st d now) = elim (event_type_for_state st) [
  | err e ↦ db
  | ok t ↦ (update_sql db k t st d now).0
]

unfoldable pub run_sql : Database → List Op → Database
run_sql db [] = db
run_sql db (o ∷ os) = run_sql (step_sql db o) os

pub step_sql-saves :
    (db : Database) (r : Record) (now : ℕ) → step_sql db (saves r now) ≡ (save_sql db r now).0
unfolding step_sql
step_sql-saves db r now = refl

-- An update writes if the projection is there and the state is a terminal one.
pub step_sql-updates :
    (db : Database) (k : String) (st : State) (d : Details) (now : ℕ)
    → step_sql db (updates k st d now) ≡ (
        if is_some (Dict.get k db.projections) && is_terminal st
        then (update_sql db k (terminal_type st) st d now).0
        else db)
unfolding step_sql event_type_for_state
step_sql-updates db k State.submitted d now = ground arith
step_sql-updates db k State.settled d now =
    ground (arith, update_sql_missing db k EventType.settled State.settled d now)
step_sql-updates db k State.failed d now =
    ground (arith, update_sql_missing db k EventType.failed State.failed d now)
step_sql-updates db k State.unknown d now =
    ground (arith, update_sql_missing db k EventType.outcome_unknown State.unknown d now)

-- What a write leaves of the tables.
pub step_sql-IsKept :
    (db : Database) (o : Op)
    → ((k : String) → IsKept db k)
    → (j : String) → IsKept (step_sql db o) j
step_sql-IsKept db (saves r now) kept j = rw (step_sql-saves db r now) (
    AfterEvent-IsKept db (save_sql db r now).0 r.idempotency_key initiated (saved_payload r) now j
      (save_sql-AfterEvent db r now (kept r.idempotency_key)) (kept j))
step_sql-IsKept db (updates k st d now) kept j =
    elim (Bool-cases (is_some (Dict.get k db.projections) && is_terminal st)) [
      | inl e ↦
          rw (step_sql-updates db k st d now, e)
            (AfterEvent-IsKept db (update_sql db k (terminal_type st) st d now).0 k
              (terminal_type st) (updated_payload k d) now j
              (update_sql-AfterEvent db k st d now (kept k) (terminal_lem st (ground (arith, e)))
                (ground (arith, e)))
              (kept j))
      | inr e ↦ rw (step_sql-updates db k st d now, e) (kept j)
    ]

-- Every key has the same log in the tables as in memory.
abbrev pub Mirrors : Database → Store → Type 0
Mirrors db s = (k : String) → IsKept db k × (events_of k db.logged ≡ stream s k)

versioned_there : (q : Option Projection) (n : ℕ) → is_some (versioned q n) ≡ is_some q
unfolding versioned
versioned_there none n = refl
versioned_there (some p) n = refl

-- A key with a projection in the tables is one that the memory store knows.
live_mirror :
    (db : Database) (s : Store) (k : String)
    → IsLive s
    → Mirrors db s
    → is_some (Dict.get k db.projections) ≡ is_some (Dict.get k s.events)
unfolding get versioned
live_mirror db s k live m =
    rw (live k, (m k).0.1, (m k).1) (versioned_there (project_settlement (stream s k)) _)

updates-stream :
    (db : Database) (s : Store) (k : String) (st : State) (d : Details) (now : ℕ)
    → IsLive s
    → Mirrors db s
    → (j : String)
    → events_of j (step_sql db (updates k st d now)).logged ≡ stream (step s (updates k st d now)) j
updates-stream db s k st d now live m j =
    rw (step_sql-updates db k st d now, step-updates s k st d now, sym (live_mirror db s k live m))
      (elim (Bool-cases (is_some (Dict.get k db.projections) && is_terminal st)) [
        | inl e ↦
            rw
              (
                e,
                (update_sql-AfterEvent db k st d now (m k).0 (terminal_lem st (ground (arith, e)))
                    (ground (arith, e)) j).0,
                stream-extended s k j (terminal_type st) (updated_payload k d) now,
                (m j).1,
              )
              refl
        | inr e ↦ rw (e, (m j).1) refl
      ])

step_sql-Mirrors :
    (db : Database) (s : Store) (o : Op)
    → IsLive s
    → Mirrors db s
    → Mirrors (step_sql db o) (step s o)
step_sql-Mirrors db s (saves r now) live m j = (
  step_sql-IsKept db (saves r now) (λ k. (m k).0) j,
  rw
      (
        step_sql-saves db r now,
        step-saves s r now,
        (save_sql-AfterEvent db r now (m r.idempotency_key).0 j).0,
        stream-extended s r.idempotency_key j initiated (saved_payload r) now,
        (m j).1,
      )
      refl,
)
step_sql-Mirrors db s (updates k st d now) live m j = (
  step_sql-IsKept db (updates k st d now) (λ k. (m k).0) j,
  updates-stream db s k st d now live m j,
)

run_sql-Mirrors :
    (db : Database) (s : Store) (os : List Op)
    → IsLive s
    → Mirrors db s
    → Mirrors (run_sql db os) (run s os)
unfolding run_sql run
run_sql-Mirrors db s [] live m = m
run_sql-Mirrors db s (o ∷ os) live m =
    run_sql-Mirrors (step_sql db o) (step s o) os (step-IsLive s o live)
      (step_sql-Mirrors db s o live m)

Numbered-above : (n : ℕ) (log : List Event) → Numbered n log → All (λ (e : Event). n < e.seq) log
Numbered-above n [] h = tt
Numbered-above n (e ∷ log) h = (
  omega (arith, h.0),
  All-weaken _ _ log (λ (x : Event) (l : suc n < x.seq). omega (arith, l))
      (Numbered-above (suc n) log h.1),
)

pub Numbered-IsSorted : (n : ℕ) (log : List Event) → Numbered n log → IsSorted by_seq log
Numbered-IsSorted n [] h = tt
Numbered-IsSorted n (e ∷ log) h = (
  All-weaken _ _ log (λ (x : Event) (l : suc n < x.seq). ground (arith, l, h.0))
      (Numbered-above (suc n) log h.1),
  Numbered-IsSorted (suc n) log h.1,
)

abbrev pub empty : Database
empty = record { logged = []; projections = []; outbox = record { rows = []; next_id = 1 } }

empty-Mirrors : Mirrors empty new
unfolding events_of Dict.get project_settlement versioned
empty-Mirrors k = ((tt, refl), refl)

-- After any sequence of writes of any processes on empty tables, refused ones included, the log
-- that the tables show of each key is the one that the memory store records for the same calls at
-- the same times, and the projection that they show is the memory store's, with the length of the
-- log for its version.
pub run_sql_refines :
    (os : List Op) (k : String)
    → let s = run new os in
      (log_sql (run_sql empty os) k ≡ get_event_log s k)
      × (get_sql (run_sql empty os) k ≡ versioned (get s k) (length (get_event_log s k)))
unfolding log_sql get_sql get get_event_log
run_sql_refines os k =
    let (kept, same) = run_sql-Mirrors empty new os new-IsLive empty-Mirrors k in
    rw (← same) (sort_by_sorted by_seq _ (Numbered-IsSorted 0 _ kept.0), kept.1)
