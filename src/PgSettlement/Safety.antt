-- ===== src/PgSettlement/Safety.antt =====
-- What holds of the tables whatever statements fail (src/store/postgres.js).
use x402_facilitator_stellar.Common.{
  ℕ, ◌+◌, String, ◌≡◌, refl, ap, ◌∙◌, inl, inr, Bool, true, Option, none, some, [], ◌∷◌, arith,
  str_eq, eq_refl, Bool-cases, Option-cases, is_some, length, any, length-append, any-append,
}
use x402_facilitator_stellar.Common.Dict
use x402_facilitator_stellar.Common.Sort.{length-sort_by}
use x402_facilitator_stellar.EventStore.{event_type_for_state, EventType, State}
use x402_facilitator_stellar.Settlement.{Details, updated_payload, stamp}
use x402_facilitator_stellar.Settlement.Log.{envelope}
use x402_facilitator_stellar.Settlement.Refinement.{Op}
use x402_facilitator_stellar.Outbox
use x402_facilitator_stellar.Outbox.{insert_event, new_row}
use x402_facilitator_stellar.PgSettlement.{
  Row, Database, Notice, moved, event_row, by_seq, events_of, update_sql, get_sql, settle_sql,
  log_sql,
}
use x402_facilitator_stellar.PgSettlement.Store.{Fate, Store, resolved_id, resolved}
use x402_facilitator_stellar.PgSettlement.Log.{IsKept, update_sql-AfterEvent}
use x402_facilitator_stellar.PgSettlement.Refinement.{step_sql, step_sql-IsKept}
use x402_facilitator_stellar.PgSettlement.Writes.{
  Call, saves, updates, settles, perform, is_committed, committed, perform_lem,
}

-- A call of some process: the process's store then, the clocks, and what becomes of the statement.
pub record Made : Type 0 where
  pub store : Store
  pub call : Call
  pub now : ℕ
  pub here : ℕ
  pub fate : Fate

-- The transaction does to logs and projections what the update does.
settle_sql-tables :
    (db : Database) (k : String) (d : Details) (n : Option Notice) (id : String) (now : ℕ)
    → let settled = (settle_sql db k d n id now).0 in
      let moved = (update_sql db k EventType.settled State.settled d now).0 in
      (settled.logged ≡ moved.logged) × (settled.projections ≡ moved.projections)
unfolding settle_sql
settle_sql-tables db k d none id now =
    elim (Option-cases (update_sql db k EventType.settled State.settled d now).1) [
      | inl e ↦ rw (settle_sql, e) (refl, refl)
      | inr (r, e) ↦ rw (settle_sql, e) (refl, refl)
    ]
settle_sql-tables db k d (some n) id now =
    elim (Option-cases (update_sql db k EventType.settled State.settled d now).1) [
      | inl e ↦ rw (settle_sql, e) (refl, refl)
      | inr (r, e) ↦ rw (settle_sql, e) (refl, refl)
    ]

settled-IsKept :
    (db : Database) (k : String) (d : Details) (now : ℕ)
    → ((k : String) → IsKept db k)
    → (j : String) → IsKept (update_sql db k EventType.settled State.settled d now).0 j
unfolding step_sql event_type_for_state
settled-IsKept db k d now kept j = step_sql-IsKept db (Op.updates k State.settled d now) kept j

committed-IsKept :
    (db : Database) (c : Call) (now : ℕ)
    → ((k : String) → IsKept db k)
    → (j : String) → IsKept (committed db c now) j
committed-IsKept db (saves r) now kept j = step_sql-IsKept db _ kept j
committed-IsKept db (updates k st d) now kept j = step_sql-IsKept db _ kept j
committed-IsKept db (settles k d n e random) now kept j =
    let id = resolved_id e n random in
    let (logs, rows) = settle_sql-tables db k d (resolved n id) id now in
    rw (logs, rows) (settled-IsKept db k d now kept j)

-- A call keeps the logs and the projections, whatever becomes of its statement.
pub perform-IsKept :
    (db : Database) (m : Made)
    → ((k : String) → IsKept db k)
    → (k : String) → IsKept (perform m.store db m.call m.now m.here m.fate) k
perform-IsKept db m kept k = elim (Bool-cases (is_committed m.store m.fate)) [
  | inl e ↦
      rw (perform_lem m.store db m.call m.now m.here m.fate, e)
        (committed-IsKept db m.call m.now kept k)
  | inr e ↦ rw (perform_lem m.store db m.call m.now m.here m.fate, e) (kept k)
]

abbrev pub has_event : String → Outbox.Table → Bool
has_event id t = any (λ (r : Outbox.Row). str_eq r.event_id id) t.rows

inserted_there :
    (id type payload : String) (now : ℕ) (t : Outbox.Table)
    → has_event id (insert_event id type payload now t) ≡ true
unfolding insert_event
inserted_there id type payload now t = elim (Bool-cases (has_event id t)) [
  | inl there ↦ rw (insert_event, there) there
  | inr fresh ↦
      rw
        (
          insert_event,
          fresh,
          any-append (λ (r : Outbox.Row). str_eq r.event_id id) t.rows
              (new_row t.next_id id type payload now ∷ []),
          fresh,
        )
        (rw (eq_refl id) refl)
]

abbrev pub state_of_row : Option Row → Option State
state_of_row none = none
state_of_row (some r) = some r.projection.state

abbrev pub state_in : Database → String → Option State
state_in db k = state_of_row (get_sql db k)

-- An update of a row that is there returns the row as it leaves it.
pub update_sql-there :
    (db : Database) (k : String) (t : EventType) (st : State) (d : Details) (now : ℕ)
    → is_some (Dict.get k db.projections) ≡ true
    → (r : Row) × ((update_sql db k t st d now).1 ≡ some r)
      × (Dict.get k (update_sql db k t st d now).0.projections ≡ some r)
      × (r.projection.state ≡ st)
unfolding update_sql
update_sql-there db k t st d now there = elim (Option-cases (Dict.get k db.projections)) [
  | inl e ↦ absurd (ground (arith, e, there))
  | inr (old, e) ↦
      let row = moved old st d (event_row db k t (updated_payload k d) now).seq now in
      (
        row,
        rw (update_sql, e) refl,
        rw (update_sql, e) (Dict.get-set k k row db.projections ∙ rw (eq_refl k) refl),
        refl,
      )
]

settle_sql-outbox :
    (db : Database) (k : String) (d : Details) (n : Notice) (id : String) (now : ℕ) (r : Row)
    → (update_sql db k EventType.settled State.settled d now).1 ≡ some r
    → (settle_sql db k d (some n) id now).0.outbox
      ≡ insert_event id n.type n.payload now
          (update_sql db k EventType.settled State.settled d now).0.outbox
unfolding settle_sql
settle_sql-outbox db k d n id now r e = rw (settle_sql, e) refl

-- A settlement of a key whose row is there.
pub settled_lem :
    (db : Database) (k : String) (d : Details) (n : Notice) (id : String) (now : ℕ)
    → IsKept db k
    → is_some (Dict.get k db.projections) ≡ true
    → let db' = (settle_sql db k d (some n) id now).0 in
      (length (log_sql db' k) ≡ length (log_sql db k) + 1)
      × (state_in db' k ≡ some State.settled)
      × (has_event id db'.outbox ≡ true)
unfolding get_sql log_sql
settled_lem db k d n id now kept there =
    let (logs, rows) = settle_sql-tables db k d (some n) id now in
    let (r, returned, stored, settled) =
      update_sql-there db k EventType.settled State.settled d now there in
    let w = update_sql-AfterEvent db k State.settled d now kept (λ c. ground (arith, c)) there k in
    (
      rw (length-sort_by, logs, w.0, eq_refl k)
          (omega (
            arith,
            length-sort_by by_seq (events_of k db.logged),
            length-append (events_of k db.logged) (
                stamp (events_of k db.logged) now (envelope EventType.settled (updated_payload k d))
                ∷ []),
          )),
      ap state_of_row (ap (Dict.get k) rows ∙ stored) ∙ ap some settled,
      rw (settle_sql-outbox db k d n id now r returned) (inserted_there id n.type n.payload now _),
    )
