-- ===== src/PgSettlement/Transaction.antt =====
-- The transaction of `settleAndEnqueue`, statement by statement (src/store/postgres.js).
use x402_facilitator_stellar.Common.{
  ℕ, ◌+◌, String, ◌≡◌, refl, ◌⊎◌, inl, inr, Bool, true, false, Option, none, some, is_some, length,
  Result, ok, err,
}
use x402_facilitator_stellar.EventStore.{EventType, State}
use x402_facilitator_stellar.Settlement.{Details}
use x402_facilitator_stellar.Outbox.{insert_event}
use x402_facilitator_stellar.PgSettlement.{
  Row, Database, Notice, update_sql, settle_sql, get_sql, log_sql,
}
use x402_facilitator_stellar.PgSettlement.Log.{IsKept}
use x402_facilitator_stellar.PgSettlement.Safety.{
  state_in, has_event, update_sql-there, settled_lem,
}

-- The tables as everybody sees them, and those of the client's transaction where one is open.
pub record Session : Type 0 where
  pub committed : Database
  pub work : Option Database

-- The first call that throws. A COMMIT that throws may have been carried out.
pub data Failure : Type 0 where
  nowhere at_connect at_begin at_update at_insert : Failure
  at_commit : (carried_out : Bool) → Failure

-- A statement on the client: in the transaction that is open, or by itself.
abbrev pub on_client : {A : Type 0} → (Database → Database × A) → Session → Session × A
on_client statement s = elim s.work [
  | some w ↦ (record s { work = some (statement w).0 }, (statement w).1)
  | none ↦ (record s { committed = (statement s.committed).0 }, (statement s.committed).1)
]

abbrev pub begin : Session → Session
begin s = record s { work = some s.committed }

abbrev pub commit : Session → Session
commit s = elim s.work [ some w ↦ record { committed = w; work = none } | none ↦ s ]

-- A ROLLBACK that fails is one on a lost connection, whose transaction the server ends.
abbrev pub rollback : Session → Session
rollback s = record s { work = none }

abbrev pub insert_sql : (id : String) → Notice → (now : ℕ) → Database → Database × Unit {0}
insert_sql id n now db = (record db { outbox = insert_event id n.type n.payload now db.outbox }, tt)

-- From the COMMIT on; the `catch` rolls back.
unfoldable pub ended_by : Failure → Session → Option Row → Session × Result (Unit {0}) (Option Row)
ended_by (at_commit true) s row = (rollback (commit s), err tt)
ended_by (at_commit false) s row = (rollback s, err tt)
ended_by _ s row = (commit s, ok row)

-- From the outbox's INSERT on, which is made where a row was updated and there is an event.
unfoldable pub inserted_by :
    Failure
    → Session
    → Option Row
    → Option Notice
    → (id : String) → (now : ℕ) → Session × Result (Unit {0}) (Option Row)
inserted_by f s (some r) (some n) id now = elim f [
  | at_insert ↦ (rollback s, err tt)
  | other ↦ ended_by other (on_client (insert_sql id n now) s).0 (some r)
]
inserted_by f s row _ id now = ended_by f s row

unfoldable pub updated_by :
    Failure
    → Session
    → String
    → Details
    → Option Notice
    → (id : String) → (now : ℕ) → Session × Result (Unit {0}) (Option Row)
updated_by f s k d notice id now =
    let (s', row) = on_client (λ db. update_sql db k EventType.settled State.settled d now) s in
    elim f [ at_update ↦ (rollback s, err tt) | other ↦ inserted_by other s' row notice id now ]

unfoldable pub settle_transaction :
    Failure
    → Database
    → String
    → Details
    → Option Notice
    → (id : String) → (now : ℕ) → Session × Result (Unit {0}) (Option Row)
settle_transaction f db k d notice id now =
    let s : Session = record { committed = db; work = none } in
    elim f [
      | at_connect ↦ (s, err tt)
      | at_begin ↦ (rollback s, err tt)
      | other ↦ updated_by other (begin s) k d notice id now
    ]

abbrev is_nowhere : Failure → Bool
is_nowhere nowhere = true
is_nowhere _ = false

abbrev pub is_answer : Result (Unit {0}) (Option Row) → Bool
is_answer (ok row) = true
is_answer (err e) = false

-- The client is left without a transaction, there is an answer unless a statement throws, and the
-- tables are as before, with an error, or as the whole transaction leaves them.
abbrev IsWhole :
    Failure → (before done : Database) → Session × Result (Unit {0}) (Option Row) → Type 0
IsWhole f before done (s, r) =
    (s.work ≡ none)
    × (is_answer r ≡ is_nowhere f)
    × (((s.committed ≡ before) × (r ≡ err tt)) ⊎ (s.committed ≡ done))

settle_transaction-IsWhole :
    (f : Failure) (db : Database) (k : String) (d : Details) (n : Notice) (id : String) (now : ℕ)
    (r : Row)
    → (update_sql db k EventType.settled State.settled d now).1 ≡ some r
    → IsWhole f db
        (settle_sql db k d (some n) id now).0
        (settle_transaction f db k d (some n) id now)
unfolding settle_transaction updated_by inserted_by ended_by settle_sql
settle_transaction-IsWhole nowhere db k d n id now r e = rw (settle_sql, e) (refl, refl, inr refl)
settle_transaction-IsWhole at_connect db k d n id now r e = (refl, refl, inl (refl, refl))
settle_transaction-IsWhole at_begin db k d n id now r e = (refl, refl, inl (refl, refl))
settle_transaction-IsWhole at_update db k d n id now r e = (refl, refl, inl (refl, refl))
settle_transaction-IsWhole at_insert db k d n id now r e = rw e (refl, refl, inl (refl, refl))
settle_transaction-IsWhole (at_commit true) db k d n id now r e =
    rw (settle_sql, e) (refl, refl, inr refl)
settle_transaction-IsWhole (at_commit false) db k d n id now r e =
    rw e (refl, refl, inl (refl, refl))

-- The transaction of a settlement whose row is there is all or nothing, whichever of its statements
-- throws: the client is left without a transaction, there is an answer where none of them throws and
-- an error where one does, and either the tables are as they were, with an error, or the
-- settlement's log has one more event, its row says that it is settled, and its notification is in
-- the outbox.
pub settle_and_enqueue_atomic :
    (f : Failure) (db : Database) (k : String) (d : Details) (n : Notice) (id : String) (now : ℕ)
    → IsKept db k
    → is_some (get_sql db k) ≡ true
    → let (s, r) = settle_transaction f db k d (some n) id now in
      (s.work ≡ none)
      × (is_answer r ≡ is_nowhere f)
      × (((s.committed ≡ db) × (r ≡ err tt))
          ⊎ ((length (log_sql s.committed k) ≡ length (log_sql db k) + 1)
              × (state_in s.committed k ≡ some State.settled)
              × (has_event id s.committed.outbox ≡ true)))
unfolding get_sql
settle_and_enqueue_atomic f db k d n id now kept there =
    let (row, returned, stored, settled) =
      update_sql-there db k EventType.settled State.settled d now there in
    let (closed, answers, ends) = settle_transaction-IsWhole f db k d n id now row returned in
    (
      closed,
      answers,
      elim ends [
        | inl kept_as_is ↦ inl kept_as_is
        | inr same ↦ inr (rw same (settled_lem db k d n id now kept there))
      ],
    )
