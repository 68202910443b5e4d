-- ===== src/PgSettlement/Writes.antt =====
-- Writes of the Postgres settlement store whose statements may fail (src/store/postgres.js).
use x402_facilitator_stellar.Common.{
  ℕ, String, ◌≡◌, refl, ◌≢◌, inl, inr, Bool, false, not, Option, arith, if◌then◌else◌, Option-cases,
  Result, ok, err,
}
use x402_facilitator_stellar.EventStore.{State, EventError, event_type_for_state}
use x402_facilitator_stellar.Settlement
use x402_facilitator_stellar.Settlement.{Record, Details}
use x402_facilitator_stellar.Settlement.Refinement.{Op}
use x402_facilitator_stellar.Settlement.Log.{
  terminal_type, save_lem, transition_lem, transition_submitted,
}
use x402_facilitator_stellar.PgSettlement.{Row, Database, Notice, save_sql, update_sql, settle_sql}
use x402_facilitator_stellar.PgSettlement.Store.{
  Fate, answered, lost, refused, Store, World, is_local, save, update_state, settle_and_enqueue,
  resolved_id, resolved, record_of, save_local, settle_local, update_local, degrade, mirrored,
}
use x402_facilitator_stellar.PgSettlement.Refinement.{step_sql}

pub data Call : Type 0 where
  saves : Record → Call
  updates : String → State → Details → Call
  settles : String → Details → Option Notice → (event_id : Option String) → (random : String) → Call

-- The database after a call: one that throws is one that wrote nothing.
abbrev pub database_after : {A : Type 0} → World → Result EventError (World × A) → Database
database_after w (ok (w', a)) = w'.database
database_after w (err e) = w.database

abbrev pub world : Store → Database → World
world s db = record { store = s; database = db }

-- A call of a process with the store `s`.
pub perform : Store → Database → Call → (now here : ℕ) → Fate → Database
perform s db (Call.saves r) now here fate =
    database_after (world s db) (save (world s db) r now here fate)
perform s db (Call.updates k st d) now here fate =
    database_after (world s db) (update_state (world s db) k st d now here fate)
perform s db (Call.settles k d n e random) now here fate =
    database_after (world s db) (settle_and_enqueue (world s db) k d n e random now here fate)

-- Whether the call's statement is carried out.
abbrev pub is_committed : Store → Fate → Bool
is_committed s refused = false
is_committed s _ = not (is_local s)

abbrev pub committed : Database → Call → ℕ → Database
committed db (Call.saves r) now = step_sql db (Op.saves r now)
committed db (Call.updates k st d) now = step_sql db (Op.updates k st d now)
committed db (Call.settles k d n e random) now =
    let id = resolved_id e n random in (settle_sql db k d (resolved n id) id now).0

save_local-database :
    (w v : World) (r : Record) (now : ℕ) → database_after v (save_local w r now) ≡ w.database
save_local-database w v r now = rw (save_lem w.store.local r now) refl

update_local-database :
    (w v : World) (k : String) (st : State) (d : Details) (now : ℕ)
    → st ≢ State.submitted
    → database_after v (update_local w k st d now) ≡ w.database
unfolding Settlement.update_state
update_local-database w v k st d now h = ground (arith, transition_lem w.store.local k st d now h)

update_local-submitted :
    (w : World) (k : String) (d : Details) (now : ℕ)
    → database_after w (update_local w k State.submitted d now) ≡ w.database
unfolding Settlement.update_state
update_local-submitted w k d now = ground (arith, transition_submitted w.store.local k d now)

save-database :
    (s : Store) (db : Database) (r : Record) (now here : ℕ) (fate : Fate)
    → perform s db (Call.saves r) now here fate
      ≡ (if is_committed s fate then committed db (Call.saves r) now else db)
unfolding perform save step_sql save_sql
save-database s db r now here answered = ground (
  arith,
  save_local-database (world s db) (world s db) r here,
  save_lem s.local (record_of r.idempotency_key (save_sql db r now).1.projection) here,
)
save-database s db r now here lost = ground (
  arith,
  save_local-database (world s db) (world s db) r here,
  save_local-database (world (degrade s) (save_sql db r now).0) (world s db) r here,
)
save-database s db r now here refused = ground (
  arith,
  save_local-database (world s db) (world s db) r here,
  save_local-database (world (degrade s) db) (world s db) r here,
)

-- An update that the mirror repeats.
mirrored-database :
    (s : Store) (db : Database) (v : World) (k : String) (st : State) (d : Details) (now : ℕ)
    (r : Row)
    → st ≢ State.submitted
    → database_after v (mirrored (world s db) k st d now r) ≡ db
unfolding Settlement.update_state
mirrored-database s db v k st d now r h = ground (arith, transition_lem s.local k st d now h)

event_type_for_state_lem :
    (st : State) → st ≢ State.submitted → event_type_for_state st ≡ ok (terminal_type st)
unfolding event_type_for_state
event_type_for_state_lem State.submitted h = absurd (h refl)
event_type_for_state_lem State.settled h = refl
event_type_for_state_lem State.failed h = refl
event_type_for_state_lem State.unknown h = refl

terminal-database :
    (s : Store) (db : Database) (k : String) (st : State) (d : Details) (now here : ℕ) (fate : Fate)
    → st ≢ State.submitted
    → perform s db (Call.updates k st d) now here fate
      ≡ (if is_committed s fate then committed db (Call.updates k st d) now else db)
unfolding perform update_state step_sql
terminal-database s db k st d now here answered h =
    let next = update_sql db k (terminal_type st) st d now in
    elim (Option-cases next.1) [
      | inl e ↦ ground (
        arith,
        e,
        event_type_for_state_lem st h,
        update_local-database (world s db) (world s db) k st d here h,
      )
      | inr (r, e) ↦ ground (
        arith,
        e,
        event_type_for_state_lem st h,
        update_local-database (world s db) (world s db) k st d here h,
        mirrored-database s next.0 (world s db) k st d here r h,
      )
    ]
terminal-database s db k st d now here lost h = ground (
  arith,
  event_type_for_state_lem st h,
  update_local-database (world s db) (world s db) k st d here h,
  update_local-database (world (degrade s) (update_sql db k (terminal_type st) st d now).0)
      (world s db) k st d here h,
)
terminal-database s db k st d now here refused h = ground (
  arith,
  event_type_for_state_lem st h,
  update_local-database (world s db) (world s db) k st d here h,
  update_local-database (world (degrade s) db) (world s db) k st d here h,
)

submitted-database :
    (s : Store) (db : Database) (k : String) (d : Details) (now here : ℕ) (fate : Fate)
    → perform s db (Call.updates k State.submitted d) now here fate
      ≡ (if is_committed s fate then committed db (Call.updates k State.submitted d) now else db)
unfolding perform update_state step_sql event_type_for_state
submitted-database s db k d now here fate = ground (
  arith,
  update_local-submitted (world s db) k d here,
  update_local-submitted (world (degrade s) db) k d here,
)

update-database :
    (s : Store) (db : Database) (k : String) (st : State) (d : Details) (now here : ℕ) (fate : Fate)
    → perform s db (Call.updates k st d) now here fate
      ≡ (if is_committed s fate then committed db (Call.updates k st d) now else db)
update-database s db k State.submitted d now here fate = submitted-database s db k d now here fate
update-database s db k State.settled d now here fate =
    terminal-database s db k State.settled d now here fate (λ e. ground (arith, e))
update-database s db k State.failed d now here fate =
    terminal-database s db k State.failed d now here fate (λ e. ground (arith, e))
update-database s db k State.unknown d now here fate =
    terminal-database s db k State.unknown d now here fate (λ e. ground (arith, e))

settle_local-database :
    (s : Store) (db : Database) (v : World) (k : String) (d : Details) (n : Option Notice) (now : ℕ)
    → database_after v (settle_local (world s db) k d n now) ≡ db
unfolding Settlement.update_state
settle_local-database s db v k d n now =
    ground (arith, transition_lem s.local k State.settled d now (λ c. ground (arith, c)))

settle-database :
    (s : Store) (db : Database) (k : String) (d : Details) (n : Option Notice) (e : Option String)
    (random : String) (now here : ℕ) (fate : Fate)
    → let c = Call.settles k d n e random in
      perform s db c now here fate ≡ (if is_committed s fate then committed db c now else db)
unfolding perform settle_and_enqueue
settle-database s db k d n e random now here answered =
    let id = resolved_id e n random in
    let next = settle_sql db k d (resolved n id) id now in
    elim (Option-cases next.1) [
      | inl q ↦ ground (arith, q, settle_local-database s db (world s db) k d n here)
      | inr (r, q) ↦ ground (
        arith,
        q,
        settle_local-database s db (world s db) k d n here,
        mirrored-database s next.0 (world s db) k State.settled d here r (λ c. ground (arith, c)),
      )
    ]
settle-database s db k d n e random now here lost =
    let id = resolved_id e n random in
    ground (
      arith,
      settle_local-database s db (world s db) k d n here,
      settle_local-database (degrade s) (settle_sql db k d (resolved n id) id now).0 (world s db) k
          d n here,
    )
settle-database s db k d n e random now here refused = ground (
  arith,
  settle_local-database s db (world s db) k d n here,
  settle_local-database (degrade s) db (world s db) k d n here,
)

pub perform_lem :
    (s : Store) (db : Database) (c : Call) (now here : ℕ) (fate : Fate)
    → perform s db c now here fate ≡ (if is_committed s fate then committed db c now else db)
perform_lem s db (Call.saves r) = save-database s db r
perform_lem s db (Call.updates k st d) = update-database s db k st d
perform_lem s db (Call.settles k d n e random) = settle-database s db k d n e random
