-- ===== src/ReadModel/Delivery.antt =====
-- Which settlements reach the read model (src/settlement-cqrs.js).
use x402_facilitator_stellar.Common.{
  str_ne, ℕ, ◌≤◌, String, ◌≡◌, refl, ◌∙◌, ◌≢◌, inl, inr, Bool, true, false, ◌||◌, some, List, [],
  ◌∷◌, ◌++◌, arith, str_eq, eq_iff, ltb, Bool-cases, get_or, select, any, All,
}
use x402_facilitator_stellar.Common.Dict
use x402_facilitator_stellar.Common.Dict.{Map}
use x402_facilitator_stellar.EventStore.{Event, Projection, project_settlement}
use x402_facilitator_stellar.PgSettlement.{Database, max_seq, log_sql, events_of}
use x402_facilitator_stellar.ReadModel.{
  read_batch, group, is_after, Worker, Pass, project_group, project_groups, process_batch,
}
use x402_facilitator_stellar.ReadModel.Batch.{read_batch-All}
use x402_facilitator_stellar.ReadModel.Progress.{process_batch_mono}
use x402_facilitator_stellar.ReadModel.Reading.{
  IsNamed, Shows, project_group-other, project_groups-Shows,
}

any-set :
    {V : Type 0} (k j : String) (v : V) (m : Map V)
    → any (λ e. str_eq e.0 k) (Dict.set j v m) ≡ (str_eq j k || any (λ e. str_eq e.0 k) m)
unfolding Dict.set
any-set k j v [] = refl
any-set k j v ((i, w) ∷ m) = ground (arith, eq_iff i j, any-set k j v m)

any-group :
    (groups : Map (List Event)) (es : List (String × Event)) (k : String)
    → any (λ g. str_eq g.0 k) (group groups es)
      ≡ (any (λ g. str_eq g.0 k) groups || any (λ e. str_eq e.0 k) es)
unfolding group
any-group groups [] k = ground arith
any-group groups ((j, e) ∷ es) k =
    let next = get_or (Dict.get j groups) [] ++ e ∷ [] in
    ground (arith, any-set k j next groups, any-group (Dict.set j next groups) es k)

-- After a batch the row of each settlement with an event in the batch shows the state, the hash, the
-- error and the last change that its whole log projects to, however many of its events the batch
-- has and whatever becomes of the others, if the settlement has an API key and none of its own
-- queries fails. The other columns are those of the row that was there, which a retry that changes
-- them does not update, and of the projection where no row was there.
pub process_batch-Shows :
    (db : Database) (fails : String → Bool) (limit : ℕ) (w : Worker) (k id : String)
    (p : Projection)
    → IsNamed db.logged
    → any (λ e. str_eq e.0 k) (read_batch db w.offset limit) ≡ true
    → fails k ≡ false
    → project_settlement (log_sql db k) ≡ some p
    → p.key_id ≡ some id
    → Shows id p (Dict.get k w.table) (Dict.get k (process_batch db fails limit w).table)
unfolding process_batch
process_batch-Shows db fails limit w k id p named there works projects known =
    project_groups-Shows db fails (Dict.get k w.table) k id p named works projects known
      (record { rows = w.table; last_seq = w.offset }) (group [] (read_batch db w.offset limit))
      (inl (any-group [] (read_batch db w.offset limit) k ∙ there, refl))

-- Batches one after the other, each with the queries that fail in it.
pub process_batches : Database → (limit : ℕ) → List (String → Bool) → Worker → Worker
process_batches db limit [] w = w
process_batches db limit (fails ∷ rest) w =
    process_batches db limit rest (process_batch db fails limit w)

group-keys {κ} :
    (Q : String → Type κ) (groups : Map (List Event)) (es : List (String × Event))
    → All (λ g. Q g.0) groups
    → All (λ e. Q e.0) es
    → All (λ g. Q g.0) (group groups es)
unfolding group
group-keys Q groups [] h k = h
group-keys Q groups ((j, e) ∷ es) h k =
    group-keys Q (Dict.set j (get_or (Dict.get j groups) [] ++ e ∷ []) groups) es
      (Dict.All-set _ j _ groups k.0 h) k.1

project_groups-other :
    (db : Database) (fails : String → Bool) (g : Pass) (es : Map (List Event)) (k : String)
    → IsNamed db.logged
    → All (λ e. e.0 ≢ k) es
    → Dict.get k (project_groups db fails g es).rows ≡ Dict.get k g.rows
unfolding project_groups
project_groups-other db fails g [] k named others = refl
project_groups-other db fails g (e ∷ es) k named others =
    project_groups-other db fails (project_group db fails g e) es k named others.1
    ∙ project_group-other db fails g e k named others.0

unread :
    (offset : ℕ) (k : String) (rows : List (String × Event))
    → max_seq (events_of k rows) ≤ offset
    → All (λ e. e.0 ≢ k) (select (is_after offset) rows)
unfolding max_seq events_of
unread offset k [] h = tt
unread offset k ((j, e) ∷ rows) h = elim (Bool-cases (str_eq j k)) [
  | inl same ↦
      let passed : ltb offset e.seq ≡ false = ground (arith, same, h) in
      rw passed (unread offset k rows (ground (arith, same, h)))
  | inr other ↦ elim (Bool-cases (ltb offset e.seq)) [
    | inl above ↦ rw above (str_ne j k other, unread offset k rows (ground (arith, other, h)))
    | inr below ↦ rw below (unread offset k rows (ground (arith, other, h)))
  ]
]

process_batch-other :
    (db : Database) (fails : String → Bool) (limit : ℕ) (w : Worker) (k : String)
    → IsNamed db.logged
    → max_seq (events_of k db.logged) ≤ w.offset
    → Dict.get k (process_batch db fails limit w).table ≡ Dict.get k w.table
unfolding process_batch
process_batch-other db fails limit w k named low =
    project_groups-other db fails (record { rows = w.table; last_seq = w.offset })
      (group [] (read_batch db w.offset limit)) k named
      (group-keys (λ j. j ≢ k) [] (read_batch db w.offset limit) tt
        (read_batch-All (λ e. e.0 ≢ k) db w.offset limit (unread w.offset k db.logged low)))

-- An event is read by its number, which counts the events of its own settlement: a settlement none
-- of whose events has a number above the checkpoint is not touched by any number of batches. So a
-- new settlement does not appear before it has more events than the checkpoint's number.
pub process_batches_skip :
    (db : Database) (limit : ℕ) (fs : List (String → Bool)) (w : Worker) (k : String)
    → IsNamed db.logged
    → max_seq (events_of k db.logged) ≤ w.offset
    → Dict.get k (process_batches db limit fs w).table ≡ Dict.get k w.table
unfolding process_batches
process_batches_skip db limit [] w k named low = refl
process_batches_skip db limit (fails ∷ fs) w k named low =
    process_batches_skip db limit fs (process_batch db fails limit w) k named
      (omega (arith, process_batch_mono db fails limit w, low))
    ∙ process_batch-other db fails limit w k named low
