-- ===== src/ReadModel/Progress.antt =====
-- The checkpoint of the projection worker (src/settlement-cqrs.js,
-- src/eventstore/projection-worker.js).
use x402_facilitator_stellar.Common.{
  ℕ, zero, suc, ◌+◌, ◌-◌, ◌≤◌, ◌<◌, String, ◌≡◌, refl, inl, inr, Bool, some, List, [], ◌∷◌, arith,
  eqb, Bool-cases, All,
}
use x402_facilitator_stellar.Common.Dict.{Map}
use x402_facilitator_stellar.EventStore.{Event}
use x402_facilitator_stellar.PgSettlement.{Database}
use x402_facilitator_stellar.ReadModel.Batch.{batch_groups-le, max_seq-le}
use x402_facilitator_stellar.ReadModel.{
  read_batch, group, max_sequence, Worker, Pass, project_group, project_groups, process_batch, lag,
  catch_up, process_to_caught_up,
}

project_group_mono :
    (db : Database) (fails : String → Bool) (g : Pass) (e : String × List Event)
    → g.last_seq ≤ (project_group db fails g e).last_seq
unfolding project_group
project_group_mono db fails g (k, events) = ground arith

project_groups_mono :
    (db : Database) (fails : String → Bool) (g : Pass) (es : Map (List Event))
    → g.last_seq ≤ (project_groups db fails g es).last_seq
unfolding project_groups
project_groups_mono db fails g [] = omega arith
project_groups_mono db fails g (e ∷ es) = omega (
  arith,
  project_group_mono db fails g e,
  project_groups_mono db fails (project_group db fails g e) es,
)

-- The checkpoint never moves back.
pub process_batch_mono :
    (db : Database) (fails : String → Bool) (limit : ℕ) (w : Worker)
    → w.offset ≤ (process_batch db fails limit w).offset
unfolding process_batch
process_batch_mono db fails limit w = ground arith

project_group-le :
    (db : Database) (fails : String → Bool) (n : ℕ) (g : Pass) (e : String × List Event)
    → g.last_seq ≤ n
    → All (λ (x : Event). x.seq ≤ n) e.1
    → (project_group db fails g e).last_seq ≤ n
unfolding project_group
project_group-le db fails n g (k, events) h below = ground (arith, h, max_seq-le n events below)

project_groups-le :
    (db : Database) (fails : String → Bool) (n : ℕ) (g : Pass) (es : Map (List Event))
    → g.last_seq ≤ n
    → All (λ e. All (λ (x : Event). x.seq ≤ n) e.1) es
    → (project_groups db fails g es).last_seq ≤ n
unfolding project_groups
project_groups-le db fails n g [] h below = h
project_groups-le db fails n g (e ∷ es) h below =
    project_groups-le db fails n (project_group db fails g e) es
      (project_group-le db fails n g e h below.0) below.1

pub process_batch-le :
    (db : Database) (fails : String → Bool) (limit : ℕ) (w : Worker)
    → w.offset ≤ max_sequence db
    → (process_batch db fails limit w).offset ≤ max_sequence db
unfolding process_batch
process_batch-le db fails limit w low = ground (
  arith,
  low,
  project_groups-le db fails (max_sequence db) (record { rows = w.table; last_seq = w.offset })
      (group [] (read_batch db w.offset limit)) low (batch_groups-le db w.offset limit),
)

-- Fuel beyond the lag changes nothing: an iteration that makes no progress is the last.
catch_up_enough :
    (db : Database) (fails : String → Bool) (limit n m iterations : ℕ) (w : Worker)
    → w.offset ≤ max_sequence db
    → max_sequence db - w.offset < n
    → n ≤ m
    → catch_up db fails limit m iterations (some (lag db w)) w
      ≡ catch_up db fails limit n iterations (some (lag db w)) w
unfolding catch_up
catch_up_enough db fails limit zero m iterations w low few more = ground arith
catch_up_enough db fails limit (suc n) zero iterations w low few more = ground arith
catch_up_enough db fails limit (suc n) (suc m) iterations w low few more =
    let w' = process_batch db fails limit w in
    elim (Bool-cases (eqb w'.offset w.offset)) [
      | inl same ↦ ground (arith, same)
      | inr moved ↦
          rw
            (catch_up_enough db fails limit n m (iterations + 1) w'
              (process_batch-le db fails limit w low)
              (ground (
                arith,
                moved,
                process_batch_mono db fails limit w,
                few,
                process_batch-le db fails limit w low,
              ))
              (ground (arith, more)))
            refl
    ]

-- The loop that catches up ends by itself: from a checkpoint that is not ahead of the stream, more
-- iterations than the lag and one give the same result, so that the bound on the iterations is not
-- what ends it.
pub process_to_caught_up_ends :
    (db : Database) (fails : String → Bool) (limit n m : ℕ) (w : Worker)
    → w.offset ≤ max_sequence db
    → max_sequence db - w.offset + 1 < n
    → n ≤ m
    → process_to_caught_up db fails limit m w ≡ process_to_caught_up db fails limit n w
unfolding process_to_caught_up catch_up
process_to_caught_up_ends db fails limit zero m w low few more = ground arith
process_to_caught_up_ends db fails limit (suc n) zero w low few more = ground arith
process_to_caught_up_ends db fails limit (suc n) (suc m) w low few more =
    let w' = process_batch db fails limit w in
    rw
      (catch_up_enough db fails limit n m 1 w' (process_batch-le db fails limit w low)
        (ground (arith, few, process_batch_mono db fails limit w)) (ground (arith, more)))
      refl
