-- ===== src/ReadModel/Batch.antt =====
-- The events of a batch of the projection worker and their groups (src/settlement-cqrs.js).
use x402_facilitator_stellar.Common.{
  ℕ, ◌≤◌, String, ◌≡◌, refl, Option, none, some, List, [], ◌∷◌, ◌++◌, map, arith, get_or, select,
  All, All-append, All-select, All-take, All-weaken,
}
use x402_facilitator_stellar.Common.Dict
use x402_facilitator_stellar.Common.Dict.{Map}
use x402_facilitator_stellar.Common.Sort.{All-sort_by}
use x402_facilitator_stellar.EventStore.{Event}
use x402_facilitator_stellar.PgSettlement.{Database, max_seq}
use x402_facilitator_stellar.ReadModel.{read_batch, group, max_sequence, is_after, by_seq}

-- What holds of every event of the log whose number is above the checkpoint holds of the batch.
pub read_batch-All {κ} :
    (P : String × Event → Type κ) (db : Database) (offset limit : ℕ)
    → All P (select (is_after offset) db.logged)
    → All P (read_batch db offset limit)
unfolding read_batch
read_batch-All P db offset limit h =
    All-take P limit _ (All-sort_by by_seq P (select (is_after offset) db.logged) h)

pub group-All {κ} :
    (P : String → Event → Type κ) (groups : Map (List Event)) (es : List (String × Event))
    → All (λ g. All (P g.0) g.1) groups
    → All (λ e. P e.0 e.1) es
    → All (λ g. All (P g.0) g.1) (group groups es)
unfolding group
group-All P groups [] h k = h
group-All P groups ((j, e) ∷ es) h k =
    group-All P (Dict.set j (get_or (Dict.get j groups) [] ++ e ∷ []) groups) es
      (Dict.All-set _ j _ groups
        (All-append (P j) _ (e ∷ []) (earlier (Dict.get j groups) refl) (k.0, tt)) h)
      k.1
  where
    earlier : (o : Option (List Event)) → Dict.get j groups ≡ o → All (P j) (get_or o [])
    earlier none e = tt
    earlier (some log) e = Dict.All-get (λ i xs. All (P i) xs) j log groups h e

pub max_seq-ge : (log : List Event) → All (λ (e : Event). e.seq ≤ max_seq log) log
unfolding max_seq
max_seq-ge [] = tt
max_seq-ge (e ∷ log) = (
  omega arith,
  All-weaken _ _ log (λ (x : Event) (l : x.seq ≤ max_seq log). omega (arith, l)) (max_seq-ge log),
)

pub max_seq-le : (n : ℕ) (log : List Event) → All (λ (e : Event). e.seq ≤ n) log → max_seq log ≤ n
unfolding max_seq
max_seq-le n [] h = omega arith
max_seq-le n (e ∷ log) h = omega (arith, h.0, max_seq-le n log h.1)

logged-le :
    (n : ℕ) (es : List (String × Event))
    → max_seq (map (λ e. e.1) es) ≤ n
    → All (λ (e : String × Event). e.1.seq ≤ n) es
unfolding max_seq
logged-le n [] h = tt
logged-le n (e ∷ es) h = (omega (arith, h), logged-le n es (omega (arith, h)))

-- No event of a batch has a number above the greatest of the log.
pub batch_groups-le :
    (db : Database) (offset limit : ℕ)
    → All
        (λ g. All (λ (e : Event). e.seq ≤ max_sequence db) g.1)
        (group [] (read_batch db offset limit))
unfolding max_sequence
batch_groups-le db offset limit =
    group-All (λ k e. e.seq ≤ max_sequence db) [] (read_batch db offset limit) tt
      (read_batch-All (λ e. e.1.seq ≤ max_sequence db) db offset limit
        (All-select _ (is_after offset) db.logged
          (logged-le (max_sequence db) db.logged (omega arith))))
