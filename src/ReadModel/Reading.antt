-- ===== src/ReadModel/Reading.antt =====
-- What the projection worker writes, and what it never reads (src/settlement-cqrs.js).
use x402_facilitator_stellar.Common.{
  str_ne, ℕ, String, ◌≡◌, refl, ap, ◌∙◌, ◌≢◌, ◌⊎◌, inl, inr, Bool, true, false, Option, none, some,
  List, [], ◌∷◌, arith, str_eq, eq_iff, eq_refl, Bool-cases, Option-cases, any, All,
}
use x402_facilitator_stellar.Common.Dict
use x402_facilitator_stellar.Common.Dict.{Map}
use x402_facilitator_stellar.Common.Sort.{All-sort_by}
use x402_facilitator_stellar.EventStore.{Event, Projection, project_settlement}
use x402_facilitator_stellar.EventStore.Fold.{named_from}
use x402_facilitator_stellar.PgSettlement.{Database, max_seq, log_sql, events_of}
use x402_facilitator_stellar.ReadModel.{
  Row, row_of, merged, insert_row, write_projection, Pass, project_group, project_groups,
}

-- Every event carries the key that it is logged under.
abbrev pub IsNamed : List (String × Event) → Type 0
IsNamed = All (λ e. e.1.payload.idempotency_key ≡ some e.0)

events_of-named :
    (k : String) (rows : List (String × Event))
    → IsNamed rows
    → All (λ (e : Event). e.payload.idempotency_key ≡ some k) (events_of k rows)
unfolding events_of
events_of-named k [] h = tt
events_of-named k (e ∷ rows) h = ground (arith, h.0, eq_iff e.0 k, events_of-named k rows h.1)

-- A settlement's projection carries the settlement's key.
projected_key :
    (db : Database) (k : String) (p : Projection)
    → IsNamed db.logged
    → project_settlement (log_sql db k) ≡ some p
    → p.idempotency_key ≡ some k
unfolding project_settlement log_sql
projected_key db k p named e =
    named_from k none (log_sql db k)
      (All-sort_by _ _ (events_of k db.logged) (events_of-named k db.logged named)) (λ q h. cc) p e

write_projection-other :
    (table : Map Row) (q : Option Projection) (seq : ℕ) (rows : Map Row) (j k : String)
    → ((p : Projection) → q ≡ some p → p.idempotency_key ≡ some j)
    → j ≢ k
    → write_projection table q seq ≡ some rows
    → Dict.get k rows ≡ Dict.get k table
unfolding write_projection insert_row
write_projection-other table none seq rows j k named other e = ground (arith, e)
write_projection-other table (some p) seq rows j k named other e = elim (Option-cases p.key_id) [
  | inl open_mode ↦ absurd (ground (arith, e, open_mode, named p refl))
  | inr (id, known) ↦
      let written = merged (Dict.get j table) (row_of id p seq) in
      ground (arith, e, known, named p refl, eq_iff j k, Dict.get-set j k written table, other)
]

-- A group of another settlement leaves a row alone.
pub project_group-other :
    (db : Database) (fails : String → Bool) (g : Pass) (e : String × List Event) (k : String)
    → IsNamed db.logged
    → e.0 ≢ k
    → Dict.get k (project_group db fails g e).rows ≡ Dict.get k g.rows
unfolding project_group
project_group-other db fails g (j, events) k named other =
    let seq = max_seq events in
    elim (Option-cases (write_projection g.rows (project_settlement (log_sql db j)) seq)) [
      | inl e ↦ ground (arith, e)
      | inr (rows, e) ↦ ground (
        arith,
        e,
        write_projection-other g.rows (project_settlement (log_sql db j)) seq rows j k
            (λ p. projected_key db j p named) other e,
      )
    ]

-- The columns that a later write does not change.
abbrev pub Fixed : Type 0
Fixed = String × String × String × Option String × Option String × Option String × Option String × ℕ

abbrev pub fixed : Row → Fixed
fixed r = (r.key_id, r.network, r.scheme, r.payer, r.pay_to, r.asset, r.amount, r.created_at)

-- Where those of a row come from: the row that was there, or the first projection written.
abbrev pub origin : (id : String) → Projection → Option Row → Fixed
origin id p none = fixed (row_of id p 0)
origin id p (some r) = fixed r

-- The row shows the state of the log's projection, its hash, its error and its last change, and
-- for the rest what the row before showed, or without one the projection itself.
abbrev pub Shows : (id : String) → Projection → (before row : Option Row) → Type 0
Shows id p before none = ⊥
Shows id p before (some r) =
    (r.state ≡ p.state)
    × (r.tx_hash ≡ p.tx_hash)
    × (r.error_reason ≡ p.error_reason)
    × (r.error_message ≡ p.error_message)
    × (r.updated_at ≡ p.updated_at)
    × (fixed r ≡ origin id p before)

-- The row is still the one before, or shows the projection.
abbrev IsFresh : (id : String) → Projection → (before row : Option Row) → Type 0
IsFresh id p before row = (row ≡ before) ⊎ Shows id p before row

merged-Shows :
    (before o : Option Row) (p : Projection) (id : String) (seq : ℕ)
    → IsFresh id p before o
    → Shows id p before (some (merged o (row_of id p seq)))
merged-Shows before none p id seq (inl same) = (refl, refl, refl, refl, refl, ap (origin id p) same)
merged-Shows before (some r) p id seq (inl same) =
    (refl, refl, refl, refl, refl, ap (origin id p) same)
merged-Shows before none p id seq (inr shows) = absurd shows
merged-Shows before (some r) p id seq (inr (a, b, c, d, e, kept)) =
    (refl, refl, refl, refl, refl, kept)

write_projection-same :
    (table : Map Row) (before : Option Row) (p : Projection) (seq : ℕ) (k id : String)
    → p.idempotency_key ≡ some k
    → p.key_id ≡ some id
    → IsFresh id p before (Dict.get k table)
    → (rows : Map Row) × (write_projection table (some p) seq ≡ some rows)
      × Shows id p before (Dict.get k rows)
unfolding write_projection insert_row
write_projection-same table before p seq k id named known fresh =
    let written = merged (Dict.get k table) (row_of id p seq) in
    (
      Dict.set k written table,
      rw (write_projection, insert_row, named, known) refl,
      rw (Dict.get-set k k written table, eq_refl k)
          (merged-Shows before (Dict.get k table) p id seq fresh),
    )

module _ (db : Database) (fails : String → Bool) (before : Option Row) (k id : String)
    (p : Projection) (named : IsNamed db.logged) (works : fails k ≡ false)
    (projects : project_settlement (log_sql db k) ≡ some p) (known : p.key_id ≡ some id) where
  project_group-Shows :
      (g : Pass) (events : List Event)
      → IsFresh id p before (Dict.get k g.rows)
      → Shows id p before (Dict.get k (project_group db fails g (k, events)).rows)
  unfolding project_group
  project_group-Shows g events fresh =
      let (rows, e, shows) =
        write_projection-same g.rows before p (max_seq events) k id
          (projected_key db k p named projects) known fresh in
      rw (project_group, works, projects, e) shows

  -- The groups of a batch, whatever their order: a settlement that is among them is shown.
  pub project_groups-Shows :
      (g : Pass) (es : Map (List Event))
      → ((any (λ e. str_eq e.0 k) es ≡ true) × (Dict.get k g.rows ≡ before))
        ⊎ Shows id p before (Dict.get k g.rows)
      → Shows id p before (Dict.get k (project_groups db fails g es).rows)
  unfolding project_groups
  project_groups-Shows g [] (inl (e, same)) = absurd (ground (arith, e))
  project_groups-Shows g [] (inr shows) = shows
  project_groups-Shows g ((j, events) ∷ es) h =
      project_groups-Shows (project_group db fails g (j, events)) es
        (next (Bool-cases (str_eq j k)) h)
    where
      fresh :
          ((any (λ e. str_eq e.0 k) ((j, events) ∷ es) ≡ true) × (Dict.get k g.rows ≡ before))
            ⊎ Shows id p before (Dict.get k g.rows)
          → IsFresh id p before (Dict.get k g.rows)
      fresh (inl (e, same)) = inl same
      fresh (inr shows) = inr shows

      next :
          ((str_eq j k ≡ true) ⊎ (str_eq j k ≡ false))
          → ((any (λ e. str_eq e.0 k) ((j, events) ∷ es) ≡ true) × (Dict.get k g.rows ≡ before))
            ⊎ Shows id p before (Dict.get k g.rows)
          → ((any (λ e. str_eq e.0 k) es ≡ true)
              × (Dict.get k (project_group db fails g (j, events)).rows ≡ before))
            ⊎ Shows id p before (Dict.get k (project_group db fails g (j, events)).rows)
      next (inl same) h =
          let name : j ≡ k = ground (arith, eq_iff j k, same) in
          inr (rw name (project_group-Shows g events (fresh h)))
      next (inr other) (inl (e, same)) = inl (
        ground (arith, e, other),
        project_group-other db fails g (j, events) k named (str_ne j k other) ∙ same,
      )
      next (inr other) (inr shows) =
          inr (rw (project_group-other db fails g (j, events) k named (str_ne j k other)) shows)
