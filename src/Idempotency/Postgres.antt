-- ===== src/Idempotency/Postgres.antt =====
-- Claims in the Postgres table, by instances that race, and what becomes of a claim in flight.
use x402_facilitator_stellar.Common.{
  ℕ, String, ◌≡◌, ◌≢◌, ◌↔◌, none, some, List, [], ◌∷◌, arith, eq_refl,
}
use x402_facilitator_stellar.Common.Dict
use x402_facilitator_stellar.Common.Dict.{Map}
use x402_facilitator_stellar.Idempotency.{
  owned, replayed, Row, claim_row, poll, begin_pg, complete_pg,
}

module _ {R : Type 0} where
  poll-ne-owned : (k : String) (ts : List (Map (Row R))) → poll k ts ≢ owned
  unfolding poll
  poll-ne-owned k [] = cc
  poll-ne-owned k (t ∷ ts) = ground (arith, poll-ne-owned k ts)

  -- Of instances that race for a key one owns it: `begin` answers `owned` exactly if the snapshot
  -- and the table that the INSERT meets both lack the key, and then the table has the claim, so that
  -- any later INSERT of the key meets it.
  pub begin_pg-owned :
      (k : String) (seen now : Map (Row R)) (later : List (Map (Row R)))
      → ((begin_pg k seen now later).1 ≡ owned) ↔ (
          (Dict.get k seen ≡ none)
          × (Dict.get k now ≡ none)
          × (Dict.get k (begin_pg k seen now later).0 ≡ some claim_row))
  unfolding begin_pg
  begin_pg-owned k seen now later = (
    λ h. ground (arith, poll-ne-owned k later, Dict.get-set k k claim_row now, eq_refl k),
    λ h. ground arith,
  )

  begin_pg_seen :
      (k : String) (seen now : Map (Row R)) (later : List (Map (Row R))) (row : Row R)
      → Dict.get k seen ≡ some row
      → begin_pg k seen now later ≡ (now, replayed row.status_code row.response)
  unfolding begin_pg
  begin_pg_seen k seen now later row h = rw (h, begin_pg)

  get-complete_pg :
      (k : String) (code : ℕ) (r : R) (t : Map (Row R)) (row : Row R)
      → Dict.get k t ≡ some row
      → Dict.get k (complete_pg k code r t)
        ≡ some (record { status_code = some code; response = some r })
  unfolding complete_pg
  get-complete_pg k code r t row h =
      ground (
        arith,
        Dict.get-set k k (record { status_code = some code; response = some r }) t,
        eq_refl k,
      )

  -- After an instance has claimed a key and completed it, every instance that sees the table then
  -- is handed the recorded status and answer.
  pub begin_pg-complete_pg :
      (k : String) (t : Map (Row R)) (code : ℕ) (r : R) (now : Map (Row R))
      (later : List (Map (Row R)))
      → (begin_pg k t t []).1 ≡ owned
      → begin_pg k (complete_pg k code r (begin_pg k t t []).0) now later
        ≡ (now, replayed (some code) (some r))
  begin_pg-complete_pg k t code r now later h =
      begin_pg_seen k _ now later _
        (get-complete_pg k code r _ claim_row ((begin_pg-owned k t t []).0 h).2)

  -- While the claim is in flight, an instance that sees it is not told of a conflict: it is handed a
  -- replay that has neither a status nor an answer.
  pub begin_pg_in_flight :
      (k : String) (t now : Map (Row R)) (later : List (Map (Row R)))
      → (begin_pg k t t []).1 ≡ owned
      → begin_pg k (begin_pg k t t []).0 now later ≡ (now, replayed none none)
  begin_pg_in_flight k t now later h =
      begin_pg_seen k _ now later claim_row ((begin_pg-owned k t t []).0 h).2
