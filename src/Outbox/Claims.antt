-- ===== src/Outbox/Claims.antt =====
-- Claims on the outbox: within a lease a row is one worker's, after it the row comes back.
use x402_facilitator_stellar.Common.{
  ℕ, ◌+◌, ◌≤◌, ◌<◌, ◌≡◌, refl, true, false, ◌&&◌, List, [], ◌∷◌, map, arith, eqb, length, select,
  any, All, length-select-le, All-take, any-select, any-weaken, any-map-with, take_all,
}
use x402_facilitator_stellar.Common.Sort.{sort_by, All-sort_by, any-sort_by, length-sort_by}
use x402_facilitator_stellar.Outbox.{
  Row, Table, is_claimable, older, due, has_id, claim_in, claim_batch,
}

All-due :
    (P : Row → Type 0) (limit lease now : ℕ) (rows : List Row)
    → All P (select (is_claimable lease now) rows)
    → All P (due limit lease now rows)
unfolding due
All-due P limit lease now rows h = All-take P limit _ (All-sort_by older P _ h)

-- Two claims within the time of a lease have no row in common: a row that the first one returned
-- is not returned by the second.
pub claim_exclusive :
    (limit limit' lease now now' : ℕ) (t : Table)
    → now' ≤ now + lease
    → let (t', chosen) = claim_batch limit lease now t in
      All (λ (r : Row). has_id r.id chosen ≡ false) (claim_batch limit' lease now' t').1
unfolding claim_batch is_claimable
claim_exclusive limit limit' lease now now' t soon =
    All-due (λ (r : Row). has_id r.id chosen ≡ false) limit' lease now'
      (map (claim_in now chosen) t.rows) (unchosen t.rows)
  where
    chosen : List Row
    chosen = due limit lease now t.rows

    unchosen :
        (rows : List Row)
        → All
            (λ (r : Row). has_id r.id chosen ≡ false)
            (select (is_claimable lease now') (map (claim_in now chosen) rows))
    unchosen [] = tt
    unchosen (r ∷ rows) = ground (arith, unchosen rows)

has_id-due :
    (limit lease now : ℕ) (rows : List Row) (id : ℕ)
    → length rows ≤ limit
    → has_id id (due limit lease now rows)
      ≡ any (λ (r : Row). is_claimable lease now r && eqb r.id id) rows
unfolding due
has_id-due limit lease now rows id small =
    rw
      (
        take_all limit (sort_by older (select (is_claimable lease now) rows)) (
            omega (
              arith,
              small,
              length-sort_by older (select (is_claimable lease now) rows),
              length-select-le (is_claimable lease now) rows,
            )),
        any-sort_by older (λ (r : Row). eqb r.id id) (select (is_claimable lease now) rows),
      )
      (any-select (is_claimable lease now) (λ (r : Row). eqb r.id id) rows)

length-map : (f : Row → Row) (rows : List Row) → length (map f rows) ≡ length rows
length-map f [] = refl
length-map f (r ∷ rows) = omega (arith, length-map f rows)

-- Nothing stays with a worker that died: every row that a claim returned is returned by a claim
-- after its lease is over, in a batch as large as the table.
pub claim_returns :
    (limit lease now now' : ℕ) (t : Table) (id : ℕ)
    → length t.rows ≤ limit
    → now + lease < now'
    → has_id id (claim_batch limit lease now t).1 ≡ true
    → has_id id (claim_batch limit lease now' (claim_batch limit lease now t).0).1 ≡ true
unfolding claim_batch is_claimable
claim_returns limit lease now now' t id small late held =
    rw
      (
        has_id-due limit lease now' (map (claim_in now chosen) t.rows) id
            (omega (arith, length-map (claim_in now chosen) t.rows)),
        any-map-with (λ (r : Row). is_claimable lease now' r && eqb r.id id) (claim_in now chosen)
            t.rows,
      )
      (any-weaken _ _ t.rows again (rw (← has_id-due limit lease now t.rows id small) held))
  where
    chosen : List Row
    chosen = due limit lease now t.rows

    again :
        (r : Row)
        → (is_claimable lease now r && eqb r.id id) ≡ true
        → (is_claimable lease now' (claim_in now chosen r) && eqb (claim_in now chosen r).id id)
          ≡ true
    again r h = ground (arith, h, held)
