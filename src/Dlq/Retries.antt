-- ===== src/Dlq/Retries.antt =====
-- Retries of dead letters: when they are made, how many there are, and what ends them.
use x402_facilitator_stellar.Common.{
  ℕ, zero, suc, ◌+◌, ◌*◌, ◌^◌, ◌≤◌, ◌<◌, String, ◌≡◌, refl, ◌∙◌, false, not, Option, some, List, [],
  ◌∷◌, map, arith, leb, eqb, if◌then◌else◌, length, select, find, All, All-take, select-holds,
  All-weaken, length-select-not, ok,
}
use x402_facilitator_stellar.Common.Sort.{All-sort_by}
use x402_facilitator_stellar.Dlq.{
  Status, pending, exhausted, resolved, discarded, Letter, Table, Options, is_due, sooner, due,
  claim_due, update_row, fail_row, mark_retry_failed, get, discard_row, discard, in_state,
  count_by_status, throws, attempt_redelivery,
}
use x402_facilitator_stellar.Dlq.Manager.{is_purged, purge}

pow_pos : (n : ℕ) → 1 ≤ 2 ^ n
pow_pos zero = omega arith
pow_pos (suc n) = omega (arith, pow_pos n)

mul_pow : (b p : ℕ) → 1 ≤ p → b ≤ b * p
mul_pow b zero h = ground arith
mul_pow b (suc p) h = omega arith

module _ {P : Type 0} where
  All-due :
      (Q : Letter P → Type 0) (limit lease now : ℕ) (rows : List (Letter P))
      → All Q (select (is_due lease now) rows)
      → All Q (due limit lease now rows)
  unfolding due
  All-due Q limit lease now rows h = All-take Q limit _ (All-sort_by sooner Q _ h)

  -- A claim returns pending letters only, whose time has come: a letter that is exhausted, resolved
  -- or discarded is never claimed.
  pub claim_due_pending :
      (limit lease now : ℕ) (t : Table P)
      → All
          (λ (r : Letter P). (r.status ≡ pending) × (r.next_retry_at ≤ now))
          (claim_due limit lease now t).1
  unfolding claim_due is_due
  claim_due_pending limit lease now t =
      All-due (λ (r : Letter P). (r.status ≡ pending) × (r.next_retry_at ≤ now)) limit lease now
        t.rows
        (All-weaken _ _ _ (λ r h. ground (arith, h)) (select-holds (is_due lease now) t.rows))

  -- After a failed retry no claim returns the letter before its backoff, which is the base at least,
  -- is over.
  pub retry_waits :
      (o : Options) (id : ℕ) (error : String) (limit lease now now' : ℕ) (t : Table P)
      → now' < now + o.base_backoff_ms
      → All
          (λ (r : Letter P). eqb r.id id ≡ false)
          (claim_due limit lease now' (mark_retry_failed o id error now t)).1
  unfolding claim_due mark_retry_failed is_due
  retry_waits o id error limit lease now now' t early =
      All-due (λ (r : Letter P). eqb r.id id ≡ false) limit lease now' _ (waiting t.rows)
    where
      waiting :
          (rows : List (Letter P))
          → All
              (λ (r : Letter P). eqb r.id id ≡ false)
              (select
                (is_due lease now')
                (map (λ (r : Letter P). if eqb r.id id then fail_row o error now r else r) rows))
      waiting [] = tt
      waiting (r ∷ rows) = ground (
        arith,
        waiting rows,
        mul_pow o.base_backoff_ms (2 ^ r.dlq_attempts) (pow_pos r.dlq_attempts),
      )

  -- A letter after `n` failed retries, at the times that are given.
  pub fail_times : Options → (error : String) → List ℕ → Letter P → Letter P
  fail_times o error [] r = r
  fail_times o error (t ∷ ts) r = fail_times o error ts (fail_row o error t r)

  -- Retries are bounded: after failures the letter has as many attempts more, and it is exhausted
  -- exactly if they have reached the limit, else pending again.
  pub fail_times_lem :
      (o : Options) (error : String) (t : ℕ) (ts : List ℕ) (r : Letter P)
      → let r' = fail_times o error (t ∷ ts) r in
        (r'.dlq_attempts ≡ r.dlq_attempts + length (t ∷ ts))
        × (r'.status ≡ (if leb o.max_dlq_attempts r'.dlq_attempts then exhausted else pending))
  unfolding fail_times
  fail_times_lem o error t [] r = (omega arith, refl)
  fail_times_lem o error t (u ∷ ts) r =
      let (count, state) = fail_times_lem o error u ts (fail_row o error t r) in
      (omega (arith, count), state)

  get-update_row :
      (f : Letter P → Letter P) (id : ℕ) (t : Table P) (r : Letter P)
      → ((x : Letter P) → (f x).id ≡ x.id)
      → get id t ≡ some r
      → get id (update_row f id t) ≡ some (f r)
  unfolding get
  get-update_row f id t r same h = go t.rows h
    where
      go :
          (rows : List (Letter P))
          → find (λ (x : Letter P). eqb x.id id) rows ≡ some r
          → find
              (λ (x : Letter P). eqb x.id id)
              (map (λ (x : Letter P). if eqb x.id id then f x else x) rows)
            ≡ some (f r)
      go [] k = cc
      go (x ∷ rows) k = ground (arith, go rows, same x, k)

  -- A letter that an operator discards while a retry of it is under way comes back: when the retry
  -- fails below the limit of attempts the letter is pending again.
  pub discard_undone :
      (o : Options) (row : Letter P) (error : String) (now : ℕ) (t : Table P)
      → get row.id t ≡ some row
      → row.dlq_attempts + 1 < o.max_dlq_attempts
      → get row.id (attempt_redelivery o row (throws error) now (discard row.id t)).0
        ≡ some (record (fail_row o error now row) { status = pending })
  unfolding attempt_redelivery discard mark_retry_failed
  discard_undone o row error now t h below =
      get-update_row (fail_row o error now) row.id _ _ (λ x. refl)
        (get-update_row discard_row row.id t row (λ x. refl) h)
      ∙ ground (arith, below)

  -- Every letter is counted in one state.
  count_by_status_total :
      (t : Table P)
      → let d = count_by_status t in
        d.pending + d.exhausted + d.resolved + d.discarded ≡ length t.rows
  unfolding count_by_status
  count_by_status_total t = go t.rows
    where
      go :
          (rows : List (Letter P))
          → length (select (in_state (some pending)) rows)
              + length (select (in_state (some exhausted)) rows)
              + length (select (in_state (some resolved)) rows)
              + length (select (in_state (some discarded)) rows)
            ≡ length rows
      go [] = refl
      go (r ∷ rows) = ground (arith, go rows)

  kept :
      (status : Option Status) (older_than : Option ℕ) (rows : List (Letter P))
      → All
          (λ (r : Letter P). is_purged status older_than r ≡ false)
          (select (λ r. not (is_purged status older_than r)) rows)
  kept status older_than [] = tt
  kept status older_than (r ∷ rows) = ground (arith, kept status older_than rows)

  purge_ok :
      (status : Option Status) (older_than : Option ℕ) (t t' : Table P) (n : ℕ)
      → purge status older_than t ≡ ok (t', n)
      → (t' ≡ record t { rows = select (λ r. not (is_purged status older_than r)) t.rows })
        × (n ≡ length (select (is_purged status older_than) t.rows))
  unfolding purge
  purge_ok status older_than t t' n h = (ground (arith, h), ground (arith, h))

  -- A purge that is not refused removes as many letters as it reports, and keeps none that meets the
  -- criteria.
  pub purge_removes :
      (status : Option Status) (older_than : Option ℕ) (t t' : Table P) (n : ℕ)
      → purge status older_than t ≡ ok (t', n)
      → (length t'.rows + n ≡ length t.rows)
        × All (λ (r : Letter P). is_purged status older_than r ≡ false) t'.rows
  purge_removes status older_than t t' n h =
      let (table, count) = purge_ok status older_than t t' n h in
      rw (table, count)
        (
          omega (arith, length-select-not (is_purged status older_than) t.rows),
          kept status older_than t.rows,
        )
