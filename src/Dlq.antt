-- ===== src/Dlq.antt =====
-- The dead-letter queue (src/dlq/store.js, src/dlq/worker.js, src/dlq/manager.js): its table, the
-- statements on it as functions, the retry worker and the operator's actions.
-- Times are whole milliseconds; `P` is the type of the messages.
pub mod Retries
pub mod Alerts
pub mod Manager
pub mod Tests
use x402_facilitator_stellar.Common.{
  str_append, str_ne, ℕ, zero, suc, ◌+◌, ◌-◌, ◌*◌, ◌/◌, ◌%◌, ◌^◌, ◌≤◌, ◌<◌, min, max, String, ◌≡◌,
  refl, sym, ap, ◌∙◌, ◌≢◌, ◌↔◌, ◌⊎◌, inl, inr, Bool, true, false, ◌&&◌, ◌||◌, not, Option, none,
  some, List, [], ◌∷◌, ◌++◌, map, arith, str_eq, eq_iff, eq_refl, ltb, leb, eqb, ltb→lt, lt→ltb,
  leb→le, le→leb, if◌then◌else◌, Bool-cases, Option-cases, get_or, or_else, is_some, length, take,
  drop, select, any, all, find, All, length-append, length-select-le, All-append, All-select,
  select-select, All-take, select-holds, nth, All-map, All-weaken, All-nth, any-append, any-map,
  any-select, any-weaken, any-map-with, take_all, length-take-le, length-select-not, Result, ok,
  err, ◌>>=◌, ◌>>◌, throw_if, >>=-eq-ok,
}
use x402_facilitator_stellar.Common.Sort.{sort_by}
use x402_facilitator_stellar.Common.Text.{slice_to}

pub data Status : Type 0 where
  pending exhausted resolved discarded : Status

-- A row of `dead_letters`.
pub record Letter (P : Type 0) : Type 0 where
  pub id : ℕ
  pub message_id : String
  pub source : String
  pub type : Option String
  pub payload : P
  pub error : Option String
  pub delivery_attempts : ℕ
  pub dlq_attempts : ℕ
  pub status : Status
  pub next_retry_at : ℕ
  pub claimed_at : Option ℕ
  pub created_at : ℕ

pub record Table (P : Type 0) : Type 0 where
  pub rows : List (Letter P)
  pub next_id : ℕ

pub record Options : Type 0 where
  pub max_dlq_attempts : ℕ
  pub base_backoff_ms : ℕ

abbrev pub default_options : Options
default_options = record { max_dlq_attempts = 5; base_backoff_ms = 30000 }

-- The depth of the queue by state.
pub record Depth : Type 0 where
  pub pending : ℕ
  pub exhausted : ℕ
  pub resolved : ℕ
  pub discarded : ℕ

abbrev pub is_pending : Status → Bool
is_pending pending = true
is_pending _ = false

abbrev pub same_status : Status → Status → Bool
same_status pending pending = true
same_status exhausted exhausted = true
same_status resolved resolved = true
same_status discarded discarded = true
same_status _ _ = false

-- `claimed_at IS NULL OR claimed_at < NOW() - lease`.
abbrev pub is_unclaimed : (lease now : ℕ) → Option ℕ → Bool
is_unclaimed lease now none = true
is_unclaimed lease now (some t) = ltb (t + lease) now

-- `POWER(2, dlq_attempts) * base`.
abbrev pub backoff : Options → (attempts : ℕ) → ℕ
backoff o attempts = o.base_backoff_ms * 2 ^ attempts

-- How a redelivery ends: the receiver accepts the message and the row is
-- marked, or one of the two throws.
pub data Outcome : Type 0 where
  accepts : Outcome
  throws : (error : String) → Outcome

-- What a redelivery answers.
pub data Redelivery : Type 0 where
  delivered : Redelivery
  undelivered : (error : String) → Redelivery

pub record Counts : Type 0 where
  pub claimed : ℕ
  pub resolved : ℕ
  pub failed : ℕ
  pub depth : Depth

abbrev tally : Redelivery → ℕ × ℕ → ℕ × ℕ
tally delivered (n, m) = (suc n, m)
tally (undelivered error) (n, m) = (n, suc m)

module _ {P : Type 0} where
  unfoldable pub insert :
      (message_id source : String)
      → (type : Option String) → P
      → (error : Option String) → (delivery_attempts now : ℕ) → Table P
      → Table P × ℕ
  insert message_id source type payload error delivery_attempts now t = (
    record {
      rows =
          t.rows
          ++ record {
            id = t.next_id;
            message_id = message_id;
            source = source;
            type = type;
            payload = payload;
            error = error;
            delivery_attempts = delivery_attempts;
            dlq_attempts = 0;
            status = pending;
            next_retry_at = now;
            claimed_at = none;
            created_at = now;
          }
            ∷ [];
      next_id = suc t.next_id;
    },
    t.next_id,
  )

  unfoldable pub is_due : (lease now : ℕ) → Letter P → Bool
  is_due lease now r =
      is_pending r.status && leb r.next_retry_at now && is_unclaimed lease now r.claimed_at

  abbrev sooner : Letter P → Letter P → Bool
  sooner a b = leb a.next_retry_at b.next_retry_at

  abbrev pub has_id : ℕ → List (Letter P) → Bool
  has_id id rows = any (λ r. eqb r.id id) rows

  unfoldable pub due : (limit lease now : ℕ) → List (Letter P) → List (Letter P)
  due limit lease now rows = take limit (sort_by sooner (select (is_due lease now) rows))

  abbrev pub claim_in : (now : ℕ) → List (Letter P) → Letter P → Letter P
  claim_in now chosen r = if has_id r.id chosen then record r { claimed_at = some now } else r

  unfoldable pub claim_due : (limit lease now : ℕ) → Table P → Table P × List (Letter P)
  claim_due limit lease now t =
      let chosen = due limit lease now t.rows in
      (record t { rows = map (claim_in now chosen) t.rows }, chosen)

  abbrev pub update_row : (Letter P → Letter P) → ℕ → Table P → Table P
  update_row f id t = record t { rows = map (λ r. if eqb r.id id then f r else r) t.rows }

  abbrev pub resolve_row : Letter P → Letter P
  resolve_row r = record r { status = resolved; claimed_at = none }

  unfoldable pub mark_resolved : ℕ → Table P → Table P
  mark_resolved = update_row resolve_row

  abbrev pub fail_row : Options → (error : String) → (now : ℕ) → Letter P → Letter P
  fail_row o error now r = record r {
    dlq_attempts = r.dlq_attempts + 1;
    error = some (slice_to 2000 error);
    status = if leb o.max_dlq_attempts (r.dlq_attempts + 1) then exhausted else pending;
    next_retry_at = now + backoff o r.dlq_attempts;
    claimed_at = none;
  }

  unfoldable pub mark_retry_failed : Options → ℕ → (error : String) → (now : ℕ) → Table P → Table P
  mark_retry_failed o id error now = update_row (fail_row o error now) id

  unfoldable pub get : ℕ → Table P → Option (Letter P)
  get id t = find (λ r. eqb r.id id) t.rows

  abbrev pub discard_row : Letter P → Letter P
  discard_row r = record r { status = discarded }

  unfoldable pub discard : ℕ → Table P → Table P
  discard = update_row discard_row

  -- `ORDER BY created_at DESC`.
  abbrev newer : Letter P → Letter P → Bool
  newer a b = leb b.created_at a.created_at

  abbrev in_state : Option Status → Letter P → Bool
  in_state none r = true
  in_state (some s) r = same_status s r.status

  -- A limit below 1 is 1, and one over 200 is 200.
  unfoldable pub list_letters : Option Status → (limit offset : ℕ) → Table P → List (Letter P) × ℕ
  list_letters status limit offset t = (
    take (min (max 1 limit) 200) (drop offset (sort_by newer (select (in_state status) t.rows))),
    length (select (in_state status) t.rows),
  )

  unfoldable pub count_by_status : Table P → Depth
  count_by_status t =
      let count = λ (s : Status). length (select (in_state (some s)) t.rows) in
      record {
        pending = count pending;
        exhausted = count exhausted;
        resolved = count resolved;
        discarded = count discarded;
      }

  unfoldable pub attempt_redelivery :
      Options → Letter P → Outcome → (now : ℕ) → Table P → Table P × Redelivery
  attempt_redelivery o row accepts now t = (mark_resolved row.id t, delivered)
  attempt_redelivery o row (throws error) now t =
      (mark_retry_failed o row.id error now t, undelivered error)

  -- The loop over the claimed rows: the table, and how many were delivered.
  unfoldable pub redeliver_all :
      Options → (Letter P → Outcome) → (now : ℕ) → List (Letter P) → Table P → Table P × ℕ × ℕ
  redeliver_all o outcome now [] t = (t, 0, 0)
  redeliver_all o outcome now (r ∷ rs) t =
      let (t', answer) = attempt_redelivery o r (outcome r) now t in
      let (t'', ok_count, bad_count) = redeliver_all o outcome now rs t' in
      let (n, m) = tally answer (ok_count, bad_count) in (t'', n, m)

  -- One cycle, with the depth of the table that it leaves.
  unfoldable pub poll_dlq_once :
      Options → (batch_size lease now : ℕ) → (Letter P → Outcome) → Table P → Table P × Counts
  poll_dlq_once o batch_size lease now outcome t =
      let (t', rows) = claim_due batch_size lease now t in
      let (t'', ok_count, bad_count) = redeliver_all o outcome now rows t' in
      (
        t'',
        record {
          claimed = length rows;
          resolved = ok_count;
          failed = bad_count;
          depth = count_by_status t'';
        },
      )
