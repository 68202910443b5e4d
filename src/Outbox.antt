-- ===== src/Outbox.antt =====
-- The transactional outbox (src/outbox/store.js, src/outbox/worker.js): its table, the statements
-- on it as functions, and one cycle of the worker. Times are whole milliseconds.
pub mod System
pub mod Safety
pub mod Delivery
pub mod Claims
pub mod Tests
use x402_facilitator_stellar.Common.{
  str_append, str_ne, ℕ, zero, suc, ◌+◌, ◌-◌, ◌*◌, ◌/◌, ◌%◌, ◌^◌, ◌≤◌, ◌<◌, min, max, String, ◌≡◌,
  refl, sym, ap, ◌∙◌, ◌≢◌, ◌↔◌, ◌⊎◌, inl, inr, Bool, true, false, ◌&&◌, ◌||◌, not, Option, none,
  some, List, [], ◌∷◌, ◌++◌, map, arith, str_eq, eq_iff, eq_refl, ltb, leb, eqb, ltb→lt, lt→ltb,
  leb→le, le→leb, if◌then◌else◌, Bool-cases, Option-cases, get_or, or_else, is_some, length, take,
  drop, select, any, all, find, All, length-append, length-select-le, All-append, All-select,
  select-select, All-take, select-holds, nth, All-map, All-weaken, All-nth, any-append, any-map,
  Result, ok, err, ◌>>=◌, ◌>>◌, throw_if, >>=-eq-ok,
}
use x402_facilitator_stellar.Common.Sort.{sort_by}
use x402_facilitator_stellar.Common.Text.{slice_to}

pub data Status : Type 0 where
  pending claimed published failed : Status

-- A row of `outbox_events`; the payload is its JSON text.
pub record Row : Type 0 where
  pub id : ℕ
  pub event_id : String
  pub type : String
  pub payload : String
  pub status : Status
  pub attempts : ℕ
  pub last_error : Option String
  pub claimed_at : Option ℕ
  pub created_at : ℕ

-- `next_id` is the sequence of the identifiers.
pub record Table : Type 0 where
  pub rows : List Row
  pub next_id : ℕ

abbrev pub new_row : ℕ → (event_id type payload : String) → (now : ℕ) → Row
new_row id event_id type payload now = record {
  id = id;
  event_id = event_id;
  type = type;
  payload = payload;
  status = pending;
  attempts = 0;
  last_error = none;
  claimed_at = none;
  created_at = now;
}

-- Of an event that is there already nothing is inserted.
unfoldable pub insert_event : (event_id type payload : String) → (now : ℕ) → Table → Table
insert_event event_id type payload now t =
    if any (λ (r : Row). str_eq r.event_id event_id) t.rows then t else record {
      rows = t.rows ++ new_row t.next_id event_id type payload now ∷ [];
      next_id = suc t.next_id;
    }

-- `claimed_at < NOW() - lease`; of a null time it is not true.
abbrev pub has_expired : (lease now : ℕ) → Option ℕ → Bool
has_expired lease now none = false
has_expired lease now (some t) = ltb (t + lease) now

unfoldable pub is_claimable : (lease now : ℕ) → Row → Bool
is_claimable lease now r = elim r.status [
  | pending ↦ true
  | claimed ↦ has_expired lease now r.claimed_at
  | published ↦ false
  | failed ↦ false
]

abbrev older : Row → Row → Bool
older a b = leb a.created_at b.created_at

abbrev pub has_id : ℕ → List Row → Bool
has_id id rows = any (λ (r : Row). eqb r.id id) rows

-- The rows that the subquery selects.
unfoldable pub due : (limit lease now : ℕ) → List Row → List Row
due limit lease now rows = take limit (sort_by older (select (is_claimable lease now) rows))

abbrev pub claim_in : (now : ℕ) → List Row → Row → Row
claim_in now chosen r =
    if has_id r.id chosen then record r { status = claimed; claimed_at = some now } else r

-- One statement selects the rows, claims them and returns them.
unfoldable pub claim_batch : (limit lease now : ℕ) → Table → Table × List Row
unfolding due
claim_batch limit lease now t =
    let chosen = due limit lease now t.rows in
    (record t { rows = map (claim_in now chosen) t.rows }, chosen)

abbrev pub update_row : (Row → Row) → ℕ → Table → Table
update_row f id t = record t { rows = map (λ (r : Row). if eqb r.id id then f r else r) t.rows }

abbrev pub publish_row : Row → Row
publish_row r = record r { status = published; claimed_at = none; last_error = none }

unfoldable pub mark_published : ℕ → Table → Table
mark_published = update_row publish_row

abbrev pub fail_row : (error : String) → (max_attempts : ℕ) → Row → Row
fail_row error max_attempts r = record r {
  attempts = r.attempts + 1;
  last_error = some (slice_to 2000 error);
  status = if leb max_attempts (r.attempts + 1) then failed else pending;
  claimed_at = none;
}

unfoldable pub mark_failed : ℕ → (error : String) → (max_attempts : ℕ) → Table → Table
mark_failed id error max_attempts = update_row (fail_row error max_attempts) id

abbrev is_open : Row → Bool
is_open r = elim r.status [ pending ↦ true | claimed ↦ true | published ↦ false | failed ↦ false ]

unfoldable pub count_pending : Table → ℕ
count_pending t = length (select is_open t.rows)

-- What becomes of one row: `accepted`, the receiver has it and the row is marked; `refused`,
-- `publish` throws; `unrecorded`, the receiver has it and `markPublished` throws. `unmarked`:
-- `markFailed` throws, too.
pub data Attempt : Type 0 where
  accepted : Attempt
  refused : (error : String) → (unmarked : Bool) → Attempt
  unrecorded : (error : String) → (unmarked : Bool) → Attempt

-- A dead letter as the worker hands it over, `payload` with the row's identifier and a time.
pub record Letter : Type 0 where
  pub message_id : String
  pub type : String
  pub payload : String
  pub error : String
  pub delivery_attempts : ℕ

-- `sent` lists the events that the receiver has accepted.
pub record World : Type 0 where
  pub table : Table
  pub sent : List String
  pub letters : List Letter

abbrev letter_of : Row → String → Letter
letter_of r error = record {
  message_id = r.event_id;
  type = r.type;
  payload = r.payload;
  error = error;
  delivery_attempts = r.attempts + 1;
}

abbrev send : Row → World → World
send r w = record w { sent = w.sent ++ r.event_id ∷ [] }

-- The `catch` of the loop.
unfoldable pub give_up :
    (max_attempts : ℕ) → Row → (error : String) → (unmarked : Bool) → World → World
give_up max_attempts r error unmarked w = record w {
  table = if unmarked then w.table else mark_failed r.id error max_attempts w.table;
  letters =
      if leb max_attempts (r.attempts + 1) then w.letters ++ letter_of r error ∷ [] else w.letters;
}

unfoldable pub deliver : (max_attempts : ℕ) → Row → Attempt → World → World
deliver max_attempts r accepted w = record (send r w) { table = mark_published r.id w.table }
deliver max_attempts r (refused error unmarked) w = give_up max_attempts r error unmarked w
deliver max_attempts r (unrecorded error unmarked) w =
    give_up max_attempts r error unmarked (send r w)

abbrev is_delivered : Attempt → Bool
is_delivered accepted = true
is_delivered _ = false

pub record Counts : Type 0 where
  pub claimed : ℕ
  pub published : ℕ
  pub failed : ℕ

-- The loop over the claimed rows.
unfoldable pub deliver_all : (max_attempts : ℕ) → (Row → Attempt) → List Row → World → World
deliver_all max_attempts attempt [] w = w
deliver_all max_attempts attempt (r ∷ rs) w =
    deliver_all max_attempts attempt rs (deliver max_attempts r (attempt r) w)

-- One cycle; `attempt` says how the delivery of each row goes. A poll that throws changes nothing.
unfoldable pub poll_outbox_once :
    (max_attempts batch_size lease now : ℕ) → (up : Bool) → (Row → Attempt) → World → World × Counts
poll_outbox_once max_attempts batch_size lease now up attempt w =
    let (table, rows) = claim_batch batch_size lease now w.table in
    if up
    then (
      deliver_all max_attempts attempt rows (record w { table = table }),
      record {
        claimed = length rows;
        published = length (select (λ r. is_delivered (attempt r)) rows);
        failed = length (select (λ r. not (is_delivered (attempt r))) rows);
      },
    )
    else (w, record { claimed = 0; published = 0; failed = 0 })
