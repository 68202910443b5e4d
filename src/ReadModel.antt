-- ===== src/ReadModel.antt =====
-- The read model of settlements and the worker that projects events into it
-- (src/settlement-cqrs.js, src/eventstore/projection-worker.js). Rows of the same sequence number
-- come in the order of their identifiers.
pub mod Batch
pub mod Reading
pub mod Delivery
pub mod Progress
pub mod Tests
use x402_facilitator_stellar.Common.{
  str_append, str_ne, ℕ, zero, suc, ◌+◌, ◌-◌, ◌*◌, ◌/◌, ◌%◌, ◌^◌, ◌≤◌, ◌<◌, min, max, String, ◌≡◌,
  refl, sym, ap, ◌∙◌, ◌≢◌, ◌↔◌, ◌⊎◌, inl, inr, Bool, true, false, ◌&&◌, ◌||◌, not, Option, none,
  some, List, [], ◌∷◌, ◌++◌, map, arith, str_eq, eq_iff, eq_refl, ltb, leb, eqb, ltb→lt, lt→ltb,
  leb→le, le→leb, if◌then◌else◌, Bool-cases, Option-cases, get_or, or_else, is_some, length, take,
  drop, select, any, all, find, All, length-append, length-select-le, All-append, All-select,
  select-select, All-take, select-holds, nth, All-map, All-weaken, All-nth, any-append, any-map,
  any-select, any-weaken, any-map-with, take_all, length-take-le, length-select-not, Result, ok,
  err, ◌>>=◌, ◌>>◌, throw_if, >>=-eq-ok,
}
use x402_facilitator_stellar.Common.Dict
use x402_facilitator_stellar.Common.Dict.{Map}
use x402_facilitator_stellar.Common.Sort.{sort_by}
use x402_facilitator_stellar.EventStore.{State, Event, Projection, project_settlement}
use x402_facilitator_stellar.PgSettlement.{Database, max_seq, log_sql}

-- A row of `settlement_read_model`, whose key is the map's; `key_id` is NOT NULL.
pub record Row : Type 0 where
  pub key_id : String
  pub network : String
  pub scheme : String
  pub payer : Option String
  pub pay_to : Option String
  pub asset : Option String
  pub amount : Option String
  pub state : State
  pub tx_hash : Option String
  pub error_reason : Option String
  pub error_message : Option String
  pub created_at : ℕ
  pub updated_at : ℕ
  pub last_event_seq : ℕ

abbrev pub row_of : String → Projection → ℕ → Row
row_of key_id p seq = record {
  key_id = key_id;
  network = p.network;
  scheme = p.scheme;
  payer = p.payer;
  pay_to = p.pay_to;
  asset = p.asset;
  amount = p.amount;
  state = p.state;
  tx_hash = p.tx_hash;
  error_reason = p.error_reason;
  error_message = p.error_message;
  created_at = p.created_at;
  updated_at = p.updated_at;
  last_event_seq = seq;
}

-- `ON CONFLICT (idempotency_key) DO UPDATE`.
abbrev pub merged : Option Row → Row → Row
merged none new = new
merged (some old) new = record old {
  state = new.state;
  tx_hash = new.tx_hash;
  error_reason = new.error_reason;
  error_message = new.error_message;
  updated_at = new.updated_at;
  last_event_seq = new.last_event_seq;
}

-- The statement of `writeProjection`; none where it is refused because a column that must not be
-- null is.
unfoldable pub insert_row : Map Row → Projection → ℕ → Option (Map Row)
insert_row table p seq = elim p.idempotency_key [
  | none ↦ none
  | some k ↦ elim p.key_id [
    | none ↦ none
    | some id ↦ some (Dict.set k (merged (Dict.get k table) (row_of id p seq)) table)
  ]
]

unfoldable pub write_projection : Map Row → Option Projection → ℕ → Option (Map Row)
write_projection table none seq = some table
write_projection table (some p) seq = insert_row table p seq

abbrev pub by_seq : String × Event → String × Event → Bool
by_seq a b = leb a.1.seq b.1.seq

abbrev pub is_after : ℕ → String × Event → Bool
is_after offset e = ltb offset e.1.seq

unfoldable pub read_batch : Database → (offset limit : ℕ) → List (String × Event)
read_batch db offset limit = take limit (sort_by by_seq (select (is_after offset) db.logged))

-- `Map` from keys to the events of the batch.
unfoldable pub group : Map (List Event) → List (String × Event) → Map (List Event)
group groups [] = groups
group groups ((k, e) ∷ es) = group (Dict.set k (get_or (Dict.get k groups) [] ++ e ∷ []) groups) es

unfoldable pub max_sequence : Database → ℕ
max_sequence db = max_seq (map (λ e. e.1) db.logged)

pub record Worker : Type 0 where
  pub offset : ℕ
  pub table : Map Row

-- What the loop over the groups carries.
pub record Pass : Type 0 where
  pub rows : Map Row
  pub last_seq : ℕ

-- One group; `fails` says for which keys a query fails. An error leaves everything as it was.
unfoldable pub project_group :
    Database → (fails : String → Bool) → Pass → String × List Event → Pass
project_group db fails g (k, events) =
    let seq = max_seq events in
    let written = write_projection g.rows (project_settlement (log_sql db k)) seq in
    if fails k then g else elim written [
      | none ↦ g
      | some rows ↦ record { rows = rows; last_seq = max g.last_seq seq }
    ]

unfoldable pub project_groups : Database → (fails : String → Bool) → Pass → Map (List Event) → Pass
project_groups db fails g [] = g
project_groups db fails g (e ∷ es) = project_groups db fails (project_group db fails g e) es

unfoldable pub process_batch : Database → (fails : String → Bool) → (limit : ℕ) → Worker → Worker
process_batch db fails limit w =
    let groups = group [] (read_batch db w.offset limit) in
    let g = project_groups db fails (record { rows = w.table; last_seq = w.offset }) groups in
    record { offset = if ltb w.offset g.last_seq then g.last_seq else w.offset; table = g.rows }

-- A lag may be negative: what the stream is ahead, and what the checkpoint is.
abbrev pub Lag : Type 0
Lag = ℕ × ℕ

abbrev pub lag : Database → Worker → Lag
lag db w = (max_sequence db - w.offset, w.offset - max_sequence db)

abbrev pub same_lag : Option Lag → Lag → Bool
same_lag none n = false
same_lag (some m) n = eqb m.0 n.0 && eqb m.1 n.1

pub record CaughtUp : Type 0 where
  pub caught_up : Bool
  pub iterations : ℕ
  pub worker : Worker

-- The loop of `processToCaughtUp`; `left` counts the iterations that are left.
unfoldable pub catch_up :
    Database
    → (fails : String → Bool) → (limit left iterations : ℕ) → Option Lag
    → Worker
    → CaughtUp
catch_up db fails limit zero iterations last w = record {
  caught_up = false;
  iterations = iterations;
  worker = w;
}
catch_up db fails limit (suc left) iterations last w =
    let w' = process_batch db fails limit w in
    let n = lag db w' in
    let rest = catch_up db fails limit left (iterations + 1) (some n) w' in
    if same_lag (some (0, 0)) n
    then record { caught_up = true; iterations = iterations; worker = w' }
    else if same_lag last n
    then record { caught_up = false; iterations = iterations; worker = w' }
    else rest

unfoldable pub process_to_caught_up :
    Database → (fails : String → Bool) → (limit max_iterations : ℕ) → Worker → CaughtUp
process_to_caught_up db fails limit max_iterations w =
    catch_up db fails limit max_iterations 0 none w

abbrev pub same_state : State → State → Bool
same_state State.submitted State.submitted = true
same_state State.settled State.settled = true
same_state State.failed State.failed = true
same_state State.unknown State.unknown = true
same_state _ _ = false

abbrev pub in_state : Option State → Row → Bool
in_state none r = true
in_state (some s) r = same_state s r.state

abbrev pub of_merchant : String → Row → Bool
of_merchant id r = str_eq r.key_id id

-- `ORDER BY created_at DESC`.
abbrev pub newest : Row → Row → Bool
newest a b = leb b.created_at a.created_at

unfoldable pub merchant_history :
    Map Row → String → (state : Option State) → (limit offset : ℕ) → List Row
merchant_history table id state limit offset = take limit (
    drop offset
      (sort_by newest (select (λ r. of_merchant id r && in_state state r) (Dict.values table))))
