-- ===== src/CrdtRateLimit.antt =====
-- The rate limit store that regions merge (src/crdt-rate-limit-store.js). Times are whole seconds.
pub mod Merge
pub mod Faults
pub mod Tests
use x402_facilitator_stellar.Common.{
  str_append, str_ne, ℕ, zero, suc, ◌+◌, ◌-◌, ◌*◌, ◌/◌, ◌%◌, ◌^◌, ◌≤◌, ◌<◌, min, max, String, ◌≡◌,
  refl, sym, ap, ◌∙◌, ◌≢◌, ◌↔◌, ◌⊎◌, inl, inr, Bool, true, false, ◌&&◌, ◌||◌, not, Option, none,
  some, List, [], ◌∷◌, ◌++◌, map, arith, str_eq, eq_iff, eq_refl, ltb, leb, eqb, ltb→lt, lt→ltb,
  leb→le, le→leb, if◌then◌else◌, Bool-cases, Option-cases, get_or, or_else, is_some, length, take,
  drop, select, any, all, find, All, length-append, length-select-le, All-append, All-select,
  select-select, All-take, select-holds, nth, All-map, All-weaken, All-nth, any-append, any-map,
  any-select, any-weaken, any-map-with, take_all, length-take-le, length-select-not, Result, ok,
  err, ◌>>=◌, ◌>>◌, throw_if, >>=-eq-ok, Result-cases,
}
use x402_facilitator_stellar.Common.Dict
use x402_facilitator_stellar.Common.Dict.{Map}
use x402_facilitator_stellar.RateLimit.Store.{Cell, shed, swept}

-- The counters of one region; `local` is its Map.
pub record Store : Type 0 where
  pub pool : Bool
  pub degraded : Bool
  pub local : Map Cell
  pub max_size : ℕ

-- The table `crdt_rate_limit_buckets`, without the columns that nothing reads.
abbrev pub Database : Type 0
Database = Map Cell

-- A time in an answer of the database: the driver decides whether a BIGINT is a number or a text.
pub data Time : Type 0 where
  number text : ℕ → Time

-- `===`.
abbrev pub same_time : Time → Time → Bool
same_time (number a) (number b) = eqb a b
same_time (text a) (text b) = eqb a b
same_time _ _ = false

pub record Shown : Type 0 where
  pub count : ℕ
  pub reset_at : Time

abbrev pub shown : Option Cell → Option Shown
shown none = none
shown (some c) = some (record { count = c.count; reset_at = number c.reset_at })

-- The row after `ON CONFLICT (bucket_id) DO UPDATE … WHERE`, where a row is there.
abbrev pub conflict : (row new : Cell) → Cell
conflict row new =
    if leb row.reset_at new.reset_at
    then record {
      count = if ltb row.reset_at new.reset_at then new.count else max row.count new.count;
      reset_at = new.reset_at;
    }
    else row

-- The count that is returned: none where the WHERE leaves the row as it is.
unfoldable pub upsert : Option Cell → Cell → Cell × Option ℕ
upsert none new = (new, some new.count)
upsert (some row) new =
    let next = conflict row new in
    (next, if leb row.reset_at new.reset_at then some next.count else none)

unfoldable pub is_connected : Store → Bool
is_connected s = s.pool && not s.degraded

abbrev pub degrade : Store → Store
degrade s = record s { degraded = true }

abbrev pub recover : Store → Store
recover s = record s { degraded = false }

-- The answer to the upsert replaces the local count.
unfoldable pub take_count : Store → String → (reset : ℕ) → Option ℕ → Store
take_count s id reset none = s
take_count s id reset (some n) = record s {
  local = Dict.set id (record { count = n; reset_at = reset }) s.local;
}

-- The loop of `_sync` over the local buckets; `fails` says for which the query fails, which ends
-- the loop.
unfoldable pub sync_all :
    (fails : String → Bool) → (now : ℕ) → List (String × Cell) → Store → Database → Store × Database
sync_all fails now [] s db = (recover s, db)
sync_all fails now ((id, c) ∷ cells) s db =
    let (row, answer) = upsert (Dict.get id db) c in
    let is_old = leb c.reset_at now in
    let s' = if is_old then s else take_count s id c.reset_at answer in
    let db' = if is_old then db else Dict.set id row db in
    let rest = sync_all fails now cells s' db' in
    if not is_old && fails id then (degrade s, db) else rest

unfoldable pub sync : (fails : String → Bool) → (now : ℕ) → Store → Database → Store × Database
sync fails now s db = if is_connected s then sync_all fails now s.local s db else (s, db)

abbrev pub is_live : (now : ℕ) → Option Cell → Bool
is_live now none = false
is_live now (some c) = ltb now c.reset_at

-- What a read makes of the row that the database shows, where the local bucket has run out or is
-- missing, and where it has not.
abbrev pub merge_old : (driver : ℕ → Time) → (now : ℕ) → (local row : Option Cell) → Option Shown
merge_old driver now local none = shown local
merge_old driver now local (some row) =
    if leb now row.reset_at
    then some (record { count = row.count; reset_at = driver row.reset_at })
    else shown local

abbrev pub merge_live : (driver : ℕ → Time) → (local : Cell) → (row : Option Cell) → Option Shown
merge_live driver local none = shown (some local)
merge_live driver local (some row) =
    if same_time (driver row.reset_at) (number local.reset_at)
    then some (record { count = max local.count row.count; reset_at = number local.reset_at })
    else shown (some local)

unfoldable pub merged : (driver : ℕ → Time) → (now : ℕ) → (local row : Option Cell) → Option Shown
merged driver now none row = merge_old driver now none row
merged driver now (some c) row =
    if leb c.reset_at now then merge_old driver now (some c) row else merge_live driver c row

unfoldable pub get :
    (driver : ℕ → Time)
    → Store
    → Database
    → String
    → (now : ℕ) → (fails : Bool) → Store × Option Shown
get driver s db id now fails =
    let local = Dict.get id s.local in
    if not (is_connected s)
    then (s, shown local)
    else if fails
    then (degrade s, shown local)
    else (s, merged driver now local (Dict.get id db))

abbrev pub count_of : Option Cell → ℕ
count_of none = 0
count_of (some c) = c.count

unfoldable pub increment : Store → String → (amount reset now : ℕ) → Store × Cell
increment s id amount reset now =
    let before = Dict.get id s.local in
    let c : Cell = record {
      count = if is_live now before then count_of before + amount else amount;
      reset_at = reset;
    } in
    (record s { local = shed s.max_size (Dict.set id c s.local) }, c)

unfoldable pub sweep : (now : ℕ) → Store → Database → (fails : Bool) → Store × Database
sweep now s db fails =
    let s' = record s { local = swept now s.local } in
    if not (is_connected s)
    then (s', db)
    else if fails
    then (degrade s', db)
    else (s', swept now db)
