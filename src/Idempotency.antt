-- ===== src/Idempotency.antt =====
-- Idempotency keys of /settle (src/idempotency.js): the process-lifetime store and the Postgres one.
-- `R` is the type of the recorded answers. A clock or a database is an argument of each call.
pub mod Memory
pub mod Tests
pub mod Postgres
use x402_facilitator_stellar.Common.{
  str_append, ℕ, zero, suc, ◌+◌, ◌-◌, ◌*◌, ◌/◌, ◌%◌, ◌^◌, ◌≤◌, ◌<◌, min, max, String, ◌≡◌, refl,
  sym, ap, ◌∙◌, ◌≢◌, ◌↔◌, ◌⊎◌, inl, inr, Bool, true, false, ◌&&◌, ◌||◌, not, Option, none, some,
  List, [], ◌∷◌, ◌++◌, map, arith, str_eq, eq_iff, eq_refl, ltb, leb, eqb, ltb→lt, lt→ltb, leb→le,
  le→leb, if◌then◌else◌, Bool-cases, Option-cases, get_or, or_else, is_some, length, take, drop,
  select, any, all, find, All, length-append, length-select-le, All-append, All-select,
  select-select, Result, ok, err, ◌>>=◌, ◌>>◌, throw_if, >>=-eq-ok,
}
use x402_facilitator_stellar.Common.Dict
use x402_facilitator_stellar.Common.Dict.{Map}
use x402_facilitator_stellar.Common.Text.{trim}

-- An entry of `records`: `{ pending: true }`, or `{ statusCode, response }`.
pub data Entry (R : Type 0) : Type 0 where
  pending : Entry R
  completed : ℕ → Option R → Entry R

-- What `begin` answers.
pub data Claim (R : Type 0) : Type 0 where
  owned : Claim R
  replayed : Option ℕ → Option R → Claim R
  conflict : Claim R

-- The key of a request: its header, or a digest of its body. `digest` stands for
-- `sha256(JSON.stringify(body ?? null))` in hexadecimal; an empty header is as good as none.
module _ {B : Type 0} (digest : B → String) where
  unfoldable pub key_for : Option String → B → String
  key_for none body = str_append "body:" (digest body)
  key_for (some header) body =
      if str_eq header "" then str_append "body:" (digest body) else trim header

module _ {R : Type 0} where
  unfoldable pub begin : String → Map (Entry R) → Map (Entry R) × Claim R
  begin k records = elim (Dict.get k records) [
    | none ↦ (Dict.set k pending records, owned)
    | some pending ↦ (records, conflict)
    | some (completed code (some r)) ↦ (records, replayed (some code) (some r))
    | some (completed code none) ↦ (Dict.set k pending records, owned)
  ]

  unfoldable pub complete : String → ℕ → R → Map (Entry R) → Map (Entry R)
  complete k code r records = Dict.set k (completed code (some r)) records

  unfoldable pub fail : String → Map (Entry R) → Map (Entry R)
  fail k records = elim (Dict.get k records) [ some pending ↦ Dict.delete k records | _ ↦ records ]

-- A row of `idempotency_keys`.
pub record Row (R : Type 0) : Type 0 where
  pub status_code : Option ℕ
  pub response : Option R

module _ {R : Type 0} where
  abbrev pub claim_row : Row R
  claim_row = record { status_code = none; response = none }

  -- The polls for the winner's response, each on the table as it is then; the list ends when the
  -- lock timeout is over.
  unfoldable pub poll : String → List (Map (Row R)) → Claim R
  poll k [] = conflict
  poll k (t ∷ ts) = elim (Dict.get k t) [
    | none ↦ poll k ts
    | some row ↦ elim row.response [ none ↦ poll k ts | some r ↦ replayed row.status_code (some r) ]
  ]

  -- `begin` over a database that answers: `seen` is the snapshot of the SELECT, `now` the table that
  -- the INSERT meets, `later` the tables of the polls.
  unfoldable pub begin_pg :
      String → (seen now : Map (Row R)) → (later : List (Map (Row R))) → Map (Row R) × Claim R
  begin_pg k seen now later = elim (Dict.get k seen) [
    | some row ↦ (now, replayed row.status_code row.response)
    | none ↦ elim (Dict.get k now) [
      | none ↦ (Dict.set k claim_row now, owned)
      | some row ↦ (now, poll k later)
    ]
  ]

  -- `UPDATE … WHERE key = $1`: nothing is inserted where the key is not there.
  unfoldable pub complete_pg : String → ℕ → R → Map (Row R) → Map (Row R)
  complete_pg k code r t = elim (Dict.get k t) [
    | none ↦ t
    | some row ↦ Dict.set k (record { status_code = some code; response = some r }) t
  ]

  unfoldable pub fail_pg : String → Map (Row R) → Map (Row R)
  fail_pg k t = elim (Dict.get k t) [
    | none ↦ t
    | some row ↦ elim row.response [ none ↦ Dict.delete k t | some r ↦ t ]
  ]

-- The Postgres store falls back to the memory store for good on the first failure.
pub record PgStore (R : Type 0) : Type 0 where
  pub records : Map (Entry R)
  pub table : Map (Row R)
  pub degraded : Bool

-- How a call of the database goes: it fails, or it sees and meets these tables.
pub data Database (R : Type 0) : Type 0 where
  fails : Database R
  answers : (seen now : Map (Row R)) → (later : List (Map (Row R))) → Database R

module _ {R : Type 0} where
  abbrev degrade : PgStore R → PgStore R
  degrade s = record s { degraded = true }

  abbrev in_memory : {A : Type 0} → PgStore R → Map (Entry R) × A → PgStore R × A
  in_memory s (records, a) = (record s { records = records }, a)

  abbrev in_table : {A : Type 0} → PgStore R → Map (Row R) × A → PgStore R × A
  in_table s (table, a) = (record s { table = table }, a)

  unfoldable pub begin_store : String → Database R → PgStore R → PgStore R × Claim R
  begin_store k db s = if s.degraded then in_memory s (begin k s.records) else elim db [
    | fails ↦ in_memory (degrade s) (begin k s.records)
    | answers seen now later ↦ in_table s (begin_pg k seen now later)
  ]

  unfoldable pub complete_store : String → ℕ → R → Database R → PgStore R → PgStore R
  complete_store k code r db s =
      if s.degraded then record s { records = complete k code r s.records } else elim db [
        | fails ↦ record (degrade s) { records = complete k code r s.records }
        | answers seen now later ↦ record s { table = complete_pg k code r now }
      ]

  unfoldable pub fail_store : String → Database R → PgStore R → PgStore R
  fail_store k db s = if s.degraded then record s { records = fail k s.records } else elim db [
    | fails ↦ record (degrade s) { records = fail k s.records }
    | answers seen now later ↦ record s { table = fail_pg k now }
  ]
