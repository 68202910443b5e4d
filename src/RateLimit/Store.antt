-- ===== src/RateLimit/Store.antt =====
-- The two stores of rate limit buckets (src/rate-limit-store.js), and that they keep the promise.
use x402_facilitator_stellar.Common.{
  ℕ, ◌+◌, ◌-◌, String, ◌≡◌, refl, Bool, Option, none, some, List, [], ◌∷◌, arith, eq_iff, eq_refl,
  ltb, leb, if◌then◌else◌, length, take, select,
}
use x402_facilitator_stellar.Common.Dict
use x402_facilitator_stellar.Common.Dict.{Map}
use x402_facilitator_stellar.Common.Sort.{sort_by}
use x402_facilitator_stellar.RateLimit.{Bucket, Ops, IsStore, ReadsWrites}

pub record Cell : Type 0 where
  pub count : ℕ
  pub reset_at : ℕ

-- `bucket && bucket.resetAt > nowSec`.
abbrev pub live : (now : ℕ) → Option Cell → Option Cell
live now none = none
live now (some c) = if leb c.reset_at now then none else some c

abbrev pub is_live : (now : ℕ) → String × Cell → Bool
is_live now (id, c) = ltb now c.reset_at

-- The buckets that have not run out.
abbrev pub swept : (now : ℕ) → Map Cell → Map Cell
swept now cells = select (is_live now) cells

-- The default store: a Map in the process, of a bounded size.
pub record MemoryStore : Type 0 where
  pub cells : Map Cell
  pub max_size : ℕ

abbrev bucket_of : Cell → Bucket
bucket_of c = record { count = c.count; reset_at = some c.reset_at }

unfoldable pub memory_get : String → (now : ℕ) → MemoryStore → Option (Option Bucket)
memory_get id now s = elim (live now (Dict.get id s.cells)) [
  | none ↦ some none
  | some c ↦ some (some (bucket_of c))
]

abbrev sooner : String × Cell → String × Cell → Bool
sooner (i, a) (j, b) = leb a.reset_at b.reset_at

pub delete_all : List (String × Cell) → Map Cell → Map Cell
delete_all [] m = m
delete_all ((id, c) ∷ es) m = delete_all es (Dict.delete id m)

-- Sheds the buckets that run out first, where there are more than `max` of them.
unfoldable pub shed : (max_size : ℕ) → Map Cell → Map Cell
unfolding delete_all
shed max_size m =
    if ltb max_size (length m)
    then delete_all (take (length m - max_size) (sort_by sooner m)) m
    else m

abbrev add_to : (amount reset : ℕ) → Option Cell → Cell
add_to amount reset none = record { count = amount; reset_at = reset }
add_to amount reset (some c) = record c { count = c.count + amount }

unfoldable pub memory_increment :
    String → (amount reset now : ℕ) → MemoryStore → MemoryStore × Option Bucket
unfolding shed
memory_increment id amount reset now s =
    let c = add_to amount reset (live now (Dict.get id s.cells)) in
    (record s { cells = shed s.max_size (Dict.set id c s.cells) }, some (bucket_of c))

unfoldable pub memory_sweep : (now : ℕ) → MemoryStore → MemoryStore
memory_sweep now s = record s { cells = swept now s.cells }

abbrev pub memory : Ops MemoryStore
memory = record { get = memory_get; increment = memory_increment; sweep = memory_sweep }

-- The shared store: the table `rate_limit_buckets`, and whether the database answers.
pub record PostgresStore : Type 0 where
  pub rows : Map Cell
  pub up : Bool

-- `rows[0].resetAt` is undefined, for the column is `reset_at`: the number is NaN.
abbrev row_of : Cell → Bucket
row_of c = record { count = c.count; reset_at = none }

unfoldable pub postgres_get : String → (now : ℕ) → PostgresStore → Option (Option Bucket)
postgres_get id now s =
    if s.up
    then elim (live now (Dict.get id s.rows)) [ none ↦ some none | some c ↦ some (some (row_of c)) ]
    else none

-- The upsert: a row that has run out starts again from the amount.
abbrev upsert : (amount reset : ℕ) → Option Cell → Cell
upsert amount reset none = record { count = amount; reset_at = reset }
upsert amount reset (some c) = record { count = c.count + amount; reset_at = reset }

unfoldable pub postgres_increment :
    String → (amount reset now : ℕ) → PostgresStore → PostgresStore × Option Bucket
postgres_increment id amount reset now s =
    let c = upsert amount reset (live now (Dict.get id s.rows)) in
    if s.up then (record s { rows = Dict.set id c s.rows }, some (row_of c)) else (s, none)

unfoldable pub postgres_sweep : (now : ℕ) → PostgresStore → PostgresStore
postgres_sweep now s = if s.up then record s { rows = swept now s.rows } else s

abbrev pub postgres : Ops PostgresStore
postgres = record { get = postgres_get; increment = postgres_increment; sweep = postgres_sweep }

-- One key, one entry.
abbrev pub IsMap : Map Cell → Type 0
IsMap [] = Unit {0}
IsMap ((id, c) ∷ m) = (Dict.get id m ≡ none) × IsMap m

get-swept-none :
    (now : ℕ) (id : String) (m : Map Cell) → Dict.get id m ≡ none → Dict.get id (swept now m) ≡ none
unfolding Dict.get
get-swept-none now id [] h = refl
get-swept-none now id ((j, c) ∷ m) h = ground (arith, get-swept-none now id m, eq_iff j id)

live-get-swept :
    (now : ℕ) (id : String) (m : Map Cell)
    → IsMap m
    → live now (Dict.get id (swept now m)) ≡ live now (Dict.get id m)
unfolding Dict.get
live-get-swept now id [] u = refl
live-get-swept now id ((j, c) ∷ m) u =
    ground (arith, live-get-swept now id m, eq_iff j id, get-swept-none now id m)

swept-IsMap : (now : ℕ) (m : Map Cell) → IsMap m → IsMap (swept now m)
swept-IsMap now [] u = tt
swept-IsMap now ((j, c) ∷ m) u = ground (arith, swept-IsMap now m, get-swept-none now j m)

set-IsMap : (id : String) (c : Cell) (m : Map Cell) → IsMap m → IsMap (Dict.set id c m)
unfolding Dict.set Dict.get
set-IsMap id c [] u = (refl, tt)
set-IsMap id c ((j, x) ∷ m) u =
    ground (arith, eq_iff j id, eq_iff id j, set-IsMap id c m, Dict.get-set id j c m)

delete-IsMap : (id : String) (m : Map Cell) → IsMap m → IsMap (Dict.delete id m)
unfolding Dict.delete
delete-IsMap id [] u = tt
delete-IsMap id ((j, x) ∷ m) u =
    ground (arith, eq_iff j id, eq_iff id j, delete-IsMap id m, Dict.get-delete id j m)

delete_all-IsMap : (es : List (String × Cell)) (m : Map Cell) → IsMap m → IsMap (delete_all es m)
unfolding delete_all
delete_all-IsMap [] m u = u
delete_all-IsMap ((id, c) ∷ es) m u = delete_all-IsMap es (Dict.delete id m) (delete-IsMap id m u)

shed-IsMap : (max_size : ℕ) (m : Map Cell) → IsMap m → IsMap (shed max_size m)
unfolding shed
shed-IsMap max_size m u =
    ground (arith, delete_all-IsMap (take (length m - max_size) (sort_by sooner m)) m u)

pub memory-IsStore : IsStore memory (λ s. IsMap s.cells)
unfolding memory_get memory_increment memory_sweep
memory-IsStore = record {
  get-sweep = λ id now s u. ground (arith, live-get-swept now id s.cells u);
  increment_counts = λ id amount reset now s o u h.
      (bucket_of (add_to amount reset (live now (Dict.get id s.cells))), refl, ground arith);
  sweep-IsValid = λ now s u. swept-IsMap now s.cells u;
  increment-IsValid = λ id amount reset now s u. shed-IsMap s.max_size _ (set-IsMap id _ s.cells u);
}

pub postgres-IsStore : IsStore postgres (λ s. IsMap s.rows)
unfolding postgres_get postgres_increment postgres_sweep
postgres-IsStore = record {
  get-sweep = λ id now s u. ground (arith, live-get-swept now id s.rows u);
  increment_counts = λ id amount reset now s o u h.
      (row_of (upsert amount reset (live now (Dict.get id s.rows))), ground arith, ground arith);
  sweep-IsValid = λ now s u. ground (arith, swept-IsMap now s.rows u);
  increment-IsValid = λ id amount reset now s u.
      ground (arith, set-IsMap id (upsert amount reset (live now (Dict.get id s.rows))) s.rows u);
}

pub postgres-ReadsWrites : ReadsWrites postgres (λ s. IsMap s.rows)
unfolding postgres_get postgres_increment
postgres-ReadsWrites = record {
  get-increment = λ id amount reset now s o u h soon. (
    row_of (upsert amount reset (live now (Dict.get id s.rows))),
    ground (
      arith,
      Dict.get-set id id (upsert amount reset (live now (Dict.get id s.rows))) s.rows,
      eq_refl id,
    ),
    ground arith,
  );
}
