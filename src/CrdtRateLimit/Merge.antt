-- ===== src/CrdtRateLimit/Merge.antt =====
-- The row that the upserts of the regions leave (src/crdt-rate-limit-store.js).
use x402_facilitator_stellar.Common.{
  ℕ, ◌+◌, ◌<◌, max, String, ◌≡◌, refl, Bool, true, false, ◌&&◌, ◌||◌, Option, none, some, List, [],
  ◌∷◌, arith, eq_refl, ltb, leb, eqb, any, All,
}
use x402_facilitator_stellar.Common.Dict
use x402_facilitator_stellar.Common.Dict.{Map}
use x402_facilitator_stellar.RateLimit.Store.{Cell, shed}
use x402_facilitator_stellar.CrdtRateLimit.{
  Store, Database, conflict, upsert, increment, sync, sync_all, is_connected,
}

-- The row after upserts one after the other.
pub upserts : Option Cell → List Cell → Option Cell
upserts row [] = row
upserts row (c ∷ cs) = upserts (some (upsert row c).0) cs

-- `a` is of an earlier window than `b`, or of the same one with no greater count.
abbrev pub is_below : Cell → Cell → Bool
is_below a b = ltb a.reset_at b.reset_at || (eqb a.reset_at b.reset_at && leb a.count b.count)

abbrev pub is_same : Cell → Cell → Bool
is_same a b = eqb a.reset_at b.reset_at && eqb a.count b.count

below_trans : (a b c : Cell) → is_below a b ≡ true → is_below b c ≡ true → is_below a c ≡ true
below_trans a b c h k = ground arith

conflict_lem :
    (row c : Cell)
    → (is_below row (conflict row c) ≡ true)
      × (is_below c (conflict row c) ≡ true)
      × ((is_same row (conflict row c) || is_same c (conflict row c)) ≡ true)
conflict_lem row c = (ground arith, ground arith, ground arith)

same_among :
    (row c next r : Cell) (rest : Bool)
    → (is_same row next || is_same c next) ≡ true
    → (is_same next r || rest) ≡ true
    → (is_same row r || (is_same c r || rest)) ≡ true
same_among row c next r rest h k = ground arith

upserts_from :
    (row : Cell) (cs : List Cell)
    → (r : Cell) × (upserts (some row) cs ≡ some r)
      × (is_below row r ≡ true)
      × All (λ c. is_below c r ≡ true) cs
      × ((is_same row r || any (λ c. is_same c r) cs) ≡ true)
unfolding upserts upsert
upserts_from row [] = (row, refl, ground arith, tt, ground arith)
upserts_from row (c ∷ cs) =
    let next = conflict row c in
    let (r, e, below, all_below, among) = upserts_from next cs in
    let (row_below, c_below, one) = conflict_lem row c in
    (
      r,
      e,
      below_trans row next r row_below below,
      (below_trans c next r c_below below, all_below),
      same_among row c next r (any (λ c. is_same c r) cs) one among,
    )

-- Whatever the order and the repetitions of the upserts, the row that they leave is the greatest of
-- the cells that the regions sent: of the latest window, with the greatest count that was sent for
-- that window.
pub upserts_greatest :
    (c : Cell) (cs : List Cell)
    → (r : Cell) × (upserts none (c ∷ cs) ≡ some r)
      × All (λ x. is_below x r ≡ true) (c ∷ cs)
      × (any (λ x. is_same x r) (c ∷ cs) ≡ true)
unfolding upserts upsert
upserts_greatest c cs =
    let (r, e, below, all_below, among) = upserts_from c cs in (r, e, (below, all_below), among)

abbrev pub region_of : String → Cell → Store
region_of id c = record { pool = true; degraded = false; local = (id, c) ∷ []; max_size = 10000 }

abbrev grown : Cell → ℕ → Cell
grown c n = record c { count = c.count + n }

increment_one :
    (id : String) (base : Cell) (n now : ℕ)
    → now < base.reset_at
    → (increment (region_of id base) id n base.reset_at now).0 ≡ region_of id (grown base n)
unfolding increment shed Dict.get Dict.set
increment_one id base n now h = ground (arith, h, eq_refl id)

sync_one :
    (id : String) (row c : Cell) (now : ℕ)
    → now < c.reset_at
    → (sync (λ k. false) now (region_of id c) ((id, row) ∷ [])).1 ≡ (id, conflict row c) ∷ []
unfolding sync sync_all is_connected upsert Dict.get Dict.set
sync_one id row c now h = ground (arith, h, eq_refl id)

-- Two regions count on from the same cell, n and m, and then both write: the row has gone up by the
-- greater of the two only, so that the smaller one's requests are not counted.
pub sync_loses :
    (id : String) (base : Cell) (n m now : ℕ)
    → now < base.reset_at
    → let region : Store = record {
      pool = true;
      degraded = false;
      local = (id, base) ∷ [];
      max_size = 10000;
    } in
      let db : Database = (id, base) ∷ [] in
      let works = λ (k : String). false in
      let a = (increment (region_of id base) id n base.reset_at now).0 in
      let b = (increment (region_of id base) id m base.reset_at now).0 in
      let db' = (sync works now b (sync works now a db).1).1 in
      Dict.get id db' ≡ some (record { count = base.count + max n m; reset_at = base.reset_at })
unfolding Dict.get
sync_loses id base n m now h =
    rw
      (
        increment_one id base n now h,
        increment_one id base m now h,
        sync_one id base (grown base n) now h,
        sync_one id (conflict base (grown base n)) (grown base m) now h,
        eq_refl id,
      )
      (ground (arith, h))
