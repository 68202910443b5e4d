-- ===== src/CrdtRateLimit/Tests.antt =====
-- Regions at concrete counts.
use x402_facilitator_stellar.Common.{
  ℕ, ◌+◌, max, String, ◌≡◌, true, false, none, some, [], ◌∷◌, arith, any, All,
}
use x402_facilitator_stellar.Common.Dict
use x402_facilitator_stellar.RateLimit.Store.{Cell}
use x402_facilitator_stellar.CrdtRateLimit.{Store, Database, increment, sync}
use x402_facilitator_stellar.CrdtRateLimit.Merge.{
  upserts, upserts_greatest, is_below, is_same, sync_loses, region_of,
}

abbrev cell : ℕ → ℕ → Cell
cell n reset = record { count = n; reset_at = reset }

upserts_greatest_example :
    (r : Cell) × (upserts none (cell 9 10 ∷ cell 2 20 ∷ cell 5 20 ∷ cell 7 10 ∷ []) ≡ some r)
    × All (λ x. is_below x r ≡ true) (cell 9 10 ∷ cell 2 20 ∷ cell 5 20 ∷ cell 7 10 ∷ [])
    × (any (λ x. is_same x r) (cell 9 10 ∷ cell 2 20 ∷ cell 5 20 ∷ cell 7 10 ∷ []) ≡ true)
upserts_greatest_example = upserts_greatest (cell 9 10) (cell 2 20 ∷ cell 5 20 ∷ cell 7 10 ∷ [])

sync_loses_example :
    let db : Database = ("b", cell 4 60) ∷ [] in
    let works = λ (k : String). false in
    let a = (increment (region_of "b" (cell 4 60)) "b" 3 60 10).0 in
    let b = (increment (region_of "b" (cell 4 60)) "b" 2 60 10).0 in
    let db' = (sync works 10 b (sync works 10 a db).1).1 in
    Dict.get "b" db' ≡ some (record { count = 4 + max 3 2; reset_at = 60 })
sync_loses_example = sync_loses "b" (cell 4 60) 3 2 10 (omega arith)

abbrev lost_once : Store
lost_once = record (region_of "b" (cell 4 60)) { degraded = true }
