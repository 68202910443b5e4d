-- ===== src/Idempotency/Tests.antt =====
-- Two requests with one key, and the theorems at these calls.
use x402_facilitator_stellar.Common.{str_ne, String, ◌≡◌, refl, some, List, [], ◌∷◌}
use x402_facilitator_stellar.Common.Dict
use x402_facilitator_stellar.Common.Dict.{Map}
use x402_facilitator_stellar.Idempotency.{Entry, owned, replayed, begin, complete, Row, begin_pg}
use x402_facilitator_stellar.Idempotency.Memory.{
  Call, begins, completes, fails, run, complete_replays,
}

abbrev empty : Map (Entry String)
empty = []

abbrev empty_table : Map (Row String)
empty_table = []

abbrev others : List (Call String)
others = begins "k" ∷ completes "j" 200 "b" ∷ fails "j" ∷ begins "j" ∷ []

free : (begin "k" empty).1 ≡ owned
unfolding begin Dict.get
free = refl

free_row : (begin_pg "k" empty_table empty_table []).1 ≡ owned
unfolding begin_pg Dict.get
free_row = refl

complete_replays_example :
    let m' = run (complete "k" 200 "a" empty) (fails "k" ∷ others) in
    begin "k" m' ≡ (m', replayed (some 200) (some "a"))
complete_replays_example =
    complete_replays "k" 200 "a" empty (fails "k" ∷ others)
      (tt, (tt, (str_ne _ _ refl, (tt, (tt, tt)))))
