-- ===== src/KeyManager/Tests.antt =====
-- Keys at a concrete rotation.
use x402_facilitator_stellar.Common.{◌≡◌, refl, true, false, none, List, [], ◌∷◌, arith, ok}
use x402_facilitator_stellar.KeyManager.{
  plain, Key, Manager, snapshot, normalise_keys, normalise_each, refresh, get_current,
}
use x402_facilitator_stellar.KeyManager.Leases.{
  Op, releases, refreshes, purges, apply_all, IsLeased, snapshot_keeps,
}

abbrev old_key : Key
old_key = record { kid = "k1"; secret = "S1" }

abbrev started : Manager
started = record {
  generations =
      record {
        generation = 1;
        entries = record { key = old_key; leases = 1 } ∷ [];
        retired_at = none;
      }
      ∷ [];
  current_generation = 1;
  retirement_grace = 60000;
}

-- The key is replaced, one of two leases is released, and the grace runs out.
abbrev rotation : List Op
rotation = refreshes (plain "S2" ∷ []) 100 ∷ releases 1 200 ∷ purges 100000 ∷ []

snapshot_keeps_example :
    IsLeased 1
      (old_key ∷ [])
      1
      (apply_all (λ s. s) (λ s. true) rotation (snapshot started)).generations
snapshot_keeps_example =
    snapshot_keeps (λ s. s) (λ s. true) rotation old_key [] 1 started
      (_, refl, refl, (omega arith, tt)) (omega arith)

-- A key that keeps its kid is not replaced.
same_kid : refresh (λ s. "k1") (λ s. true) (plain "S2" ∷ []) 100 started ≡ ok (started, false)
unfolding refresh normalise_keys normalise_each get_current
same_kid = refl
