-- ===== src/CrdtRateLimit/Faults.antt =====
-- A region that has lost its database once (src/crdt-rate-limit-store.js).
use x402_facilitator_stellar.Common.{ℕ, String, ◌≡◌, refl, ◌∙◌, Bool, true, List, [], ◌∷◌, arith}
use x402_facilitator_stellar.Common.Dict
use x402_facilitator_stellar.CrdtRateLimit.{
  Store, Database, Time, shown, get, increment, sync, sweep, is_connected,
}

pub data Call : Type 0 where
  syncs : (fails : String → Bool) → (now : ℕ) → Call
  reads : String → (now : ℕ) → (fails : Bool) → Call
  counts : String → (amount reset now : ℕ) → Call
  sweeps : (now : ℕ) → (fails : Bool) → Call

unfoldable pub call : (driver : ℕ → Time) → Store × Database → Call → Store × Database
call driver (s, db) (syncs fails now) = sync fails now s db
call driver (s, db) (reads id now fails) = ((get driver s db id now fails).0, db)
call driver (s, db) (counts id amount reset now) = ((increment s id amount reset now).0, db)
call driver (s, db) (sweeps now fails) = sweep now s db fails

unfoldable pub calls : (driver : ℕ → Time) → Store × Database → List Call → Store × Database
calls driver w [] = w
calls driver w (c ∷ cs) = calls driver (call driver w c) cs

call-degraded :
    (driver : ℕ → Time) (s : Store) (db : Database) (c : Call)
    → s.degraded ≡ true
    → ((call driver (s, db) c).0.degraded ≡ true) × ((call driver (s, db) c).1 ≡ db)
unfolding call sync get increment sweep is_connected
call-degraded driver s db (syncs fails now) h = (ground (arith, h), ground (arith, h))
call-degraded driver s db (reads id now fails) h = (ground (arith, h), refl)
call-degraded driver s db (counts id amount reset now) h = (h, refl)
call-degraded driver s db (sweeps now fails) h = (ground (arith, h), ground (arith, h))

-- A region that has degraded, by one failed query, never reads or writes the database again, since
-- only a sync recovers it and a degraded store skips its syncs: after any calls the table is as it
-- was, and a read shows the local count, whatever the table holds.
pub calls-degraded :
    (driver : ℕ → Time) (s : Store) (db : Database) (cs : List Call)
    → s.degraded ≡ true
    → let w = calls driver (s, db) cs in
      (w.1 ≡ db)
      × (w.0.degraded ≡ true)
      × ((other : Database) (id : String) (now : ℕ) (fails : Bool)
          → (get driver w.0 other id now fails).1 ≡ shown (Dict.get id w.0.local))
unfolding calls get is_connected
calls-degraded driver s db [] h = (refl, h, λ other id now fails. ground (arith, h))
calls-degraded driver s db (c ∷ cs) h =
    let (still, same) = call-degraded driver s db c h in
    let (table, degraded, local) =
      calls-degraded driver (call driver (s, db) c).0 (call driver (s, db) c).1 cs still in
    (table ∙ same, degraded, local)
