-- ===== src/Outbox/Tests.antt =====
-- An outbox of two events, one of them refused, and the theorems at its claims.
use x402_facilitator_stellar.Common.{◌≡◌, refl, true, false, ◌&&◌, [], ◌∷◌, eqb, if◌then◌else◌, any}
use x402_facilitator_stellar.Common.Sort.{sort_by}
use x402_facilitator_stellar.Outbox.{
  Row, Table, World, Attempt, accepted, refused, unrecorded, new_row, is_claimable, due, has_id,
  claim_batch, poll_outbox_once, deliver_all, deliver, give_up,
}
use x402_facilitator_stellar.Outbox.Delivery.{outbox_keeps}
use x402_facilitator_stellar.Outbox.System.{
  inserts, claims, delivers, run, new, has_event, is_accounted,
}

abbrev table : Table
table = record {
  rows = new_row 1 "e1" "settled" "{}" 10 ∷ new_row 2 "e2" "settled" "{}" 20 ∷ [];
  next_id = 3;
}

abbrev world : World
world = record { table = table; sent = []; letters = [] }

abbrev attempt : Row → Attempt
attempt r = if eqb r.id 1 then accepted else refused "down" false

polled : (poll_outbox_once 10 50 60000 100 true attempt world).0.sent ≡ "e1" ∷ []
unfolding poll_outbox_once claim_batch due is_claimable sort_by deliver_all deliver give_up
polled = refl

outbox_keeps_example :
    let s = run 2 new (
      inserts "e0" "settled" "{}" 1
      ∷ claims 50 60000 5
      ∷ inserts "e1" "settled" "{}" 10
      ∷ delivers 0 (unrecorded "lost" true)
      ∷ []) in
    any (λ r. has_event "e1" r && is_accounted 2 s.world.sent r) s.world.table.rows ≡ true
outbox_keeps_example =
    outbox_keeps 2 (inserts "e0" "settled" "{}" 1 ∷ claims 50 60000 5 ∷ [])
      (delivers 0 (unrecorded "lost" true) ∷ []) "e1" "settled" "{}" 10

first : has_id 1 (claim_batch 2 60000 100 table).1 ≡ true
unfolding claim_batch due is_claimable sort_by
first = refl
