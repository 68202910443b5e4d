-- ===== src/DistributedLock/Exclusion.antt =====
-- Who holds a key of the manager in memory (src/distributed-lock.js).
use x402_facilitator_stellar.Common.{
  ℕ, suc, ◌<◌, String, ◌≡◌, refl, inl, inr, true, false, some, List, [], ◌∷◌, arith, str_eq, eq_iff,
  eqb, Bool-cases, length, select, any, All, All-select, nth, All-weaken, All-nth,
}
use x402_facilitator_stellar.Common.Dict
use x402_facilitator_stellar.DistributedLock.{
  Ticket, Locks, acquire, release, is_granted, calls, ends, Reach, start, later, of_key, waiting,
}
use x402_facilitator_stellar.DistributedLock.Order.{
  IsLinked, IsOrdered, IsDecreasing, oldest, same_id, release-IsOrdered, granted_oldest,
}

record Inv (s : Locks) : Type 0 where
  bounded : All (λ (t : Ticket). t.id < length s.tickets) s.tickets
  done : All (λ n. n < length s.tickets) s.resolved
  decreasing : IsDecreasing s.tickets
  linked : (k : String) → IsLinked (Dict.get k s.tails) (of_key k s.tickets)
  ordered : (k : String) → IsOrdered s.resolved (of_key k s.tickets)

fresh : (r : List ℕ) (n : ℕ) → All (λ m. m < n) r → any (λ m. eqb m n) r ≡ false
fresh [] n h = refl
fresh (m ∷ r) n h = ground (arith, h.0, fresh r n h.1)

acquire-Inv : (key : String) (s : Locks) → Inv s → Inv (acquire key s).0
unfolding acquire
acquire-Inv key s inv =
    let n = length s.tickets in
    let t : Ticket = record { key = key; id = n; prev = Dict.get key s.tails } in
    record {
      bounded = (
        omega arith,
        All-weaken (λ u. u.id < n) (λ u. u.id < suc n) s.tickets (λ u h. omega (arith, h))
            inv.bounded,
      );
      done = All-weaken (λ m. m < n) (λ m. m < suc n) s.resolved (λ m h. omega (arith, h)) inv.done;
      decreasing = (inv.bounded, inv.decreasing);
      linked = λ k. elim (Bool-cases (str_eq key k)) [
        | inl same ↦
            let name : key ≡ k = ground (arith, eq_iff key k, same) in
            rw (Dict.get-set key k n s.tails, same) (refl, rw name (inv.linked k))
        | inr other ↦ rw (Dict.get-set key k n s.tails, other) (inv.linked k)
      ];
      ordered = λ k. elim (Bool-cases (str_eq key k)) [
        | inl same ↦ rw same (λ h. ground (arith, h, fresh s.resolved n inv.done), inv.ordered k)
        | inr other ↦ rw other (inv.ordered k)
      ];
    }

release-Inv :
    (i : ℕ) (t : Ticket) (s : Locks)
    → nth i s.tickets ≡ some t
    → is_granted s t ≡ true
    → Inv s
    → Inv (release t s)
unfolding release
release-Inv i t s e free inv = record {
  bounded = inv.bounded;
  done = (All-nth (λ u. u.id < length s.tickets) i s.tickets t inv.bounded e, inv.done);
  decreasing = inv.decreasing;
  linked = inv.linked;
  ordered = λ k.
      release-IsOrdered s.resolved t (Dict.get k s.tails) (of_key k s.tickets) free
        (All-select (λ u. u.id ≡ t.id → u.prev ≡ t.prev) (λ u. str_eq u.key k) s.tickets
          (same_id i s.tickets t inv.decreasing e))
        (inv.linked k) (inv.ordered k);
}

Reach-Inv : {s : Locks} → Reach s → Inv s
unfolding Dict.get
Reach-Inv start = record {
  bounded = tt;
  done = tt;
  decreasing = tt;
  linked = λ k. refl;
  ordered = λ k. tt;
}
Reach-Inv (later {s} r (calls key)) = acquire-Inv key s (Reach-Inv r)
Reach-Inv (later {s} r (ends i {t} e free)) = release-Inv i t s e free (Reach-Inv r)

-- After any calls and ends, in any order, the calls for a key that run are exactly the oldest of
-- those that have not ended: no two run at a time, they run in the order in which they came, and
-- where some call has not ended one of them runs.
pub granted_first :
    {s : Locks} (k : String) → Reach s → select (is_granted s) (waiting k s) ≡ oldest (waiting k s)
granted_first {s} k r =
    let inv = Reach-Inv r in
    granted_oldest s.resolved (Dict.get k s.tails) (of_key k s.tickets) (inv.linked k)
      (inv.ordered k)
