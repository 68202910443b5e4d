-- ===== src/Settle/Claims.antt =====
-- Running requests and the claims that they hold: how one joins, is marked as answered and leaves.
use x402_facilitator_stellar.Common.{String, ◌≡◌, ◌≢◌, true, none, some, arith, eq_iff}
use x402_facilitator_stellar.Common.Dict
use x402_facilitator_stellar.Common.Dict.{Map}
use x402_facilitator_stellar.EventStore.{Response}
use x402_facilitator_stellar.Idempotency
use x402_facilitator_stellar.Idempotency.{
  Entry, pending, completed, Claim, owned, replayed, conflict,
}
use x402_facilitator_stellar.Idempotency.Memory.{
  begin_pending, begin-owned, step, begins, step-pending,
}
use x402_facilitator_stellar.Request.{Digests, idempotency_key}
use x402_facilitator_stellar.Settle.System.{Running}

module _ (d : Digests) where
  -- Every running request holds the claim of its key, and no two of them hold the same one.
  pub record IsExclusive (records : Map (Entry Response)) (running : Map Running) : Type 0 where
    pub holds :
        (id : String) (x : Running)
        → Dict.get id running ≡ some x
        → Dict.get (idempotency_key d x.request) records ≡ some pending
    pub single :
        (i j : String) (x y : Running)
        → Dict.get i running ≡ some x
        → Dict.get j running ≡ some y
        → idempotency_key d x.request ≡ idempotency_key d y.request
        → i ≡ j

  -- A request that claims a free key joins.
  pub join :
      (records : Map (Entry Response)) (running : Map Running) (id : String) (x : Running)
      → Dict.get id running ≡ none
      → (Idempotency.begin (idempotency_key d x.request) records).1 ≡ owned
      → IsExclusive records running
      → IsExclusive
          (Idempotency.begin (idempotency_key d x.request) records).0
          (Dict.set id x running)
  unfolding step
  join records running id x absent free ex = record {
    holds = λ i y h. ground (
      arith,
      eq_iff id i,
      Dict.get-set id i x running,
      begin-owned (idempotency_key d x.request) records free,
      ex.holds i y,
      step-pending (idempotency_key d y.request) records (begins (idempotency_key d x.request)) tt,
    );
    single = λ i j y z h k same. ground (
      arith,
      eq_iff id i,
      eq_iff id j,
      Dict.get-set id i x running,
      Dict.get-set id j x running,
      ex.single i j y z,
      ex.holds i y,
      ex.holds j z,
      begin_pending (idempotency_key d x.request) records,
    );
  }

  -- One that ends leaves the claims of the others.
  pub leave :
      (records records' : Map (Entry Response)) (running : Map Running) (id : String) (x : Running)
      → Dict.get id running ≡ some x
      → ((k : String)
          → k ≢ idempotency_key d x.request
          → Dict.get k records ≡ some pending
          → Dict.get k records' ≡ some pending)
      → IsExclusive records running
      → IsExclusive records' (Dict.delete id running)
  leave records records' running id x present others ex = record {
    holds = λ i y h. ground (
      arith,
      eq_iff id i,
      Dict.get-delete id i running,
      ex.holds i y,
      ex.single i id y x,
      others (idempotency_key d y.request),
    );
    single = λ i j y z h k same. ground (
      arith,
      eq_iff id i,
      eq_iff id j,
      Dict.get-delete id i running,
      Dict.get-delete id j running,
      ex.single i j y z,
    );
  }

  pub mark :
      (records : Map (Entry Response)) (running : Map Running) (id : String) (x : Running)
      → Dict.get id running ≡ some x
      → IsExclusive records running
      → IsExclusive records (Dict.set id (record x { answered = true }) running)
  mark records running id x present ex = record {
    holds = λ i y h. ground (
      arith,
      eq_iff id i,
      Dict.get-set id i (record x { answered = true }) running,
      ex.holds i y,
      ex.holds id x,
    );
    single = λ i j y z h k same. ground (
      arith,
      eq_iff id i,
      eq_iff id j,
      Dict.get-set id i (record x { answered = true }) running,
      Dict.get-set id j (record x { answered = true }) running,
      ex.single i j y z,
      ex.single id j x z,
      ex.single i id y x,
    );
  }
