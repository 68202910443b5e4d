-- ===== src/Settle/Exclusion.antt =====
-- Settlements that overlap in time: the facilitator is at work on one request of a key at most,
-- unless a request timed out before its transaction was submitted.
use x402_facilitator_stellar.Common.{
  ℕ, String, ◌≡◌, refl, sym, ◌⊎◌, inl, inr, Bool, true, false, none, some, List, [], ◌∷◌, arith,
  str_eq, if◌then◌else◌, Bool-cases, Option-cases, All,
}
use x402_facilitator_stellar.Common.Dict
use x402_facilitator_stellar.Common.Dict.{Map}
use x402_facilitator_stellar.EventStore.{Response}
use x402_facilitator_stellar.Idempotency
use x402_facilitator_stellar.Idempotency.{
  Entry, pending, completed, Claim, owned, replayed, conflict,
}
use x402_facilitator_stellar.Idempotency.Memory.{step, completes, fails, step-pending}
use x402_facilitator_stellar.Request.{Request, Digests, idempotency_key}
use x402_facilitator_stellar.Settle.{
  World, Reply, conflict_sent, replay_sent, claim, settled_once, settle_failed, Cause, error_reason,
}
use x402_facilitator_stellar.Settle.System.{
  Running, System, Act, arrives, returns, raises, times_out, timeout_cause, admit, arrive,
  return_to, raise_to, time_out, exec, exec_all, IsLate,
}
use x402_facilitator_stellar.Settle.Claims.{IsExclusive, join, leave, mark}

module _ (d : Digests) where
  claim_cases :
      (w : World) (r : Request) (now : ℕ)
      → (((claim d w r now).1 ≡ none)
          × ((Idempotency.begin (idempotency_key d r) w.records).1 ≡ owned)
          × ((claim d w r now).0.records ≡ (Idempotency.begin (idempotency_key d r) w.records).0))
        ⊎ ((reply : Reply) × ((claim d w r now).1 ≡ some reply)
            × ((claim d w r now).0.records ≡ w.records))
  unfolding claim Idempotency.begin
  claim_cases w r now = elim (Option-cases (Dict.get (idempotency_key d r) w.records)) [
    | inl e ↦ inl (ground (arith, e), ground (arith, e), ground (arith, e))
    | inr (pending, e) ↦ inr (conflict_sent, ground (arith, e), ground (arith, e))
    | inr (completed code (some result), e) ↦
        inr (replay_sent (some code) (some result), ground (arith, e), ground (arith, e))
    | inr (completed code none, e) ↦ inl (ground (arith, e), ground (arith, e), ground (arith, e))
  ]

  arrive-IsExclusive :
      (s : System) (id : String) (r : Request) (now : ℕ)
      → Dict.get id s.running ≡ none
      → IsExclusive d s.world.records s.running
      → let s' = arrive d s id r now in IsExclusive d s'.world.records s'.running
  unfolding arrive admit
  arrive-IsExclusive s id r now absent ex = elim (claim_cases s.world r now) [
    | inl (mine, free, e) ↦
        rw (mine, admit)
          (rw e (
            join d s.world.records s.running id (record { request = r; answered = false }) absent
              free ex))
    | inr (reply, theirs, e) ↦ rw (theirs, admit) (rw e ex)
  ]

  settled_once-records :
      (w : World) (r : Request) (result : Response) (now : ℕ)
      → (settled_once d w r result now).records
        ≡ Idempotency.complete (idempotency_key d r) 200 result w.records
  unfolding settled_once
  settled_once-records w r result now = ground arith

  return-IsExclusive :
      (s : System) (id : String) (x : Running) (result : Response) (now : ℕ)
      → Dict.get id s.running ≡ some x
      → IsExclusive d s.world.records s.running
      → let s' = return_to d s id x result now in IsExclusive d s'.world.records s'.running
  unfolding return_to step
  return-IsExclusive s id x result now present ex =
      rw (settled_once-records s.world x.request result now) (
        leave d s.world.records _ s.running id x present
          (λ k ne.
            step-pending k s.world.records (completes (idempotency_key d x.request) 200 result)
              (λ e. ne (sym e)))
          ex)

  settle_failed-records :
      (w : World) (r : Request) (cause : Cause) (submitted : Bool) (message : String) (now : ℕ)
      → (settle_failed d w r cause submitted message now).0.records ≡ (
          if str_eq (error_reason cause submitted) "submitted_outcome_unknown"
          then w.records
          else Idempotency.fail (idempotency_key d r) w.records)
  unfolding settle_failed
  settle_failed-records w r cause submitted message now = refl

  raise-IsExclusive :
      (s : System) (id : String) (x : Running) (cause : Cause) (submitted : Bool) (message : String)
      (now : ℕ)
      → Dict.get id s.running ≡ some x
      → IsExclusive d s.world.records s.running
      → let s' = raise_to d s id x cause submitted message now in
        IsExclusive d s'.world.records s'.running
  unfolding raise_to step
  raise-IsExclusive s id x cause submitted message now present ex =
      leave d s.world.records _ s.running id x present
        (λ k ne held. ground (
          arith,
          settle_failed-records s.world x.request cause submitted message now,
          step-pending k s.world.records (fails (idempotency_key d x.request)) (λ e. ne (sym e))
              held,
        ))
        ex

  late_reason :
      (submitted : Bool)
      → submitted ≡ true
      → str_eq (error_reason (timeout_cause submitted) submitted) "submitted_outcome_unknown" ≡ true
  unfolding error_reason
  late_reason true h = refl
  late_reason false h = cc

  time_out-IsExclusive :
      (s : System) (id : String) (x : Running) (submitted : Bool) (message : String) (now : ℕ)
      → submitted ≡ true
      → Dict.get id s.running ≡ some x
      → IsExclusive d s.world.records s.running
      → let s' = time_out d s id x submitted message now in
        IsExclusive d s'.world.records s'.running
  unfolding time_out
  time_out-IsExclusive s id x submitted message now late present ex = elim (Bool-cases x.answered) [
    | inl e ↦ rw e ex
    | inr e ↦
        rw
          (
            e,
            settle_failed-records s.world x.request (timeout_cause submitted) submitted message now,
            late_reason submitted late,
          )
          (mark d s.world.records s.running id x present ex)
  ]

  exec-IsExclusive :
      (s : System) (a : Act)
      → IsLate a
      → IsExclusive d s.world.records s.running
      → IsExclusive d (exec d s a).world.records (exec d s a).running
  unfolding exec
  exec-IsExclusive s (arrives id r now) late ex = elim (Option-cases (Dict.get id s.running)) [
    | inl e ↦ rw (e, exec) (arrive-IsExclusive s id r now e ex)
    | inr (x, e) ↦ rw (e, exec) ex
  ]
  exec-IsExclusive s (returns id result now) late ex = elim (Option-cases (Dict.get id s.running)) [
    | inl e ↦ rw (e, exec) ex
    | inr (x, e) ↦ rw (e, exec) (return-IsExclusive s id x result now e ex)
  ]
  exec-IsExclusive s (raises id cause submitted message now) late ex =
      elim (Option-cases (Dict.get id s.running)) [
        | inl e ↦ rw (e, exec) ex
        | inr (x, e) ↦ rw (e, exec) (raise-IsExclusive s id x cause submitted message now e ex)
      ]
  exec-IsExclusive s (times_out id submitted message now) late ex =
      elim (Option-cases (Dict.get id s.running)) [
        | inl e ↦ rw (e, exec) ex
        | inr (x, e) ↦ rw (e, exec) (time_out-IsExclusive s id x submitted message now late e ex)
      ]

  exec_all-IsExclusive :
      (s : System) (acts : List Act)
      → All (IsLate) acts
      → IsExclusive d s.world.records s.running
      → IsExclusive d (exec_all d s acts).world.records (exec_all d s acts).running
  unfolding exec_all
  exec_all-IsExclusive s [] late ex = ex
  exec_all-IsExclusive s (a ∷ acts) late ex =
      exec_all-IsExclusive (exec d s a) acts late.1 (exec-IsExclusive s a late.0 ex)

  -- However requests overlap, and whatever the facilitator answers or throws: if no time limit ends
  -- before the transaction of its request was submitted, the facilitator is never at work on two
  -- requests with the same idempotency key, and each of them still holds the claim of its key.
  pub settle-IsExclusive :
      (w : World) (acts : List Act)
      → All (IsLate) acts
      → let s = exec_all d (record { world = w; running = [] }) acts in
        IsExclusive d s.world.records s.running
  unfolding Dict.get
  settle-IsExclusive w acts late =
      exec_all-IsExclusive (record { world = w; running = [] }) acts late
        (record { holds = λ id x e. ground arith; single = λ i j x y e f same. ground arith })
