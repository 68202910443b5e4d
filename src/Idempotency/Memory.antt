-- ===== src/Idempotency/Memory.antt =====
-- One settlement for a key: what the memory store promises over any interleaving of calls.
use x402_facilitator_stellar.Common.{
  ℕ, String, ◌≡◌, ◌≢◌, none, some, List, [], ◌∷◌, arith, eq_iff, eq_refl, All,
}
use x402_facilitator_stellar.Common.Dict
use x402_facilitator_stellar.Common.Dict.{Map}
use x402_facilitator_stellar.Idempotency.{
  Entry, pending, completed, owned, replayed, conflict, begin, complete, fail,
}

-- The calls that requests make on the store, in the order in which they take effect.
pub data Call (R : Type 0) : Type 0 where
  begins : String → Call R
  completes : String → ℕ → R → Call R
  fails : String → Call R

module _ {R : Type 0} where
  unfoldable pub step : Map (Entry R) → Call R → Map (Entry R)
  step m (begins k) = (begin k m).0
  step m (completes k code r) = complete k code r m
  step m (fails k) = fail k m

  unfoldable pub run : Map (Entry R) → List (Call R) → Map (Entry R)
  run m [] = m
  run m (c ∷ cs) = run (step m c) cs

  -- Neither completes nor fails `k`: the owner of `k` has not ended.
  abbrev pub Keeps : String → Call R → Type 0
  Keeps k (begins j) = Unit {0}
  Keeps k (completes j code r) = j ≢ k
  Keeps k (fails j) = j ≢ k

  -- Does not record another answer for `k`.
  abbrev pub NoAnswer : String → Call R → Type 0
  NoAnswer k (begins j) = Unit {0}
  NoAnswer k (completes j code r) = j ≢ k
  NoAnswer k (fails j) = Unit {0}

  pub begin_pending :
      (k : String) (m : Map (Entry R)) → Dict.get k m ≡ some pending → begin k m ≡ (m, conflict)
  unfolding begin
  begin_pending k m h = rw (h, begin)

  pub begin_completed :
      (k : String) (code : ℕ) (r : R) (m : Map (Entry R))
      → Dict.get k m ≡ some (completed code (some r))
      → begin k m ≡ (m, replayed (some code) (some r))
  unfolding begin
  begin_completed k code r m h = rw (h, begin)

  pub begin_free : (k : String) (m : Map (Entry R)) → Dict.get k m ≡ none → (begin k m).1 ≡ owned
  unfolding begin
  begin_free k m h = rw (h, begin)

  pub step-pending :
      (k : String) (m : Map (Entry R)) (c : Call R)
      → Keeps k c
      → Dict.get k m ≡ some pending
      → Dict.get k (step m c) ≡ some pending
  unfolding step begin complete fail
  step-pending k m (begins j) u h = ground (arith, Dict.get-set j k pending m, eq_iff j k)
  step-pending k m (completes j code r) u h =
      ground (arith, Dict.get-set j k (completed code (some r)) m, eq_iff j k)
  step-pending k m (fails j) u h = ground (arith, Dict.get-delete j k m, eq_iff j k)

  run-pending :
      (k : String) (m : Map (Entry R)) (cs : List (Call R))
      → All (Keeps k) cs
      → Dict.get k m ≡ some pending
      → Dict.get k (run m cs) ≡ some pending
  unfolding run
  run-pending k m [] u h = h
  run-pending k m (c ∷ cs) u h = run-pending k (step m c) cs u.1 (step-pending k m c u.0 h)

  pub begin-owned :
      (k : String) (m : Map (Entry R))
      → (begin k m).1 ≡ owned
      → Dict.get k (begin k m).0 ≡ some pending
  unfolding begin
  begin-owned k m h = ground (arith, Dict.get-set k k pending m, eq_refl k)

  -- Mutual exclusion: from the call that claims a key until the claim is completed or released,
  -- every further `begin` of that key answers with a conflict and changes nothing, whatever other
  -- calls come between.
  pub begin_exclusive :
      (k : String) (m : Map (Entry R)) (cs : List (Call R))
      → (begin k m).1 ≡ owned
      → All (Keeps k) cs
      → let m' = run (begin k m).0 cs in begin k m' ≡ (m', conflict)
  begin_exclusive k m cs h u =
      begin_pending k _ (run-pending k (begin k m).0 cs u (begin-owned k m h))

  step-completed :
      (k : String) (code : ℕ) (r : R) (m : Map (Entry R)) (c : Call R)
      → NoAnswer k c
      → Dict.get k m ≡ some (completed code (some r))
      → Dict.get k (step m c) ≡ some (completed code (some r))
  unfolding step begin complete fail
  step-completed k code r m (begins j) u h = ground (arith, Dict.get-set j k pending m, eq_iff j k)
  step-completed k code r m (completes j code' r') u h =
      ground (arith, Dict.get-set j k (completed code' (some r')) m, eq_iff j k)
  step-completed k code r m (fails j) u h = ground (arith, Dict.get-delete j k m, eq_iff j k)

  run-completed :
      (k : String) (code : ℕ) (r : R) (m : Map (Entry R)) (cs : List (Call R))
      → All (NoAnswer k) cs
      → Dict.get k m ≡ some (completed code (some r))
      → Dict.get k (run m cs) ≡ some (completed code (some r))
  unfolding run
  run-completed k code r m [] u h = h
  run-completed k code r m (c ∷ cs) u h =
      run-completed k code r (step m c) cs u.1 (step-completed k code r m c u.0 h)

  pub get-complete :
      (k : String) (code : ℕ) (r : R) (m : Map (Entry R))
      → Dict.get k (complete k code r m) ≡ some (completed code (some r))
  unfolding complete
  get-complete k code r m = ground (arith, Dict.get-set k k (completed code (some r)) m, eq_refl k)

  -- Replay: once an answer is recorded for a key, every later `begin` of the key gives that answer
  -- and status, also after a late `fail` of the same key, until another answer is recorded.
  pub complete_replays :
      (k : String) (code : ℕ) (r : R) (m : Map (Entry R)) (cs : List (Call R))
      → All (NoAnswer k) cs
      → let m' = run (complete k code r m) cs in begin k m' ≡ (m', replayed (some code) (some r))
  complete_replays k code r m cs u =
      begin_completed k code r _ (run-completed k code r (complete k code r m) cs u recorded)
    where
      recorded : Dict.get k (complete k code r m) ≡ some (completed code (some r))
      recorded = get-complete k code r m

  pub fail-owned :
      (k : String) (m : Map (Entry R))
      → (begin k m).1 ≡ owned
      → Dict.get k (fail k (begin k m).0) ≡ none
  unfolding fail
  fail-owned k m h = ground (arith, begin-owned k m h, Dict.get-delete k k (begin k m).0, eq_refl k)

  fail_completed :
      (k : String) (code : ℕ) (r : R) (m : Map (Entry R))
      → Dict.get k m ≡ some (completed code (some r))
      → fail k m ≡ m
  unfolding fail
  fail_completed k code r m h = rw (h, fail)

  -- A claim that is released can be claimed again; releasing leaves recorded answers alone.
  pub fail_releases :
      (k : String) (m : Map (Entry R))
      → ((begin k m).1 ≡ owned → (begin k (fail k (begin k m).0)).1 ≡ owned)
        × ((code : ℕ) (r : R) → Dict.get k m ≡ some (completed code (some r)) → fail k m ≡ m)
  fail_releases k m = (λ h. begin_free k _ (fail-owned k m h), λ code r. fail_completed k code r m)
