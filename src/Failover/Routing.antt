-- ===== src/Failover/Routing.antt =====
-- Where traffic is to go, and how long a region stays away.
use x402_facilitator_stellar.Common.{
  ℕ, zero, suc, ◌+◌, ◌≤◌, ◌≡◌, refl, sym, ap, ◌∙◌, ◌⊎◌, inl, inr, Bool, true, false, ◌&&◌, List, [],
  ◌∷◌, arith, ltb, Bool-cases, select, any, All, select-holds, any-select,
}
use x402_facilitator_stellar.Common.Sort.{
  sort_by, IsSorted, IsOrder, sort_by-IsSorted, All-sort_by, any-sort_by,
}
use x402_facilitator_stellar.Failover.{
  Region, Checker, is_up, report_success, report_failure, report_local_health, is_eligible,
  preferable, first_or, preferred_region,
}

-- No eligible region comes before it.
abbrev pub IsPreferred : Checker → Region → Type 0
IsPreferred c r =
    (is_eligible c r ≡ true)
    × (any (λ (x : Region). is_eligible c x && ltb x.priority r.priority) c.regions ≡ false)

preferable-IsOrder : IsOrder preferable
preferable-IsOrder = record {
  total = λ a b h. ground arith;
  transitive = λ a b c h k. ground arith;
}

none_before :
    (p : Region) (xs : List Region)
    → All (λ y. preferable p y ≡ true) xs
    → any (λ (x : Region). ltb x.priority p.priority) xs ≡ false
none_before p [] h = refl
none_before p (x ∷ xs) h = ground (arith, h.0, none_before p xs h.1)

head_lem :
    (c : Checker) (xs : List Region)
    → IsSorted preferable xs
    → All (λ r. is_eligible c r ≡ true) xs
    → ((xs ≡ []) × (first_or c.region xs ≡ c.region))
      ⊎ ((r : Region) × (first_or c.region xs ≡ r.region)
          × (is_eligible c r ≡ true)
          × (any (λ (x : Region). ltb x.priority r.priority) xs ≡ false))
head_lem c [] h k = inl (refl, refl)
head_lem c (r ∷ xs) h k = inr (r, refl, k.0, ground (arith, none_before r xs h.0))

any_selected : (p : Region → Bool) (xs : List Region) → any (λ x. true) (select p xs) ≡ any p xs
any_selected p [] = refl
any_selected p (x ∷ xs) = ground (arith, any_selected p xs)

candidates : Checker → List Region
candidates c = sort_by preferable (select (is_eligible c) c.regions)

no_candidate : (c : Checker) → candidates c ≡ [] → any (is_eligible c) c.regions ≡ false
unfolding candidates
no_candidate c h =
    sym (any_selected (is_eligible c) c.regions)
    ∙ sym (any-sort_by preferable (λ x. true) (select (is_eligible c) c.regions))
    ∙ ap (any (λ (x : Region). true)) h

before_candidate :
    (c : Checker) (r : Region)
    → any (λ (x : Region). ltb x.priority r.priority) (candidates c) ≡ false
    → any (λ (x : Region). is_eligible c x && ltb x.priority r.priority) c.regions ≡ false
unfolding candidates
before_candidate c r h =
    sym (any-select (is_eligible c) (λ (x : Region). ltb x.priority r.priority) c.regions)
    ∙ sym (
        any-sort_by preferable (λ (x : Region). ltb x.priority r.priority)
          (select (is_eligible c) c.regions))
    ∙ h

-- A region that is up keeps its traffic. Otherwise the traffic is to go to a remote region that is
-- not known to be down and before which no other such region comes in priority, or, if there is no
-- such region, nowhere else.
pub preferred_region_lem :
    (c : Checker)
    → ((is_up c.local_status ≡ true) × (preferred_region c ≡ c.region))
      ⊎ ((is_up c.local_status ≡ false)
          × ((any (is_eligible c) c.regions ≡ false) × (preferred_region c ≡ c.region)
              ⊎ ((r : Region) × (preferred_region c ≡ r.region) × IsPreferred c r)))
unfolding preferred_region candidates
preferred_region_lem c = elim (Bool-cases (is_up c.local_status)) [
  | inl up ↦ inl (up, rw (up, preferred_region) refl)
  | inr down ↦ inr (
    down,
    rw (down, preferred_region)
        (elim (head_lem c (candidates c)
          (sort_by-IsSorted preferable preferable-IsOrder (select (is_eligible c) c.regions))
          (All-sort_by preferable (λ r. is_eligible c r ≡ true) _
            (select-holds (is_eligible c) c.regions))) [
              | inl (nobody, own) ↦ inl (no_candidate c nobody, own)
              | inr (r, first, fit, least) ↦ inr (r, first, (fit, before_candidate c r least))
            ]),
  )
]

-- The longest row of successes is shorter than `n`, after `k` of them.
unfoldable pub streaks_below : (n k : ℕ) → List Bool → Bool
streaks_below n k [] = true
streaks_below n k (true ∷ rs) = ltb (k + 1) n && streaks_below n (k + 1) rs
streaks_below n k (false ∷ rs) = streaks_below n 0 rs

pub reports : List Bool → Checker → Checker
reports [] c = c
reports (r ∷ rs) c = reports rs (report_local_health r c).0

stays_from :
    (rs : List Bool) (c : Checker)
    → is_up c.local_status ≡ false
    → streaks_below c.recovery_threshold c.local_successes rs ≡ true
    → is_up (reports rs c).local_status ≡ false
unfolding reports streaks_below report_local_health report_success report_failure
stays_from [] c down below = down
stays_from (true ∷ rs) c down below =
    ground (arith, down, below, stays_from rs (report_success c).0)
stays_from (false ∷ rs) c down below =
    ground (arith, down, below, stays_from rs (report_failure c).0)

pub successes : ℕ → List Bool
successes zero = []
successes (suc n) = true ∷ successes n

keeps_up :
    (n : ℕ) (c : Checker)
    → is_up c.local_status ≡ true
    → is_up (reports (successes n) c).local_status ≡ true
unfolding reports successes report_local_health report_success
keeps_up zero c h = h
keeps_up (suc n) c h = ground (arith, h, keeps_up n (report_success c).0)

returns :
    (n : ℕ) (c : Checker)
    → c.recovery_threshold ≤ c.local_successes + suc n
    → is_up (reports (successes (suc n)) c).local_status ≡ true
unfolding reports successes report_local_health report_success
returns zero c h = ground (arith, h)
returns (suc n) c h =
    ground (arith, h, returns n (report_success c).0, keeps_up (suc n) (report_success c).0)

after_failure :
    (c : Checker)
    → is_up c.local_status ≡ false
    → (is_up (report_local_health false c).0.local_status ≡ false)
      × ((report_local_health false c).0.local_successes ≡ 0)
      × ((report_local_health false c).0.recovery_threshold ≡ c.recovery_threshold)
unfolding report_local_health report_failure
after_failure c down = (ground (arith, down), ground (arith, down), ground (arith, down))

returns_at :
    (n : ℕ) (c : Checker)
    → 1 ≤ n
    → c.recovery_threshold ≤ c.local_successes + n
    → is_up (reports (successes n) c).local_status ≡ true
returns_at zero c h k = ground arith
returns_at (suc n) c h k = returns n c k

-- After a failure has been reported to a region that is down, it stays down through any reports
-- without as many successes in a row as the recovery threshold (which is positive), and with that
-- many successes it is back.
pub failback :
    (c : Checker) (rs : List Bool)
    → is_up c.local_status ≡ false
    → 1 ≤ c.recovery_threshold
    → streaks_below c.recovery_threshold 0 rs ≡ true
    → let c' = (report_local_health false c).0 in
      (is_up (reports rs c').local_status ≡ false)
      × (is_up (reports (successes c.recovery_threshold) c').local_status ≡ true)
failback c rs down h below =
    let (still, none_yet, same) = after_failure c down in
    (
      stays_from rs (report_local_health false c).0 still (rw (none_yet, same) below),
      returns_at c.recovery_threshold (report_local_health false c).0 h
          (omega (arith, none_yet, same)),
    )
