-- ===== src/Failover/Tests.antt =====
-- Three regions, the local one down.
use x402_facilitator_stellar.Common.{ℕ, String, ◌≡◌, refl, true, false, some, [], ◌∷◌, arith}
use x402_facilitator_stellar.Common.Dict
use x402_facilitator_stellar.Common.Dict.{Map}
use x402_facilitator_stellar.Common.Sort.{sort_by}
use x402_facilitator_stellar.Failover.{
  degraded, Region, Checker, is_up, report_local_health, is_eligible, preferred_region,
}
use x402_facilitator_stellar.Failover.Routing.{streaks_below, reports, successes, failback}

abbrev named : String → ℕ → Region
named name priority = record { region = name; priority = priority; url = some "https://r" }

abbrev checker : Checker
checker = record {
  region = "us";
  regions = named "us" 1 ∷ named "eu" 3 ∷ named "ap" 2 ∷ named "sa" 2 ∷ [];
  failure_threshold = 3;
  recovery_threshold = 2;
  local_status = degraded;
  remote_status = ("ap", record { is_healthy = false; last_check = 5 }) ∷ [];
  local_failures = 3;
  local_successes = 0;
  closed = false;
}

elsewhere : preferred_region checker ≡ "sa"
unfolding preferred_region is_eligible sort_by Dict.get
elsewhere = refl

below : streaks_below 2 0 (true ∷ false ∷ true ∷ []) ≡ true
unfolding streaks_below
below = refl

failback_example :
    let c' = (report_local_health false checker).0 in
    (is_up (reports (true ∷ false ∷ true ∷ []) c').local_status ≡ false)
    × (is_up (reports (successes 2) c').local_status ≡ true)
failback_example = failback checker (true ∷ false ∷ true ∷ []) refl (omega arith) below
