-- ===== src/Failover.antt =====
-- Health of the regions and failover between them (src/failover-health.js).
-- Times are whole milliseconds; a timer and the log are left out.
pub mod Routing
pub mod Tests
use x402_facilitator_stellar.Common.{
  str_append, str_ne, ℕ, zero, suc, ◌+◌, ◌-◌, ◌*◌, ◌/◌, ◌%◌, ◌^◌, ◌≤◌, ◌<◌, min, max, String, ◌≡◌,
  refl, sym, ap, ◌∙◌, ◌≢◌, ◌↔◌, ◌⊎◌, inl, inr, Bool, true, false, ◌&&◌, ◌||◌, not, Option, none,
  some, List, [], ◌∷◌, ◌++◌, map, arith, str_eq, eq_iff, eq_refl, ltb, leb, eqb, ltb→lt, lt→ltb,
  leb→le, le→leb, if◌then◌else◌, Bool-cases, Option-cases, get_or, or_else, is_some, length, take,
  drop, select, any, all, find, All, length-append, length-select-le, All-append, All-select,
  select-select, All-take, select-holds, nth, All-map, All-weaken, All-nth, any-append, any-map,
  any-select, any-weaken, any-map-with, take_all, length-take-le, length-select-not, Result, ok,
  err, ◌>>=◌, ◌>>◌, throw_if, >>=-eq-ok,
}
use x402_facilitator_stellar.Common.Dict
use x402_facilitator_stellar.Common.Dict.{Map}
use x402_facilitator_stellar.Common.Sort.{sort_by}

pub data Status : Type 0 where
  healthy degraded recovering : Status

pub record Region : Type 0 where
  pub region : String
  pub priority : ℕ
  pub url : Option String

pub record RemoteStatus : Type 0 where
  pub is_healthy : Bool
  pub last_check : ℕ

pub record Checker : Type 0 where
  pub region : String
  pub regions : List Region
  pub failure_threshold : ℕ
  pub recovery_threshold : ℕ
  pub local_status : Status
  pub remote_status : Map RemoteStatus
  pub local_failures : ℕ
  pub local_successes : ℕ
  pub closed : Bool

pub data Event : Type 0 where
  recovered degraded_again remote_recovered remote_degraded : String → Event

abbrev pub is_up : Status → Bool
is_up healthy = true
is_up _ = false

abbrev is_recovering : Status → Bool
is_recovering recovering = true
is_recovering _ = false

-- A report that the local services are reachable.
unfoldable pub report_success : Checker → Checker × List Event
report_success c =
    let n = c.local_successes + 1 in
    if is_up c.local_status
    then (record c { local_failures = 0 }, [])
    else if leb c.recovery_threshold n
    then (
      record c { local_failures = 0; local_status = healthy; local_successes = 0 },
      recovered c.region ∷ [],
    )
    else (record c { local_failures = 0; local_status = recovering; local_successes = n }, [])

-- A report that they are not: a failure during recovery degrades at once.
unfoldable pub report_failure : Checker → Checker × List Event
report_failure c =
    let n = c.local_failures + 1 in
    if is_recovering c.local_status || (leb c.failure_threshold n && is_up c.local_status)
    then (
      record c { local_failures = n; local_status = degraded; local_successes = 0 },
      degraded_again c.region ∷ [],
    )
    else (record c { local_failures = n; local_successes = 0 }, [])

unfoldable pub report_local_health : Bool → Checker → Checker × List Event
report_local_health ok_ c = if ok_ then report_success c else report_failure c

abbrev noted : String → Option RemoteStatus → Bool → List Event
noted name none now_healthy = []
noted name (some before) now_healthy =
    if not before.is_healthy && now_healthy
    then remote_recovered name ∷ []
    else if before.is_healthy && not now_healthy
    then remote_degraded name ∷ []
    else []

-- What the check of a remote region finds; one that throws counts as unhealthy, without an event.
unfoldable pub check_remote :
    Region → (found : Option Bool) → (now : ℕ) → Checker → Checker × List Event
check_remote r found now c = (
  record c {
    remote_status =
        Dict.set r.region (record { is_healthy = get_or found false; last_check = now })
          c.remote_status;
  },
  elim found [ none ↦ [] | some up ↦ noted r.region (Dict.get r.region c.remote_status) up ],
)

abbrev is_checked : Checker → Region → Bool
is_checked c r =
    not (str_eq r.region c.region) && elim r.url [ none ↦ false | some u ↦ not (str_eq u "") ]

abbrev and_then : List Event → Checker × List Event → Checker × List Event
and_then es (c, fs) = (c, es ++ fs)

-- The loop over the regions.
unfoldable pub check_all :
    (Region → Option Bool) → (now : ℕ) → List Region → Checker → Checker × List Event
check_all found now [] c = (c, [])
check_all found now (r ∷ rs) c =
    let (c', es) = check_remote r (found r) now c in
    let checked = and_then es (check_all found now rs c') in
    let skipped = check_all found now rs c in if is_checked c r then checked else skipped

unfoldable pub check : (Region → Option Bool) → (now : ℕ) → Checker → Checker × List Event
check found now c = if c.closed then (c, []) else check_all found now c.regions c

-- A remote region that has not been checked may be healthy.
unfoldable pub is_eligible : Checker → Region → Bool
is_eligible c r =
    not (str_eq r.region c.region)
    && elim (Dict.get r.region c.remote_status) [ none ↦ true | some s ↦ s.is_healthy ]

abbrev pub preferable : Region → Region → Bool
preferable a b = leb a.priority b.priority

abbrev first_or : String → List Region → String
first_or own [] = own
first_or own (r ∷ rs) = r.region

unfoldable pub preferred_region : Checker → String
preferred_region c =
    if is_up c.local_status
    then c.region
    else first_or c.region (sort_by preferable (select (is_eligible c) c.regions))

unfoldable pub is_failover_active : Checker → Bool
is_failover_active c = not (is_up c.local_status)

-- The timer's checks end with it.
unfoldable pub stop : Checker → Checker
stop c = record c { closed = true }
