-- ===== src/Dlq/Manager.antt =====
-- The operator's manager of dead letters (src/dlq/manager.js), and the alert checks of the manager
-- and of the worker (src/dlq/worker.js).
use x402_facilitator_stellar.Common.{
  ℕ, zero, suc, ◌+◌, String, Bool, true, false, ◌&&◌, ◌||◌, not, Option, none, some, ltb, leb,
  if◌then◌else◌, is_some, length, select, Result, ok, err,
}
use x402_facilitator_stellar.Dlq.{
  Status, pending, exhausted, resolved, discarded, Letter, Table, default_options, Depth, get,
  in_state, Outcome, Redelivery, undelivered, attempt_redelivery,
}

module _ {P : Type 0} where
  replay_row : Letter P → Outcome → (now : ℕ) → Table P → Table P × Redelivery
  replay_row row outcome now t = elim row.status [
    | discarded ↦ (t, undelivered "already_discarded")
    | resolved ↦ (t, undelivered "already_resolved")
    | pending ↦ attempt_redelivery default_options row outcome now t
    | exhausted ↦ attempt_redelivery default_options row outcome now t
  ]

  -- The operator's redelivery of one letter, outside the schedule.
  unfoldable pub replay : ℕ → Outcome → (now : ℕ) → Table P → Table P × Redelivery
  unfolding replay_row
  replay id outcome now t = elim (get id t) [
    | none ↦ (t, undelivered "not_found")
    | some row ↦ replay_row row outcome now t
  ]

  abbrev pub is_purged : Option Status → (older_than : Option ℕ) → Letter P → Bool
  is_purged status older_than r =
      in_state status r && elim older_than [ none ↦ true | some t ↦ ltb r.created_at t ]

  -- Without a criterion it throws.
  unfoldable pub purge :
      Option Status → (older_than : Option ℕ) → Table P → Result String (Table P × ℕ)
  purge status older_than t =
      if is_some status || is_some older_than
      then ok (
        record t { rows = select (λ r. not (is_purged status older_than r)) t.rows },
        length (select (is_purged status older_than) t.rows),
      )
      else err "dlq purge requires a status or olderThan filter"

-- What an alert check does: the flag that it leaves, whether it alerts, and what it answers.
pub record Alarm : Type 0 where
  pub alerting : Bool
  pub fires : Bool
  pub breached : Bool

abbrev pub actionable : Depth → ℕ
actionable d = d.pending + d.exhausted

-- `checkThreshold` of the manager.
unfoldable pub check_threshold : (threshold : ℕ) → Depth → (alerting : Bool) → Alarm
check_threshold zero d alerting = record { alerting = false; fires = false; breached = false }
check_threshold (suc n) d alerting =
    let breached = ltb (suc n) (actionable d) in
    record { alerting = breached; fires = breached && not alerting; breached = breached }

-- The check in the worker's tick: a threshold of 0 leaves the flag alone.
unfoldable pub tick_alarm : (threshold : ℕ) → Depth → (alerting : Bool) → Alarm
tick_alarm zero d alerting = record { alerting = alerting; fires = false; breached = false }
tick_alarm (suc n) d alerting =
    if ltb (suc n) (actionable d) && not alerting
    then record { alerting = true; fires = true; breached = true }
    else if leb (actionable d) (suc n)
    then record { alerting = false; fires = false; breached = false }
    else record { alerting = alerting; fires = false; breached = true }
