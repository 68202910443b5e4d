-- ===== src/Dlq/Alerts.antt =====
-- Alerts on the depth of the dead-letter queue: one for each breach.
use x402_facilitator_stellar.Common.{
  ℕ, suc, ◌≡◌, refl, ap, Bool, ◌&&◌, not, List, [], ◌∷◌, arith, ltb,
}
use x402_facilitator_stellar.Dlq.{Depth}
use x402_facilitator_stellar.Dlq.Manager.{actionable, check_threshold, tick_alarm}

-- Whether each of a sequence of checks alerts.
pub alerts : (threshold : ℕ) → (alerting : Bool) → List Depth → List Bool
alerts threshold alerting [] = []
alerts threshold alerting (d ∷ ds) =
    let a = check_threshold threshold d alerting in a.fires ∷ alerts threshold a.alerting ds

-- The specification: a check alerts if the depth is over the threshold and was not at the check
-- before it.
pub rising : (threshold : ℕ) → (before : Bool) → List Depth → List Bool
rising threshold before [] = []
rising threshold before (d ∷ ds) =
    let over = ltb threshold (actionable d) in (over && not before) ∷ rising threshold over ds

-- Over any sequence of depths a positive threshold alerts exactly where a breach begins.
pub check_threshold_once :
    (n : ℕ) (before : Bool) (ds : List Depth) → alerts (suc n) before ds ≡ rising (suc n) before ds
unfolding alerts rising check_threshold
check_threshold_once n before [] = refl
check_threshold_once n before (d ∷ ds) =
    ap (λ bs. (ltb (suc n) (actionable d) && not before) ∷ bs)
      (check_threshold_once n (ltb (suc n) (actionable d)) ds)

-- The check in the worker's tick alerts and remembers as the manager's check does, at any positive
-- threshold.
pub tick_alarm-check_threshold :
    (n : ℕ) (d : Depth) (alerting : Bool)
    → tick_alarm (suc n) d alerting ≡ check_threshold (suc n) d alerting
unfolding tick_alarm check_threshold
tick_alarm-check_threshold n d alerting = ground arith
