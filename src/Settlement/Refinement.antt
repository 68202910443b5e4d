-- ===== src/Settlement/Refinement.antt =====
-- The memory store refines a map from keys to states.
use x402_facilitator_stellar.Common.{
  ℕ, String, ◌≡◌, refl, ap, ◌∙◌, ◌≢◌, Bool, true, false, ◌&&◌, Option, none, some, List, [], ◌∷◌,
  arith, str_eq, if◌then◌else◌, get_or, is_some,
}
use mathlib.Core.Path.{fun_ext}
use x402_facilitator_stellar.Common.Dict
use x402_facilitator_stellar.EventStore.{
  EventType, State, Projection, initiate, project_settlement, project_from,
}
use x402_facilitator_stellar.Settlement.{
  Store, Record, Details, new, get, save, update_state, saved_payload, updated_payload, after,
}
use x402_facilitator_stellar.Settlement.Log.{
  saved, updated, save_lem, transition_lem, terminal_type, get-saved, get-updated, events-extended,
  transition_submitted,
}

abbrev pub state_of : Option Projection → Option State
state_of none = none
state_of (some p) = some p.state

abbrev pub Status : Type 0
Status = String → Option State

abbrev pub status : Store → Status
status s k = state_of (get s k)

pub data Op : Type 0 where
  saves : Record → ℕ → Op
  updates : String → State → Details → ℕ → Op

-- A call that throws leaves the store as it was.
unfoldable pub step : Store → Op → Store
step s (saves r now) = after s (save s r now)
step s (updates k st d now) = after s (update_state s k st d now)

unfoldable pub run : Store → List Op → Store
run s [] = s
run s (o ∷ os) = run (step s o) os

abbrev pub is_terminal : State → Bool
is_terminal State.submitted = false
is_terminal _ = true

-- The specification: a save starts a settlement afresh; an update moves a settlement that was
-- saved to any state but `submitted`, and does nothing to one that was not.
unfoldable pub spec_step : Status → Op → Status
spec_step m (saves r now) j = if str_eq r.idempotency_key j then some State.submitted else m j
spec_step m (updates k st d now) j =
    if str_eq k j && is_some (m k) && is_terminal st then some st else m j

pub spec_run : Status → List Op → Status
spec_run m [] = m
spec_run m (o ∷ os) = spec_run (spec_step m o) os

-- Every key of the store has a projection.
abbrev pub IsLive : Store → Type 0
IsLive s = (k : String) → is_some (Dict.get k s.events) ≡ is_some (get s k)

pub step-saves : (s : Store) (r : Record) (now : ℕ) → step s (saves r now) ≡ saved s r now
unfolding step
step-saves s r now = rw (save_lem s r now)

-- An update changes the store exactly if the key is there and the state is a terminal one.
pub step-updates :
    (s : Store) (k : String) (st : State) (d : Details) (now : ℕ)
    → step s (updates k st d now)
      ≡ (if is_some (Dict.get k s.events) && is_terminal st then updated s k st d now else s)
unfolding step update_state
step-updates s k State.submitted d now = ground (arith, transition_submitted s k d now)
step-updates s k State.settled d now = ground (arith, transition_lem s k State.settled d now)
step-updates s k State.failed d now = ground (arith, transition_lem s k State.failed d now)
step-updates s k State.unknown d now = ground (arith, transition_lem s k State.unknown d now)

pub terminal_lem : (st : State) → is_terminal st ≡ true → st ≢ State.submitted
terminal_lem st h e = ground arith

pub step-IsLive : (s : Store) (o : Op) → IsLive s → IsLive (step s o)
step-IsLive s (saves r now) live j = rw (step-saves s r now) (
    ground (
      arith,
      get-saved s r now j,
      events-extended s r.idempotency_key j EventType.initiated (saved_payload r) now,
      live j,
    ))
step-IsLive s (updates k st d now) live j = rw (step-updates s k st d now) (
    ground (
      arith,
      get-updated s k st d now (get_or (get s k) (initiate none (updated_payload k d) now)) j,
      terminal_lem st,
      events-extended s k j (terminal_type st) (updated_payload k d) now,
      live j,
      live k,
    ))

pub status-step :
    (s : Store) (o : Op) → IsLive s → (j : String) → status (step s o) j ≡ spec_step (status s) o j
unfolding spec_step initiate
status-step s (saves r now) live j = rw (step-saves s r now) (ground (arith, get-saved s r now j))
status-step s (updates k st d now) live j = rw (step-updates s k st d now) (
    ground (
      arith,
      get-updated s k st d now (get_or (get s k) (initiate none (updated_payload k d) now)) j,
      terminal_lem st,
      live k,
    ))

status-run : (s : Store) (os : List Op) → IsLive s → status (run s os) ≡ spec_run (status s) os
unfolding run spec_run
status-run s [] live = refl
status-run s (o ∷ os) live =
    rw (← fun_ext (status-step s o live)) (status-run (step s o) os (step-IsLive s o live))

pub run-IsLive : (s : Store) (os : List Op) → IsLive s → IsLive (run s os)
unfolding run
run-IsLive s [] live = live
run-IsLive s (o ∷ os) live = run-IsLive (step s o) os (step-IsLive s o live)

pub new-IsLive : IsLive new
unfolding get project_settlement project_from Dict.get
new-IsLive k = refl

new-status : (k : String) → status new k ≡ none
unfolding get project_settlement project_from Dict.get
new-status k = refl

-- After any sequence of saves and updates on a new store, refused ones included, the state that
-- `get` shows of each key is the one that the specification computes.
pub run_refines : (os : List Op) (k : String) → status (run new os) k ≡ spec_run (λ j. none) os k
run_refines os k =
    ap (λ (m : Status). m k) (status-run new os new-IsLive)
    ∙ ap (λ (m : Status). spec_run m os k) (fun_ext new-status)
