-- ===== src/Settlement/Lifecycle.antt =====
-- The life of a settlement in the memory store, and its specification as a map of states.
use x402_facilitator_stellar.Common.{
  ℕ, String, ◌≡◌, ◌≢◌, Option, none, some, arith, str_eq, eq_refl, if◌then◌else◌, Option-cases, ok,
  err,
}
use x402_facilitator_stellar.Common.Dict
use x402_facilitator_stellar.EventStore.{State, unmapped_state, Projection, initiate}
use x402_facilitator_stellar.Settlement.{
  Store, Record, Details, get, save, update_state, saved_payload, after, settle_and_enqueue,
  Notification,
}
use x402_facilitator_stellar.Settlement.Log.{
  saved, updated, save_lem, transition_lem, get-saved, get-updated, ended, get-eq-none,
  transition_submitted,
}

-- `save` never throws. It answers with the record in state `submitted`, with the fields that it was
-- given, with no error and no response of an earlier attempt, and with the creation time of the
-- earlier record if there is one; a later `get` gives the same, and no other key changes.
pub save-get :
    (s : Store) (r : Record) (now : ℕ)
    → let p = initiate (get s r.idempotency_key) (saved_payload r) now in
      (s' : Store) × (save s r now ≡ ok (s', some p))
      × ((j : String) → get s' j ≡ (if str_eq r.idempotency_key j then some p else get s j))
save-get s r now = (
  saved s r now,
  rw (save_lem s r now)
      (ground (arith, get-saved s r now r.idempotency_key, eq_refl r.idempotency_key)),
  get-saved s r now,
)

-- On a saved key `updateState` reaches every state but `submitted`, with the details laid over what
-- is known; a later `get` gives the same, and no other key changes.
pub update_state-get :
    (s : Store) (k : String) (st : State) (d : Details) (now : ℕ) (p : Projection)
    → get s k ≡ some p
    → st ≢ State.submitted
    → (s' : Store) × (update_state s k st d now ≡ ok (s', some (ended p st d now)))
      × ((j : String) → get s' j ≡ (if str_eq k j then some (ended p st d now) else get s j))
unfolding update_state
update_state-get s k st d now p known h = (
  updated s k st d now,
  ground (
    arith,
    get-eq-none s k,
    transition_lem s k st d now h,
    get-updated s k st d now p k known h,
    eq_refl k,
  ),
  λ j. get-updated s k st d now p j known h,
)

-- On a key that was never saved it returns null, and to `submitted` it throws: nothing changes.
pub update_state_refused :
    (s : Store) (k : String) (st : State) (d : Details) (now : ℕ)
    → (Dict.get k s.events ≡ none → update_state s k st d now ≡ ok (s, none))
      × (Dict.get k s.events ≢ none
          → update_state s k State.submitted d now ≡ err (unmapped_state State.submitted))
unfolding update_state
update_state_refused s k st d now = (
  λ e. rw e,
  λ h. ground (arith, transition_submitted s k d now, Option-cases (Dict.get k s.events)),
)

-- What `get` shows after a call, whatever the call returns.
pub get-after-save :
    (s : Store) (r : Record) (now : ℕ) (j : String)
    → get (after s (save s r now)) j ≡ (
        if str_eq r.idempotency_key j
        then some (initiate (get s r.idempotency_key) (saved_payload r) now)
        else get s j)
get-after-save s r now j = rw (save_lem s r now) (get-saved s r now j)

pub get-after-update_state :
    (s : Store) (k : String) (st : State) (d : Details) (now : ℕ) (p : Projection) (j : String)
    → get s k ≡ some p
    → st ≢ State.submitted
    → get (after s (update_state s k st d now)) j
      ≡ (if str_eq k j then some (ended p st d now) else get s j)
get-after-update_state s k st d now p j known h =
    let (s', e, same) = update_state-get s k st d now p known h in rw e (same j)

pub get-after-settle_and_enqueue :
    (s : Store) (k : String) (d : Details) (n : Option Notification) (now : ℕ) (p : Projection)
    (j : String)
    → get s k ≡ some p
    → get (after s (settle_and_enqueue s k d n now)) j
      ≡ (if str_eq k j then some (ended p State.settled d now) else get s j)
unfolding settle_and_enqueue
get-after-settle_and_enqueue s k d n now p j known =
    let (s', e, same) = update_state-get s k State.settled d now p known (λ f. cc) in rw e (same j)
