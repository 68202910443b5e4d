-- ===== src/Settlement/Log.antt =====
-- The event log of the settlement store: what one append does to every stream.
use x402_facilitator_stellar.Common.{
  ℕ, String, ◌≡◌, refl, ◌≢◌, true, none, some, List, [], ◌∷◌, ◌++◌, arith, str_eq, eq_iff,
  if◌then◌else◌, or_else, is_some, ok, err,
}
use x402_facilitator_stellar.Common.Dict
use x402_facilitator_stellar.EventStore.{
  EventType, initiated, settled, failed, outcome_unknown, State, Payload, Event, Envelope,
  project_settlement, apply_event, project_from, unmapped_state, initiate, terminate, Projection,
}
use x402_facilitator_stellar.EventStore.Fold.{project_from-append}
use x402_facilitator_stellar.Settlement.{
  Store, Record, Details, stream, stamp, get, save, saved_payload, updated_payload, transition,
}

abbrev pub envelope : EventType → Payload → Envelope
envelope t p = record { event_type = t; event_version = 1; payload = p }

-- The store after an append that is not refused.
pub extended : Store → String → EventType → Payload → ℕ → Store
extended s k t p now = record {
  events = Dict.set k (stream s k ++ stamp (stream s k) now (envelope t p) ∷ []) s.events;
}

pub stream-extended :
    (s : Store) (k j : String) (t : EventType) (p : Payload) (now : ℕ)
    → stream (extended s k t p now) j ≡ (
        if str_eq k j then stream s j ++ stamp (stream s j) now (envelope t p) ∷ [] else stream s j)
unfolding extended
stream-extended s k j t p now = ground (
  arith,
  eq_iff k j,
  Dict.get-set k j (stream s k ++ stamp (stream s k) now (envelope t p) ∷ []) s.events,
)

pub project_settlement-snoc :
    (log : List Event) (e : Event)
    → project_settlement (log ++ e ∷ []) ≡ apply_event (project_settlement log) e
unfolding project_settlement project_from
project_settlement-snoc log e = project_from-append none log (e ∷ [])

pub get-extended :
    (s : Store) (k j : String) (t : EventType) (p : Payload) (now : ℕ)
    → get (extended s k t p now) j ≡ (
        if str_eq k j
        then apply_event (get s j) (stamp (stream s j) now (envelope t p))
        else get s j)
unfolding get
get-extended s k j t p now = ground (
  arith,
  stream-extended s k j t p now,
  project_settlement-snoc (stream s j) (stamp (stream s j) now (envelope t p)),
)

abbrev pub terminal_type : State → EventType
terminal_type State.settled = settled
terminal_type State.failed = failed
terminal_type _ = outcome_unknown

-- The store after a save, and after an update of a settlement that is there.
abbrev pub saved : Store → Record → ℕ → Store
saved s r now = extended s r.idempotency_key initiated (saved_payload r) now

abbrev pub updated : Store → String → State → Details → ℕ → Store
updated s k st d now = extended s k (terminal_type st) (updated_payload k d) now

pub save_lem :
    (s : Store) (r : Record) (now : ℕ)
    → save s r now ≡ ok (saved s r now, get (saved s r now) r.idempotency_key)
unfolding save extended
save_lem s r now = refl

pub transition_lem :
    (s : Store) (k : String) (st : State) (d : Details) (now : ℕ)
    → st ≢ State.submitted
    → transition s k st d now ≡ ok (updated s k st d now, get (updated s k st d now) k)
unfolding transition extended
transition_lem s k State.submitted d now h = absurd (h refl)
transition_lem s k State.settled d now h = refl
transition_lem s k State.failed d now h = refl
transition_lem s k State.unknown d now h = refl

pub transition_submitted :
    (s : Store) (k : String) (d : Details) (now : ℕ)
    → transition s k State.submitted d now ≡ err (unmapped_state State.submitted)
unfolding transition
transition_submitted s k d now = refl

pub events-extended :
    (s : Store) (k j : String) (t : EventType) (p : Payload) (now : ℕ)
    → is_some (Dict.get j (extended s k t p now).events)
      ≡ (if str_eq k j then true else is_some (Dict.get j s.events))
unfolding extended
events-extended s k j t p now =
    ground
      (arith, Dict.get-set k j (stream s k ++ stamp (stream s k) now (envelope t p) ∷ []) s.events)

pub get-eq-none : (s : Store) (k : String) → Dict.get k s.events ≡ none → get s k ≡ none
unfolding get project_settlement project_from
get-eq-none s k e = rw e

pub get-saved :
    (s : Store) (r : Record) (now : ℕ) (j : String)
    → get (saved s r now) j ≡ (
        if str_eq r.idempotency_key j
        then some (initiate (get s r.idempotency_key) (saved_payload r) now)
        else get s j)
unfolding apply_event
get-saved s r now j = ground (
  arith,
  get-extended s r.idempotency_key j EventType.initiated (saved_payload r) now,
  eq_iff r.idempotency_key j,
)

-- What an update leaves of an earlier projection.
abbrev pub ended : Projection → State → Details → ℕ → Projection
ended p st d now = record p {
  state = st;
  tx_hash = or_else d.tx_hash p.tx_hash;
  error_reason = or_else d.error_reason p.error_reason;
  error_message = or_else d.error_message p.error_message;
  response = or_else d.response p.response;
  updated_at = now;
}

pub apply_event-terminal :
    (p : Projection) (log : List Event) (k : String) (st : State) (d : Details) (now : ℕ)
    → st ≢ State.submitted
    → apply_event (some p) (stamp log now (envelope (terminal_type st) (updated_payload k d)))
      ≡ some (ended p st d now)
unfolding apply_event terminate
apply_event-terminal p log k State.submitted d now h = absurd (h refl)
apply_event-terminal p log k State.settled d now h = refl
apply_event-terminal p log k State.failed d now h = refl
apply_event-terminal p log k State.unknown d now h = refl

pub get-updated :
    (s : Store) (k : String) (st : State) (d : Details) (now : ℕ) (p : Projection) (j : String)
    → get s k ≡ some p
    → st ≢ State.submitted
    → get (updated s k st d now) j ≡ (if str_eq k j then some (ended p st d now) else get s j)
get-updated s k st d now p j known h = ground (
  arith,
  get-extended s k j (terminal_type st) (updated_payload k d) now,
  eq_iff k j,
  apply_event-terminal p (stream s j) k st d now h,
)
