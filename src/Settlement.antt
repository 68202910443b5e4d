-- ===== src/Settlement.antt =====
-- The in-memory, event-sourced settlement store (src/store/memory.js).
-- The clock's reading is an argument of each call.
pub mod Log
pub mod Tests
pub mod Lifecycle
pub mod Refinement
pub mod Audit
use x402_facilitator_stellar.Common.{
  ℕ, zero, suc, ◌+◌, ◌-◌, ◌*◌, ◌/◌, ◌%◌, ◌^◌, ◌≤◌, ◌<◌, min, max, String, ◌≡◌, refl, sym, ap, ◌∙◌,
  ◌≢◌, ◌↔◌, ◌⊎◌, inl, inr, Bool, true, false, ◌&&◌, ◌||◌, not, Option, none, some, List, [], ◌∷◌,
  ◌++◌, map, arith, str_eq, eq_iff, eq_refl, ltb, leb, eqb, ltb→lt, lt→ltb, leb→le, le→leb,
  if◌then◌else◌, Bool-cases, Option-cases, get_or, or_else, is_some, length, take, drop, select,
  any, all, find, All, length-append, length-select-le, All-append, All-select, Result, ok, err,
  ◌>>=◌, ◌>>◌, throw_if, >>=-eq-ok,
}
use x402_facilitator_stellar.Common.Dict
use x402_facilitator_stellar.Common.Dict.{Map}
use x402_facilitator_stellar.Common.Sort.{sort_by}
use x402_facilitator_stellar.EventStore.{
  EventType, State, Response, Payload, Envelope, Event, EventError, Projection,
  create_settlement_event, event_type_for_state, project_settlement,
}

-- `events`: the ordered, append-only log of each idempotency key.
pub record Store : Type 0 where
  pub events : Map (List Event)

abbrev pub new : Store
new = record { events = [] }

-- The record that `save` is handed; `state` is not read.
pub record Record : Type 0 where
  pub idempotency_key : String
  pub network : Option String
  pub scheme : Option String
  pub payer : Option String
  pub pay_to : Option String
  pub asset : Option String
  pub amount : Option String
  pub tx_hash : Option String
  pub key_id : Option String

pub record Details : Type 0 where
  pub tx_hash : Option String
  pub error_reason : Option String
  pub error_message : Option String
  pub response : Option Response

abbrev pub stream : Store → String → List Event
stream s k = get_or (Dict.get k s.events) []

abbrev pub stamp : List Event → ℕ → Envelope → Event
stamp log now e = record { envelope = e; seq = length log + 1; recorded_at = now }

unfoldable pub append : Store → String → EventType → Payload → ℕ → Result EventError Store
unfolding create_settlement_event
append s k t p now = do
  e ← create_settlement_event t p
  ok (record { events = Dict.set k (stream s k ++ stamp (stream s k) now e ∷ []) s.events })

unfoldable pub projection : Store → String → Option Projection
projection s k = project_settlement (stream s k)

unfoldable pub get : Store → String → Option Projection
unfolding projection
get s k = projection s k

abbrev pub saved_payload : Record → Payload
saved_payload r = record {
  idempotency_key = some r.idempotency_key;
  network = some (get_or r.network "");
  scheme = some (get_or r.scheme "");
  payer = r.payer;
  pay_to = r.pay_to;
  asset = r.asset;
  amount = r.amount;
  tx_hash = r.tx_hash;
  key_id = r.key_id;
  error_reason = none;
  error_message = none;
  response = none;
}

unfoldable pub save : Store → Record → ℕ → Result EventError (Store × Option Projection)
unfolding append get
save s r now = do
  s' ← append s r.idempotency_key EventType.initiated (saved_payload r) now
  ok (s', get s' r.idempotency_key)

abbrev pub updated_payload : String → Details → Payload
updated_payload k d = record {
  idempotency_key = some k;
  network = none;
  scheme = none;
  payer = none;
  pay_to = none;
  asset = none;
  amount = none;
  tx_hash = d.tx_hash;
  key_id = none;
  error_reason = d.error_reason;
  error_message = d.error_message;
  response = d.response;
}

unfoldable pub transition :
    Store → String → State → Details → ℕ → Result EventError (Store × Option Projection)
unfolding append get event_type_for_state
transition s k st d now = do
  t ← event_type_for_state st
  s' ← append s k t (updated_payload k d) now
  ok (s', get s' k)

unfoldable pub update_state :
    Store → String → State → Details → ℕ → Result EventError (Store × Option Projection)
update_state s k st d now =
    if is_some (Dict.get k s.events) then transition s k st d now else ok (s, none)

abbrev pub is_unknown : Option Projection → Bool
is_unknown (some p) = elim p.state [ State.unknown ↦ true | _ ↦ false ]
is_unknown none = false

-- The projections of the keys of a list that are in state `unknown`.
unfoldable pub unknown_of : Store → List String → List Projection
unfolding projection
unknown_of s [] = []
unknown_of s (k ∷ ks) = elim (projection s k) [
  | none ↦ unknown_of s ks
  | some p ↦ if is_unknown (some p) then p ∷ unknown_of s ks else unknown_of s ks
]

unfoldable pub list_unknown : Store → List Projection
unfolding unknown_of
list_unknown s = unknown_of s (Dict.keys s.events)

-- The notification of a settlement that the webhook dispatcher publishes.
pub record Notification : Type 0 where
  pub transaction : Option String
  pub network : Option String
  pub payer : Option String
  pub pay_to : Option String
  pub amount : Option String
  pub asset : Option String

pub record Enqueued : Type 0 where
  pub atomically_enqueued : Bool
  pub saved : Option Projection
  pub event : Option Notification

-- There is no transaction to share, so the caller is told to publish the event itself.
unfoldable pub settle_and_enqueue :
    Store → String → Details → Option Notification → ℕ → Result EventError (Store × Enqueued)
settle_and_enqueue s k d event now = do
  r ← update_state s k State.settled d now
  ok (r.0, record { atomically_enqueued = false; saved = r.1; event = event })

unfoldable pub get_event_log : Store → String → List Event
get_event_log s k = stream s k

unfoldable pub all_events : Map (List Event) → List Event
all_events [] = []
all_events ((k, log) ∷ m) = log ++ all_events m

-- `a.recorded_at.localeCompare(b.recorded_at) || a.seq - b.seq` is at most 0.
unfoldable pub before : Event → Event → Bool
before a b = ltb a.recorded_at b.recorded_at || (eqb a.recorded_at b.recorded_at && leb a.seq b.seq)

abbrev pub from_time : Option ℕ → Event → Bool
from_time none e = true
from_time (some t) e = leb t e.recorded_at

abbrev pub to_time : Option ℕ → Event → Bool
to_time none e = true
to_time (some t) e = leb e.recorded_at t

-- A limit of 0 is none at all: `if (limit)`.
abbrev pub cut {ℓ} : {A : Type ℓ} → Option ℕ → List A → List A
cut none xs = xs
cut (some zero) xs = xs
cut (some (suc n)) xs = take (suc n) xs

unfoldable pub export_audit_log : Store → (since until limit : Option ℕ) → List Event
export_audit_log s since until limit =
    cut limit
      (select (to_time until) (select (from_time since) (sort_by before (all_events s.events))))

unfoldable pub rebuild_projection : Store → String → Option Projection
unfolding get
rebuild_projection s k = get s k

-- The store after a call: one that throws leaves it as it was.
abbrev pub after : {A : Type 0} → Store → Result EventError (Store × A) → Store
after s (ok (s', a)) = s'
after s (err e) = s
