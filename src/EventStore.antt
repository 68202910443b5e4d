-- ===== src/EventStore.antt =====
-- Settlement events and their projection (src/eventstore/events.js, src/eventstore/projection.js).
-- A field that is null or undefined is `none`; a time is a number of milliseconds.
pub mod Fold
pub mod Tests
use x402_facilitator_stellar.Common.{
  ℕ, zero, suc, ◌+◌, ◌-◌, ◌*◌, ◌/◌, ◌%◌, ◌^◌, ◌≤◌, ◌<◌, min, max, String, ◌≡◌, refl, sym, ap, ◌∙◌,
  ◌≢◌, ◌↔◌, ◌⊎◌, inl, inr, Bool, true, false, ◌&&◌, ◌||◌, not, Option, none, some, List, [], ◌∷◌,
  ◌++◌, map, arith, str_eq, eq_iff, eq_refl, ltb, leb, eqb, ltb→lt, lt→ltb, leb→le, le→leb,
  if◌then◌else◌, Bool-cases, Option-cases, get_or, or_else, is_some, length, take, drop, select,
  any, all, find, All, length-append, length-select-le, All-append, All-select, Result, ok, err,
  ◌>>=◌, ◌>>◌, throw_if, >>=-eq-ok,
}

-- SETTLEMENT_EVENT_TYPES; `other` is any text that is not one of them.
pub data EventType : Type 0 where
  initiated settled failed outcome_unknown : EventType
  other : String → EventType

pub data State : Type 0 where
  submitted settled failed unknown : State

-- The facilitator's answer to a settlement, in the fields that this service reads.
pub record Response : Type 0 where
  pub success : Bool
  pub transaction : Option String
  pub network : Option String
  pub payer : Option String
  pub error_reason : Option String
  pub error_message : Option String
  pub fee_stroops : Option ℕ

pub record Payload : Type 0 where
  pub idempotency_key : Option String
  pub network : Option String
  pub scheme : Option String
  pub payer : Option String
  pub pay_to : Option String
  pub asset : Option String
  pub amount : Option String
  pub tx_hash : Option String
  pub key_id : Option String
  pub error_reason : Option String
  pub error_message : Option String
  pub response : Option Response

pub record Envelope : Type 0 where
  pub event_type : EventType
  pub event_version : ℕ
  pub payload : Payload

pub record Event : Type 0 where
  pub envelope : Envelope
  pub open envelope use *
  pub seq : ℕ
  pub recorded_at : ℕ

pub data Field : Type 0 where
  idempotency_key network scheme : Field

pub data EventError : Type 0 where
  unknown_type : EventType → EventError
  missing_field : EventType → Field → EventError
  unmapped_state : State → EventError

abbrev pub current_version : EventType → Option ℕ
current_version (EventType.other t) = none
current_version _ = some 1

abbrev pub required_fields : EventType → List Field
required_fields EventType.initiated = idempotency_key ∷ network ∷ scheme ∷ []
required_fields _ = idempotency_key ∷ []

abbrev pub state_by_event_type : EventType → Option State
state_by_event_type EventType.initiated = some State.submitted
state_by_event_type EventType.settled = some State.settled
state_by_event_type EventType.failed = some State.failed
state_by_event_type EventType.outcome_unknown = some State.unknown
state_by_event_type (EventType.other t) = none

abbrev pub field_of : Payload → Field → Option String
field_of p idempotency_key = p.idempotency_key
field_of p network = p.network
field_of p scheme = p.scheme

-- The loop over the required fields: the first that is missing is thrown.
unfoldable pub check_fields : EventType → Payload → List Field → Result EventError (Unit {0})
check_fields t p [] = ok tt
check_fields t p (f ∷ fs) =
    throw_if (not (is_some (field_of p f))) (missing_field t f) >> check_fields t p fs

unfoldable pub create_settlement_event : EventType → Payload → Result EventError Envelope
unfolding check_fields
create_settlement_event t p = elim (current_version t) [
  | none ↦ err (unknown_type t)
  | some v ↦
      check_fields t p (required_fields t)
      >> ok (record { event_type = t; event_version = v; payload = p })
]

unfoldable pub event_type_for_state : State → Result EventError EventType
event_type_for_state State.settled = ok EventType.settled
event_type_for_state State.failed = ok EventType.failed
event_type_for_state State.unknown = ok EventType.outcome_unknown
event_type_for_state State.submitted = err (unmapped_state State.submitted)

pub record Projection : Type 0 where
  pub idempotency_key : Option String
  pub network : String
  pub scheme : String
  pub payer : Option String
  pub pay_to : Option String
  pub asset : Option String
  pub amount : Option String
  pub state : State
  pub tx_hash : Option String
  pub error_reason : Option String
  pub error_message : Option String
  pub response : Option Response
  pub key_id : Option String
  pub created_at : ℕ
  pub updated_at : ℕ

abbrev pub created_of : Option Projection → ℕ → ℕ
created_of none t = t
created_of (some p) t = p.created_at

unfoldable pub initiate : Option Projection → Payload → ℕ → Projection
initiate previous p t = record {
  idempotency_key = p.idempotency_key;
  network = get_or p.network "";
  scheme = get_or p.scheme "";
  payer = p.payer;
  pay_to = p.pay_to;
  asset = p.asset;
  amount = p.amount;
  state = State.submitted;
  tx_hash = p.tx_hash;
  error_reason = none;
  error_message = none;
  response = none;
  key_id = p.key_id;
  created_at = created_of previous t;
  updated_at = t;
}

-- The aggregate that a terminal event with no Initiated event before it is applied to.
abbrev pub seed : Payload → ℕ → Projection
seed p t = record {
  idempotency_key = p.idempotency_key;
  network = "";
  scheme = "";
  payer = none;
  pay_to = none;
  asset = none;
  amount = none;
  state = State.submitted;
  tx_hash = none;
  error_reason = none;
  error_message = none;
  response = none;
  key_id = none;
  created_at = t;
  updated_at = t;
}

unfoldable pub terminate : Projection → State → Payload → ℕ → Projection
terminate base s p t = record base {
  state = s;
  tx_hash = or_else p.tx_hash base.tx_hash;
  error_reason = or_else p.error_reason base.error_reason;
  error_message = or_else p.error_message base.error_message;
  response = or_else p.response base.response;
  updated_at = t;
}

apply_known : Option Projection → EventType → State → Payload → ℕ → Projection
unfolding initiate terminate
apply_known previous EventType.initiated s p t = initiate previous p t
apply_known previous _ s p t = terminate (get_or previous (seed p t)) s p t

unfoldable pub apply_event : Option Projection → Event → Option Projection
unfolding apply_known
apply_event previous e = elim (state_by_event_type e.event_type) [
  | none ↦ previous
  | some s ↦ some (apply_known previous e.event_type s e.payload e.recorded_at)
]

-- The loop of `projectSettlement`, from any projection.
unfoldable pub project_from : Option Projection → List Event → Option Projection
project_from p [] = p
project_from p (e ∷ es) = project_from (apply_event p e) es

unfoldable pub project_settlement : List Event → Option Projection
unfolding project_from apply_event
project_settlement es = project_from none es
