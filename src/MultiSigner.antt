-- ===== src/MultiSigner.antt =====
-- Threshold co-signing of transactions (src/multi-signer.js). A call that throws may have marked the
-- envelope expired, so every call returns the engine with its result.
pub mod Soundness
pub mod Threshold
pub mod Tests
use x402_facilitator_stellar.Common.{
  str_append, str_ne, ℕ, zero, suc, ◌+◌, ◌-◌, ◌*◌, ◌/◌, ◌%◌, ◌^◌, ◌≤◌, ◌<◌, min, max, String, ◌≡◌,
  refl, sym, ap, ◌∙◌, ◌≢◌, ◌↔◌, ◌⊎◌, inl, inr, Bool, true, false, ◌&&◌, ◌||◌, not, Option, none,
  some, List, [], ◌∷◌, ◌++◌, map, arith, str_eq, eq_iff, eq_refl, ltb, leb, eqb, ltb→lt, lt→ltb,
  leb→le, le→leb, if◌then◌else◌, Bool-cases, Option-cases, get_or, or_else, is_some, length, take,
  drop, select, any, all, find, All, length-append, length-select-le, All-append, All-select,
  select-select, All-take, select-holds, nth, All-map, All-weaken, All-nth, any-append, any-map,
  any-select, any-weaken, any-map-with, take_all, length-take-le, length-select-not, Result, ok,
  err, ◌>>=◌, ◌>>◌, throw_if, >>=-eq-ok,
}
use x402_facilitator_stellar.Common.Dict
use x402_facilitator_stellar.Common.Dict.{Map}
use x402_facilitator_stellar.Common.Sort.{sort_by}
use Prim.Native.String.{compare}
use Prim.Native.Nat.{Ordering, lt, eq, gt}

pub data Status : Type 0 where
  pending complete expired : Status

pub record Envelope : Type 0 where
  pub id : String
  pub transaction_xdr : String
  pub threshold : ℕ
  pub required_signers : Option (List String)
  pub signatures : Map String
  pub created_at : ℕ
  pub expires_at : ℕ
  pub status : Status

-- The map of the envelopes, by their identifiers.
abbrev pub Engine : Type 0
Engine = Map Envelope

pub data Refusal : Type 0 where
  no_id no_transaction bad_threshold no_signers few_signers : Refusal
  unknown_envelope is_expired no_signer no_signature not_authorized too_few : Refusal

abbrev is_past : Envelope → ℕ → Bool
is_past e now = ltb e.expires_at now

abbrev pub is_over : Envelope → ℕ → Bool
is_over e now = elim e.status [ expired ↦ true | _ ↦ is_past e now ]

abbrev pub expire : Envelope → Envelope
expire e = record e { status = expired }

-- The refusal of an allow-list that is empty or shorter than the threshold.
abbrev pub check_signers : Option (List String) → ℕ → Result Refusal (Unit {0})
check_signers none t = ok tt
check_signers (some signers) t =
    throw_if (eqb (length signers) 0) no_signers >> throw_if (ltb (length signers) t) few_signers

unfoldable pub check_envelope :
    (id transaction_xdr : String)
    → (threshold : ℕ) → Option (List String)
    → Result Refusal (Unit {0})
check_envelope id xdr t required =
    throw_if (str_eq id "") no_id
    >> throw_if (str_eq xdr "") no_transaction
    >> throw_if (ltb t 1) bad_threshold
    >> check_signers required t

unfoldable pub create_envelope :
    Engine
    → (id transaction_xdr : String) → (threshold : ℕ) → (required : Option (List String))
    → (expires_in now : ℕ) → Engine × Result Refusal Envelope
create_envelope m id xdr t required ttl now =
    let e : Envelope = record {
      id = id;
      transaction_xdr = xdr;
      threshold = t;
      required_signers = required;
      signatures = [];
      created_at = now;
      expires_at = now + ttl;
      status = pending;
    } in
    elim (check_envelope id xdr t required) [
      | err r ↦ (m, err r)
      | ok done ↦ (Dict.set id e m, ok e)
    ]

abbrev pub collected : Envelope → ℕ
collected e = length e.signatures

abbrev pub is_full : Envelope → Bool
is_full e = leb e.threshold (collected e)

abbrev pub is_authorized : Option (List String) → String → Bool
is_authorized none signer = true
is_authorized (some signers) signer = any (str_eq signer) signers

-- A signature that is accepted; a signer that is there already is overwritten.
abbrev pub signed : Envelope → String → String → Envelope
signed e signer signature =
    let e' : Envelope = record e { signatures = Dict.set signer signature e.signatures } in
    if is_full e' then record e' { status = complete } else e'

unfoldable pub check_signature : Envelope → String → String → Result Refusal (Unit {0})
check_signature e signer signature =
    throw_if (str_eq signer "") no_signer
    >> throw_if (str_eq signature "") no_signature
    >> throw_if (not (is_authorized e.required_signers signer)) not_authorized

unfoldable pub add_signature :
    Engine → (id signer signature : String) → (now : ℕ) → Engine × Result Refusal Envelope
add_signature m id signer signature now = elim (Dict.get id m) [
  | none ↦ (m, err unknown_envelope)
  | some e ↦
      if is_over e now
      then (Dict.set id (expire e) m, err is_expired)
      else elim (check_signature e signer signature) [
        | err r ↦ (m, err r)
        | ok done ↦ (Dict.set id (signed e signer signature) m, ok (signed e signer signature))
      ]
]

unfoldable pub is_complete : Engine → (id : String) → (now : ℕ) → Engine × Bool
is_complete m id now = elim (Dict.get id m) [
  | none ↦ (m, false)
  | some e ↦ if is_over e now then (Dict.set id (expire e) m, false) else (m, is_full e)
]

pub record Assembled : Type 0 where
  pub envelope_id : String
  pub transaction_xdr : String
  pub threshold : ℕ
  pub signatures : List (String × String)

-- `a < b ? -1 : a > b ? 1 : 0` is at most 0.
abbrev pub by_signer : String × String → String × String → Bool
by_signer a b = elim (compare a.0 b.0) [ lt ↦ true | eq ↦ true | gt ↦ false ]

abbrev pub assembled : Envelope → Assembled
assembled e = record {
  envelope_id = e.id;
  transaction_xdr = e.transaction_xdr;
  threshold = e.threshold;
  signatures = sort_by by_signer e.signatures;
}

unfoldable pub assemble_envelope :
    Engine → (id : String) → (now : ℕ) → Engine × Result Refusal Assembled
assemble_envelope m id now = elim (Dict.get id m) [
  | none ↦ (m, err unknown_envelope)
  | some e ↦
      if is_over e now
      then (Dict.set id (expire e) m, err is_expired)
      else if not (is_full e)
      then (m, err too_few)
      else (Dict.set id (record e { status = complete }) m, ok (assembled e))
]

abbrev pub is_lapsed : ℕ → Envelope → Bool
is_lapsed now e = elim e.status [ pending ↦ is_past e now | _ ↦ false ]

abbrev pub lapse : ℕ → String × Envelope → String × Envelope
lapse now (k, e) = (k, if is_lapsed now e then expire e else e)

unfoldable pub purge_expired : Engine → (now : ℕ) → Engine × ℕ
purge_expired m now =
    (map (lapse now) m, length (select (λ (e : String × Envelope). is_lapsed now e.1) m))

abbrev pub is_pending : Envelope → Bool
is_pending e = elim e.status [ pending ↦ true | _ ↦ false ]

unfoldable pub list_pending : Engine → (now : ℕ) → Engine × List Envelope
list_pending m now =
    let purged = (purge_expired m now).0 in (purged, select is_pending (Dict.values purged))

-- What an endpoint replies, in the order in which the replies come, with the time of each.
pub data Reply : Type 0 where
  fails missing : Reply
  signs : (signer signature : String) → Reply

abbrev pub is_ok : {A : Type 0} → Result Refusal A → Bool
is_ok (ok a) = true
is_ok (err r) = false

abbrev pub take_reply : Engine → String → Reply → ℕ → Engine × Bool
take_reply m id fails now = (m, false)
take_reply m id missing now = (m, false)
take_reply m id (signs signer signature) now =
    if str_eq signer "" || str_eq signature ""
    then (m, false)
    else let r = add_signature m id signer signature now in (r.0, is_ok r.1)

unfoldable pub take_replies : Engine → String → List (Reply × ℕ) → Engine × List Bool
take_replies m id [] = (m, [])
take_replies m id ((r, now) ∷ rs) =
    let first = take_reply m id r now in
    let rest = take_replies first.0 id rs in (rest.0, first.1 ∷ rest.1)

-- The check that comes before the endpoints are asked.
unfoldable pub ask : Engine → (id : String) → (now : ℕ) → Engine × Result Refusal String
ask m id now = elim (Dict.get id m) [
  | none ↦ (m, err unknown_envelope)
  | some e ↦
      if is_over e now
      then (Dict.set id (expire e) m, err is_expired)
      else (m, ok e.transaction_xdr)
]
