-- ===== src/Reconciliation.antt =====
-- The sweep that resolves settlements whose outcome is unknown, over the memory store
-- (src/store/reconciliation.js, src/store/memory.js).
pub mod Resolution
pub mod Unresolved
pub mod Tests
use x402_facilitator_stellar.Common.{
  Result, ok, err, str_append, str_ne, ℕ, zero, suc, ◌+◌, ◌-◌, ◌*◌, ◌/◌, ◌%◌, ◌^◌, ◌≤◌, ◌<◌, min,
  max, String, ◌≡◌, refl, sym, ap, ◌∙◌, ◌≢◌, ◌↔◌, ◌⊎◌, inl, inr, Bool, true, false, ◌&&◌, ◌||◌, not,
  Option, none, some, List, [], ◌∷◌, ◌++◌, map, arith, str_eq, eq_iff, eq_refl, ltb, leb, eqb,
  ltb→lt, lt→ltb, leb→le, le→leb, if◌then◌else◌, Bool-cases, Option-cases, get_or, or_else, is_some,
  length, take, drop, select, any, all, find, All, length-append, length-select-le, All-append,
  All-select, select-select, All-take, select-holds, nth, All-map, All-weaken, All-nth, any-append,
  any-map, any-select, any-weaken, any-map-with, take_all, length-take-le, length-select-not,
  Result, ok, err, ◌>>=◌, ◌>>◌, throw_if, >>=-eq-ok,
}
use x402_facilitator_stellar.EventStore.{EventError, State, Projection}
use x402_facilitator_stellar.Settlement.{
  Store, Details, Notification, update_state, settle_and_enqueue, list_unknown, after,
}

-- What the call of the RPC gives: the status of the transaction, where `other` is any status that
-- is not final, or an error.
pub data Answer : Type 0 where
  success failed other unreachable : Answer

-- A text that is truthy.
abbrev pub set_text : Option String → Option String
set_text none = none
set_text (some s) = if str_eq s "" then none else some s

abbrev pub testnet : String
testnet = "stellar:testnet"

-- `urls` has the configured URL of each network.
unfoldable pub rpc_url : (urls : String → Option String) → (network : String) → Option String
rpc_url urls network = set_text (
    or_else (urls network)
      (if str_eq network testnet then some "https://soroban-testnet.stellar.org" else none))

-- The transaction to ask about and the host to ask, unless the record is skipped.
unfoldable pub question : (urls : String → Option String) → Projection → Option (String × String)
question urls p = elim (set_text p.tx_hash) [
  | none ↦ none
  | some hash ↦ elim (rpc_url urls p.network) [ none ↦ none | some url ↦ some (url, hash) ]
]

abbrev pub details : Projection → (reason message : Option String) → Details
details p reason message = record {
  tx_hash = p.tx_hash;
  error_reason = reason;
  error_message = message;
  response = none;
}

abbrev pub notification : Projection → Notification
notification p = record {
  transaction = p.tx_hash;
  network = some p.network;
  payer = p.payer;
  pay_to = p.pay_to;
  amount = p.amount;
  asset = p.asset;
}

abbrev pub key_of : Projection → String
key_of p = get_or p.idempotency_key ""

-- The store after a call and the count; an error of the store is caught with those of the RPC.
abbrev pub counted : {A : Type 0} → Store → Result EventError (Store × A) → Store × ℕ
counted s (ok done) = (done.0, 1)
counted s (err e) = (s, 0)

unfoldable pub act : Store → Projection → Answer → (now : ℕ) → Store × ℕ
act s p success now =
    counted s (settle_and_enqueue s (key_of p) (details p none none) (some (notification p)) now)
act s p failed now = counted s (
    update_state s (key_of p) State.failed
      (details p (some "transaction_failed") (some "Transaction failed on chain")) now)
act s p other now = (s, 0)
act s p unreachable now = (s, 0)

unfoldable pub resolve :
    (urls : String → Option String)
    → (rpc : String → String → Answer) → Store
    → Projection
    → (now : ℕ) → Store × ℕ
resolve urls rpc s p now = elim (question urls p) [
  | none ↦ (s, 0)
  | some (url, hash) ↦ act s p (rpc url hash) now
]

-- The loop over the records that were unknown when the sweep began.
unfoldable pub resolve_all :
    (urls : String → Option String)
    → (rpc : String → String → Answer) → Store
    → List Projection
    → (now : ℕ) → Store × ℕ
resolve_all urls rpc s [] now = (s, 0)
resolve_all urls rpc s (p ∷ ps) now =
    let r = resolve urls rpc s p now in
    let rest = resolve_all urls rpc r.0 ps now in (rest.0, r.1 + rest.1)

unfoldable pub reconcile :
    (urls : String → Option String)
    → (rpc : String → String → Answer) → Store
    → (now : ℕ) → Store × ℕ
reconcile urls rpc s now = resolve_all urls rpc s (list_unknown s) now
