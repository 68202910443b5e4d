-- ===== src/Reconciliation/Tests.antt =====
-- The sweep at concrete inputs.
use x402_facilitator_stellar.Common.{
  str_ne, ℕ, String, ◌≡◌, refl, true, Option, none, some, if◌then◌else◌, or_else,
}
use x402_facilitator_stellar.EventStore.{State, Projection, project_settlement, project_from}
use x402_facilitator_stellar.Settlement.{Store, get, new, is_unknown}
use x402_facilitator_stellar.Settlement.Tests.{history}
use x402_facilitator_stellar.Settlement.Refinement.{status, run}
use x402_facilitator_stellar.Common.Dict
use x402_facilitator_stellar.Request.{Request, store_key, idempotency_key, derive_idempotency_key}
use x402_facilitator_stellar.Idempotency
use x402_facilitator_stellar.Settle.{
  sent, answer, answer_from_record, settle, throws, submitted_timeout,
}
use x402_facilitator_stellar.Settle.Tests.{digests, world, payment, request}
use x402_facilitator_stellar.Settle.Replies.{MaySettle}
use x402_facilitator_stellar.Reconciliation.{Answer, success, resolve, reconcile}
use x402_facilitator_stellar.Reconciliation.Resolution.{verdict_of, reconcile_lem}
use x402_facilitator_stellar.Reconciliation.Unresolved.{
  settle_unresolved, settle_confirmed_by_caller,
}

abbrev chain : String → String → Answer
chain url tx = success

abbrev hosts : String → Option String
hosts network = some "https://rpc"

reconcile_lem_example :
    let s = run new history in
    status (reconcile hosts chain s 9).0 "k" ≡ (
      if is_unknown (get s "k")
      then or_else (verdict_of hosts chain (get s "k")) (some State.unknown)
      else status s "k")
reconcile_lem_example = reconcile_lem hosts chain history 9 "k"

abbrev unnamed : Request
unnamed = record request { payment = record payment { transaction = none } }

abbrev named : Request
named = record request { payment = record payment { transaction = some "abc" } }

unnamed_fresh : MaySettle digests world unnamed 1
unfolding answer_from_record get project_settlement project_from store_key derive_idempotency_key
    Dict.get idempotency_key Idempotency.key_for Idempotency.begin
unnamed_fresh = record { unanswered = refl; unclaimed = refl }

named_fresh : MaySettle digests world named 1
unfolding answer_from_record get project_settlement project_from store_key derive_idempotency_key
    Dict.get idempotency_key Idempotency.key_for Idempotency.begin
named_fresh = record { unanswered = refl; unclaimed = refl }

settle_unresolved_example :
    let w' = (settle digests world true unnamed (throws submitted_timeout true "late") 1).0 in
    (p : Projection) × (get w'.store (store_key digests unnamed) ≡ some p)
    × (p.state ≡ State.unknown)
    × ((urls : String → Option String) (rpc : String → String → Answer) (s : Store) (later : ℕ)
        → resolve urls rpc s p later ≡ (s, 0))
settle_unresolved_example = settle_unresolved digests world unnamed 1 "late" unnamed_fresh refl

settle_confirmed_by_caller_example :
    let w' = (settle digests world true named (throws submitted_timeout true "late") 1).0 in
    (p : Projection) × (get w'.store (store_key digests named) ≡ some p)
    × (p.state ≡ State.unknown)
    × (answer_from_record (get (resolve hosts chain w'.store p 9).0 (store_key digests named)) named
        ≡ some (
            sent 200 (answer true (some "abc") (some "stellar:testnet") (some "GPAYER") none none)))
settle_confirmed_by_caller_example =
    settle_confirmed_by_caller digests world named 1 "late" hosts chain "https://rpc" "abc" 9
      named_fresh refl (str_ne "abc" "" refl) refl (str_ne "https://rpc" "" refl) refl
