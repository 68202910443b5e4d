-- ===== src/Reconciliation/Resolution.antt =====
-- What a sweep makes of the settlements (src/store/reconciliation.js).
use x402_facilitator_stellar.Common.{
  ℕ, String, ◌≡◌, refl, ap, ◌∙◌, inl, inr, Bool, true, ◌&&◌, Option, none, some, List, [], ◌∷◌,
  arith, str_eq, eq_iff, if◌then◌else◌, Bool-cases, Option-cases, get_or, or_else, is_some, any,
  All, All-weaken, Result, ok, err, ◌>>=◌,
}
use x402_facilitator_stellar.Common.Dict
use x402_facilitator_stellar.EventStore.{EventError, State, Projection, project_settlement}
use x402_facilitator_stellar.EventStore.Fold.{named_from}
use x402_facilitator_stellar.Settlement.{
  Store, Enqueued, get, stream, new, is_unknown, list_unknown, unknown_of, update_state, after,
  settle_and_enqueue,
}
use x402_facilitator_stellar.Settlement.Audit.{run-new-IsLog}
use x402_facilitator_stellar.Settlement.Refinement.{
  Op, status, step, run, spec_step, status-step, IsLive, step-IsLive, run-IsLive, new-IsLive,
}
use x402_facilitator_stellar.Reconciliation.{
  counted, Answer, success, failed, other, unreachable, question, rpc_url, testnet, details, key_of,
  act, resolve, resolve_all, reconcile,
}

-- The final state that an answer stands for.
abbrev pub final_state : Answer → Option State
final_state success = some State.settled
final_state failed = some State.failed
final_state other = none
final_state unreachable = none

-- The host of a network: the configured one, where it is no empty text, and without a
-- configured one the public host of the test network.
abbrev pub host_of : (urls : String → Option String) → (network : String) → Option String
host_of urls network = elim (urls network) [
  | some url ↦ if str_eq url "" then none else some url
  | none ↦
      if str_eq network "stellar:testnet" then some "https://soroban-testnet.stellar.org" else none
]

-- What a host says of a transaction, where both are there.
abbrev pub said_of :
    (rpc : String → String → Answer) → (transaction host : Option String) → Option State
said_of rpc (some hash) (some url) = if str_eq hash "" then none else final_state (rpc url hash)
said_of rpc _ _ = none

-- What the chain says of a record: the host of its network, of its transaction.
abbrev pub verdict :
    (urls : String → Option String) → (rpc : String → String → Answer) → Projection → Option State
verdict urls rpc p = said_of rpc p.tx_hash (host_of urls p.network)

-- What the code asks, and of whom, is what the verdict is about.
asked :
    (urls : String → Option String) (rpc : String → String → Answer) (p : Projection)
    → verdict urls rpc p
      ≡ elim (question urls p) [ none ↦ none | some (url, hash) ↦ final_state (rpc url hash) ]
unfolding question rpc_url
asked urls rpc p = elim (Option-cases p.tx_hash) [
  | inl no_hash ↦ rw no_hash refl
  | inr (hash, e) ↦ elim (Bool-cases (str_eq hash "")) [
    | inl empty ↦ elim (Option-cases (host_of urls p.network)) [
      | inl no_host ↦ rw (e, empty, no_host) refl
      | inr (url, f) ↦ rw (e, empty, f, empty) refl
    ]
    | inr set ↦ elim (Option-cases (urls p.network)) [
      | inl no_url ↦ elim (Bool-cases (str_eq p.network testnet)) [
        | inl test ↦
            let host : host_of urls p.network ≡ some "https://soroban-testnet.stellar.org" =
              rw (host_of, no_url, test) refl in
            rw (e, set, no_url, test, host) (rw set refl)
        | inr public ↦
            let host : host_of urls p.network ≡ none = rw (host_of, no_url, public) refl in
            rw (e, set, no_url, public, host) refl
      ]
      | inr (url, f) ↦ elim (Bool-cases (str_eq url "")) [
        | inl blank ↦
            let host : host_of urls p.network ≡ none = rw (host_of, f, blank) refl in
            rw (e, set, f, blank, host) refl
        | inr given ↦
            let host : host_of urls p.network ≡ some url = rw (host_of, f, given) refl in
            rw (e, set, f, given, host) (rw set refl)
      ]
    ]
  ]
]

-- A call that throws leaves the store as it was.
pub counted-after :
    {A : Type 0} (s : Store) (r : Result EventError (Store × A)) → (counted s r).0 ≡ after s r
counted-after s (ok x) = refl
counted-after s (err e) = refl

counted-settles :
    {A : Type 0} (s : Store) (r : Result EventError (Store × A)) (note : Store × A → Enqueued)
    → (counted s (r >>= λ x. ok (x.0, note x))).0 ≡ after s r
counted-settles s (ok x) note = refl
counted-settles s (err e) note = refl

abbrev op_of : Projection → Answer → ℕ → Op
op_of p failed now =
    Op.updates (key_of p) State.failed
      (details p (some "transaction_failed") (some "Transaction failed on chain")) now
op_of p _ now = Op.updates (key_of p) State.settled (details p none none) now

act-step :
    (s : Store) (p : Projection) (a : Answer) (now : ℕ)
    → (act s p a now).0 ≡ (if is_some (final_state a) then step s (op_of p a now) else s)
unfolding act settle_and_enqueue step
act-step s p success now =
    counted-settles s (update_state s (key_of p) State.settled (details p none none) now) _
act-step s p failed now = counted-after s (
    update_state s (key_of p) State.failed
      (details p (some "transaction_failed") (some "Transaction failed on chain")) now)
act-step s p other now = refl
act-step s p unreachable now = refl

act_lem :
    (s : Store) (p : Projection) (a : Answer) (now : ℕ) (j : String)
    → IsLive s
    → is_some (get s (key_of p)) ≡ true
    → (status (act s p a now).0 j
        ≡ (if str_eq (key_of p) j then or_else (final_state a) (status s j) else status s j))
      × IsLive (act s p a now).0
unfolding spec_step
act_lem s p success now j live there = rw (act-step s p success now) (
  ground (arith, status-step s (op_of p success now) live j, eq_iff (key_of p) j, there),
  step-IsLive s (op_of p success now) live,
)
act_lem s p failed now j live there = rw (act-step s p failed now) (
  ground (arith, status-step s (op_of p failed now) live j, eq_iff (key_of p) j, there),
  step-IsLive s (op_of p failed now) live,
)
act_lem s p other now j live there = rw (act-step s p other now) (ground arith, live)
act_lem s p unreachable now j live there = rw (act-step s p unreachable now) (ground arith, live)

resolve_lem :
    (urls : String → Option String) (rpc : String → String → Answer) (s : Store) (p : Projection)
    (now : ℕ) (j : String)
    → IsLive s
    → is_some (get s (key_of p)) ≡ true
    → (status (resolve urls rpc s p now).0 j
        ≡ (if str_eq (key_of p) j then or_else (verdict urls rpc p) (status s j) else status s j))
      × IsLive (resolve urls rpc s p now).0
unfolding resolve
resolve_lem urls rpc s p now j live there = elim (Option-cases (question urls p)) [
  | inl e ↦
      let said : verdict urls rpc p ≡ none = asked urls rpc p ∙ rw e refl in
      rw (resolve, said, e) (ground arith, live)
  | inr ((url, hash), e) ↦
      let said : verdict urls rpc p ≡ final_state (rpc url hash) = asked urls rpc p ∙ rw e refl in
      rw (resolve, said, e) (act_lem s p (rpc url hash) now j live there)
]

-- The record of the settlement that the sweep began with.
abbrev IsFrom : Store → Projection → Type 0
IsFrom s p = get s (key_of p) ≡ some p

abbrev names : String → Projection → Bool
names j p = str_eq (key_of p) j

abbrev pub verdict_of :
    (urls : String → Option String)
    → (rpc : String → String → Answer) → Option Projection
    → Option State
verdict_of urls rpc none = none
verdict_of urls rpc (some p) = verdict urls rpc p

still :
    (s s' : Store) (k : String) (named : Bool) (v : Option State)
    → status s' k ≡ (if named then or_else v (status s k) else status s k)
    → is_some (get s k) ≡ true
    → is_some (get s' k) ≡ true
still s s' k named v h known = ground (arith, h, known)

resolve_all_lem :
    (urls : String → Option String) (rpc : String → String → Answer) (before s : Store)
    (ps : List Projection) (now : ℕ) (j : String)
    → IsLive s
    → All (IsFrom before) ps
    → ((k : String) → is_some (get before k) ≡ true → is_some (get s k) ≡ true)
    → status (resolve_all urls rpc s ps now).0 j ≡ (
        if any (names j) ps
        then or_else (verdict_of urls rpc (get before j)) (status s j)
        else status s j)
unfolding resolve_all
resolve_all_lem urls rpc before s [] now j live from kept = refl
resolve_all_lem urls rpc before s (p ∷ ps) now j live from kept =
    let s' = (resolve urls rpc s p now).0 in
    let there = kept (key_of p) (rw from.0 refl) in
    let (moved, live') = resolve_lem urls rpc s p now j live there in
    let rest = resolve_all_lem urls rpc before s' ps now j live' from.1 (λ k known.
      still s s' k (str_eq (key_of p) k) (verdict urls rpc p)
        (resolve_lem urls rpc s p now k live there).0 (kept k known)) in
    ground (arith, moved, rest, from.0, eq_iff (key_of p) j)

-- The projection of each key carries that key.
abbrev IsNamed : Store → Type 0
IsNamed s = (k : String) (p : Projection) → get s k ≡ some p → p.idempotency_key ≡ some k

key-IsFrom : (s : Store) (k : String) (p : Projection) → IsNamed s → get s k ≡ some p → IsFrom s p
key-IsFrom s k p named e = ap (λ key. get s (get_or key "")) (named k p e) ∙ e

unknown_of-none :
    (s : Store) (k : String) (ks : List String)
    → get s k ≡ none
    → unknown_of s (k ∷ ks) ≡ unknown_of s ks
unfolding unknown_of get
unknown_of-none s k ks e = rw (unknown_of, e) refl

unknown_of-some :
    (s : Store) (k : String) (ks : List String) (p : Projection)
    → get s k ≡ some p
    → unknown_of s (k ∷ ks) ≡ (if is_unknown (some p) then p ∷ unknown_of s ks else unknown_of s ks)
unfolding unknown_of get
unknown_of-some s k ks p e = rw (unknown_of, e) refl

unknown_of-IsFrom : (s : Store) (ks : List String) → IsNamed s → All (IsFrom s) (unknown_of s ks)
unfolding unknown_of
unknown_of-IsFrom s [] named = tt
unknown_of-IsFrom s (k ∷ ks) named =
    let rest = unknown_of-IsFrom s ks named in
    elim (Option-cases (get s k)) [
      | inl e ↦ rw (unknown_of-none s k ks e) rest
      | inr (p, e) ↦ elim (Bool-cases (is_unknown (some p))) [
        | inl u ↦ rw (unknown_of-some s k ks p e, u) (key-IsFrom s k p named e, rest)
        | inr u ↦ rw (unknown_of-some s k ks p e, u) rest
      ]
    ]

any-unknown_of :
    (s : Store) (ks : List String) (j : String)
    → IsNamed s
    → any (names j) (unknown_of s ks) ≡ (any (λ k. str_eq k j) ks && is_unknown (get s j))
unfolding unknown_of
any-unknown_of s [] j named = refl
any-unknown_of s (k ∷ ks) j named = elim (Option-cases (get s k)) [
  | inl e ↦ ground (arith, e, unknown_of-none s k ks e, eq_iff k j, any-unknown_of s ks j named)
  | inr (p, e) ↦
      ground
        (arith, e, unknown_of-some s k ks p e, named k p e, eq_iff k j, any-unknown_of s ks j named)
]

any-keys :
    {V : Type 0} (j : String) (m : Dict.Map V)
    → any (λ k. str_eq k j) (Dict.keys m) ≡ is_some (Dict.get j m)
unfolding Dict.get
any-keys j [] = refl
any-keys j ((k, v) ∷ m) = ground (arith, any-keys j m)

run-IsNamed : (os : List Op) → IsNamed (run new os)
unfolding get project_settlement
run-IsNamed os k p e =
    named_from k none (stream (run new os) k) (All-weaken _ _ _ (λ x h. h.0) (run-new-IsLog os k).1)
      (λ q h. cc) p e

-- After any history of calls, a sweep moves each settlement whose outcome is unknown to the state
-- that the host of its network gives for its recorded transaction, if it gives a final one, and
-- leaves the state of every other settlement as it is. The host is the configured one, and for the
-- test network without one the public one; a record with no transaction or an empty one, or of a
-- network without a host, stays unknown.
pub reconcile_lem :
    (urls : String → Option String) (rpc : String → String → Answer) (os : List Op) (now : ℕ)
    (k : String)
    → let s = run new os in
      status (reconcile urls rpc s now).0 k ≡ (
        if is_unknown (get s k)
        then or_else (verdict_of urls rpc (get s k)) (some State.unknown)
        else status s k)
unfolding reconcile list_unknown
reconcile_lem urls rpc os now k =
    let s = run new os in
    let live = run-IsLive new os new-IsLive in
    let named = run-IsNamed os in
    let keys = Dict.keys s.events in
    let swept =
      resolve_all_lem urls rpc s s (unknown_of s keys) now k live (unknown_of-IsFrom s keys named)
        (λ j there. there) in
    ground (arith, swept, any-unknown_of s keys k named, any-keys k s.events, live k)
