-- ===== src/Settle/Overlap.antt =====
-- A retry that runs beside a first attempt which has timed out.
use x402_facilitator_stellar.Common.{
  ℕ, String, ◌≡◌, refl, ap, ◌∙◌, ◌≢◌, true, false, Option, none, some, [], ◌∷◌, arith, Result,
  eq_iff, eq_refl, get_or,
}
use x402_facilitator_stellar.Common.Dict
use x402_facilitator_stellar.Common.Dict.{Map}
use x402_facilitator_stellar.Idempotency
use x402_facilitator_stellar.Idempotency.{
  Entry, pending, completed, Claim, owned, replayed, conflict,
}
use x402_facilitator_stellar.Idempotency.Memory.{fail_releases}
use x402_facilitator_stellar.EventStore.{EventError, State, Projection, initiate}
use x402_facilitator_stellar.Settlement.{Store, Details, get, after, update_state}
use x402_facilitator_stellar.Settlement.Log.{ended}
use x402_facilitator_stellar.Settlement.Lifecycle.{get-after-update_state}
use x402_facilitator_stellar.Request.{Request, Digests, idempotency_key, store_key}
use x402_facilitator_stellar.Settle.{
  World, claim, settle_failed, error_reason, answer_from_record, caught_details, retryable_reasons,
}
use x402_facilitator_stellar.Settle.Replies.{held, held_record, get-held, owned_lem}
use x402_facilitator_stellar.Settle.System.{
  Running, System, arrives, times_out, admit, arrive, time_out, exec, exec_all,
}

-- What a time limit before the submission is recorded with.
abbrev limit_details : Request → String → Details
limit_details r message =
    caught_details (some (get_or r.payment.transaction "")) "request_timeout" message

abbrev limited :
    Digests → System → Request → String → ℕ → Result EventError (Store × Option Projection)
limited d s r message now =
    update_state s.world.store (store_key d r) State.failed (limit_details r message) now

exec_arrives :
    (d : Digests) (s : System) (id : String) (r : Request) (now : ℕ)
    → Dict.get id s.running ≡ none
    → (Idempotency.begin (idempotency_key d r) s.world.records).1 ≡ owned
    → ((exec d s (arrives id r now)).running
        ≡ Dict.set id (record { request = r; answered = false }) s.running)
      × ((exec d s (arrives id r now)).world.records
          ≡ (Idempotency.begin (idempotency_key d r) s.world.records).0)
      × ((exec d s (arrives id r now)).world.store ≡ (held d s.world r now).store)
unfolding exec arrive admit claim
exec_arrives d s id r now absent free = (ground arith, ground arith, ground arith)

exec_times_out_early :
    (d : Digests) (s : System) (id : String) (r : Request) (message : String) (now : ℕ)
    → Dict.get id s.running ≡ some (record { request = r; answered = false })
    → ((exec d s (times_out id false message now)).running
        ≡ Dict.set id (record { request = r; answered = true }) s.running)
      × ((exec d s (times_out id false message now)).world.records
          ≡ Idempotency.fail (idempotency_key d r) s.world.records)
      × ((exec d s (times_out id false message now)).world.store
          ≡ after s.world.store (limited d s r message now))
unfolding exec time_out settle_failed error_reason
exec_times_out_early d s id r message now present = (ground arith, ground arith, ground arith)

-- The record that a time limit leaves lets the same request through.
limited_unanswered :
    (d : Digests) (w : World) (r : Request) (message : String) (t u : ℕ) (s1 s2 : System)
    → s1.world.store ≡ (held d w r t).store
    → s2.world.store ≡ after s1.world.store (limited d s1 r message u)
    → answer_from_record (get s2.world.store (store_key d r)) r ≡ none
unfolding answer_from_record held_record initiate retryable_reasons
limited_unanswered d w r message t u s1 s2 claimed limit =
    let ended_at = ended (held_record d w r t) State.failed (limit_details r message) u in
    let stored : get s2.world.store (store_key d r) ≡ some ended_at =
      ap (λ st. get st (store_key d r))
        (limit
          ∙ ap
              (λ st.
                after st (update_state st (store_key d r) State.failed (limit_details r message) u))
              claimed)
      ∙ get-after-update_state (held d w r t).store (store_key d r) State.failed
          (limit_details r message) u (held_record d w r t) (store_key d r) (get-held d w r t)
          (λ e. cc)
      ∙ rw (eq_refl (store_key d r)) refl in
    rw stored (ground (arith, owned_lem ended_at r refl))

nothing : (k : String) → Dict.get {V = Running} k [] ≡ none
unfolding Dict.get
nothing k = refl

-- Where no distributed lock is configured, a time limit that ends before the transaction was
-- submitted gives the claim back and leaves a record that does not answer the request, while the
-- facilitator works on: the retry that the answer invites passes the check of the record and runs
-- beside the first attempt.
pub settle_overlaps :
    (d : Digests) (w : World) (r : Request) (i j message : String) (t u v : ℕ)
    → (Idempotency.begin (idempotency_key d r) w.records).1 ≡ owned
    → i ≢ j
    → let s =
        exec_all d
          (record { world = w; running = [] })
          (arrives i r t ∷ times_out i false message u ∷ arrives j r v ∷ []) in
      let timed_out =
        exec_all d
          (record { world = w; running = [] })
          (arrives i r t ∷ times_out i false message u ∷ []) in
      (answer_from_record (get timed_out.world.store (store_key d r)) r ≡ none)
      × (Dict.get i s.running ≡ some (record { request = r; answered = true }))
      × (Dict.get j s.running ≡ some (record { request = r; answered = false }))
unfolding exec_all
settle_overlaps d w r i j message t u v free apart =
    let s : System = record { world = w; running = [] } in
    let (run1, rec1, store1) = exec_arrives d s i r t (nothing i) free in
    let s1 = exec d s (arrives i r t) in
    let at1 : Dict.get i s1.running ≡ some fresh =
      rw run1 (rw (Dict.get-set i i fresh [], eq_refl i)) in
    let (run2, rec2, store2) = exec_times_out_early d s1 i r message u at1 in
    let s2 = exec d s1 (times_out i false message u) in
    let absent : Dict.get j s2.running ≡ none =
      rw (run2, Dict.get-set i j done s1.running, run1, Dict.get-set i j fresh [])
        (ground (arith, eq_iff i j, nothing j)) in
    let again : (Idempotency.begin (idempotency_key d r) s2.world.records).1 ≡ owned =
      rw (rec2, rec1) ((fail_releases (idempotency_key d r) w.records).0 free) in
    let (run3, rec3, store3) = exec_arrives d s2 j r v absent again in
    (
      limited_unanswered d w r message t u s1 s2 store1 store2,
      rw (run3, Dict.get-set j i fresh s2.running, run2, Dict.get-set i i done s1.running)
          (ground (arith, eq_iff j i, eq_refl i)),
      rw (run3, Dict.get-set j j fresh s2.running) (ground (arith, eq_refl j)),
    )
  where
    fresh : Running
    fresh = record { request = r; answered = false }

    done : Running
    done = record { request = r; answered = true }
