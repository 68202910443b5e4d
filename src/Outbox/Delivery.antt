-- ===== src/Outbox/Delivery.antt =====
-- At least once: whatever workers do and wherever they stop, no event of the outbox is lost.
use x402_facilitator_stellar.Common.{
  ℕ, String, ◌≡◌, refl, ◌∙◌, inl, inr, Bool, true, false, ◌&&◌, List, [], ◌∷◌, ◌++◌, arith, eq_refl,
  Option-cases, any, All, nth, All-weaken, any-append, any-map,
}
use x402_facilitator_stellar.Outbox.{
  Row, World, Attempt, accepted, refused, unrecorded, insert_event, claim_batch, new_row,
  mark_published, mark_failed, give_up, deliver,
}
use x402_facilitator_stellar.Outbox.System.{
  System, Step, inserts, claims, delivers, inserted, claimed_by, delivered, step, run, is_accounted,
  has_event, new,
}
use x402_facilitator_stellar.Outbox.Safety.{run-IsSafe}

abbrev has : String → System → Bool
has e s = any (has_event e) s.world.table.rows

deliver-has :
    (max_attempts : ℕ) (r : Row) (a : Attempt) (e : String) (w : World)
    → any (has_event e) (deliver max_attempts r a w).table.rows ≡ any (has_event e) w.table.rows
unfolding deliver give_up mark_published mark_failed
deliver-has max_attempts r accepted e w = any-map (has_event e) _ w.table.rows (λ x. ground arith)
deliver-has max_attempts r (refused error true) e w = refl
deliver-has max_attempts r (unrecorded error true) e w = refl
deliver-has max_attempts r (refused error false) e w =
    any-map (has_event e) _ w.table.rows (λ x. ground arith)
deliver-has max_attempts r (unrecorded error false) e w =
    any-map (has_event e) _ w.table.rows (λ x. ground arith)

step-has :
    (max_attempts : ℕ) (e : String) (s : System) (x : Step)
    → has e s ≡ true
    → has e (step max_attempts s x) ≡ true
unfolding step inserted insert_event claimed_by claim_batch delivered
step-has max_attempts e s (inserts f type payload now) h = ground (
  arith,
  any-append (has_event e) s.world.table.rows
      (new_row s.world.table.next_id f type payload now ∷ []),
)
step-has max_attempts e s (claims limit lease now) h =
    any-map (has_event e) _ s.world.table.rows (λ x. ground arith) ∙ h
step-has max_attempts e s (delivers n a) h = elim (Option-cases (nth n s.held)) [
  | inl nobody ↦ rw (nobody, step) h
  | inr (r, holds) ↦ rw (holds, step) (deliver-has max_attempts r a e s.world ∙ h)
]

run-has :
    (max_attempts : ℕ) (e : String) (s : System) (xs : List Step)
    → has e s ≡ true
    → has e (run max_attempts s xs) ≡ true
unfolding run
run-has max_attempts e s [] h = h
run-has max_attempts e s (x ∷ xs) h =
    run-has max_attempts e (step max_attempts s x) xs (step-has max_attempts e s x h)

run-append :
    (max_attempts : ℕ) (s : System) (xs ys : List Step)
    → run max_attempts s (xs ++ ys) ≡ run max_attempts (run max_attempts s xs) ys
unfolding run
run-append max_attempts s [] ys = refl
run-append max_attempts s (x ∷ xs) ys = run-append max_attempts (step max_attempts s x) xs ys

found :
    (max_attempts : ℕ) (e : String) (sent : List String) (rows : List Row)
    → All (λ r. is_accounted max_attempts sent r ≡ true) rows
    → any (has_event e) rows ≡ true
    → any (λ r. has_event e r && is_accounted max_attempts sent r) rows ≡ true
found max_attempts e sent [] h k = k
found max_attempts e sent (r ∷ rows) h k = ground (arith, h.0, found max_attempts e sent rows h.1)

inserted-has :
    (e type payload : String) (now : ℕ) (s : System) → has e (inserted e type payload now s) ≡ true
unfolding inserted insert_event
inserted-has e type payload now s = ground (
  arith,
  any-append (has_event e) s.world.table.rows
      (new_row s.world.table.next_id e type payload now ∷ []),
  eq_refl e,
)

-- At least once: after an event was inserted, whatever workers do before and after, with crashes,
-- refusals and lost marks, the table has a row of the event that waits for a worker, or was sent
-- (and is marked so), or has failed as many times as are allowed.
pub outbox_keeps :
    (max_attempts : ℕ) (before after : List Step) (e type payload : String) (now : ℕ)
    → let s = run max_attempts new (before ++ inserts e type payload now ∷ after) in
      any (λ r. has_event e r && is_accounted max_attempts s.world.sent r) s.world.table.rows ≡ true
unfolding step run
outbox_keeps max_attempts before after e type payload now =
    let steps = before ++ inserts e type payload now ∷ after in
    let there = run max_attempts new before in
    let (name, safe) =
      run-IsSafe max_attempts (λ i. "") new steps (record { rows = tt; held = tt }) in
    found max_attempts e _ _ (All-weaken _ _ _ (λ r h. h.1) safe.rows) (
      rw (run-append max_attempts new before (inserts e type payload now ∷ after)) (
        run-has max_attempts e (inserted e type payload now there) after
          (inserted-has e type payload now there)))
