-- ===== src/Outbox/Safety.antt =====
-- Every row of the outbox is accounted for after any sequence of steps.
use x402_facilitator_stellar.Common.{
  ℕ, suc, ◌<◌, String, ◌≡◌, inl, inr, Bool, true, false, List, [], ◌∷◌, ◌++◌, arith, str_eq, eq_iff,
  eqb, if◌then◌else◌, Bool-cases, Option-cases, any, All, All-append, All-select, All-take, nth,
  All-map, All-weaken, All-nth, any-append,
}
use x402_facilitator_stellar.Common.Sort.{All-sort_by}
use x402_facilitator_stellar.Outbox.{
  Row, World, Attempt, accepted, refused, unrecorded, insert_event, is_claimable, older, due,
  claim_in, claim_batch, new_row, mark_published, mark_failed, give_up, deliver, send,
}
use x402_facilitator_stellar.Outbox.System.{
  System, Step, inserts, claims, delivers, inserted, claimed_by, delivered, step, run, is_accounted,
}

module _ (max_attempts : ℕ) (name : ℕ → String) where
  -- `name` gives the event of each identifier that was handed out.
  abbrev pub IsNamed : (next : ℕ) → Row → Type 0
  IsNamed next r = (r.id < next) × (r.event_id ≡ name r.id)

  abbrev pub IsGood : World → Row → Type 0
  IsGood w r = IsNamed w.table.next_id r × (is_accounted max_attempts w.sent r ≡ true)

  pub record IsSafe (s : System) : Type 0 where
    pub rows : All (IsGood s.world) s.world.table.rows
    pub held : All (IsNamed s.world.table.next_id) s.held

  All-due :
      (P : Row → Type 0) (limit lease now : ℕ) (rows : List Row)
      → All P rows
      → All P (due limit lease now rows)
  unfolding due
  All-due P limit lease now rows h =
      All-take P limit _ (All-sort_by older P _ (All-select P (is_claimable lease now) rows h))

  claimed-IsSafe :
      (limit lease now : ℕ) (s : System) → IsSafe s → IsSafe (claimed_by limit lease now s)
  unfolding claimed_by claim_batch
  claimed-IsSafe limit lease now s safe =
      let chosen = due limit lease now s.world.table.rows in
      record {
        rows =
            All-map (IsGood s.world) (IsGood s.world) (claim_in now chosen) s.world.table.rows
              (λ r h. ground (arith, h)) safe.rows;
        held = All-append (IsNamed s.world.table.next_id) s.held chosen safe.held (
            All-due (IsNamed s.world.table.next_id) limit lease now s.world.table.rows
              (All-weaken (IsGood s.world) _ s.world.table.rows (λ r h. h.0) safe.rows));
      }

  -- What a delivery keeps of the table, and of every row that a worker holds.
  abbrev Keeps : World → World → Type 0
  Keeps w w' =
      All (IsGood w') w'.table.rows
      × ((x : Row) → IsNamed w.table.next_id x → IsNamed w'.table.next_id x)

  give_up-Keeps :
      (r : Row) (error : String) (unmarked : Bool) (w : World)
      → All (IsGood w) w.table.rows
      → Keeps w (give_up max_attempts r error unmarked w)
  unfolding give_up mark_failed
  give_up-Keeps r error true w h = (h, λ x k. k)
  give_up-Keeps r error false w h =
      (All-map (IsGood w) _ _ w.table.rows (λ x k. ground (arith, k)) h, λ x k. k)

  send-IsGood :
      (r : Row) (w : World) → All (IsGood w) w.table.rows → All (IsGood (send r w)) w.table.rows
  send-IsGood r w h =
      All-weaken (IsGood w) _ w.table.rows
        (λ x k. ground (arith, k, any-append (str_eq x.event_id) w.sent (r.event_id ∷ []))) h

  deliver-Keeps :
      (r : Row) (a : Attempt) (w : World)
      → IsNamed w.table.next_id r
      → All (IsGood w) w.table.rows
      → Keeps w (deliver max_attempts r a w)
  unfolding deliver mark_published
  deliver-Keeps r accepted w named h = (
    All-map (IsGood w) _ _ w.table.rows
        (λ x k. ground (
          arith,
          k,
          named,
          any-append (str_eq x.event_id) w.sent (r.event_id ∷ []),
          eq_iff x.event_id r.event_id,
        ))
        h,
    λ x k. k,
  )
  deliver-Keeps r (refused error unmarked) w named h = give_up-Keeps r error unmarked w h
  deliver-Keeps r (unrecorded error unmarked) w named h =
      give_up-Keeps r error unmarked (send r w) (send-IsGood r w h)

  delivered-IsSafe :
      (r : Row) (a : Attempt) (s : System)
      → IsNamed s.world.table.next_id r
      → IsSafe s
      → IsSafe (delivered max_attempts r a s)
  unfolding delivered
  delivered-IsSafe r a s named safe =
      let (rows, still) = deliver-Keeps r a s.world named safe.rows in
      record { rows = rows; held = All-weaken _ _ s.held still safe.held }

-- The names after an event was inserted under `next`.
abbrev named_too : (next : ℕ) → String → (ℕ → String) → ℕ → String
named_too next e name i = if eqb i next then e else name i

abbrev added : String → String → String → ℕ → System → System
added e type payload now s =
    let t = s.world.table in
    record s {
      world = record (s.world) {
        table = record {
          rows = t.rows ++ new_row t.next_id e type payload now ∷ [];
          next_id = suc t.next_id;
        };
      };
    }

added-IsSafe :
    (max_attempts : ℕ) (name : ℕ → String) (e type payload : String) (now : ℕ) (s : System)
    → IsSafe max_attempts name s
    → IsSafe max_attempts (named_too s.world.table.next_id e name) (added e type payload now s)
added-IsSafe max_attempts name e type payload now s safe = record {
  rows =
      All-append _ s.world.table.rows _
        (All-weaken _ _ s.world.table.rows (λ r h. ground (arith, h)) safe.rows) (ground arith, tt);
  held = All-weaken _ _ s.held (λ r h. ground (arith, h)) safe.held;
}

inserted-IsSafe :
    (max_attempts : ℕ) (name : ℕ → String) (e type payload : String) (now : ℕ) (s : System)
    → IsSafe max_attempts name s
    → (name' : ℕ → String) × IsSafe max_attempts name' (inserted e type payload now s)
unfolding inserted insert_event
inserted-IsSafe max_attempts name e type payload now s safe =
    elim (Bool-cases (any (λ (r : Row). str_eq r.event_id e) s.world.table.rows)) [
      | inl there ↦ (name, rw (there, inserted, insert_event) safe)
      | inr fresh ↦ (
        named_too s.world.table.next_id e name,
        rw (fresh, inserted, insert_event)
            (added-IsSafe max_attempts name e type payload now s safe),
      )
    ]

step-IsSafe :
    (max_attempts : ℕ) (name : ℕ → String) (s : System) (x : Step)
    → IsSafe max_attempts name s
    → (name' : ℕ → String) × IsSafe max_attempts name' (step max_attempts s x)
unfolding step
step-IsSafe max_attempts name s (inserts e type payload now) safe =
    inserted-IsSafe max_attempts name e type payload now s safe
step-IsSafe max_attempts name s (claims limit lease now) safe =
    (name, claimed-IsSafe max_attempts name limit lease now s safe)
step-IsSafe max_attempts name s (delivers n a) safe = elim (Option-cases (nth n s.held)) [
  | inl nobody ↦ (name, rw (nobody, step) safe)
  | inr (r, holds) ↦ (
    name,
    rw (holds, step)
        (delivered-IsSafe max_attempts name r a s (All-nth _ n s.held r safe.held holds) safe),
  )
]

pub run-IsSafe :
    (max_attempts : ℕ) (name : ℕ → String) (s : System) (xs : List Step)
    → IsSafe max_attempts name s
    → (name' : ℕ → String) × IsSafe max_attempts name' (run max_attempts s xs)
unfolding run
run-IsSafe max_attempts name s [] safe = (name, safe)
run-IsSafe max_attempts name s (x ∷ xs) safe =
    let (name', safe') = step-IsSafe max_attempts name s x safe in
    run-IsSafe max_attempts name' (step max_attempts s x) xs safe'
