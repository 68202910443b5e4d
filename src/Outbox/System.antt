-- ===== src/Outbox/System.antt =====
-- Workers of the outbox as a sequence of steps, with crashes between any two.
use x402_facilitator_stellar.Common.{
  ℕ, String, Bool, true, none, some, List, [], ◌∷◌, ◌++◌, str_eq, leb, any, nth,
}
use x402_facilitator_stellar.Outbox.{
  pending, claimed, published, failed, Row, World, Attempt, insert_event, claim_batch, deliver,
}

-- The outbox with the rows that workers hold from earlier claims, delivered or not.
pub record System : Type 0 where
  pub world : World
  pub held : List Row

-- Any worker inserts, claims, or goes on with a row that it holds; one that stops takes no step.
pub data Step : Type 0 where
  inserts : (event_id type payload : String) → (now : ℕ) → Step
  claims : (limit lease now : ℕ) → Step
  delivers : (n : ℕ) → Attempt → Step

unfoldable pub inserted : String → String → String → ℕ → System → System
inserted e type payload now s = record s {
  world = record (s.world) { table = insert_event e type payload now s.world.table };
}

unfoldable pub claimed_by : (limit lease now : ℕ) → System → System
claimed_by limit lease now s =
    let (t, rows) = claim_batch limit lease now s.world.table in
    record { world = record (s.world) { table = t }; held = s.held ++ rows }

unfoldable pub delivered : ℕ → Row → Attempt → System → System
delivered max_attempts r a s = record s { world = deliver max_attempts r a s.world }

unfoldable pub step : (max_attempts : ℕ) → System → Step → System
step max_attempts s (inserts e type payload now) = inserted e type payload now s
step max_attempts s (claims limit lease now) = claimed_by limit lease now s
step max_attempts s (delivers n a) = elim (nth n s.held) [
  | none ↦ s
  | some r ↦ delivered max_attempts r a s
]

unfoldable pub run : (max_attempts : ℕ) → System → List Step → System
run max_attempts s [] = s
run max_attempts s (x ∷ xs) = run max_attempts (step max_attempts s x) xs

-- The event waits for a worker, or was sent, or failed as often as is allowed.
abbrev pub is_accounted : (max_attempts : ℕ) → (sent : List String) → Row → Bool
is_accounted max_attempts sent r = elim r.status [
  | pending ↦ true
  | claimed ↦ true
  | published ↦ any (str_eq r.event_id) sent
  | failed ↦ leb max_attempts r.attempts
]

abbrev pub has_event : String → Row → Bool
has_event e r = str_eq r.event_id e

abbrev pub new : System
new = record {
  world = record { table = record { rows = []; next_id = 1 }; sent = []; letters = [] };
  held = [];
}
