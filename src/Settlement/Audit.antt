-- ===== src/Settlement/Audit.antt =====
-- The audit trail: streams only grow, are numbered without gaps, and are exported in order.
use mathlib.Core.List.{Perm, append_assoc, append-nil}
use x402_facilitator_stellar.Common.{
  ℕ, zero, suc, ◌+◌, String, ◌≡◌, refl, sym, inl, inr, Bool, true, ◌&&◌, Option, none, some, List,
  [], ◌∷◌, ◌++◌, arith, str_eq, eq_iff, Bool-cases, is_some, length, take, select, All, All-append,
  All-select, select-select, All-take, select-holds,
}
use x402_facilitator_stellar.Common.Dict
use x402_facilitator_stellar.Common.Sort.{
  IsSorted, IsOrder, select-sort_by-perm, sort_by, sort_by-IsSorted,
}
use x402_facilitator_stellar.EventStore.{EventType, State, Payload, Event}
use x402_facilitator_stellar.EventStore.Fold.{is_known}
use x402_facilitator_stellar.Settlement.{
  Store, new, stream, stamp, saved_payload, updated_payload, before, from_time, to_time, cut,
  export_audit_log, all_events,
}
use x402_facilitator_stellar.Settlement.Log.{extended, stream-extended, terminal_type, envelope}
use x402_facilitator_stellar.Settlement.Refinement.{
  Op, saves, updates, step, run, step-saves, step-updates, is_terminal,
}

-- `xs` is `ys` with some events added behind.
abbrev pub Extends : List Event → List Event → Type 0
Extends ys xs = (more : List Event) × (xs ≡ ys ++ more)

Extends-trans : (xs ys zs : List Event) → Extends xs ys → Extends ys zs → Extends xs zs
Extends-trans xs ys zs (a, p) (b, q) = (a ++ b, rw (q, p) (append_assoc xs a b))

extended-Extends :
    (s : Store) (k j : String) (t : EventType) (p : Payload) (now : ℕ)
    → Extends (stream s j) (stream (extended s k t p now) j)
extended-Extends s k j t p now = elim (Bool-cases (str_eq k j)) [
  | inl e ↦
      (stamp (stream s j) now (envelope t p) ∷ [], ground (arith, stream-extended s k j t p now))
  | inr e ↦ ([], ground (arith, append-nil (stream s j), stream-extended s k j t p now))
]

step-Extends : (s : Store) (o : Op) (j : String) → Extends (stream s j) (stream (step s o) j)
step-Extends s (saves r now) j =
    rw (step-saves s r now)
      (extended-Extends s r.idempotency_key j EventType.initiated (saved_payload r) now)
step-Extends s (updates k st d now) j = elim (Bool-cases written) [
  | inl e ↦
      rw (step-updates s k st d now, e)
        (extended-Extends s k j (terminal_type st) (updated_payload k d) now)
  | inr e ↦ ([], rw (step-updates s k st d now, e) (sym (append-nil (stream s j))))
]
  where
    written : Bool
    written = is_some (Dict.get k s.events) && is_terminal st

-- No history of calls removes or changes an event that was recorded.
pub run-Extends :
    (s : Store) (os : List Op) (k : String) → Extends (stream s k) (stream (run s os) k)
unfolding run
run-Extends s [] k = ([], sym (append-nil (stream s k)))
run-Extends s (o ∷ os) k =
    Extends-trans (stream s k) (stream (step s o) k) (stream (run (step s o) os) k)
      (step-Extends s o k) (run-Extends (step s o) os k)

abbrev pub Numbered : ℕ → List Event → Type 0
Numbered n [] = Unit {0}
Numbered n (e ∷ es) = (e.seq ≡ n + 1) × Numbered (suc n) es

-- The log of a key: numbered from 1 without gaps, each event of a known type and about that key.
abbrev pub IsLog : String → List Event → Type 0
IsLog k log =
    Numbered 0 log
    × All (λ (e : Event). (e.payload.idempotency_key ≡ some k) × (is_known e ≡ true)) log

pub Numbered-snoc :
    (n : ℕ) (log : List Event) (e : Event)
    → Numbered n log
    → e.seq ≡ n + length log + 1
    → Numbered n (log ++ e ∷ [])
Numbered-snoc n [] e h p = (omega arith, tt)
Numbered-snoc n (x ∷ log) e h p = (h.0, Numbered-snoc (suc n) log e h.1 (omega arith))

extended-IsLog :
    (s : Store) (k j : String) (t : EventType) (p : Payload) (now : ℕ)
    → p.idempotency_key ≡ some k
    → is_known (stamp [] now (envelope t p)) ≡ true
    → IsLog j (stream s j)
    → IsLog j (stream (extended s k t p now) j)
extended-IsLog s k j t p now named known h = elim (Bool-cases (str_eq k j)) [
  | inl e ↦
      rw (stream-extended s k j t p now, e)
        (
          Numbered-snoc 0 (stream s j) (stamp (stream s j) now (envelope t p)) h.0 (omega arith),
          All-append _ (stream s j) (stamp (stream s j) now (envelope t p) ∷ []) h.1
              ((ground (arith, eq_iff k j), known), tt),
        )
  | inr e ↦ rw (stream-extended s k j t p now, e) h
]

known_terminal :
    (st : State) (p : Payload) (now : ℕ)
    → is_known (stamp [] now (envelope (terminal_type st) p)) ≡ true
known_terminal State.submitted p now = refl
known_terminal _ p now = refl

step-IsLog :
    (s : Store) (o : Op) (j : String) → IsLog j (stream s j) → IsLog j (stream (step s o) j)
step-IsLog s (saves r now) j h =
    rw (step-saves s r now)
      (extended-IsLog s r.idempotency_key j EventType.initiated (saved_payload r) now refl refl h)
step-IsLog s (updates k st d now) j h = elim (Bool-cases written) [
  | inl e ↦
      rw (step-updates s k st d now, e)
        (extended-IsLog s k j (terminal_type st) (updated_payload k d) now refl
          (known_terminal st (updated_payload k d) now) h)
  | inr e ↦ rw (step-updates s k st d now, e) h
]
  where
    written : Bool
    written = is_some (Dict.get k s.events) && is_terminal st

run-IsLog :
    (s : Store) (os : List Op) (j : String) → IsLog j (stream s j) → IsLog j (stream (run s os) j)
unfolding run
run-IsLog s [] j h = h
run-IsLog s (o ∷ os) j h = run-IsLog (step s o) os j (step-IsLog s o j h)

-- After any history of calls on a new store the log of each key is numbered 1, 2, 3, …, and its
-- events are of known types and carry that key.
pub run-new-IsLog : (os : List Op) (k : String) → IsLog k (stream (run new os) k)
unfolding Dict.get
run-new-IsLog os k = run-IsLog new os k (tt, tt)

before-IsOrder : IsOrder before
unfolding before
before-IsOrder = record { total = λ a b h. ground arith; transitive = λ a b c h k. ground arith }

select-IsSorted :
    (p : Event → Bool) (xs : List Event) → IsSorted before xs → IsSorted before (select p xs)
select-IsSorted p [] h = tt
select-IsSorted p (x ∷ xs) h =
    ground (arith, All-select (λ y. before x y ≡ true) p xs h.0, select-IsSorted p xs h.1)

take-IsSorted : (n : ℕ) (xs : List Event) → IsSorted before xs → IsSorted before (take n xs)
take-IsSorted zero xs h = tt
take-IsSorted (suc n) [] h = tt
take-IsSorted (suc n) (x ∷ xs) h =
    (All-take (λ y. before x y ≡ true) n xs h.0, take-IsSorted n xs h.1)

abbrev pub Within : Option ℕ → Option ℕ → Event → Type 0
Within since until e = (from_time since e ≡ true) × (to_time until e ≡ true)

All-both : (P Q : Event → Type 0) (xs : List Event) → All P xs → All Q xs → All (λ e. P e × Q e) xs
All-both P Q [] h k = tt
All-both P Q (x ∷ xs) h k = ((h.0, k.0), All-both P Q xs h.1 k.1)

window : Option ℕ → Option ℕ → List Event → List Event
window since until xs = select (to_time until) (select (from_time since) xs)

window_lem :
    (since until : Option ℕ) (xs : List Event)
    → IsSorted before xs
    → IsSorted before (window since until xs) × All (Within since until) (window since until xs)
unfolding window
window_lem since until xs h = (
  select-IsSorted (to_time until) _ (select-IsSorted (from_time since) xs h),
  All-both _ _ _
      (All-select (λ e. from_time since e ≡ true) (to_time until) _
        (select-holds (from_time since) xs))
      (select-holds (to_time until) _),
)

cut_lem :
    (limit : Option ℕ) (P : Event → Type 0) (xs : List Event)
    → IsSorted before xs
    → All P xs
    → IsSorted before (cut limit xs) × All P (cut limit xs)
cut_lem none P xs h k = (h, k)
cut_lem (some zero) P xs h k = (h, k)
cut_lem (some (suc n)) P xs h k = (take-IsSorted (suc n) xs h, All-take P (suc n) xs k)

-- An export is in the order of time, and of sequence numbers at the same time, and holds events
-- within its window only. With no limit (none, or 0) it holds every recorded event of the window,
-- as often as it was recorded.
pub export_audit_log_ordered :
    (s : Store) (since until limit : Option ℕ)
    → IsSorted before (export_audit_log s since until limit)
      × All (Within since until) (export_audit_log s since until limit)
      × (Perm
          (select (to_time until) (select (from_time since) (all_events s.events)))
          (export_audit_log s since until none))
unfolding export_audit_log window
export_audit_log_ordered s since until limit =
    let sorted = sort_by before (all_events s.events) in
    let (inorder, within) =
      window_lem since until sorted (sort_by-IsSorted before before-IsOrder _) in
    let (cut_sorted, cut_within) =
      cut_lem limit (Within since until) (window since until sorted) inorder within in
    (
      cut_sorted,
      cut_within,
      rw
          (
            select-select (from_time since) (to_time until) (all_events s.events),
            select-select (from_time since) (to_time until) sorted,
          )
          (select-sort_by-perm before (λ e. from_time since e && to_time until e)
            (all_events s.events)),
    )
