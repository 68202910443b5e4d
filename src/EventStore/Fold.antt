-- ===== src/EventStore/Fold.antt =====
-- What the projection of a settlement's events says about them.
use x402_facilitator_stellar.Common.{
  String, All, ℕ, ◌≡◌, refl, Bool, Option, none, some, List, [], ◌∷◌, ◌++◌, map, arith, get_or,
  or_else, is_some, select,
}
use x402_facilitator_stellar.EventStore.{
  initiated, State, Event, Projection, state_by_event_type, terminate, initiate, apply_event,
  project_from, project_settlement,
}

pub project_from-append :
    (p : Option Projection) (xs ys : List Event)
    → project_from p (xs ++ ys) ≡ project_from (project_from p xs) ys
unfolding project_from
project_from-append p [] ys = refl
project_from-append p (x ∷ xs) ys = project_from-append (apply_event p x) xs ys

-- An independent reading of a stream: the state that its last recognised event stands for.
pub last_state : List Event → Option State
last_state [] = none
last_state (e ∷ es) = or_else (last_state es) (state_by_event_type e.event_type)

pub first_time : List Event → Option ℕ
first_time [] = none
first_time (e ∷ es) = elim (state_by_event_type e.event_type) [
  | none ↦ first_time es
  | some s ↦ some e.recorded_at
]

pub last_time : List Event → Option ℕ
last_time [] = none
last_time (e ∷ es) =
    or_else (last_time es)
      (elim (state_by_event_type e.event_type) [ none ↦ none | some s ↦ some e.recorded_at ])

pub data Summary : Type 0 where
  summary : State → (created updated : ℕ) → Summary

abbrev pub summarise : Option Projection → Option Summary
summarise none = none
summarise (some p) = some (summary p.state p.created_at p.updated_at)

-- The summary of a stream, on top of an earlier one.
abbrev pub extend : Option Summary → Option State → Option ℕ → Option ℕ → Option Summary
extend none (some s) (some c) (some u) = some (summary s c u)
extend (some (summary s c u)) s' c' u' = some (summary (get_or s' s) c (get_or u' u))
extend none _ _ _ = none

summarise-project_from :
    (p : Option Projection) (es : List Event)
    → summarise (project_from p es)
      ≡ extend (summarise p) (last_state es) (first_time es) (last_time es)
unfolding project_from apply_event initiate terminate last_state first_time last_time
summarise-project_from none [] = refl
summarise-project_from (some p) [] = refl
summarise-project_from p (e ∷ es) = ground (arith, summarise-project_from (apply_event p e) es)

abbrev pub is_known : Event → Bool
is_known e = is_some (state_by_event_type e.event_type)

project_from-select :
    (p : Option Projection) (es : List Event)
    → project_from p (select is_known es) ≡ project_from p es
unfolding project_from apply_event
project_from-select p [] = refl
project_from-select p (e ∷ es) =
    ground (arith, project_from-select p es, project_from-select (apply_event p e) es)

-- Events of a type that this version does not know change nothing, wherever they stand.
pub project_settlement-select :
    (es : List Event) → project_settlement (select is_known es) ≡ project_settlement es
unfolding project_settlement
project_settlement-select es = project_from-select none es

abbrev pub with_version : (Event → ℕ) → Event → Event
with_version v e = record e { envelope = record (e.envelope) { event_version = v e } }

project_from-with_version :
    (p : Option Projection) (v : Event → ℕ) (es : List Event)
    → project_from p (map (with_version v) es) ≡ project_from p es
unfolding project_from apply_event
project_from-with_version p v [] = refl
project_from-with_version p v (e ∷ es) = project_from-with_version (apply_event p e) v es

-- The projection does not depend on the versions that the events carry.
pub project_settlement-with_version :
    (v : Event → ℕ) (es : List Event)
    → project_settlement (map (with_version v) es) ≡ project_settlement es
unfolding project_settlement
project_settlement-with_version v es = project_from-with_version none v es

-- The projection of a stream is in the state of its last recognised event; it was created at the
-- time of the first recognised one and updated at the time of the last; with no recognised event
-- there is no projection. An event is recognised by its type alone: one of a version that this
-- service does not know counts like any other, where the comments of the source say that it is
-- skipped.
pub project_settlement_summary :
    (es : List Event)
    → (summarise (project_settlement es)
        ≡ extend none (last_state es) (first_time es) (last_time es))
      × ((v : Event → ℕ) → project_settlement (map (with_version v) es) ≡ project_settlement es)
unfolding project_settlement
project_settlement_summary es =
    (summarise-project_from none es, λ v. project_settlement-with_version v es)

abbrev pub created_at_is : ℕ → Option Projection → Option Projection
created_at_is t none = none
created_at_is t (some p) = some (record p { created_at = t })

-- What `apply_event` makes of a projection that is there.
abbrev next : Projection → Event → Projection
unfolding apply_event
next q e = get_or (apply_event (some q) e) q

apply_event-next : (q : Projection) (e : Event) → apply_event (some q) e ≡ some (next q e)
unfolding next
apply_event-next q e = ground arith

apply_event-created_at_is :
    (t : ℕ) (q : Projection) (e : Event)
    → apply_event (some (record q { created_at = t })) e
      ≡ some (record (next q e) { created_at = t })
unfolding next initiate terminate
apply_event-created_at_is t q e = ground arith

project_from-created_at_is :
    (t : ℕ) (q : Projection) (es : List Event)
    → project_from (some (record q { created_at = t })) es
      ≡ created_at_is t (project_from (some q) es)
unfolding project_from
project_from-created_at_is t q [] = refl
project_from-created_at_is t q (e ∷ es) =
    rw (apply_event-created_at_is t q e, apply_event-next q e)
      (project_from-created_at_is t (next q e) es)

apply_event-initiated :
    (p : Option Projection) (e : Event)
    → e.event_type ≡ initiated
    → apply_event p e ≡ some (initiate p e.payload e.recorded_at)
unfolding apply_event
apply_event-initiated p e fresh = rw fresh

-- After a retry (an Initiated event on a settlement that exists) nothing of the earlier attempt is
-- left but its creation time: no error, no response, no hash shines through.
pub project_settlement-retry :
    (before after : List Event) (e : Event) (old : Projection)
    → e.event_type ≡ initiated
    → project_settlement before ≡ some old
    → project_settlement (before ++ e ∷ after)
      ≡ created_at_is old.created_at (project_settlement (e ∷ after))
unfolding project_settlement project_from initiate
project_settlement-retry before after e old fresh h =
    rw
      (
        project_from-append none before (e ∷ after),
        h,
        apply_event-initiated (some old) e fresh,
        apply_event-initiated none e fresh,
      )
      (project_from-created_at_is old.created_at (initiate none e.payload e.recorded_at) after)

-- A projection carries the key of its events.
applied_named :
    (k : String) (q : Option Projection) (x : Event)
    → x.payload.idempotency_key ≡ some k
    → ((p : Projection) → q ≡ some p → p.idempotency_key ≡ some k)
    → (p : Projection) → apply_event q x ≡ some p
    → p.idempotency_key ≡ some k
unfolding apply_event initiate terminate
applied_named k none x h named p e = ground (arith, h, e)
applied_named k (some q) x h named p e = ground (arith, h, e, named q refl)

pub named_from :
    (k : String) (q : Option Projection) (log : List Event)
    → All (λ (e : Event). e.payload.idempotency_key ≡ some k) log
    → ((p : Projection) → q ≡ some p → p.idempotency_key ≡ some k)
    → (p : Projection) → project_from q log ≡ some p
    → p.idempotency_key ≡ some k
unfolding project_from
named_from k q [] h named p e = named p e
named_from k q (x ∷ log) h named p e =
    named_from k (apply_event q x) log h.1 (applied_named k q x h.0 named) p e
