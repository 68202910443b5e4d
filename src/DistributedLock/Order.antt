-- ===== src/DistributedLock/Order.antt =====
-- The chain of promises of one key (src/distributed-lock.js).
use x402_facilitator_stellar.Common.{
  ℕ, zero, suc, ◌<◌, ◌≡◌, refl, sym, ap, ◌∙◌, ◌≢◌, inl, inr, true, Option, none, some, List, [],
  ◌∷◌, arith, eqb, Bool-cases, select, All, nth, All-weaken, All-nth,
}
use x402_facilitator_stellar.DistributedLock.{Ticket, is_resolved, is_free, is_unended}

-- The newest call's promise is the tail, and every call waits for the one before it.
abbrev pub IsLinked : (tail : Option ℕ) → List Ticket → Type 0
IsLinked tail [] = tail ≡ none
IsLinked tail (t ∷ ts) = (tail ≡ some t.id) × IsLinked t.prev ts

-- No call has ended before an older one.
abbrev pub IsOrdered : (resolved : List ℕ) → List Ticket → Type 0
IsOrdered r [] = Unit
IsOrdered r (t ∷ ts) =
    (is_resolved r t.id ≡ true → All (λ u. is_resolved r u.id ≡ true) ts) × IsOrdered r ts

abbrev pub IsDecreasing : List Ticket → Type 0
IsDecreasing [] = Unit
IsDecreasing (t ∷ ts) = All (λ u. u.id < t.id) ts × IsDecreasing ts

pub oldest : List Ticket → List Ticket
oldest [] = []
oldest (t ∷ []) = t ∷ []
oldest (t ∷ u ∷ ts) = oldest (u ∷ ts)

pub same_id :
    (i : ℕ) (ts : List Ticket) (t : Ticket)
    → IsDecreasing ts
    → nth i ts ≡ some t
    → All (λ u. u.id ≡ t.id → u.prev ≡ t.prev) ts
same_id i [] t h e = tt
same_id zero (u ∷ ts) t h e =
    let same : u ≡ t = ground (arith, e) in
    (
      λ k. rw same refl,
      All-weaken (λ v. v.id < u.id) (λ v. v.id ≡ t.id → v.prev ≡ t.prev) ts
          (λ v less k. ground (arith, less, k, ap (λ x. x.id) same)) h.0,
    )
same_id (suc i) (u ∷ ts) t h e =
    let less = All-nth (λ v. v.id < u.id) i ts t h.0 e in
    (λ k. ground (arith, less, k), same_id i ts t h.1 e)

pub free_all :
    (r : List ℕ) (tail : Option ℕ) (ts : List Ticket)
    → IsLinked tail ts
    → IsOrdered r ts
    → is_free r tail ≡ true
    → All (λ u. is_resolved r u.id ≡ true) ts
free_all r tail [] link ord free = tt
free_all r tail (t ∷ ts) link ord free =
    let done : is_resolved r t.id ≡ true = sym (rw link.0 refl) ∙ free in (done, ord.0 done)

pub release-IsOrdered :
    (r : List ℕ) (t : Ticket) (tail : Option ℕ) (ts : List Ticket)
    → is_free r t.prev ≡ true
    → All (λ u. u.id ≡ t.id → u.prev ≡ t.prev) ts
    → IsLinked tail ts
    → IsOrdered r ts
    → IsOrdered (t.id ∷ r) ts
release-IsOrdered r t tail [] free same link ord = tt
release-IsOrdered r t tail (u ∷ us) free same link ord =
    let more =
      All-weaken (λ v. is_resolved r v.id ≡ true) (λ v. is_resolved (t.id ∷ r) v.id ≡ true) us
        (λ v h. ground (arith, h)) in
    (
      λ h. elim (Bool-cases (eqb t.id u.id)) [
        | inl e ↦
            let prev : u.prev ≡ t.prev = same.0 (ground (arith, e)) in
            more (free_all r u.prev us link.1 ord.1 (rw prev free))
        | inr e ↦ more (ord.0 (sym (rw e refl) ∙ h))
      ],
      release-IsOrdered r t u.prev us free same.1 link.1 ord.1,
    )

none_pending :
    (r : List ℕ) (ts : List Ticket)
    → All (λ u. is_resolved r u.id ≡ true) ts
    → select (is_unended r) ts ≡ []
none_pending r [] h = refl
none_pending r (t ∷ ts) h = rw h.0 (none_pending r ts h.1)

pending_none :
    (r : List ℕ) (tail : Option ℕ) (ts : List Ticket)
    → IsLinked tail ts
    → select (is_unended r) ts ≡ []
    → is_free r tail ≡ true
pending_none r tail [] link e = rw link refl
pending_none r tail (t ∷ ts) link e = rw link.0 (ground (arith, e))

oldest_cons : (t : Ticket) (ts : List Ticket) → ts ≢ [] → oldest (t ∷ ts) ≡ oldest ts
unfolding oldest
oldest_cons t [] ne = elim (ne refl) [ ]
oldest_cons t (u ∷ ts) ne = refl

-- Of the calls that have not ended, the oldest one is granted and no other.
pub granted_oldest :
    (r : List ℕ) (tail : Option ℕ) (ts : List Ticket)
    → IsLinked tail ts
    → IsOrdered r ts
    → select (λ t. is_free r t.prev) (select (is_unended r) ts) ≡ oldest (select (is_unended r) ts)
unfolding oldest
granted_oldest r tail [] link ord = refl
granted_oldest r tail (t ∷ ts) link ord =
    let rest = granted_oldest r t.prev ts link.1 ord.1 in
    elim (Bool-cases (is_resolved r t.id)) [
      | inl done ↦ rw done rest
      | inr unended ↦ elim (Bool-cases (is_free r t.prev)) [
        | inl free ↦
            rw (unended, none_pending r ts (free_all r t.prev ts link.1 ord.1 free), free) refl
        | inr held ↦
            let some_open : select (is_unended r) ts ≢ [] =
              λ e. ground (arith, held, pending_none r t.prev ts link.1 e) in
            rw (unended, held, oldest_cons t (select (is_unended r) ts) some_open) rest
      ]
    ]
