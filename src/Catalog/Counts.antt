-- ===== src/Catalog/Counts.antt =====
-- The counts by recipient of payments (src/catalog/memory.js).
use x402_facilitator_stellar.Common.{
  ℕ, ◌+◌, String, ◌≡◌, refl, sym, ap, ◌∙◌, inl, inr, Bool, true, false, Option, none, some, [], ◌∷◌,
  arith, str_eq, eq_iff, eq_refl, if◌then◌else◌, Bool-cases, get_or, ok, >>=-eq-ok,
}
use x402_facilitator_stellar.Common.Dict
use x402_facilitator_stellar.Common.Dict.{Map}
use x402_facilitator_stellar.Catalog.{
  Resource, Entry, Catalog, check_limits, key, spread, entry_for, upsert_resource,
}
use x402_facilitator_stellar.Catalog.Versions.{after_upsert}
use x402_facilitator_stellar.Catalog.Lifetime.{wrote_resources}

abbrev pays : String → Entry → Bool
pays p e = str_eq e.resource.pay_to p

-- How many listings pay to a recipient.
unfoldable pub listings_for : String → Map Entry → ℕ
listings_for p [] = 0
listings_for p ((k, e) ∷ m) = (if pays p e then 1 else 0) + listings_for p m

listings_for-set :
    (p k : String) (old e : Entry) (m : Map Entry)
    → Dict.get k m ≡ some old
    → listings_for p (Dict.set k e m) + (if pays p old then 1 else 0)
      ≡ listings_for p m + (if pays p e then 1 else 0)
unfolding listings_for Dict.set Dict.get
listings_for-set p k old e [] h = cc
listings_for-set p k old e ((j, x) ∷ m) h = elim (Bool-cases (str_eq j k)) [
  | inl same ↦ let value : x ≡ old = ground (arith, h, same) in rw (same, ← value) (omega arith)
  | inr other ↦
      let found : Dict.get k m ≡ some old = sym (rw other refl) ∙ h in
      rw other (omega (arith, listings_for-set p k old e m found))
]

spread-pay_to : (e : Option Entry) (r : Resource) → (spread e r).pay_to ≡ r.pay_to
spread-pay_to none r = refl
spread-pay_to (some e) r = refl

wrote_counts :
    (r : Resource) (source : String) (now : ℕ) (c c' : Catalog) (old made : Entry)
    → Dict.get (key r) c.resources ≡ some old
    → upsert_resource r source now c ≡ ok (c', made)
    → c'.pay_to_counts ≡ c.pay_to_counts
unfolding upsert_resource
wrote_counts r source now c c' old made found wrote =
    let (done, passed, same) =
      >>=-eq-ok (check_limits c r (Dict.get (key r) c.resources)) _ wrote in
    sym (ap (λ x. (after_upsert c x).pay_to_counts) same) ∙ rw found refl

listings_for-moved :
    (p k : String) (old e : Entry) (m : Map Entry) (before after : Bool)
    → Dict.get k m ≡ some old
    → pays p old ≡ before
    → pays p e ≡ after
    → listings_for p (Dict.set k e m) + (if before then 1 else 0)
      ≡ listings_for p m + (if after then 1 else 0)
listings_for-moved p k old e m before after found h h' =
    rw (← h, ← h') (listings_for-set p k old e m found)

-- A write that gives an existing listing another recipient leaves the counts as they are: where
-- they were the numbers of listings, the new recipient's count, which the limit is compared with,
-- is one short, and the old one's is one too high.
pub moved_miscounts :
    (r : Resource) (source : String) (now : ℕ) (c c' : Catalog) (old made : Entry)
    → Dict.get (key r) c.resources ≡ some old
    → str_eq old.resource.pay_to r.pay_to ≡ false
    → ((p : String) → get_or (Dict.get p c.pay_to_counts) 0 ≡ listings_for p c.resources)
    → upsert_resource r source now c ≡ ok (c', made)
    → (get_or (Dict.get r.pay_to c'.pay_to_counts) 0 + 1 ≡ listings_for r.pay_to c'.resources)
      × (get_or (Dict.get old.resource.pay_to c'.pay_to_counts) 0
          ≡ listings_for old.resource.pay_to c'.resources + 1)
unfolding upsert_resource entry_for
moved_miscounts r source now c c' old made found differs exact wrote =
    let existing = Dict.get (key r) c.resources in
    let entry = entry_for c.verify_ttl existing r source now in
    let payee : entry.resource.pay_to ≡ r.pay_to = spread-pay_to existing r in
    let gained =
      listings_for-moved r.pay_to (key r) old entry c.resources false true found differs
        (rw payee (eq_refl r.pay_to)) in
    let lost =
      listings_for-moved old.resource.pay_to (key r) old entry c.resources true false found
        (eq_refl old.resource.pay_to)
        (rw payee (
          ground (
            arith,
            differs,
            eq_iff old.resource.pay_to r.pay_to,
            eq_iff r.pay_to old.resource.pay_to,
          ))) in
    rw
      (
        wrote_resources r source now c c' made wrote,
        wrote_counts r source now c c' old made found wrote,
        exact r.pay_to,
        exact old.resource.pay_to,
      )
      (omega (arith, gained), omega (arith, lost))
