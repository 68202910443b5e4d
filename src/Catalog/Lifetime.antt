-- ===== src/Catalog/Lifetime.antt =====
-- How long a listing stays (src/catalog/memory.js).
use x402_facilitator_stellar.Common.{
  ℕ, String, ◌≡◌, refl, sym, ap, ◌∙◌, inl, inr, true, false, Option, none, some, List, [], ◌∷◌,
  arith, str_eq, eq_iff, eq_refl, Bool-cases, Option-cases, All, ok, >>=-eq-ok, Result-cases,
}
use x402_facilitator_stellar.Common.Dict
use x402_facilitator_stellar.Common.Dict.{Map}
use x402_facilitator_stellar.Catalog.{
  Resource, Entry, Catalog, check_limits, key, entry_for, is_expired, is_public, is_settled,
  decrement_pay_to_count, upsert_resource, delete_resource, key_for, prune, prune_expired,
}
use x402_facilitator_stellar.Catalog.Versions.{
  Op, after_upsert, upserts, deletes, prunes, apply, apply_all,
}

-- The listing at the key was not made by a verify alone.
abbrev pub IsKept : String → Map Entry → Type 0
IsKept k m =
    (e : Entry) × (Dict.get k m ≡ some e)
    × (str_eq e.source "verify" ≡ false)
    × (e.provisional ≡ false)

-- No operation removes the key by name.
abbrev pub LeavesKey : String → Op → Type 0
LeavesKey k (upserts r source now) = Unit
LeavesKey k (deletes url tool_name now) = str_eq (key_for url tool_name) k ≡ false
LeavesKey k (prunes now) = Unit

prune-IsKept :
    (now : ℕ) (k : String) (m : Map Entry) (counts : Map ℕ)
    → IsKept k m
    → IsKept k (prune now m counts).0
unfolding prune Dict.get is_expired
prune-IsKept now k [] counts (e, found, settled, open_ended) = cc
prune-IsKept now k ((j, x) ∷ m) counts (e, found, settled, open_ended) =
    elim (Bool-cases (str_eq j k)) [
      | inl same ↦
          let value : x ≡ e = ground (arith, found, same) in
          let stays : is_expired now x ≡ false =
            ap (λ y. is_expired now y) value ∙ rw open_ended refl in
          rw stays (e, rw same (ap (λ y. some y) value), settled, open_ended)
      | inr other ↦
          let found' : Dict.get k m ≡ some e = sym (rw other refl) ∙ found in
          let kept : IsKept k m = (e, found', settled, open_ended) in
          elim (Bool-cases (is_expired now x)) [
            | inl gone ↦
                rw gone
                  (prune-IsKept now k m (decrement_pay_to_count x.resource.pay_to counts) kept)
            | inr stays ↦
                let (f, there, rest, last) = prune-IsKept now k m counts kept in
                rw stays (f, rw other there, rest, last)
          ]
    ]

entry_for-kept :
    (ttl : ℕ) (e : Entry) (r : Resource) (source : String) (now : ℕ)
    → str_eq e.source "verify" ≡ false
    → (str_eq (entry_for ttl (some e) r source now).source "verify" ≡ false)
      × ((entry_for ttl (some e) r source now).provisional ≡ false)
unfolding entry_for is_settled
entry_for-kept ttl e r source now h = rw h (h, ground arith)

entry_for-settles :
    (ttl : ℕ) (e : Option Entry) (r : Resource) (source : String) (now : ℕ)
    → str_eq source "verify" ≡ false
    → (str_eq (entry_for ttl e r source now).source "verify" ≡ false)
      × ((entry_for ttl e r source now).provisional ≡ false)
unfolding entry_for is_settled
entry_for-settles ttl none r source now h = (h, ground (arith, h))
entry_for-settles ttl (some e) r source now h = ground (arith, h)

set-IsKept :
    (ttl : ℕ) (k : String) (r : Resource) (source : String) (now : ℕ) (m : Map Entry)
    → IsKept k m
    → IsKept k (Dict.set (key r) (entry_for ttl (Dict.get (key r) m) r source now) m)
set-IsKept ttl k r source now m (e, found, settled, open_ended) =
    let made = entry_for ttl (Dict.get (key r) m) r source now in
    let stored = Dict.get-set (key r) k made m in
    elim (Bool-cases (str_eq (key r) k)) [
      | inl same ↦
          let name : key r ≡ k = ground (arith, eq_iff (key r) k, same) in
          let before : Dict.get (key r) m ≡ some e = rw name found in
          let (settled', open_ended') = entry_for-kept ttl e r source now settled in
          (
            entry_for ttl (some e) r source now,
            stored ∙ rw same (ap (λ x. some (entry_for ttl x r source now)) before),
            settled',
            open_ended',
          )
      | inr other ↦ (e, stored ∙ rw other found, settled, open_ended)
    ]

apply-IsKept :
    (k : String) (op : Op) (c : Catalog)
    → LeavesKey k op
    → IsKept k c.resources
    → IsKept k (apply op c).resources
unfolding apply upsert_resource delete_resource prune_expired
apply-IsKept k (upserts r source now) c leaves (e, found, settled, open_ended) =
    elim (Result-cases (check_limits c r (Dict.get (key r) c.resources))) [
      | inl (x, refused) ↦ rw refused (e, found, settled, open_ended)
      | inr (x, allowed) ↦
          rw allowed
            (set-IsKept c.verify_ttl k r source now c.resources (e, found, settled, open_ended))
    ]
apply-IsKept k (deletes url tool_name now) c leaves (e, found, settled, open_ended) =
    elim (Option-cases (Dict.get (key_for url tool_name) c.resources)) [
      | inl missing ↦ rw missing (e, found, settled, open_ended)
      | inr (x, there) ↦ rw there (
        e,
        rw (Dict.get-delete (key_for url tool_name) k c.resources, leaves) found,
        settled,
        open_ended,
      )
    ]
apply-IsKept k (prunes now) c leaves kept = prune-IsKept now k c.resources c.pay_to_counts kept

apply_all-IsKept :
    (k : String) (ops : List Op) (c : Catalog)
    → All (LeavesKey k) ops
    → IsKept k c.resources
    → IsKept k (apply_all ops c).resources
unfolding apply_all
apply_all-IsKept k [] c leaves kept = kept
apply_all-IsKept k (op ∷ ops) c (leaves, rest) kept =
    apply_all-IsKept k ops (apply op c) rest (apply-IsKept k op c leaves kept)

pub wrote_resources :
    (r : Resource) (source : String) (now : ℕ) (c c' : Catalog) (made : Entry)
    → upsert_resource r source now c ≡ ok (c', made)
    → c'.resources
      ≡ Dict.set
          (key r)
          (entry_for c.verify_ttl (Dict.get (key r) c.resources) r source now)
          c.resources
unfolding upsert_resource
wrote_resources r source now c c' made wrote =
    let (done, passed, same) =
      >>=-eq-ok (check_limits c r (Dict.get (key r) c.resources)) _ wrote in
    sym (ap (λ x. (after_upsert c x).resources) same)

-- A listing that anything but a verify has written is there, and public at any time, after any
-- writes, sweeps and removals of other keys: no later verify makes it expire.
pub settled_stays :
    (r : Resource) (source : String) (now : ℕ) (c c' : Catalog) (made : Entry) (ops : List Op)
    → str_eq source "verify" ≡ false
    → upsert_resource r source now c ≡ ok (c', made)
    → All (LeavesKey (key r)) ops
    → (e : Entry) × (Dict.get (key r) (apply_all ops c').resources ≡ some e)
      × ((t : ℕ) → is_public t e ≡ true)
unfolding upsert_resource is_public is_expired
settled_stays r source now c c' made ops settles wrote leaves =
    let existing = Dict.get (key r) c.resources in
    let entry = entry_for c.verify_ttl existing r source now in
    let (settled, open_ended) = entry_for-settles c.verify_ttl existing r source now settles in
    let resources : c'.resources ≡ Dict.set (key r) entry c.resources =
      wrote_resources r source now c c' made wrote in
    let kept : IsKept (key r) c'.resources = (
      entry,
      ap (λ m. Dict.get (key r) m) resources
          ∙ Dict.get-set (key r) (key r) entry c.resources
          ∙ rw (eq_refl (key r)) refl,
      settled,
      open_ended,
    ) in
    let (e, there, still, ends) = apply_all-IsKept (key r) ops c' leaves kept in
    (e, there, λ t. rw ends refl)
