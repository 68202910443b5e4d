-- ===== src/Catalog/Versions.antt =====
-- The version of the catalogue, which validates cached answers (src/catalog/memory.js).
use x402_facilitator_stellar.Common.{
  ℕ, ◌≤◌, ◌<◌, String, ◌≡◌, refl, sym, ap, ◌∙◌, ◌⊎◌, inl, inr, Bool, Option, List, [], ◌∷◌, arith,
  ltb, Bool-cases, Option-cases, Result, ok, err, Result-cases,
}
use x402_facilitator_stellar.Common.Dict
use x402_facilitator_stellar.Common.Dict.{Map}
use x402_facilitator_stellar.Catalog.{
  Resource, Entry, Catalog, CatalogError, check_limits, key, is_expired, upsert_resource,
  delete_resource, key_for, prune, prune_expired, Params, listed, list_resources, get_resource,
}

pub data Op : Type 0 where
  upserts : Resource → (source : String) → (now : ℕ) → Op
  deletes : (url : String) → Option String → (now : ℕ) → Op
  prunes : (now : ℕ) → Op

-- A write that is refused leaves the catalogue as it is.
abbrev pub after_upsert : Catalog → Result CatalogError (Catalog × Entry) → Catalog
after_upsert c (err e) = c
after_upsert c (ok (c', e)) = c'

unfoldable pub apply : Op → Catalog → Catalog
apply (upserts r source now) c = after_upsert c (upsert_resource r source now c)
apply (deletes url tool_name now) c = (delete_resource url tool_name now c).0
apply (prunes now) c = (prune_expired now c).0

unfoldable pub apply_all : List Op → Catalog → Catalog
apply_all [] c = c
apply_all (op ∷ ops) c = apply_all ops (apply op c)

-- The catalogue's version has gone up, or has stayed and its resources with it.
abbrev pub Follows : Catalog → Catalog → Type 0
Follows c c' = (c.version < c'.version) ⊎ ((c.version ≡ c'.version) × (c.resources ≡ c'.resources))

prune_none :
    (now : ℕ) (m : Map Entry) (counts : Map ℕ)
    → (prune now m counts).2 ≡ 0
    → (prune now m counts).0 ≡ m
unfolding prune
prune_none now [] counts h = refl
prune_none now ((k, e) ∷ m) counts h = elim (Bool-cases (is_expired now e)) [
  | inl gone ↦ ground (arith, h, gone)
  | inr stays ↦
      let none_went : (prune now m counts).2 ≡ 0 = ground (arith, h, stays) in
      rw stays (ap (λ left. (k, e) ∷ left) (prune_none now m counts none_went))
]

apply-Follows : (op : Op) (c : Catalog) → Follows c (apply op c)
unfolding apply upsert_resource delete_resource prune_expired
apply-Follows (upserts r source now) c =
    elim (Result-cases (check_limits c r (Dict.get (key r) c.resources))) [
      | inl (e, refused) ↦ rw refused (inr (refl, refl))
      | inr (done, allowed) ↦ rw allowed (inl (omega arith))
    ]
apply-Follows (deletes url tool_name now) c =
    elim (Option-cases (Dict.get (key_for url tool_name) c.resources)) [
      | inl missing ↦ rw missing (inr (refl, refl))
      | inr (e, found) ↦ rw found (inl (omega arith))
    ]
apply-Follows (prunes now) c = elim (Bool-cases (ltb 0 (prune now c.resources c.pay_to_counts).2)) [
  | inl some_went ↦ rw some_went (inl (omega arith))
  | inr none_went ↦
      rw none_went
        (inr (refl, sym (prune_none now c.resources c.pay_to_counts (ground (arith, none_went)))))
]

Follows-trans : (a b c : Catalog) → Follows a b → Follows b c → Follows a c
Follows-trans a b c (inl h) (inl k) = inl (omega (arith, h, k))
Follows-trans a b c (inl h) (inr (k, l)) = inl (omega (arith, h, k))
Follows-trans a b c (inr (h, l)) (inl k) = inl (omega (arith, h, k))
Follows-trans a b c (inr (h, l)) (inr (k, m)) = inr (h ∙ k, l ∙ m)

apply_all-Follows : (ops : List Op) (c : Catalog) → Follows c (apply_all ops c)
unfolding apply_all
apply_all-Follows [] c = inr (refl, refl)
apply_all-Follows (op ∷ ops) c =
    Follows-trans c (apply op c) (apply_all ops (apply op c)) (apply-Follows op c)
      (apply_all-Follows ops (apply op c))

-- After any writes, removals and sweeps, refused ones among them, the version is not lower, and
-- where it is the same the resources are the same, so that a listing or a lookup gives what it gave
-- before, if both are made at one reading of the clock. Between different readings a provisional
-- listing can expire, which does not change the version.
pub version_validates :
    (ops : List Op) (c : Catalog)
    → let c' = apply_all ops c in
      (c.version ≤ c'.version)
      × (c.version ≡ c'.version
          → (c.resources ≡ c'.resources)
            × ((locale_le : String → String → Bool) (p : Params) (now : ℕ)
                → list_resources locale_le p now c ≡ list_resources locale_le p now c')
            × ((url : String) (tool_name : Option String) (now : ℕ)
                → get_resource url tool_name now c ≡ get_resource url tool_name now c'))
unfolding list_resources listed get_resource
version_validates ops c = elim (apply_all-Follows ops c) [
  | inl more ↦ (omega (arith, more), λ same. absurd (ground (arith, more, same)))
  | inr (same, kept) ↦ (
    omega (arith, same),
    λ h. (
      kept,
      λ locale_le p now. ap (λ m. list_resources locale_le p now (record c { resources = m })) kept,
      λ url tool_name now.
          ap (λ m. get_resource url tool_name now (record c { resources = m })) kept,
    ),
  )
]
