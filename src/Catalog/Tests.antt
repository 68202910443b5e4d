-- ===== src/Catalog/Tests.antt =====
-- A catalogue of concrete resources.
use x402_facilitator_stellar.Common.{
  ℕ, ◌+◌, ◌*◌, ◌≤◌, String, ◌≡◌, refl, Bool, true, false, Option, none, some, List, [], ◌∷◌, arith,
  str_eq, get_or, ok,
}
use x402_facilitator_stellar.Common.Dict
use x402_facilitator_stellar.Common.Sort.{sort_by, insert_by}
use x402_facilitator_stellar.Catalog.{
  Resource, Entry, Catalog, Params, key, key_for, entry_for, is_settled, check_limits,
  increment_pay_to_count, is_public, is_expired, upsert_resource, list_resources, get_resource,
  listed, listed_before, apply_common_filters,
}
use x402_facilitator_stellar.Catalog.Versions.{
  Op, upserts, deletes, prunes, apply_all, version_validates,
}
use x402_facilitator_stellar.Catalog.Lifetime.{settled_stays}
use x402_facilitator_stellar.Catalog.Listing.{read_pages, pages_cover}
use x402_facilitator_stellar.Catalog.Counts.{listings_for, moved_miscounts}

abbrev empty : Catalog
empty = record {
  resources = [];
  pay_to_counts = [];
  version = 0;
  last_modified = 0;
  max_resources_per_pay_to = 50;
  max_catalog_size = 10000;
  verify_ttl = 1000;
}

abbrev api : String → String → Resource
api url pay_to = record {
  type = "http";
  url = url;
  tool_name = none;
  pay_to = pay_to;
  scheme = "exact";
  network = "stellar:testnet";
  extensions = none;
  details = [];
}

abbrev listing : String → String → ℕ → Entry
listing url pay_to seen = record {
  resource = api url pay_to;
  source = "settle";
  provisional = false;
  expires_at = none;
  first_seen_at = seen;
  last_seen_at = seen;
}

abbrev two : Catalog
two = record empty {
  resources = ("a::", listing "a" "G1" 5) ∷ ("b::", listing "b" "G1" 7) ∷ [];
  pay_to_counts = ("G1", 2) ∷ [];
  version = 2;
}

abbrev some_ops : List Op
some_ops = upserts (api "a" "G1") "verify" 9 ∷ deletes "b" none 10 ∷ prunes 5000 ∷ []

version_validates_example :
    let c' = apply_all some_ops two in
    (two.version ≤ c'.version)
    × (two.version ≡ c'.version
        → (two.resources ≡ c'.resources)
          × ((locale_le : String → String → Bool) (p : Params) (now : ℕ)
              → list_resources locale_le p now two ≡ list_resources locale_le p now c')
          × ((url : String) (tool_name : Option String) (now : ℕ)
              → get_resource url tool_name now two ≡ get_resource url tool_name now c'))
version_validates_example = version_validates some_ops two

abbrev settled_a : Catalog
settled_a = record empty {
  resources = ("a::", listing "a" "G1" 5) ∷ [];
  pay_to_counts = ("G1", 1) ∷ [];
  version = 1;
  last_modified = 5;
}

wrote_a : upsert_resource (api "a" "G1") "settle" 5 empty ≡ ok (settled_a, listing "a" "G1" 5)
unfolding upsert_resource key check_limits increment_pay_to_count entry_for is_settled Dict.get
    Dict.set
wrote_a = refl

other_key : str_eq (key_for "b" none) (key (api "a" "G1")) ≡ false
unfolding key key_for
other_key = refl

settled_stays_example :
    (e : Entry) × (Dict.get (key (api "a" "G1")) (apply_all some_ops settled_a).resources ≡ some e)
    × ((t : ℕ) → is_public t e ≡ true)
settled_stays_example =
    settled_stays (api "a" "G1") "settle" 5 empty settled_a (listing "a" "G1" 5) some_ops refl
      wrote_a (tt, (other_key, (tt, tt)))

abbrev all_of : Params
all_of = record {
  type = none;
  pay_to = none;
  scheme = none;
  network = none;
  extensions = none;
  limit = none;
  offset = none;
}

two_listed : (list_resources (λ a b. true) all_of 8 two).1 ≤ 2 * 1
unfolding list_resources listed listed_before apply_common_filters is_public is_expired sort_by
    insert_by
two_listed = omega arith

pages_cover_example :
    read_pages (λ a b. true) all_of 1 8 two 2 0 ≡ listed (λ a b. true) all_of 8 two
pages_cover_example = pages_cover (λ a b. true) all_of 1 8 two 2 two_listed

-- The listing goes to another recipient.
abbrev moved_a : Catalog
moved_a = record settled_a {
  resources = ("a::", record (listing "a" "G2" 5) { last_seen_at = 9 }) ∷ [];
  version = 2;
  last_modified = 9;
}

moves_a :
    upsert_resource (api "a" "G2") "settle" 9 settled_a
    ≡ ok (moved_a, record (listing "a" "G2" 5) { last_seen_at = 9 })
unfolding upsert_resource key check_limits increment_pay_to_count entry_for is_settled Dict.get
    Dict.set
moves_a = refl

exact_a :
    (p : String)
    → get_or (Dict.get p settled_a.pay_to_counts) 0 ≡ listings_for p settled_a.resources
unfolding listings_for Dict.get
exact_a p = ground arith

found_a : Dict.get (key (api "a" "G2")) settled_a.resources ≡ some (listing "a" "G1" 5)
unfolding key Dict.get
found_a = refl

moved_miscounts_example :
    (get_or (Dict.get "G2" moved_a.pay_to_counts) 0 + 1 ≡ listings_for "G2" moved_a.resources)
    × (get_or (Dict.get "G1" moved_a.pay_to_counts) 0 ≡ listings_for "G1" moved_a.resources + 1)
moved_miscounts_example =
    moved_miscounts (api "a" "G2") "settle" 9 settled_a moved_a (listing "a" "G1" 5)
      (record (listing "a" "G2" 5) { last_seen_at = 9 }) found_a refl exact_a moves_a
