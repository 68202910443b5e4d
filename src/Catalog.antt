-- ===== src/Catalog.antt =====
-- The catalogue of resources in memory (src/catalog/memory.js). Times are whole milliseconds.
pub mod Versions
pub mod Lifetime
pub mod Listing
pub mod Counts
pub mod Tests
use x402_facilitator_stellar.Common.{
  str_append, str_ne, ℕ, zero, suc, ◌+◌, ◌-◌, ◌*◌, ◌/◌, ◌%◌, ◌^◌, ◌≤◌, ◌<◌, min, max, String, ◌≡◌,
  refl, sym, ap, ◌∙◌, ◌≢◌, ◌↔◌, ◌⊎◌, inl, inr, Bool, true, false, ◌&&◌, ◌||◌, not, Option, none,
  some, List, [], ◌∷◌, ◌++◌, map, arith, str_eq, eq_iff, eq_refl, ltb, leb, eqb, ltb→lt, lt→ltb,
  leb→le, le→leb, if◌then◌else◌, Bool-cases, Option-cases, get_or, or_else, is_some, length, take,
  drop, select, any, all, find, All, length-append, length-select-le, All-append, All-select,
  select-select, All-take, select-holds, nth, All-map, All-weaken, All-nth, any-append, any-map,
  any-select, any-weaken, any-map-with, take_all, length-take-le, length-select-not, Result, ok,
  err, ◌>>=◌, ◌>>◌, throw_if, >>=-eq-ok, Result-cases,
}
use x402_facilitator_stellar.Common.Dict
use x402_facilitator_stellar.Common.Dict.{Map}
use x402_facilitator_stellar.Common.Sort.{sort_by}

-- A resource as a caller gives it: a property is absent or has a value, and none is null or
-- undefined. `details` are the fields that nothing here reads.
pub record Resource : Type 0 where
  pub type : String
  pub url : String
  pub tool_name : Option String
  pub pay_to : String
  pub scheme : String
  pub network : String
  pub extensions : Option (List String)
  pub details : Map String

pub record Entry : Type 0 where
  pub resource : Resource
  pub source : String
  pub provisional : Bool
  pub expires_at : Option ℕ
  pub first_seen_at : ℕ
  pub last_seen_at : ℕ

pub record Catalog : Type 0 where
  pub resources : Map Entry
  pub pay_to_counts : Map ℕ
  pub version : ℕ
  pub last_modified : ℕ
  pub max_resources_per_pay_to : ℕ
  pub max_catalog_size : ℕ
  pub verify_ttl : ℕ

pub data CatalogError : Type 0 where
  max_resources_per_payto max_catalog_size : CatalogError

unfoldable pub key : Resource → String
key r =
    if str_eq r.type "mcp"
    then str_append (str_append r.url "::") (get_or r.tool_name "undefined")
    else str_append r.url "::"

-- The key that `getResource` and `deleteResource` look for: '' is no tool's name.
unfoldable pub key_for : (url : String) → (tool_name : Option String) → String
key_for url tool_name = str_append (str_append url "::") (get_or tool_name "")

abbrev pub expires_by : (now : ℕ) → Option ℕ → Bool
expires_by now none = true
expires_by now (some t) = leb t now

unfoldable pub is_expired : (now : ℕ) → Entry → Bool
is_expired now e = e.provisional && expires_by now e.expires_at

unfoldable pub is_public : (now : ℕ) → Entry → Bool
is_public now e = not (is_expired now e)

unfoldable pub increment_pay_to_count : String → Map ℕ → Map ℕ
increment_pay_to_count pay_to counts =
    Dict.set pay_to (get_or (Dict.get pay_to counts) 0 + 1) counts

unfoldable pub decrement_pay_to_count : String → Map ℕ → Map ℕ
decrement_pay_to_count pay_to counts =
    let next = get_or (Dict.get pay_to counts) 1 - 1 in
    if eqb next 0 then Dict.delete pay_to counts else Dict.set pay_to next counts

-- The guards of a write of a key that is not there.
unfoldable pub check_limits : Catalog → Resource → Option Entry → Result CatalogError (Unit {0})
check_limits c r (some e) = ok tt
check_limits c r none =
    throw_if (leb c.max_resources_per_pay_to (get_or (Dict.get r.pay_to c.pay_to_counts) 0))
      max_resources_per_payto
    >> throw_if (leb c.max_catalog_size (length c.resources)) max_catalog_size

abbrev pub set_all : Map String → Map String → Map String
set_all old [] = old
set_all old ((k, v) ∷ m) = set_all (Dict.set k v old) m

-- `{ ...existing, ...resource }`.
abbrev pub spread : Option Entry → Resource → Resource
spread none r = r
spread (some e) r = record r {
  tool_name = or_else r.tool_name e.resource.tool_name;
  extensions = or_else r.extensions e.resource.extensions;
  details = set_all e.resource.details r.details;
}

-- Whether a listing entered the catalogue by more than a verify.
unfoldable pub is_settled : Option Entry → Bool
is_settled none = false
is_settled (some e) = not (str_eq e.source "verify")

abbrev pub source_of : Option Entry → (source : String) → String
source_of none source = source
source_of (some e) source = e.source

abbrev pub first_seen : Option Entry → (now : ℕ) → ℕ
first_seen none now = now
first_seen (some e) now = e.first_seen_at

unfoldable pub entry_for :
    (verify_ttl : ℕ) → Option Entry → Resource → (source : String) → (now : ℕ) → Entry
entry_for verify_ttl existing r source now =
    let provisional = str_eq source "verify" && not (is_settled existing) in
    record {
      resource = spread existing r;
      source = if is_settled existing then source_of existing source else source;
      provisional = provisional;
      expires_at = if provisional then some (now + verify_ttl) else none;
      first_seen_at = first_seen existing now;
      last_seen_at = now;
    }

unfoldable pub upsert_resource :
    Resource → (source : String) → (now : ℕ) → Catalog → Result CatalogError (Catalog × Entry)
upsert_resource r source now c =
    let existing = Dict.get (key r) c.resources in
    let e = entry_for c.verify_ttl existing r source now in
    check_limits c r existing
    >> ok (
      record c {
        resources = Dict.set (key r) e c.resources;
        pay_to_counts =
            if is_some existing
            then c.pay_to_counts
            else increment_pay_to_count r.pay_to c.pay_to_counts;
        version = c.version + 1;
        last_modified = now;
      },
      e,
    )

abbrev pub when_public : (now : ℕ) → Option Entry → Option Entry
when_public now none = none
when_public now (some e) = if is_public now e then some e else none

unfoldable pub get_resource : (url : String) → Option String → (now : ℕ) → Catalog → Option Entry
get_resource url tool_name now c = when_public now (Dict.get (key_for url tool_name) c.resources)

abbrev pub remove : String → (now : ℕ) → Catalog → Option Entry → Catalog
remove k now c none = c
remove k now c (some e) = record c {
  resources = Dict.delete k c.resources;
  pay_to_counts = decrement_pay_to_count e.resource.pay_to c.pay_to_counts;
  version = c.version + 1;
  last_modified = now;
}

unfoldable pub delete_resource :
    (url : String) → Option String → (now : ℕ) → Catalog → Catalog × Option Entry
delete_resource url tool_name now c =
    let k = key_for url tool_name in let e = Dict.get k c.resources in (remove k now c e, e)

-- The loop of `pruneExpired`: what is left, the counts, and how many entries went.
unfoldable pub prune : (now : ℕ) → Map Entry → Map ℕ → Map Entry × Map ℕ × ℕ
prune now [] counts = ([], counts, 0)
prune now ((k, e) ∷ m) counts =
    let counts' =
      if is_expired now e then decrement_pay_to_count e.resource.pay_to counts else counts in
    let (left, counts'', pruned) = prune now m counts' in
    if is_expired now e then (left, counts'', pruned + 1) else ((k, e) ∷ left, counts'', pruned)

unfoldable pub prune_expired : (now : ℕ) → Catalog → Catalog × ℕ
prune_expired now c =
    let (left, counts, pruned) = prune now c.resources c.pay_to_counts in
    (
      record c {
        resources = left;
        pay_to_counts = counts;
        version = if ltb 0 pruned then c.version + 1 else c.version;
        last_modified = if ltb 0 pruned then now else c.last_modified;
      },
      pruned,
    )

pub record Params : Type 0 where
  pub type : Option String
  pub pay_to : Option String
  pub scheme : Option String
  pub network : Option String
  pub extensions : Option (List String)
  pub limit : Option ℕ
  pub offset : Option ℕ

-- A filter that is absent or '' lets everything through.
abbrev pub allows : Option String → String → Bool
allows none s = true
allows (some p) s = str_eq p "" || str_eq s p

abbrev pub has_all : Option (List String) → Option (List String) → Bool
has_all none exts = true
has_all (some wanted) exts = all (λ w. any (str_eq w) (get_or exts [])) wanted

unfoldable pub apply_common_filters : Params → List Entry → List Entry
apply_common_filters p items =
    select (λ e. has_all p.extensions e.resource.extensions)
      (select (λ e. allows p.network e.resource.network)
        (select (λ e. allows p.scheme e.resource.scheme)
          (select (λ e. allows p.pay_to e.resource.pay_to)
            (select (λ e. allows p.type e.resource.type) items))))

-- The newest first, then by key; `locale_le` is the order of `localeCompare`.
unfoldable pub listed_before : (locale_le : String → String → Bool) → Entry → Entry → Bool
listed_before locale_le a b =
    ltb b.first_seen_at a.first_seen_at
    || (eqb a.first_seen_at b.first_seen_at && locale_le (key a.resource) (key b.resource))

unfoldable pub listed :
    (locale_le : String → String → Bool) → Params → (now : ℕ) → Catalog → List Entry
listed locale_le p now c =
    sort_by (listed_before locale_le)
      (apply_common_filters p (select (is_public now) (Dict.values c.resources)))

unfoldable pub list_resources :
    (locale_le : String → String → Bool) → Params → (now : ℕ) → Catalog → List Entry × ℕ
list_resources locale_le p now c =
    let items = listed locale_le p now c in
    (take (get_or p.limit 20) (drop (get_or p.offset 0) items), length items)
