-- ===== src/KeyManager.antt =====
-- The signing keys of a network and their rotation (src/key-manager.js). Times are whole
-- milliseconds.
pub mod Numbers
pub mod Leases
pub mod Tests
use x402_facilitator_stellar.Common.{
  str_append, str_ne, ℕ, zero, suc, ◌+◌, ◌-◌, ◌*◌, ◌/◌, ◌%◌, ◌^◌, ◌≤◌, ◌<◌, min, max, String, ◌≡◌,
  refl, sym, ap, ◌∙◌, ◌≢◌, ◌↔◌, ◌⊎◌, inl, inr, Bool, true, false, ◌&&◌, ◌||◌, not, Option, none,
  some, List, [], ◌∷◌, ◌++◌, map, arith, str_eq, eq_iff, eq_refl, ltb, leb, eqb, ltb→lt, lt→ltb,
  leb→le, le→leb, if◌then◌else◌, Bool-cases, Option-cases, get_or, or_else, is_some, length, take,
  drop, select, any, all, find, All, length-append, length-select-le, All-append, All-select,
  select-select, All-take, select-holds, nth, All-map, All-weaken, All-nth, any-append, any-map,
  any-select, any-weaken, any-map-with, take_all, length-take-le, length-select-not, Result, ok,
  err, ◌>>=◌, ◌>>◌, throw_if, >>=-eq-ok, Result-cases,
}

-- An entry of the list that a key source returns: a text, or an object with or without a `kid`.
pub data RawKey : Type 0 where
  plain : (secret : String) → RawKey
  named : (kid : Option String) → (secret : String) → RawKey

pub record Key : Type 0 where
  pub kid : String
  pub secret : String

pub data KeyError : Type 0 where
  no_keys invalid_secret duplicate_kid : KeyError

abbrev pub secret_of : RawKey → String
secret_of (plain s) = s
secret_of (named kid s) = s

-- A given kid that is '' counts as none.
abbrev pub kid_of : (key_id : String → String) → RawKey → String
kid_of key_id (plain s) = key_id s
kid_of key_id (named none s) = key_id s
kid_of key_id (named (some kid) s) = if str_eq kid "" then key_id s else kid

unfoldable pub normalise_each :
    (key_id : String → String)
    → (is_valid : String → Bool) → (seen : List String) → List RawKey
    → Result KeyError (List Key)
normalise_each key_id is_valid seen [] = ok []
normalise_each key_id is_valid seen (k ∷ ks) =
    let kid = kid_of key_id k in
    let rest = normalise_each key_id is_valid (kid ∷ seen) ks in
    throw_if (not (is_valid (secret_of k))) invalid_secret
    >> throw_if (any (str_eq kid) seen) duplicate_kid
    >> (rest >>= λ keys. ok ((record { kid = kid; secret = secret_of k }) ∷ keys))

unfoldable pub normalise_keys :
    (key_id : String → String)
    → (is_valid : String → Bool) → List RawKey
    → Result KeyError (List Key)
normalise_keys key_id is_valid [] = err no_keys
normalise_keys key_id is_valid (k ∷ ks) = normalise_each key_id is_valid [] (k ∷ ks)

-- The signer that is made of a secret is left out: it goes with the secret, and making it is taken
-- not to throw, as the secret has passed the check.
pub record Lease : Type 0 where
  pub key : Key
  pub leases : ℕ

abbrev pub unleased : Key → Lease
unleased k = record { key = k; leases = 0 }

pub record Generation : Type 0 where
  pub generation : ℕ
  pub entries : List Lease
  pub retired_at : Option ℕ

pub record Manager : Type 0 where
  pub generations : List Generation
  pub current_generation : ℕ
  pub retirement_grace : ℕ

abbrev pub grace_over : (grace now : ℕ) → Option ℕ → Bool
grace_over grace now none = leb grace now
grace_over grace now (some t) = leb (t + grace) now

abbrev pub is_purged : Manager → (now : ℕ) → Generation → Bool
is_purged m now g =
    not (eqb g.generation m.current_generation)
    && grace_over m.retirement_grace now g.retired_at
    && all (λ e. eqb e.leases 0) g.entries

unfoldable pub purge_retired : (now : ℕ) → Manager → Manager
purge_retired now m = record m { generations = select (λ g. not (is_purged m now g)) m.generations }

abbrev pub retire : (current now : ℕ) → Generation → Generation
retire current now g =
    if eqb g.generation current
    then g
    else record g { retired_at = or_else g.retired_at (some now) }

unfoldable pub install : List Key → (now : ℕ) → Manager → Manager
install keys now m =
    let generation = m.current_generation + 1 in
    let fresh : Generation = record {
      generation = generation;
      entries = map unleased keys;
      retired_at = none;
    } in
    purge_retired now (record m {
      generations = map (retire generation now) (m.generations ++ (fresh ∷ []));
      current_generation = generation;
    })

abbrev pub is_numbered : ℕ → Generation → Bool
is_numbered n g = eqb g.generation n

unfoldable pub get_current : Manager → Option Generation
get_current m = find (is_numbered m.current_generation) m.generations

abbrev pub change_leases : (ℕ → ℕ) → Lease → Lease
change_leases change e = record e { leases = change e.leases }

abbrev pub with_leases : (ℕ → ℕ) → (number : ℕ) → Generation → Generation
with_leases change number g =
    if is_numbered number g then record g { entries = map (change_leases change) g.entries } else g

unfoldable pub snapshot : Manager → Manager
snapshot m = record m {
  generations = map (with_leases (λ n. n + 1) m.current_generation) m.generations;
}

-- The `release` of a snapshot of a generation.
unfoldable pub release : (number now : ℕ) → Manager → Manager
release number now m =
    purge_retired now
      (record m { generations = map (with_leases (λ n. n - 1) number) m.generations })

-- Whether the keys that were read have the kids of the current ones.
abbrev pub same_kids : List Key → Option Generation → Bool
same_kids keys none = false
same_kids keys (some g) =
    eqb (length keys) (length g.entries)
    && all (λ k. any (λ e. str_eq e.key.kid k.kid) g.entries) keys

-- `refresh`, once the source has answered: whether the keys were replaced.
unfoldable pub refresh :
    (key_id : String → String)
    → (is_valid : String → Bool) → List RawKey
    → (now : ℕ) → Manager
    → Result KeyError (Manager × Bool)
refresh key_id is_valid raw now m = normalise_keys key_id is_valid raw >>= λ keys.
    ok (if same_kids keys (get_current m) then (m, false) else (install keys now m, true))
