-- ===== src/KeyManager/Leases.antt =====
-- Generations that are in use (src/key-manager.js).
use x402_facilitator_stellar.Common.{
  ℕ, suc, ◌+◌, ◌-◌, ◌≤◌, String, ◌≡◌, refl, ap, ◌∙◌, inl, inr, Bool, true, false, not, some, List,
  [], ◌∷◌, map, arith, eqb, if◌then◌else◌, Bool-cases, all, find, All, All-weaken, Result, ok, err,
  Result-cases,
}
use x402_facilitator_stellar.KeyManager.{
  RawKey, Key, KeyError, Lease, Generation, Manager, normalise_keys, is_purged, purge_retired,
  retire, install, is_numbered, get_current, change_leases, with_leases, snapshot, release,
  same_kids, refresh,
}
use x402_facilitator_stellar.KeyManager.Numbers.{find-map, find-select, find-append, find-holds}

pub data Op : Type 0 where
  snapshots : Op
  releases : (number now : ℕ) → Op
  refreshes : List RawKey → (now : ℕ) → Op
  purges : (now : ℕ) → Op

abbrev pub after_refresh : Manager → Result KeyError (Manager × Bool) → Manager
after_refresh m (err e) = m
after_refresh m (ok (m', done)) = m'

module _ (key_id : String → String) (is_valid : String → Bool) where
  unfoldable pub apply : Op → Manager → Manager
  apply snapshots m = snapshot m
  apply (releases number now) m = release number now m
  apply (refreshes raw now) m = after_refresh m (refresh key_id is_valid raw now m)
  apply (purges now) m = purge_retired now m

  unfoldable pub apply_all : List Op → Manager → Manager
  unfolding apply
  apply_all [] m = m
  apply_all (op ∷ ops) m = apply_all ops (apply op m)

-- How often a generation's snapshots are released.
abbrev pub releases_of : ℕ → List Op → ℕ
releases_of n [] = 0
releases_of n (snapshots ∷ ops) = releases_of n ops
releases_of n (releases number now ∷ ops) =
    if eqb n number then releases_of n ops + 1 else releases_of n ops
releases_of n (refreshes raw now ∷ ops) = releases_of n ops
releases_of n (purges now ∷ ops) = releases_of n ops

-- The generation is there with its keys, each leased at least `least` times.
abbrev pub IsLeased : (number : ℕ) → (keys : List Key) → (least : ℕ) → List Generation → Type 0
IsLeased number keys least gens =
    (g : Generation) × (find (is_numbered number) gens ≡ some g)
    × (map (λ e. e.key) g.entries ≡ keys)
    × All (λ e. least ≤ e.leases) g.entries

leased_used :
    (entries : List Lease) (k : Key) (ks : List Key) (least : ℕ)
    → map (λ e. e.key) entries ≡ k ∷ ks
    → All (λ e. suc least ≤ e.leases) entries
    → all (λ e. eqb e.leases 0) entries ≡ false
leased_used [] k ks least h used = cc
leased_used (e ∷ es) k ks least h used = ground (arith, used.0)

purge-IsLeased :
    (number : ℕ) (k : Key) (ks : List Key) (least now : ℕ) (m : Manager)
    → IsLeased number (k ∷ ks) (suc least) m.generations
    → IsLeased number (k ∷ ks) (suc least) (purge_retired now m).generations
unfolding purge_retired
purge-IsLeased number k ks least now m (g, found, keys, used) =
    let in_use = leased_used g.entries k ks least keys used in
    (
      g,
      find-select number (λ x. not (is_purged m now x)) m.generations g found
          (ground (arith, in_use)),
      keys,
      used,
    )

retire-IsLeased :
    (number current now least : ℕ) (keys : List Key) (gens : List Generation)
    → IsLeased number keys least gens
    → IsLeased number keys least (map (retire current now) gens)
retire-IsLeased number current now least keys gens (g, found, same, used) = (
  retire current now g,
  find-map number (retire current now) gens g (λ x. ground arith) found,
  ground (arith, same),
  ground (arith, used),
)

changed_entries :
    (change : ℕ → ℕ) (least least' : ℕ) (keys : List Key) (entries : List Lease)
    → ((n : ℕ) → least ≤ n → least' ≤ change n)
    → All (λ e. least ≤ e.leases) entries
    → (map (λ e. e.key) (map (change_leases change) entries) ≡ map (λ e. e.key) entries)
      × All (λ e. least' ≤ e.leases) (map (change_leases change) entries)
changed_entries change least least' keys [] h used = (refl, tt)
changed_entries change least least' keys (e ∷ es) h used =
    let (same, rest) = changed_entries change least least' keys es h used.1 in
    (ap (λ ks. e.key ∷ ks) same, (h e.leases used.0, rest))

leases-IsLeased :
    (change : ℕ → ℕ) (number other least least' : ℕ) (keys : List Key) (gens : List Generation)
    → (eqb number other ≡ false → least' ≤ least)
    → (eqb number other ≡ true → (n : ℕ) → least ≤ n → least' ≤ change n)
    → IsLeased number keys least gens
    → IsLeased number keys least' (map (with_leases change other) gens)
leases-IsLeased change number other least least' keys gens fewer h (g, found, same, used) =
    let moved = find-map number (with_leases change other) gens g (λ x. ground arith) found in
    let numbered = find-holds number gens g found in
    elim (Bool-cases (is_numbered other g)) [
      | inl its ↦
          let name : eqb number other ≡ true = ground (arith, numbered, its) in
          let (kept, enough) = changed_entries change least least' keys g.entries (h name) used in
          (with_leases change other g, moved, rw its (kept ∙ same), rw its enough)
      | inr others ↦ (
        with_leases change other g,
        moved,
        rw others same,
        rw others (
            All-weaken (λ e. least ≤ e.leases) (λ e. least' ≤ e.leases) g.entries
              (λ e l. omega (arith, l, fewer (ground (arith, numbered, others)))) used),
      )
    ]

install-IsLeased :
    (number : ℕ) (k : Key) (ks keys : List Key) (least now : ℕ) (m : Manager)
    → IsLeased number (k ∷ ks) (suc least) m.generations
    → IsLeased number (k ∷ ks) (suc least) (install keys now m).generations
unfolding install
install-IsLeased number k ks keys least now m (g, found, same, used) =
    purge-IsLeased number k ks least now _ (
      retire-IsLeased number (m.current_generation + 1) now (suc least) (k ∷ ks) _
        (g, find-append number m.generations _ g found, same, used))

module _ (key_id : String → String) (is_valid : String → Bool) where
  apply-IsLeased :
      (op : Op) (ops : List Op) (number : ℕ) (k : Key) (ks : List Key) (m : Manager)
      → IsLeased number (k ∷ ks) (suc (releases_of number (op ∷ ops))) m.generations
      → IsLeased number
          (k ∷ ks)
          (suc (releases_of number ops))
          (apply key_id is_valid op m).generations
  unfolding apply snapshot release refresh
  apply-IsLeased snapshots ops number k ks m leased =
      let r = suc (releases_of number ops) in
      leases-IsLeased (λ n. n + 1) number m.current_generation r r (k ∷ ks) m.generations
        (λ e. omega arith) (λ e n h. omega (arith, h)) leased
  apply-IsLeased (releases other now) ops number k ks m leased =
      purge-IsLeased number k ks (releases_of number ops) now _ (
        leases-IsLeased (λ n. n - 1) number other _ (suc (releases_of number ops)) (k ∷ ks)
          m.generations (λ e. ground (arith, e)) (λ e n h. ground (arith, e, h)) leased)
  apply-IsLeased (refreshes raw now) ops number k ks m leased =
      elim (Result-cases (normalise_keys key_id is_valid raw)) [
        | inl (e, refused) ↦ rw refused leased
        | inr (keys, read) ↦ elim (Bool-cases (same_kids keys (get_current m))) [
          | inl same ↦ rw (read, same) leased
          | inr other ↦
              rw (read, other)
                (install-IsLeased number k ks keys (releases_of number ops) now m leased)
        ]
      ]
  apply-IsLeased (purges now) ops number k ks m leased =
      purge-IsLeased number k ks (releases_of number ops) now m leased

  apply_all-IsLeased :
      (ops : List Op) (number : ℕ) (k : Key) (ks : List Key) (m : Manager)
      → IsLeased number (k ∷ ks) (suc (releases_of number ops)) m.generations
      → IsLeased number (k ∷ ks) 1 (apply_all key_id is_valid ops m).generations
  unfolding apply_all
  apply_all-IsLeased [] number k ks m leased = leased
  apply_all-IsLeased (op ∷ ops) number k ks m leased =
      apply_all-IsLeased ops number k ks (apply key_id is_valid op m)
        (apply-IsLeased op ops number k ks m leased)

-- A snapshot of the current generation keeps it: as long as it is not released more often than it
-- was leased besides, the generation is there with all its keys after any snapshots, rotations,
-- releases and purges, at any times.
pub snapshot_keeps :
    (key_id : String → String) (is_valid : String → Bool) (ops : List Op) (k : Key) (ks : List Key)
    (least : ℕ) (m : Manager)
    → IsLeased m.current_generation (k ∷ ks) least m.generations
    → releases_of m.current_generation ops ≤ least
    → IsLeased m.current_generation
        (k ∷ ks)
        1
        (apply_all key_id is_valid ops (snapshot m)).generations
unfolding snapshot
snapshot_keeps key_id is_valid ops k ks least m leased balanced =
    let number = m.current_generation in
    apply_all-IsLeased key_id is_valid ops number k ks (snapshot m) (
      leases-IsLeased (λ n. n + 1) number number least (suc (releases_of number ops)) (k ∷ ks)
        m.generations (λ e. ground (arith, e)) (λ e n h. omega (arith, h, balanced)) leased)
