-- ===== src/Common/Dict.antt =====
-- A JavaScript Map with text keys: entries in insertion order, one for each key.
use Prim.Native.Nat.{◌+◌, ◌≤◌}
use Prim.Native.String.{String}
use mathlib.Core.Path.{◌≡◌, refl, sym, ◌∙◌}
use mathlib.Core.Bool.{false}
use mathlib.Core.Option.{Option, none, some}
use mathlib.Core.Logic.{◌≢◌, inl, inr}
use mathlib.Core.List.{List, [], ◌∷◌, map}
use native.Mathlib.Omega.{arith}
use text.Mathlib.Text.{◌==◌}
use text.Mathlib.TextEquality.{eq_iff}
use x402_facilitator_stellar.Common.Tests.{if◌then◌else◌, Bool-cases}
use x402_facilitator_stellar.Common.Lists.{length, All}

abbrev pub Map {ℓ} : Type ℓ → Type ℓ
Map V = List (String × V)

module _ {ℓ} {V : Type ℓ} where
  unfoldable pub get : String → Map V → Option V
  get k [] = none
  get k ((j, v) ∷ m) = if j == k then some v else get k m

  unfoldable pub set : String → V → Map V → Map V
  set k v [] = (k, v) ∷ []
  set k v ((j, w) ∷ m) = if j == k then (j, v) ∷ m else (j, w) ∷ set k v m

  unfoldable pub delete : String → Map V → Map V
  delete k [] = []
  delete k ((j, w) ∷ m) = if j == k then delete k m else (j, w) ∷ delete k m

  abbrev pub keys : Map V → List String
  keys = map λ e. e.0

  abbrev pub values : Map V → List V
  values = map λ e. e.1

  pub get-set :
      (k j : String) (v : V) (m : Map V) → get j (set k v m) ≡ (if k == j then some v else get j m)
  unfolding get set
  get-set k j v [] = refl
  get-set k j v ((i, w) ∷ m) = ground (arith, eq_iff k j, eq_iff i k, eq_iff i j, get-set k j v m)

  pub get-delete :
      (k j : String) (m : Map V) → get j (delete k m) ≡ (if k == j then none else get j m)
  unfolding get delete
  get-delete k j [] = ground arith
  get-delete k j ((i, w) ∷ m) = ground (arith, eq_iff k j, eq_iff i k, eq_iff i j, get-delete k j m)

  pub length-set-le : (k : String) (v : V) (m : Map V) → length (set k v m) ≤ length m + 1
  unfolding set
  length-set-le k v [] = omega arith
  length-set-le k v ((i, w) ∷ m) = ground (arith, length-set-le k v m)

  pub length-delete-le : (k : String) (m : Map V) → length (delete k m) ≤ length m
  unfolding delete
  length-delete-le k [] = omega arith
  length-delete-le k ((i, w) ∷ m) = ground (arith, length-delete-le k m)

  -- What holds of every entry.
  pub All-set {κ} :
      (P : String × V → Type κ) (k : String) (v : V) (m : Map V)
      → P (k, v)
      → All P m
      → All P (set k v m)
  unfolding set
  All-set P k v [] p h = (p, tt)
  All-set P k v ((i, w) ∷ m) p h = ground (arith, eq_iff i k, All-set P k v m p h.1)

  pub All-get {κ} :
      (P : String → V → Type κ) (k : String) (v : V) (m : Map V)
      → All (λ e. P e.0 e.1) m
      → get k m ≡ some v
      → P k v
  unfolding get
  All-get P k v [] h e = cc
  All-get P k v ((j, w) ∷ m) h e = elim (Bool-cases (j == k)) [
    | inl same ↦
        let name : j ≡ k = ground (arith, eq_iff j k, same) in
        let value : w ≡ v = ground (arith, e, same) in rw (← name, ← value) h.0
    | inr other ↦ All-get P k v m h.1 (sym (rw other refl) ∙ e)
  ]

  -- Every key has one entry.
  abbrev pub IsUnique : Map V → Type ℓ
  IsUnique [] = Unit
  IsUnique ((k, v) ∷ m) = All (λ e. e.0 ≢ k) m × IsUnique m

  pub set-IsUnique : (k : String) (v : V) (m : Map V) → IsUnique m → IsUnique (set k v m)
  unfolding set
  set-IsUnique k v [] h = (tt, tt)
  set-IsUnique k v ((j, w) ∷ m) h = elim (Bool-cases (j == k)) [
    | inl same ↦ rw same h
    | inr other ↦ rw other (
      All-set (λ e. e.0 ≢ j) k v m (λ e. ground (arith, e, other, eq_iff j k)) h.0,
      set-IsUnique k v m h.1,
    )
  ]

-- Texts that the test tells apart are different.
pub str_ne : (s t : String) → (s == t) ≡ false → s ≢ t
str_ne s t h e = ground (arith, eq_iff s t)
