-- ===== src/Catalog/Listing.antt =====
-- The pages of a listing (src/catalog/memory.js).
use x402_facilitator_stellar.Common.{
  ℕ, zero, suc, ◌+◌, ◌*◌, ◌≤◌, String, ◌≡◌, refl, sym, ap, ◌∙◌, Bool, some, List, [], ◌∷◌, ◌++◌,
  arith, take, drop, take_all,
}
use x402_facilitator_stellar.Catalog.{
  Entry, Catalog, Params, listed, list_resources, apply_common_filters,
}

-- The pages of a limit from an offset on, one after the other.
unfoldable pub read_pages :
    (String → String → Bool) → Params → (limit now : ℕ) → Catalog → (pages offset : ℕ) → List Entry
read_pages locale_le p limit now c zero offset = []
read_pages locale_le p limit now c (suc pages) offset =
    (list_resources locale_le (record p { limit = some limit; offset = some offset }) now c).0
    ++ read_pages locale_le p limit now c pages (offset + limit)

drop_nil : (n : ℕ) → drop {A = Entry} n [] ≡ []
drop_nil zero = refl
drop_nil (suc n) = refl

take_nil : (n : ℕ) → take {A = Entry} n [] ≡ []
take_nil zero = refl
take_nil (suc n) = refl

drop-drop : (m n : ℕ) (xs : List Entry) → drop m (drop n xs) ≡ drop (n + m) xs
drop-drop m zero xs = ap (λ k. drop k xs) (let e : m ≡ 0 + m = omega arith in e)
drop-drop m (suc n) [] = drop_nil m ∙ sym (drop_nil (suc n + m))
drop-drop m (suc n) (x ∷ xs) =
    let e : suc (n + m) ≡ suc n + m = omega arith in drop-drop m n xs ∙ ap (λ k. drop k (x ∷ xs)) e

take-more : (n m : ℕ) (xs : List Entry) → take n xs ++ take m (drop n xs) ≡ take (n + m) xs
take-more zero m xs = ap (λ k. take k xs) (let e : m ≡ 0 + m = omega arith in e)
take-more (suc n) m [] = take_nil m ∙ sym (take_nil (suc n + m))
take-more (suc n) m (x ∷ xs) =
    let e : suc (n + m) ≡ suc n + m = omega arith in
    ap (λ ys. x ∷ ys) (take-more n m xs) ∙ ap (λ k. take k (x ∷ xs)) e

pages_from :
    (locale_le : String → String → Bool) (p : Params) (limit now : ℕ) (c : Catalog) (n o : ℕ)
    → read_pages locale_le p limit now c n o ≡ take (n * limit) (drop o (listed locale_le p now c))
unfolding read_pages list_resources listed apply_common_filters
pages_from locale_le p limit now c zero o =
    let items = drop o (listed locale_le p now c) in
    let e : 0 ≡ 0 * limit = omega arith in ap (λ k. take k items) e
pages_from locale_le p limit now c (suc n) o =
    let items = listed locale_le p now c in
    let e : limit + n * limit ≡ suc n * limit = omega arith in
    ap (λ rest. take limit (drop o items) ++ rest)
      (pages_from locale_le p limit now c n (o + limit))
    ∙ ap (λ rest. take limit (drop o items) ++ take (n * limit) rest)
        (sym (drop-drop limit o items))
    ∙ take-more limit (n * limit) (drop o items)
    ∙ ap (λ k. take k (drop o items)) e

-- Pages of one limit that follow one another, enough of them for the total that each one names,
-- hold every entry of the listing once, in its order.
pub pages_cover :
    (locale_le : String → String → Bool) (p : Params) (limit now : ℕ) (c : Catalog) (n : ℕ)
    → (list_resources locale_le p now c).1 ≤ n * limit
    → read_pages locale_le p limit now c n 0 ≡ listed locale_le p now c
unfolding list_resources
pages_cover locale_le p limit now c n enough =
    pages_from locale_le p limit now c n 0 ∙ take_all (n * limit) (listed locale_le p now c) enough
