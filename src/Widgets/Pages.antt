-- ===== src/Widgets/Pages.antt =====
-- pagination.tsx: the page that is shown, and that the pages together are the list.
use codolympics.Prelude.{
  ℕ, zero, suc, ◌+◌, ◌-◌, ◌*◌, ◌≤◌, ◌<◌, ◌≡◌, refl, sym, ap, ◌∙◌, List, [], ◌∷◌, ◌++◌, Option, none,
  some, arith, ℤ, pos, negsuc, length, take, drop, min, length-take, length-drop, ◌⊎◌, inl, inr,
}
use native.Mathlib.Nat.{div-add-mod, mod-lt, zero-add, add-zero, suc-add, suc-mul, zero-mul}
use codolympics.Widgets.Paging.{pages_of, clamp_page, use_paged}

clamp_page_bounds :
    (pages : ℕ) (asked : Option ℤ)
    → 1 ≤ pages
    → (1 ≤ clamp_page pages asked) × (clamp_page pages asked ≤ pages)
unfolding clamp_page
clamp_page_bounds pages none h = omega arith
clamp_page_bounds pages (some (pos n)) h = omega arith
clamp_page_bounds pages (some (negsuc n)) h = omega arith

-- The rounded-up quotient: `pages` pages hold everything, and no page below the last is beyond it.
pages_of_hold :
    (total size : ℕ) → 0 < size → (1 ≤ pages_of total size) × (total ≤ pages_of total size * size)
unfolding pages_of
pages_of_hold total size h =
    (omega arith, grind (arith, div-add-mod (total + size - 1) size, mod-lt (total + size - 1) h))

page_start :
    (total size page : ℕ)
    → 0 < size
    → 0 < total
    → page ≤ pages_of total size
    → (page - 1) * size < total
unfolding pages_of
page_start total size page h t p =
    grind (arith, div-add-mod (total + size - 1) size, mod-lt (total + size - 1) h)

row_count :
    {T : Type 0} (all : List T) (size start : ℕ)
    → length (take size (drop start all)) ≡ min size (length all - start)
row_count all size start = length-take size (drop start all) ∙ ap (min size) (length-drop start all)

-- With a positive page size and whatever page is asked for, the page shown lies in range, the rows
-- on it are as many as "from-to" counts, and only an empty list shows an empty page.
pub use_paged_range :
    {T : Type 0} (all : List T) (size : ℕ) (asked : Option ℤ)
    → 0 < size
    → let p = use_paged all size asked in
      (1 ≤ p.page)
      × (p.page ≤ p.pages)
      × ((all ≡ []) ⊎ ((1 ≤ p.from) × (length p.rows + p.from ≡ p.to + 1) × (0 < length p.rows)))
unfolding use_paged
use_paged_range [] size asked h =
    let b = clamp_page_bounds (pages_of 0 size) asked (pages_of_hold 0 size h).0 in
    (b.0, b.1, inl refl)
use_paged_range (x ∷ xs) size asked h =
    let total = length (x ∷ xs) in
    let b = clamp_page_bounds (pages_of total size) asked (pages_of_hold total size h).0 in
    let page = clamp_page (pages_of total size) asked in
    let s = page_start total size page h (omega arith) b.1 in
    (
      b.0,
      b.1,
      inr (
        ground arith,
        ground (arith, row_count (x ∷ xs) size ((page - 1) * size)),
        ground (arith, row_count (x ∷ xs) size ((page - 1) * size)),
      ),
    )

-- The rows of the pages up to the `n`-th, one after the other.
pub rows_up_to : {T : Type 0} → List T → ℕ → ℕ → List T
rows_up_to all size zero = []
rows_up_to all size (suc n) =
    rows_up_to all size n ++ (use_paged all size (some (pos (suc n)))).rows

take-add : {T : Type 0} (m n : ℕ) (xs : List T) → take m xs ++ take n (drop m xs) ≡ take (m + n) xs
take-add zero n xs = rw zero-add
take-add (suc m) zero [] = rw add-zero
take-add (suc m) (suc n) [] = rw suc-add
take-add (suc m) n (x ∷ xs) = rw suc-add (ap (λ ys. x ∷ ys) (take-add m n xs))

take-all : {T : Type 0} (n : ℕ) (xs : List T) → length xs ≤ n → take n xs ≡ xs
take-all zero [] h = refl
take-all (suc n) [] h = refl
take-all zero (x ∷ xs) h = absurd (omega arith)
take-all (suc n) (x ∷ xs) h = ap (λ ys. x ∷ ys) (take-all n xs (omega arith))

clamp_page_self : (pages n : ℕ) → suc n ≤ pages → clamp_page pages (some (pos (suc n))) ≡ suc n
unfolding clamp_page
clamp_page_self pages n h = omega arith

page_rows :
    {T : Type 0} (all : List T) (size n : ℕ)
    → suc n ≤ pages_of (length all) size
    → (use_paged all size (some (pos (suc n)))).rows ≡ take size (drop (n * size) all)
unfolding use_paged
page_rows all size n h =
    ap (λ p. take size (drop ((p - 1) * size) all))
      (clamp_page_self (pages_of (length all) size) n h)
    ∙ ap (λ m. take size (drop (m * size) all)) (suc-sub-one n)
  where
    suc-sub-one : (n : ℕ) → suc n - 1 ≡ n
    suc-sub-one n = omega arith

rows_up_to-take :
    {T : Type 0} (all : List T) (size n : ℕ)
    → n ≤ pages_of (length all) size
    → rows_up_to all size n ≡ take (n * size) all
unfolding rows_up_to
rows_up_to-take all size zero h = rw zero-mul
rows_up_to-take all size (suc n) h =
    rw (rows_up_to-take all size n (omega arith), page_rows all size n h)
      (take-add (n * size) size all ∙ ap (λ m. take m all) (sym (suc-mul n size)))

-- With a positive page size the pages, in order, are the list: nothing is shown twice and nothing is
-- left out.
pub rows_up_to_all :
    {T : Type 0} (all : List T) (size : ℕ)
    → 0 < size
    → rows_up_to all size (pages_of (length all) size) ≡ all
rows_up_to_all all size h =
    let (one, hold) = pages_of_hold (length all) size h in
    rows_up_to-take all size (pages_of (length all) size) (omega arith)
    ∙ take-all (pages_of (length all) size * size) all hold
