-- ===== src/Paging/Rows.antt =====
-- Which rows the pages of a table show.
use native.Mathlib.Omega.{div_any}
use native.Mathlib.Nat.{mod-lt, le-div_iff_mul-le}
use clustervision.Base.{
  ℕ, zero, suc, ◌+◌, ◌-◌, ◌*◌, ◌≤◌, ◌<◌, ◌≡◌, refl, sym, ◌∙◌, ap, List, [], ◌∷◌, ◌++◌, length, leb,
  if◌then◌else◌, drop, take, arith,
}
use clustervision.Paging.{total_pages, paginated, first_row, last_row}

module _ {ℓ} {A : Type ℓ} where
  take-append-drop : (n : ℕ) (xs : List A) → take n xs ++ drop n xs ≡ xs
  take-append-drop zero xs = refl
  take-append-drop (suc n) [] = refl
  take-append-drop (suc n) (x ∷ xs) = ap (λ ys. x ∷ ys) (take-append-drop n xs)

  drop_nil : (n : ℕ) → ◌≡◌ {A = List A} (drop n []) []
  drop_nil zero = refl
  drop_nil (suc n) = refl

  drop-add : (m n : ℕ) (xs : List A) → drop n (drop m xs) ≡ drop (m + n) xs
  drop-add zero n xs = let e : n ≡ 0 + n = omega arith in ap (λ k. drop k xs) e
  drop-add (suc m) n [] = drop_nil n ∙ sym (drop_nil (suc m + n))
  drop-add (suc m) n (x ∷ xs) =
      let e : suc (m + n) ≡ suc m + n = omega arith in drop-add m n xs ∙ ap (λ k. drop k (x ∷ xs)) e

  pub drop_all : (n : ℕ) (xs : List A) → length xs ≤ n → drop n xs ≡ []
  drop_all zero [] h = refl
  drop_all zero (x ∷ xs) h = absurd (omega (arith, h))
  drop_all (suc n) [] h = refl
  drop_all (suc n) (x ∷ xs) h = drop_all n xs (omega (arith, h))

  pub take_nil : (n : ℕ) → ◌≡◌ {A = List A} (take n []) []
  take_nil zero = refl
  take_nil (suc n) = refl

  length-take :
      (n : ℕ) (xs : List A) → length (take n xs) ≡ (if leb n (length xs) then n else length xs)
  length-take zero xs = ground arith
  length-take (suc n) [] = ground arith
  length-take (suc n) (x ∷ xs) = ground (arith, length-take n xs)

  length-drop : (n : ℕ) (xs : List A) → length (drop n xs) ≡ length xs - n
  length-drop zero xs = omega arith
  length-drop (suc n) [] = omega arith
  length-drop (suc n) (x ∷ xs) = omega (arith, length-drop n xs)

  -- The rows of `rest` pages from page `page` on.
  abbrev pub pages_from : ℕ → ℕ → ℕ → List A → List A
  pages_from size zero page sorted = []
  pages_from size (suc rest) page sorted =
      paginated size page sorted ++ pages_from size rest (suc page) sorted

  pages_from-drop :
      (size rest page : ℕ) (sorted : List A)
      → length sorted ≤ (page + rest) * size
      → pages_from size rest page sorted ≡ drop (page * size) sorted
  unfolding paginated
  pages_from-drop size zero page sorted h = sym (drop_all (page * size) sorted (omega (arith, h)))
  pages_from-drop size (suc rest) page sorted h =
      let width : (page + 1) * size - page * size ≡ size = omega arith in
      let next : suc page * size ≡ page * size + size = omega arith in
      let later =
        pages_from-drop size rest (suc page) sorted (omega (arith, h))
        ∙ ap (λ k. drop k sorted) next
        ∙ sym (drop-add (page * size) size sorted) in
      rw (width, later) (take-append-drop size (drop (page * size) sorted))

total_pages-enough : (total size : ℕ) → 0 < size → total ≤ total_pages total size * size
unfolding total_pages
total_pages-enough total size pos =
    let t = total + (size - 1) in omega (arith, div_any t size, mod-lt t pos, pos)

-- For pages of one row or more: one after the other, the pages of a table show every row exactly
-- once and in order.
pub paginated-all {ℓ} :
    {A : Type ℓ} (size : ℕ) (sorted : List A)
    → 0 < size
    → pages_from size (total_pages (length sorted) size) 0 sorted ≡ sorted
paginated-all size sorted pos =
    let n = total_pages (length sorted) size in
    let start : 0 * size ≡ 0 = omega arith in
    pages_from-drop size n 0 sorted (omega (arith, total_pages-enough (length sorted) size pos))
    ∙ ap (λ k. drop k sorted) start

page-below_total :
    (total size page : ℕ) → 0 < size → page < total_pages total size → page * size < total
unfolding total_pages
page-below_total total size page pos h =
    omega
      (arith, (le-div_iff_mul-le {k = size} {x = suc page} {y = total + (size - 1)} pos).0 h, pos)

-- On every page of a table, for pages of one row or more: the first number of the label is at most
-- the last one, and the page shows as many rows as there are numbers from the one to the other.
label-counts {ℓ} :
    {A : Type ℓ} (size page : ℕ) (sorted : List A)
    → 0 < size
    → page < total_pages (length sorted) size
    → (first_row page size ≤ last_row page size (length sorted))
      × (length (paginated size page sorted) + first_row page size
          ≡ last_row page size (length sorted) + 1)
unfolding first_row last_row paginated
label-counts size page sorted pos h =
    let width : (page + 1) * size - page * size ≡ size = omega arith in
    let below = page-below_total (length sorted) size page pos h in
    let next : (page + 1) * size ≡ page * size + size = omega arith in
    ground (
      arith,
      width,
      next,
      below,
      length-drop (page * size) sorted,
      length-take ((page + 1) * size - page * size) (drop (page * size) sorted),
    )
