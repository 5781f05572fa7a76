-- ===== src/Paging/Buttons.antt =====
-- The list of page buttons.
use mathlib.Core.Path.{subst}
use clustervision.Base.{
  ℕ, zero, suc, ◌+◌, ◌≤◌, ◌<◌, ◌≡◌, refl, sym, ◌∙◌, ap, Bool, true, false, ◌&&◌, List, [], ◌∷◌,
  ◌++◌, leb, ltb, if◌then◌else◌, arith, Bool-cases, inl, inr,
}
use clustervision.Paging.{
  Slot, number, dots, is_kept, ends_with_dots, add_page, page_loop, pages, shows,
}

abbrev starts_with_dots : List Slot → Bool
starts_with_dots (dots ∷ xs) = true
starts_with_dots _ = false

-- The slots stand for the pages from `i` up to `n`, in order: each page has a button, or lies in a
-- gap that is one `…`; no two of these stand side by side.
pub data Covers : ℕ → ℕ → List Slot → Type 0 where
  end : {n : ℕ} → Covers n n []
  button : {i n : ℕ} {xs : List Slot} → Covers (suc i) n xs → Covers i n (number i ∷ xs)
  gap :
      {i j n : ℕ} {xs : List Slot}
      → i < j
      → starts_with_dots xs ≡ false
      → Covers j n xs
      → Covers i n (dots ∷ xs)

-- What the loop appends; `dotted` tells whether the list ends with `…`.
slots : ℕ → ℕ → ℕ → ℕ → Bool → List Slot
slots zero n page i dotted = []
slots (suc rest) n page i dotted =
    let in_gap = slots rest n page (suc i) true in
    let after_button = slots rest n page (suc i) false in
    if is_kept n page i then number i ∷ after_button else if dotted then in_gap else dots ∷ in_gap

abbrev is_dots : Slot → Bool
is_dots dots = true
is_dots _ = false

ends_with_dots-append : (xs : List Slot) (x : Slot) → ends_with_dots (xs ++ x ∷ []) ≡ is_dots x
unfolding ends_with_dots
ends_with_dots-append [] (number i) = refl
ends_with_dots-append [] dots = refl
ends_with_dots-append (y ∷ []) (number i) = refl
ends_with_dots-append (y ∷ []) dots = refl
ends_with_dots-append (y ∷ z ∷ xs) x = ends_with_dots-append (z ∷ xs) x

append_one : (xs ys : List Slot) (x : Slot) → (xs ++ x ∷ []) ++ ys ≡ xs ++ x ∷ ys
append_one [] ys x = refl
append_one (y ∷ xs) ys x = ap (λ zs. y ∷ zs) (append_one xs ys x)

append_nil : (xs : List Slot) → xs ++ [] ≡ xs
append_nil [] = refl
append_nil (x ∷ xs) = ap (λ zs. x ∷ zs) (append_nil xs)

add_page-slots :
    (rest n page i : ℕ) (acc : List Slot)
    → let t = add_page n page i acc in
      t ++ slots rest n page (suc i) (ends_with_dots t)
      ≡ acc ++ slots (suc rest) n page i (ends_with_dots acc)
unfolding slots add_page
add_page-slots rest n page i acc = ground (
  arith,
  ends_with_dots-append acc (number i),
  ends_with_dots-append acc dots,
  append_one acc (slots rest n page (suc i) false) (number i),
  append_one acc (slots rest n page (suc i) true) dots,
)

page_loop-slots :
    (rest n page i : ℕ) (acc : List Slot)
    → page_loop rest n page i acc ≡ acc ++ slots rest n page i (ends_with_dots acc)
unfolding page_loop slots
page_loop-slots zero n page i acc = sym (append_nil acc)
page_loop-slots (suc rest) n page i acc =
    page_loop-slots rest n page (suc i) (add_page n page i acc) ∙ add_page-slots rest n page i acc

pages-slots : (n page : ℕ) → pages n page ≡ slots n n page 0 false
unfolding pages ends_with_dots
pages-slots n page = page_loop-slots n n page 0 []

-- Within a gap the slots go on at a later page, with a button.
Resumes : ℕ → ℕ → List Slot → Type 0
Resumes i n xs = (j : ℕ) × (i ≤ j) × (starts_with_dots xs ≡ false) × Covers j n xs

slots-cover :
    (rest n page i : ℕ)
    → i + rest ≡ n
    → Covers i n (slots rest n page i false) × Resumes i n (slots rest n page i true)
unfolding slots Resumes
slots-cover zero n page i e =
    let here : Covers i n [] = subst (λ m. Covers i m []) (omega (arith, e)) end in
    (here, (i, omega arith, refl, here))
slots-cover (suc rest) n page i e =
    let (plain, (j, le, apart, later)) = slots-cover rest n page (suc i) (omega (arith, e)) in
    elim (Bool-cases (is_kept n page i)) [
      | inl k ↦ rw (k, slots) (button plain, (i, omega arith, refl, button plain))
      | inr k ↦
          rw (k, slots) (gap (omega (arith, le)) apart later, (j, omega (arith, le), apart, later))
    ]

is_kept_same : (n page i k : ℕ) → i ≡ k → is_kept n page i ≡ is_kept n page k
is_kept_same n page i k e = rw e refl

shows-slots :
    (rest n page i k : ℕ) (dotted : Bool)
    → shows k (slots rest n page i dotted) ≡ (leb i k && (ltb k (i + rest) && is_kept n page k))
unfolding slots shows
shows-slots zero n page i k dotted = ground arith
shows-slots (suc rest) n page i k dotted = elim (Bool-cases (is_kept n page i)) [
  | inl kept ↦
      rw (kept, slots)
        (ground (arith, is_kept_same n page i k, shows-slots rest n page (suc i) k false))
  | inr left_out ↦ elim dotted [
    | true ↦
        rw (left_out, slots)
          (ground (arith, is_kept_same n page i k, shows-slots rest n page (suc i) k true))
    | false ↦
        rw (left_out, slots)
          (ground (arith, is_kept_same n page i k, shows-slots rest n page (suc i) k true))
  ]
]

-- For every number of pages and every current page, the buttons and gaps stand for all pages in
-- order, each gap for one page or more, and no two gaps side by side; the pages with a button are
-- exactly the first one, the last one, the current one and those beside it.
pub pages-Covers :
    (n page : ℕ)
    → Covers 0 n (pages n page) × ((k : ℕ) → shows k (pages n page) ≡ (ltb k n && is_kept n page k))
pages-Covers n page =
    rw (pages-slots n page) (
      (slots-cover n n page 0 (omega arith)).0,
      λ k. ground (arith, shows-slots n n page 0 k false),
    )
