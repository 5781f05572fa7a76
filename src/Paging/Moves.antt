-- ===== src/Paging/Moves.antt =====
-- Where the buttons of the pager lead, and what becomes of the page when the table shrinks.
use native.Mathlib.Omega.{div_any}
use native.Mathlib.Nat.{mod-lt}
use clustervision.Base.{
  ℕ, zero, suc, ◌+◌, ◌-◌, ◌*◌, ◌/◌, ◌%◌, ◌≤◌, ◌<◌, ◌≡◌, true, false, List, [], ◌∷◌, length, arith,
  take, ap, ◌∙◌,
}
use clustervision.Paging.{
  total_pages, has_pager, paginated, Move, previous, next, to, is_enabled, moved,
}
use clustervision.Paging.Buttons.{pages-Covers}
use clustervision.Paging.Rows.{drop_all, take_nil}

-- From a page of the table, every button that is enabled leads to a page of the table.
pub moved-in_range :
    (total size page : ℕ) (m : Move)
    → page < total_pages total size
    → is_enabled total size page m ≡ true
    → moved page m < total_pages total size
unfolding is_enabled moved
moved-in_range total size page previous h e = ground arith
moved-in_range total size page next h e = ground arith
moved-in_range total size page (to p) h e =
    ground (arith, (pages-Covers (total_pages total size) page).1 p)

few_pages :
    (q r size total : ℕ) → size * q + r ≡ total + (size - 1) → r < size → total ≤ size → q ≤ 1
few_pages zero r size total e lt le = omega arith
few_pages (suc zero) r size total e lt le = omega arith
few_pages (suc (suc k)) r size total e lt le = omega (arith, e, lt, le)

total_pages-le-one : (total size : ℕ) → 0 < size → total ≤ size → total_pages total size ≤ 1
unfolding total_pages
total_pages-le-one total size pos le =
    let t = total + (size - 1) in
    few_pages (t / size) (t % size) size total (div_any t size) (mod-lt t pos) le

no_pager : (total size : ℕ) → 0 < size → total ≤ size → has_pager total size ≡ false
unfolding has_pager
no_pager total size pos le = ground (arith, total_pages-le-one total size pos le)

-- A table that stands on its second page and shrinks to one row or more of a single page shows no
-- row, and has no enabled button that leads back, although it still has rows.
shrunk_table :
    {A : Type 0} (size : ℕ) (r : A) (rows : List A)
    → 0 < size
    → length (r ∷ rows) ≤ size
    → (paginated size 1 (r ∷ rows) ≡ [])
      × ((m : Move) → is_enabled (length (r ∷ rows)) size 1 m ≡ false)
unfolding paginated is_enabled
shrunk_table size r rows pos le = (
  ap (take (2 * size - 1 * size)) (drop_all (1 * size) (r ∷ rows) (omega (arith, le)))
      ∙ take_nil (2 * size - 1 * size),
  no_button,
)
  where
    no_button : (m : Move) → is_enabled (suc (length rows)) size 1 m ≡ false
    no_button previous = ground (arith, no_pager (suc (length rows)) size pos le)
    no_button next = ground (arith, no_pager (suc (length rows)) size pos le)
    no_button (to p) = ground (arith, no_pager (suc (length rows)) size pos le)
