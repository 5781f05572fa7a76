-- ===== src/Paging/Tests.antt =====
-- The pager of a table with ten pages, and the theorems at concrete tables.
use clustervision.Base.{
  ℕ, ◌<◌, ◌≡◌, refl, ◌&&◌, List, [], ◌∷◌, ltb, length, arith, String, ◌==◌, none, false,
  if◌then◌else◌,
}
use clustervision.Paging.{
  number, dots, total_pages, has_pager, pages, page_loop, add_page, is_kept, ends_with_dots, shows,
  paginated, next, is_enabled, moved,
}
use clustervision.Paging.Buttons.{Covers, pages-Covers}
use mathlib.Core.Ordering
use mathlib.Core.Ordering.{Ordering}
use clustervision.Base.Bags.{of_list}
use clustervision.Roles.{RoleRead}
use clustervision.Paging.{Table, desc}
use clustervision.Paging.Rows.{pages_from}
use clustervision.Paging.Tables.{
  num_compare, role_rows, sorted_roles, sort, insert, role_cmp, role_page_size, directed,
}
use clustervision.Paging.Sorting.{Flips, num_compare-Flips, IsSorted, role_pages}
use clustervision.Paging.Moves.{moved-in_range}

ten_pages : pages 10 5 ≡ number 0 ∷ dots ∷ number 4 ∷ number 5 ∷ number 6 ∷ dots ∷ number 9 ∷ []
unfolding pages page_loop add_page is_kept ends_with_dots
ten_pages = refl

abbrev five : List ℕ
five = 1 ∷ 2 ∷ 3 ∷ 4 ∷ 5 ∷ []

second : paginated 2 1 five ≡ 3 ∷ 4 ∷ []
unfolding paginated
second = refl

pages-Covers_example :
    Covers 0 10 (pages 10 5) × ((k : ℕ) → shows k (pages 10 5) ≡ (ltb k 10 && is_kept 10 5 k))
pages-Covers_example = pages-Covers 10 5

-- A comparison that puts one name last.
abbrev rank : String → ℕ
rank s = if s == "view" then 1 else 0

abbrev by_rank : String → String → Ordering
by_rank s t = num_compare (rank s) (rank t)

by_rank-Flips : Flips by_rank
by_rank-Flips s t = num_compare-Flips (rank s) (rank t)

abbrev role_of : String → RoleRead
role_of name = record { name = name; namespace = none; rules = []; is_system = false }

abbrev downwards : Table
downwards = record { sort_col = "name"; sort_dir = desc; page = 0 }

abbrev two_roles : List RoleRead
two_roles = role_of "edit" ∷ role_of "view" ∷ []

view_first : role_rows by_rank downwards two_roles ≡ role_of "view" ∷ role_of "edit" ∷ []
unfolding role_rows sorted_roles sort insert paginated role_cmp Ordering.swap
view_first = refl

role_pages_example :
    let sorted = sorted_roles by_rank downwards two_roles in
    let rows = pages_from role_page_size (total_pages (length sorted) role_page_size) 0 sorted in
    (of_list rows ≡ of_list two_roles) × IsSorted (directed desc (role_cmp by_rank "name")) rows
role_pages_example = role_pages by_rank by_rank-Flips downwards two_roles

moved-in_range_example : moved 1 next < total_pages 5 2
moved-in_range_example =
    moved-in_range 5 2 1 next (unfold total_pages in omega arith)
      (unfold is_enabled has_pager total_pages in refl)
