-- ===== src/Paging.antt =====
-- Paged tables: frontend/src/components/ui/Pagination.tsx, and the state of the tables in
-- components/rbac/RoleList.tsx and components/users/UserList.tsx that it pages. The
-- order of the rows is in Tables.antt. Pages are counted from 0.
pub mod Buttons
pub mod Rows
pub mod Moves
pub mod Tables
pub mod Sorting
mod Tests
use clustervision.Base.{
  ℕ, zero, suc, ◌+◌, ◌-◌, ◌*◌, ◌/◌, String, Bool, true, false, not, ◌&&◌, ◌||◌, List, [], ◌∷◌, ◌++◌,
  Option, none, some, num_eq, leb, includes, if◌then◌else◌, slice, ◌==◌,
}

-- `Math.ceil(total / pageSize)`
unfoldable pub total_pages : ℕ → ℕ → ℕ
total_pages total size = (total + (size - 1)) / size

-- An entry of `pages`: a page or `'…'`.
pub data Slot : Type 0 where
  number : ℕ → Slot
  dots : Slot

-- `i === 0 || i === totalPages - 1 || Math.abs(i - page) <= 1`
unfoldable pub is_kept : ℕ → ℕ → ℕ → Bool
is_kept n page i = num_eq i 0 || num_eq (i + 1) n || (leb i (page + 1) && leb page (i + 1))

-- `pages[pages.length - 1] === '…'`
unfoldable pub ends_with_dots : List Slot → Bool
ends_with_dots [] = false
ends_with_dots (number i ∷ []) = false
ends_with_dots (dots ∷ []) = true
ends_with_dots (_ ∷ x ∷ xs) = ends_with_dots (x ∷ xs)

-- The body of the loop.
unfoldable pub add_page : ℕ → ℕ → ℕ → List Slot → List Slot
add_page n page i pages =
    if is_kept n page i
    then pages ++ number i ∷ []
    else (if not (ends_with_dots pages) then pages ++ dots ∷ [] else pages)

-- The loop with `rest` rounds left.
unfoldable pub page_loop : ℕ → ℕ → ℕ → ℕ → List Slot → List Slot
page_loop zero n page i pages = pages
page_loop (suc rest) n page i pages = page_loop rest n page (suc i) (add_page n page i pages)

unfoldable pub pages : ℕ → ℕ → List Slot
pages n page = page_loop n n page 0 []

-- `from` and `to` of the label, where the pager is shown.
unfoldable pub first_row : ℕ → ℕ → ℕ
first_row page size = page * size + 1

unfoldable pub last_row : ℕ → ℕ → ℕ → ℕ
last_row page size total = if leb ((page + 1) * size) total then (page + 1) * size else total

-- The pager is left out where there is at most one page.
unfoldable pub has_pager : ℕ → ℕ → Bool
unfolding total_pages
has_pager total size = not (leb (total_pages total size) 1)

pub data Move : Type 0 where
  previous next : Move
  to : ℕ → Move

-- The page `p` has a button.
unfoldable pub shows : ℕ → List Slot → Bool
shows p [] = false
shows p (number i ∷ xs) = num_eq i p || shows p xs
shows p (dots ∷ xs) = shows p xs

-- The buttons that are shown and enabled.
unfoldable pub is_enabled : ℕ → ℕ → ℕ → Move → Bool
unfolding total_pages has_pager pages shows
is_enabled total size page previous = has_pager total size && not (num_eq page 0)
is_enabled total size page next =
    has_pager total size && not (leb (total_pages total size - 1) page)
is_enabled total size page (to p) =
    has_pager total size && shows p (pages (total_pages total size) page)

-- `onChange`
unfoldable pub moved : ℕ → Move → ℕ
moved page previous = page - 1
moved page next = page + 1
moved page (to p) = p

-- `sorted.slice(page * PAGE_SIZE, (page + 1) * PAGE_SIZE)`
unfoldable pub paginated {ℓ} : {A : Type ℓ} → ℕ → ℕ → List A → List A
paginated size page sorted = slice (page * size) ((page + 1) * size) sorted

pub data SortDir : Type 0 where
  asc desc : SortDir

-- The state of a table but for its open rows.
pub record Table : Type 0 where
  pub sort_col : String
  pub sort_dir : SortDir
  pub page : ℕ

abbrev flipped : SortDir → SortDir
flipped asc = desc
flipped desc = asc

unfoldable toggle_sort : String → Table → Table
toggle_sort col t =
    if t.sort_col == col
    then record t { sort_dir = flipped t.sort_dir; page = 0 }
    else record t { sort_col = col; sort_dir = asc; page = 0 }
