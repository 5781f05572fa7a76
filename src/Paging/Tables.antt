-- ===== src/Paging/Tables.antt =====
-- The rows of components/rbac/RoleList.tsx and components/users/UserList.tsx: their order, their page
-- and which of them are open. The comparison of texts by locale and the time of a date are arguments;
-- the sort of arrays is stable, as the language says.
use mathlib.Core.Ordering
use mathlib.Core.Ordering.{Ordering, lt, eq, gt}
use clustervision.Base.{
  ℕ, ◌-◌, ◌/◌, String, Bool, true, false, not, List, [], ◌∷◌, ◌++◌, ◌==◌, filter, includes, length,
  ltb, if◌then◌else◌,
}
use clustervision.Types.{User, user_type_text}
use clustervision.Roles.{RoleRead}
use clustervision.Paging.{SortDir, asc, desc, Table, paginated}

abbrev pub is_gt : Ordering → Bool
is_gt gt = true
is_gt _ = false

module _ {ℓ} {A : Type ℓ} (cmp : A → A → Ordering) where
  unfoldable pub insert : A → List A → List A
  insert x [] = x ∷ []
  insert x (y ∷ ys) = let rest = insert x ys in if is_gt (cmp x y) then y ∷ rest else x ∷ y ∷ ys

  -- `[...xs].sort(cmp)`
  unfoldable pub sort : List A → List A
  sort [] = []
  sort (x ∷ xs) = insert x (sort xs)

-- `sortDir === 'asc' ? cmp : -cmp`
abbrev pub directed {ℓ} : {A : Type ℓ} → SortDir → (A → A → Ordering) → A → A → Ordering
directed asc cmp a b = cmp a b
directed desc cmp a b = Ordering.swap (cmp a b)

-- The sign of a difference.
abbrev pub num_compare : ℕ → ℕ → Ordering
num_compare m n = if ltb m n then lt else if ltb n m then gt else eq

-- `Number(b)`
abbrev pub number_of : Bool → ℕ
number_of true = 1
number_of false = 0

unfoldable pub role_cmp : (String → String → Ordering) → String → RoleRead → RoleRead → Ordering
role_cmp compare col a b =
    if col == "name"
    then compare a.name b.name
    else if col == "rules"
    then num_compare (length a.rules) (length b.rules)
    else if col == "status"
    then num_compare (number_of a.is_system) (number_of b.is_system)
    else eq

unfoldable pub user_cmp :
    (String → String → Ordering) → (String → ℕ) → String → User → User → Ordering
user_cmp compare time col a b =
    if col == "name"
    then compare a.name b.name
    else if col == "type"
    then compare (user_type_text a.user_type) (user_type_text b.user_type)
    else if col == "created_at"
    then num_compare (time a.created_at) (time b.created_at)
    else eq

abbrev pub role_page_size : ℕ
role_page_size = 25

abbrev pub user_page_size : ℕ
user_page_size = 20

unfoldable pub sorted_roles : (String → String → Ordering) → Table → List RoleRead → List RoleRead
sorted_roles compare t roles = sort (directed t.sort_dir (role_cmp compare t.sort_col)) roles

unfoldable pub sorted_users :
    (String → String → Ordering) → (String → ℕ) → Table → List User → List User
sorted_users compare time t users =
    sort (directed t.sort_dir (user_cmp compare time t.sort_col)) users

-- The rows that are shown.
unfoldable pub role_rows : (String → String → Ordering) → Table → List RoleRead → List RoleRead
role_rows compare t roles = paginated role_page_size t.page (sorted_roles compare t roles)

unfoldable user_rows : (String → String → Ordering) → (String → ℕ) → Table → List User → List User
user_rows compare time t users = paginated user_page_size t.page (sorted_users compare time t users)

-- `toggle`: the open rows, by name.
unfoldable toggle : String → List String → List String
toggle name expanded =
    if includes expanded name then filter (λ n. not (n == name)) expanded else expanded ++ name ∷ []

-- The badge of a certificate: expired, or the days that are left with their colour.
pub data Expiry : Type 0 where
  expired : Expiry
  danger_left warning_left success_left : ℕ → Expiry

-- The times are in milliseconds.
unfoldable expiry_badge : ℕ → ℕ → Expiry
expiry_badge expiry now =
    let days = (expiry - now) / 86400000 in
    if ltb expiry now
    then expired
    else if ltb days 30
    then danger_left days
    else if ltb days 90
    then warning_left days
    else success_left days
