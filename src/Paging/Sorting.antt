-- ===== src/Paging/Sorting.antt =====
-- The pages of the sorted tables.
use mathlib.Core.Ordering
use mathlib.Core.Ordering.{Ordering, lt, eq, gt}
use mathlib.Core.Path.{subst}
use clustervision.Base.{
  ℕ, ◌<◌, String, ◌≡◌, refl, sym, ap, ◌∙◌, true, false, List, [], ◌∷◌, ◌==◌, length, arith,
  Bool-cases, inl, inr, ltb,
}
use clustervision.Base.Bags.{of_list, with_all, front}
use clustervision.Types.{User, user_type_text}
use clustervision.Roles.{RoleRead}
use clustervision.Paging.{SortDir, asc, desc, Table, total_pages}
use clustervision.Paging.Rows.{pages_from, paginated-all}
use clustervision.Paging.Tables.{
  is_gt, insert, sort, directed, num_compare, number_of, role_cmp, user_cmp, role_page_size,
  user_page_size, sorted_roles, sorted_users,
}

-- Exchanging what is compared turns the answer around.
abbrev pub Flips {ℓ} : {A : Type ℓ} → (A → A → Ordering) → Type ℓ
Flips {A = A} cmp = (a b : A) → cmp b a ≡ Ordering.swap (cmp a b)

module _ {ℓ} {A : Type ℓ} (cmp : A → A → Ordering) where
  abbrev Below : A → List A → Type 0
  Below y [] = Unit
  Below y (z ∷ zs) = is_gt (cmp y z) ≡ false

  -- No row is greater than the next one.
  abbrev pub IsSorted : List A → Type 0
  IsSorted [] = Unit
  IsSorted (x ∷ xs) = Below x xs × IsSorted xs

  insert-bag : (x : A) (ys : List A) → of_list (insert cmp x ys) ≡ of_list (x ∷ ys)
  unfolding insert with_all
  insert-bag x [] = refl
  insert-bag x (y ∷ ys) = elim (Bool-cases (is_gt (cmp x y))) [
    | inl e ↦ rw e (ap (with_all (y ∷ [])) (insert-bag x ys) ∙ front (y ∷ []) x ys)
    | inr e ↦ rw e refl
  ]

  sort-bag : (xs : List A) → of_list (sort cmp xs) ≡ of_list xs
  unfolding sort with_all
  sort-bag [] = refl
  sort-bag (x ∷ xs) = insert-bag x (sort cmp xs) ∙ ap (with_all (x ∷ [])) (sort-bag xs)

  turned : (o p : Ordering) → p ≡ Ordering.swap o → is_gt o ≡ true → is_gt p ≡ false
  unfolding Ordering.swap
  turned gt lt e g = refl
  turned gt eq e g = refl
  turned gt gt e g = cc
  turned lt p e g = cc
  turned eq p e g = cc

  insert-Below :
      (x y : A) (ys : List A) → Below y ys → is_gt (cmp y x) ≡ false → Below y (insert cmp x ys)
  unfolding insert
  insert-Below x y [] b h = h
  insert-Below x y (z ∷ zs) b h = elim (Bool-cases (is_gt (cmp x z))) [
    | inl e ↦ rw e b
    | inr e ↦ rw e h
  ]

  insert-IsSorted : Flips cmp → (x : A) (ys : List A) → IsSorted ys → IsSorted (insert cmp x ys)
  unfolding insert
  insert-IsSorted f x [] v = (tt, tt)
  insert-IsSorted f x (y ∷ ys) v = elim (Bool-cases (is_gt (cmp x y))) [
    | inl e ↦
        rw e (
          insert-Below x y ys v.0 (turned (cmp x y) (cmp y x) (f x y) e),
          insert-IsSorted f x ys v.1,
        )
    | inr e ↦ rw e (e, v)
  ]

  sort-IsSorted : Flips cmp → (xs : List A) → IsSorted (sort cmp xs)
  unfolding sort
  sort-IsSorted f [] = tt
  sort-IsSorted f (x ∷ xs) = insert-IsSorted f x (sort cmp xs) (sort-IsSorted f xs)

directed-Flips {ℓ} :
    {A : Type ℓ} (d : SortDir) (cmp : A → A → Ordering) → Flips cmp → Flips (directed d cmp)
directed-Flips asc cmp f a b = f a b
directed-Flips desc cmp f a b = ap Ordering.swap (f a b)

pub num_compare-Flips : Flips num_compare
unfolding Ordering.swap
num_compare-Flips m n = elim (Bool-cases (ltb m n)) [
  | inl e ↦ ground arith
  | inr e ↦ elim (Bool-cases (ltb n m)) [ inl k ↦ rw (e, k) refl | inr k ↦ rw (e, k) refl ]
]

module _ (compare : String → String → Ordering) (flips : Flips compare) where
  role_cmp-Flips : (col : String) → Flips (role_cmp compare col)
  unfolding role_cmp Ordering.swap
  role_cmp-Flips col a b = elim (Bool-cases (col == "name")) [
    | inl e ↦ rw (e, role_cmp) (flips a.name b.name)
    | inr e ↦ elim (Bool-cases (col == "rules")) [
      | inl k ↦ rw (e, k, role_cmp) (num_compare-Flips (length a.rules) (length b.rules))
      | inr k ↦ elim (Bool-cases (col == "status")) [
        | inl l ↦
            rw (e, k, l, role_cmp)
              (num_compare-Flips (number_of a.is_system) (number_of b.is_system))
        | inr l ↦ rw (e, k, l, role_cmp) refl
      ]
    ]
  ]

  user_cmp-Flips : (time : String → ℕ) (col : String) → Flips (user_cmp compare time col)
  unfolding user_cmp Ordering.swap
  user_cmp-Flips time col a b = elim (Bool-cases (col == "name")) [
    | inl e ↦ rw (e, user_cmp) (flips a.name b.name)
    | inr e ↦ elim (Bool-cases (col == "type")) [
      | inl k ↦
          rw (e, k, user_cmp) (flips (user_type_text a.user_type) (user_type_text b.user_type))
      | inr k ↦ elim (Bool-cases (col == "created_at")) [
        | inl l ↦ rw (e, k, l, user_cmp) (num_compare-Flips (time a.created_at) (time b.created_at))
        | inr l ↦ rw (e, k, l, user_cmp) refl
      ]
    ]
  ]

pages-IsSorted {ℓ} :
    {A : Type ℓ} (cmp : A → A → Ordering) (size : ℕ) (xs : List A)
    → 0 < size
    → Flips cmp
    → let rows = pages_from size (total_pages (length (sort cmp xs)) size) 0 (sort cmp xs) in
      (of_list rows ≡ of_list xs) × IsSorted cmp rows
pages-IsSorted cmp size xs pos f =
    let all = paginated-all size (sort cmp xs) pos in
    (ap of_list all ∙ sort-bag cmp xs, subst (IsSorted cmp) (sym all) (sort-IsSorted cmp f xs))

-- If exchanging two texts turns their comparison around: one after the other, the pages of the table
-- of the roles show each role that it is given exactly as often as it is given, and no row is
-- greater than the next one in the column and the direction that are chosen.
pub role_pages :
    (compare : String → String → Ordering)
    → Flips compare
    → (t : Table) (roles : List RoleRead)
    → let sorted = sorted_roles compare t roles in
      let rows = pages_from role_page_size (total_pages (length sorted) role_page_size) 0 sorted in
      (of_list rows ≡ of_list roles)
      × IsSorted (directed t.sort_dir (role_cmp compare t.sort_col)) rows
unfolding sorted_roles
role_pages compare flips t roles =
    let cmp = role_cmp compare t.sort_col in
    pages-IsSorted (directed t.sort_dir cmp) role_page_size roles (omega arith)
      (directed-Flips t.sort_dir cmp (role_cmp-Flips compare flips t.sort_col))

-- The same of the table of the users, where `time` reads a date.
user_pages :
    (compare : String → String → Ordering)
    → Flips compare
    → (time : String → ℕ) (t : Table) (users : List User)
    → let sorted = sorted_users compare time t users in
      let rows = pages_from user_page_size (total_pages (length sorted) user_page_size) 0 sorted in
      (of_list rows ≡ of_list users)
      × IsSorted (directed t.sort_dir (user_cmp compare time t.sort_col)) rows
unfolding sorted_users
user_pages compare flips time t users =
    let cmp = user_cmp compare time t.sort_col in
    pages-IsSorted (directed t.sort_dir cmp) user_page_size users (omega arith)
      (directed-Flips t.sort_dir cmp (user_cmp-Flips compare flips time t.sort_col))
