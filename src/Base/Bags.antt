-- ===== src/Base/Bags.antt =====
-- Lists up to the order of their members.
use mathlib.Core.Path.{◌≡◌, refl, sym, ap, ◌∙◌}
use mathlib.Core.List.{List, [], ◌∷◌, ◌++◌, map, append-nil, append_assoc}
use mathlib.Core.Quot
use mathlib.Core.Quot.{Quot, Quot-set}

-- One member is moved to the front.
pub data ToFront {ℓ} {A : Type ℓ} : List A → List A → Type ℓ where
  to_front : (xs : List A) (a : A) (ys : List A) → ToFront (xs ++ a ∷ ys) (a ∷ xs ++ ys)

abbrev pub Bag {ℓ} : Type ℓ → Type ℓ
Bag A = Quot (ToFront {A = A})

module _ {ℓ} {A : Type ℓ} where
  abbrev pub of_list : List A → Bag A
  of_list = Quot.mk

  pub front : (xs : List A) (a : A) (ys : List A) → of_list (xs ++ a ∷ ys) ≡ of_list (a ∷ xs ++ ys)
  front xs a ys = Quot.sound (to_front xs a ys)

  pub after-ToFront : (zs xs ys : List A) → ToFront xs ys → of_list (zs ++ xs) ≡ of_list (zs ++ ys)
  after-ToFront zs _ _ (to_front xs a ys) =
      ap of_list (sym (append_assoc zs xs (a ∷ ys)))
      ∙ front (zs ++ xs) a ys
      ∙ ap (λ us. of_list (a ∷ us)) (append_assoc zs xs ys)
      ∙ sym (front zs a (xs ++ ys))

  -- The members of a list with those of a bag.
  unfoldable pub with_all : List A → Bag A → Bag A
  with_all zs = Quot.lift Quot-set (λ xs. of_list (zs ++ xs)) (after-ToFront zs)

  -- The order of two lists does not matter.
  pub swap : (xs ys : List A) → of_list (xs ++ ys) ≡ of_list (ys ++ xs)
  unfolding with_all
  swap xs [] = ap of_list (append-nil xs)
  swap xs (y ∷ ys) = front xs y ys ∙ ap (with_all (y ∷ [])) (swap xs ys)

  before-ToFront :
      (xs ys : List A) → ToFront xs ys → (zs : List A) → of_list (xs ++ zs) ≡ of_list (ys ++ zs)
  before-ToFront _ _ (to_front xs a ys) zs =
      ap of_list (append_assoc xs (a ∷ ys) zs)
      ∙ front xs a (ys ++ zs)
      ∙ ap (λ us. of_list (a ∷ us)) (sym (append_assoc xs ys zs))

  pub with_all-ToFront :
      (xs ys : List A) → ToFront xs ys → (b : Bag A) → with_all xs b ≡ with_all ys b
  unfolding with_all
  with_all-ToFront xs ys m = Quot.ind (λ _. hlevel Quot-set) (before-ToFront xs ys m)

  -- All members of two bags.
  unfoldable pub union : Bag A → Bag A → Bag A
  union b c = Quot.lift Quot-set (λ xs. with_all xs c) (λ xs ys m. with_all-ToFront xs ys m c) b

  pub union-of_list : (xs ys : List A) → union (of_list xs) (of_list ys) ≡ of_list (xs ++ ys)
  unfolding union with_all
  union-of_list xs ys = refl

module _ {ℓ κ} {A : Type ℓ} {B : Type κ} (f : A → B) where
  map-append : (xs ys : List A) → map f (xs ++ ys) ≡ map f xs ++ map f ys
  map-append [] ys = refl
  map-append (x ∷ xs) ys = ap (f x ∷◌) (map-append xs ys)

  pub map-ToFront : (xs ys : List A) → ToFront xs ys → of_list (map f xs) ≡ of_list (map f ys)
  map-ToFront _ _ (to_front xs a ys) =
      ap of_list (map-append xs (a ∷ ys))
      ∙ front (map f xs) (f a) (map f ys)
      ∙ ap (λ us. of_list (f a ∷ us)) (sym (map-append xs ys))

  -- The images of the members.
  unfoldable pub map_bag : Bag A → Bag B
  map_bag = Quot.lift Quot-set (λ xs. of_list (map f xs)) map-ToFront
