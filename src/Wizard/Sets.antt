-- ===== src/Wizard/Sets.antt =====
-- The sets of namespaces: membership after each operation, and no name twice.
use clustervision.Base.{
  String, ◌≡◌, refl, Bool, true, false, not, ◌&&◌, ◌||◌, List, [], ◌∷◌, ◌++◌, ◌==◌, eq_iff,
  includes, includes-append, filter, arith,
}
use clustervision.Wizard.{set_add, set_delete, set_adds}

includes_same : (s : List String) (a b : String) → a ≡ b → includes s a ≡ true → includes s b ≡ true
includes_same s a b e h = rw e at h

pub includes-set_add :
    (s : List String) (a b : String) → includes (set_add s a) b ≡ (includes s b || a == b)
unfolding set_add
includes-set_add s a b =
    ground (arith, includes-append s (a ∷ []) b, includes_same s a b, eq_iff a b)

pub includes-set_delete :
    (s : List String) (a b : String) → includes (set_delete s a) b ≡ (includes s b && not (a == b))
unfolding set_delete
includes-set_delete [] a b = refl
includes-set_delete (x ∷ s) a b =
    ground (arith, includes-set_delete s a b, eq_iff x a, eq_iff x b, eq_iff a b)

-- No text stands twice in the list.
abbrev pub Distinct : List String → Type 0
Distinct [] = Unit
Distinct (x ∷ xs) = (includes xs x ≡ false) × Distinct xs

Distinct-append_one :
    (s : List String) (a : String) → Distinct s → includes s a ≡ false → Distinct (s ++ a ∷ [])
Distinct-append_one [] a d e = (refl, tt)
Distinct-append_one (x ∷ s) a (f, d) e =
    ground (arith, Distinct-append_one s a d, includes-append s (a ∷ []) x, eq_iff a x, eq_iff x a)

pub set_add-Distinct : (s : List String) (a : String) → Distinct s → Distinct (set_add s a)
unfolding set_add
set_add-Distinct s a d = ground (arith, Distinct-append_one s a d)

pub set_delete-Distinct : (s : List String) (a : String) → Distinct s → Distinct (set_delete s a)
unfolding set_delete
set_delete-Distinct [] a d = tt
set_delete-Distinct (x ∷ s) a (f, d) =
    ground (arith, set_delete-Distinct s a d, includes-set_delete s a x)

pub includes-set_adds :
    (s as' : List String) (b : String)
    → includes (set_adds s as') b ≡ (includes s b || includes as' b)
unfolding set_adds
includes-set_adds s [] b = ground arith
includes-set_adds s (a ∷ as') b =
    ground (arith, includes-set_adds (set_add s a) as' b, includes-set_add s a b)

-- What a filter leaves.
pub includes-filter :
    (p : String → Bool) (s : List String) (b : String)
    → includes (filter p s) b ≡ (includes s b && p b)
includes-filter p [] b = refl
includes-filter p (x ∷ s) b = ground (arith, includes-filter p s b, eq_iff x b)
