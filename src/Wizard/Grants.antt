-- ===== src/Wizard/Grants.antt =====
-- The role assignments that follow the creation of a user.
use clustervision.Base.{
  ℕ, ◌+◌, sym, ap, ◌∙◌, All, Option, String, ◌≡◌, refl, false, List, [], ◌∷◌, map, none, some, ◌==◌,
  eq_iff, includes, if◌then◌else◌, arith,
}
use mathlib.Core.Path.{subst}
use clustervision.Types.{
  UserType, certificate, service_account, UserKind, user_kind, sa_kind, cluster_role,
  UserWithCredentials,
}
use clustervision.Wizard.{cluster, namespace, Wizard, Effect, assign_role}
use clustervision.Wizard.Finishing.{
  kind_of, sa_of, selected_role, assignment, assignments, finish_created, on_created,
}
use clustervision.Wizard.Sets.{Distinct}

-- The role assignments of a list of effects in the namespace `x`, and those without a namespace.
abbrev grants_in : String → Effect → ℕ
grants_in x (assign_role u p k ns) = elim p.namespace [
  | none ↦ 0
  | some n ↦ if n == x then 1 else 0
]
grants_in x _ = 0

abbrev pub count_granted : String → List Effect → ℕ
count_granted x [] = 0
count_granted x (e ∷ es) = grants_in x e + count_granted x es

abbrev grants_cluster : Effect → ℕ
grants_cluster (assign_role u p k ns) = elim p.namespace [ none ↦ 1 | some n ↦ 0 ]
grants_cluster _ = 0

abbrev pub count_cluster : List Effect → ℕ
count_cluster [] = 0
count_cluster (e ∷ es) = grants_cluster e + count_cluster es

-- How the created user is named in an assignment.
abbrev Names : UserType → String → UserKind → Option String → Type 0
Names service_account ns k at = (k ≡ sa_kind) × (at ≡ some ns)
Names certificate ns k at = (k ≡ user_kind) × (at ≡ none)

-- An assignment is of the role, as a cluster role, to the created user; other effects may be
-- anything.
abbrev pub Gives : UserWithCredentials → UserType → String → Effect → Type 0
Gives d t role (assign_role u p k at) =
    (u ≡ d.name) × (p.role_name ≡ role) × (p.role_kind ≡ cluster_role) × Names t d.namespace k at
Gives d t role _ = Unit

assignment-Gives :
    (s : Wizard) (d : UserWithCredentials) (role : String) (ns : Option String)
    → Gives d s.user_type role (assignment s d role ns)
assignment-Gives s d role ns = (refl, refl, refl, by_type s.user_type)
  where
    by_type : (t : UserType) → Names t d.namespace (kind_of t) (sa_of t d.namespace)
    by_type service_account = (refl, refl)
    by_type certificate = (refl, refl)

each-Gives :
    (s : Wizard) (d : UserWithCredentials) (role : String) (sel : List String)
    → All (Gives d s.user_type role) (map (λ ns. assignment s d role (some ns)) sel)
each-Gives s d role [] = tt
each-Gives s d role (n ∷ sel) = (assignment-Gives s d role (some n), each-Gives s d role sel)

absent-granted :
    (s : Wizard) (d : UserWithCredentials) (role x : String) (sel : List String)
    → includes sel x ≡ false
    → count_granted x (map (λ ns. assignment s d role (some ns)) sel) ≡ 0
absent-granted s d role x [] h = refl
absent-granted s d role x (n ∷ sel) h = ground (arith, absent-granted s d role x sel)

each-granted :
    (s : Wizard) (d : UserWithCredentials) (role x : String) (sel : List String)
    → Distinct sel
    → count_granted x (map (λ ns. assignment s d role (some ns)) sel)
      ≡ (if includes sel x then 1 else 0)
each-granted s d role x [] h = refl
each-granted s d role x (n ∷ sel) (f, h) =
    ground (arith, each-granted s d role x sel h, absent-granted s d role x sel, eq_iff n x)

none-cluster :
    (s : Wizard) (d : UserWithCredentials) (role : String) (sel : List String)
    → count_cluster (map (λ ns. assignment s d role (some ns)) sel) ≡ 0
none-cluster s d role [] = refl
none-cluster s d role (n ∷ sel) = omega (arith, none-cluster s d role sel)

created-assignments :
    (d : UserWithCredentials) (s : Wizard) (role : String)
    → selected_role s ≡ some role
    → (on_created d s).1 ≡ assignments s d role s.scope
unfolding on_created assignments
created-assignments d s role e = rw (e, on_created) refl

-- When the user has been created, the preset has a role, and no namespace is selected twice: what is
-- assigned is that role, as a cluster role, to the created user, who is named by its kind and, for a
-- service account, by its namespace. For the scope of namespaces it is assigned once in each selected
-- one, in no other namespace, and not for the whole cluster; for the scope of the cluster it is
-- assigned once without a namespace, and in no namespace. A preset without a role assigns nothing.
pub on_created-grants :
    (d : UserWithCredentials) (s : Wizard) (x : String)
    → Distinct s.selected_ns
    → let es = (on_created d s).1 in
      ((role : String)
        → selected_role s ≡ some role
        → s.scope ≡ namespace
        → All (Gives d s.user_type role) es
          × (count_granted x es ≡ (if includes s.selected_ns x then 1 else 0))
          × (count_cluster es ≡ 0))
      × ((role : String)
          → selected_role s ≡ some role
          → s.scope ≡ cluster
          → All (Gives d s.user_type role) es × (count_granted x es ≡ 0) × (count_cluster es ≡ 1))
      × (selected_role s ≡ none → (count_granted x es ≡ 0) × (count_cluster es ≡ 0))
unfolding on_created assignments finish_created
on_created-grants d s x dis = (
  (λ role e sc.
      subst
        (λ es.
          All (Gives d s.user_type role) es
          × (count_granted x es ≡ (if includes s.selected_ns x then 1 else 0))
          × (count_cluster es ≡ 0))
        (sym (created-assignments d s role e ∙ ap (assignments s d role) sc))
        (
          each-Gives s d role s.selected_ns,
          each-granted s d role x s.selected_ns dis,
          none-cluster s d role s.selected_ns,
        )),
  (λ role e sc.
      subst
        (λ es.
          All (Gives d s.user_type role) es × (count_granted x es ≡ 0) × (count_cluster es ≡ 1))
        (sym (created-assignments d s role e ∙ ap (assignments s d role) sc))
        ((assignment-Gives s d role none, tt), refl, refl)),
  (λ e. rw (e, on_created) (refl, refl)),
)
