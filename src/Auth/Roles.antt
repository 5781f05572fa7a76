-- ===== src/Auth/Roles.antt =====
-- What the selectors of the session store say of the roles.
use clustervision.Base.{
  String, ◌≡◌, ◌≢◌, ◌↔◌, inl, inr, true, not, List, [], ◌∷◌, some, ◌==◌, eq_iff, any, lookup, arith,
  Bool-cases,
}
use clustervision.Auth.{
  RoleName, instance_scope, AuthStore, roles_of, role_for, has_any_cluster_access,
}

-- A scope other than the instance's with a role.
abbrev Somewhere : List (String × RoleName) → Type 0
Somewhere roles =
    (scope : String) × (scope ≢ instance_scope) × (r : RoleName) × (lookup scope roles ≡ some r)

Somewhere-cons :
    (k : String) (r : RoleName) (m : List (String × RoleName))
    → Somewhere m
    → Somewhere ((k, r) ∷ m)
Somewhere-cons k r m (scope, ne, r', e) = elim (Bool-cases (k == scope)) [
  | inl same ↦ (scope, ne, r, rw same)
  | inr other ↦ (scope, ne, r', rw other e)
]

Somewhere-of_any :
    (m : List (String × RoleName)) → any (λ e. not (e.0 == instance_scope)) m ≡ true → Somewhere m
Somewhere-of_any [] h = cc
Somewhere-of_any ((k, r) ∷ m) h = elim (Bool-cases (k == instance_scope)) [
  | inl same ↦ Somewhere-cons k r m (Somewhere-of_any m (rw same at h))
  | inr other ↦ (k, ground (arith, eq_iff k instance_scope), r, ground (arith, eq_iff k k))
]

any_of_somewhere :
    (m : List (String × RoleName)) (scope : String) (r : RoleName)
    → scope ≢ instance_scope
    → lookup scope m ≡ some r
    → any (λ e. not (e.0 == instance_scope)) m ≡ true
any_of_somewhere [] scope r ne e = cc
any_of_somewhere ((k, r') ∷ m) scope r ne e =
    ground (arith, any_of_somewhere m scope r ne, eq_iff k scope, eq_iff k instance_scope)

-- There is cluster access exactly when some scope other than the instance's has a role.
pub has_any_cluster_access_iff :
    (s : AuthStore)
    → (has_any_cluster_access s ≡ true)
      ↔ ((scope : String) × (scope ≢ instance_scope) × (r : RoleName) × (role_for s scope ≡ some r))
unfolding has_any_cluster_access role_for
has_any_cluster_access_iff s =
    (Somewhere-of_any (roles_of s.user), λ h. any_of_somewhere (roles_of s.user) h.0 h.2 h.1 h.3)
