-- ===== src/Hooks/Refreshing.antt =====
-- Which cached queries a successful mutation marks as stale.
use clustervision.Base.{
  String, ◌==◌, Bool-cases, eq_iff, arith, refl, ◌⊎◌, ◌≡◌, inl, inr, Bool, false, List, [], ◌∷◌,
  ◌++◌, some,
}
use clustervision.Base.Json.{str, bool}
use clustervision.Types.{
  CreateUserPayload, ImportUserPayload, AccessRequestCreatePayload, AddClusterPayload,
}
use clustervision.Hooks.{Key, Effect, invalidate}
use clustervision.Hooks.Rbac
use clustervision.Hooks.Users
use clustervision.Hooks.AccessRequests
use clustervision.Hooks.Accounts
use clustervision.Hooks.Keys.{
  Asked, cluster_roles, roles, user_permissions, users, unmanaged_sa, token_history, sa_tokens,
  access_requests, jit_policies, clusters, my_link, user_roles, namespaces, namespace_access,
  scopes, hook,
}

-- The mutations with the arguments that they were made with.
pub data Change : Type 0 where
  created_cluster_role updated_cluster_role : Rbac.ClusterRoleArgs → Change
  deleted_cluster_role : String → Change
  created_role updated_role : Rbac.RoleArgs → Change
  deleted_role : Rbac.DeleteRoleArgs → Change
  assigned : String → Rbac.AssignRoleArgs → Change
  revoked : String → Rbac.RevokeRoleArgs → Change
  created_user : CreateUserPayload → Change
  imported_user : ImportUserPayload → Change
  deleted_user : Users.DeleteUserArgs → Change
  deleted_history : String → Change
  cleared_history : Change
  revoked_token : Users.RevokeTokenArgs → Change
  rotated_token : Users.RotateTokenArgs → Change
  requested : AccessRequestCreatePayload → Change
  approved denied ended : String → Change
  set_policy : AccessRequests.SetPolicyArgs → Change
  deleted_policy : AccessRequests.DeletePolicyArgs → Change
  added_cluster : AddClusterPayload → Change
  removed_cluster : String → Change
  linked : String → Accounts.LinkArgs → Change
  unlinked : String → Change
  granted : String → Accounts.SetRoleArgs → Change
  withdrawn : String → String → Change

-- What the success callback of the hook does, under the active cluster `c`.
pub effects : String → Change → List Effect
unfolding Rbac.use_create_cluster_role Rbac.use_update_cluster_role Rbac.use_delete_cluster_role
    Rbac.use_create_role Rbac.use_update_role Rbac.use_delete_role Rbac.use_assign_role
    Rbac.use_revoke_role Users.use_create_user Users.use_import_user Users.use_delete_user
    Users.use_delete_history_entry Users.use_clear_history Users.use_revoke_sa_token
    Users.use_rotate_sa_token AccessRequests.use_create_access_request
    AccessRequests.use_approve_access_request AccessRequests.use_deny_access_request
    AccessRequests.use_revoke_access_request AccessRequests.use_set_jit_policy
    AccessRequests.use_delete_jit_policy Accounts.use_add_cluster Accounts.use_remove_cluster
    Accounts.use_set_link Accounts.use_clear_link Accounts.use_set_user_role
    Accounts.use_delete_user_role
effects c (created_cluster_role a) = (Rbac.use_create_cluster_role c).on_success a
effects c (updated_cluster_role a) = (Rbac.use_update_cluster_role c).on_success a
effects c (deleted_cluster_role a) = (Rbac.use_delete_cluster_role c).on_success a
effects c (created_role a) = (Rbac.use_create_role c).on_success a
effects c (updated_role a) = (Rbac.use_update_role c).on_success a
effects c (deleted_role a) = (Rbac.use_delete_role c).on_success a
effects c (assigned u a) = (Rbac.use_assign_role c u).on_success a
effects c (revoked u a) = (Rbac.use_revoke_role c u).on_success a
effects c (created_user a) = (Users.use_create_user c).on_success a
effects c (imported_user a) = (Users.use_import_user c).on_success a
effects c (deleted_user a) = (Users.use_delete_user c).on_success a
effects c (deleted_history a) = (Users.use_delete_history_entry c).on_success a
effects c cleared_history = (Users.use_clear_history c).on_success tt
effects c (revoked_token a) = (Users.use_revoke_sa_token c).on_success a
effects c (rotated_token a) = (Users.use_rotate_sa_token c).on_success a
effects c (requested a) = (AccessRequests.use_create_access_request c).on_success a
effects c (approved a) = (AccessRequests.use_approve_access_request c).on_success a
effects c (denied a) = (AccessRequests.use_deny_access_request c).on_success a
effects c (ended a) = (AccessRequests.use_revoke_access_request c).on_success a
effects c (set_policy a) = AccessRequests.use_set_jit_policy.on_success a
effects c (deleted_policy a) = AccessRequests.use_delete_jit_policy.on_success a
effects c (added_cluster a) = Accounts.use_add_cluster.on_success a
effects c (removed_cluster a) = (Accounts.use_remove_cluster c).on_success a
effects c (linked u a) = (Accounts.use_set_link u).on_success a
effects c (unlinked u) = (Accounts.use_clear_link u).on_success tt
effects c (granted u a) = (Accounts.use_set_user_role u).on_success a
effects c (withdrawn u a) = (Accounts.use_delete_user_role u).on_success a

-- For each mutation, queries that list what it writes.
pub data Lists : Change → Asked → Type 0 where
  cluster_role_created :
      (a : Rbac.ClusterRoleArgs) (b : Bool) → Lists (created_cluster_role a) (cluster_roles b)
  cluster_role_updated :
      (a : Rbac.ClusterRoleArgs) (b : Bool) → Lists (updated_cluster_role a) (cluster_roles b)
  cluster_role_deleted : (n : String) (b : Bool) → Lists (deleted_cluster_role n) (cluster_roles b)
  role_created : (a : Rbac.RoleArgs) → Lists (created_role a) (roles a.namespace)
  role_updated : (a : Rbac.RoleArgs) → Lists (updated_role a) (roles a.namespace)
  role_deleted : (a : Rbac.DeleteRoleArgs) → Lists (deleted_role a) (roles a.namespace)
  role_assigned : (u : String) (a : Rbac.AssignRoleArgs) → Lists (assigned u a) (user_permissions u)
  role_revoked : (u : String) (a : Rbac.RevokeRoleArgs) → Lists (revoked u a) (user_permissions u)
  user_created : (a : CreateUserPayload) → Lists (created_user a) users
  user_imported : (a : ImportUserPayload) → Lists (imported_user a) users
  sa_managed : (a : ImportUserPayload) → Lists (imported_user a) unmanaged_sa
  user_deleted : (a : Users.DeleteUserArgs) → Lists (deleted_user a) users
  history_deleted : (id : String) → Lists (deleted_history id) token_history
  history_cleared : Lists cleared_history token_history
  token_revoked : (a : Users.RevokeTokenArgs) → Lists (revoked_token a) sa_tokens
  token_rotated : (a : Users.RotateTokenArgs) → Lists (rotated_token a) sa_tokens
  access_requested : (a : AccessRequestCreatePayload) → Lists (requested a) access_requests
  access_approved : (id : String) → Lists (approved id) access_requests
  access_denied : (id : String) → Lists (denied id) access_requests
  access_ended : (id : String) → Lists (ended id) access_requests
  policy_set : (a : AccessRequests.SetPolicyArgs) → Lists (set_policy a) jit_policies
  policy_deleted : (a : AccessRequests.DeletePolicyArgs) → Lists (deleted_policy a) jit_policies
  cluster_added : (a : AddClusterPayload) → Lists (added_cluster a) clusters
  cluster_removed : (n : String) → Lists (removed_cluster n) clusters
  link_set : (u : String) (a : Accounts.LinkArgs) → Lists (linked u a) my_link
  link_cleared : (u : String) → Lists (unlinked u) my_link
  role_granted : (u : String) (a : Accounts.SetRoleArgs) → Lists (granted u a) (user_roles (some u))
  role_withdrawn : (u s : String) → Lists (withdrawn u s) (user_roles (some u))

-- `matches k key`: invalidating `k` reaches the query of `key`. The code relies on the documented
-- match by prefix: a key reaches what it is a prefix of, and no key with another name in front.
module _ (matches : Key → Key → Type 0) (by_prefix : (k rest : Key) → matches k (k ++ rest))
    (by_name : (n m : String) (k key : Key) → matches (str n ∷ k) (str m ∷ key) → n ≡ m) where
  abbrev pub Reaches : List Effect → Key → Type 0
  Reaches [] key = ⊥
  Reaches (invalidate k ∷ es) key = matches k key ⊎ Reaches es key
  Reaches (_ ∷ es) key = Reaches es key

  -- Each mutation reaches the queries of `Lists`.
  effects-Reaches :
      (c : String) (on : Bool) (ch : Change) (q : Asked)
      → Lists ch q
      → Reaches (effects c ch) (hook c on q).key
  unfolding effects hook
  effects-Reaches c on _ _ (cluster_role_created a b) = inl (by_prefix _ (bool b ∷ []))
  effects-Reaches c on _ _ (cluster_role_updated a b) = inl (by_prefix _ (bool b ∷ []))
  effects-Reaches c on _ _ (cluster_role_deleted n b) = inl (by_prefix _ (bool b ∷ []))
  effects-Reaches c on _ _ (sa_managed a) = inr (inl (by_prefix _ []))
  effects-Reaches c on _ _ (link_set u a) = inr (inl (by_prefix _ []))
  effects-Reaches c on _ _ (link_cleared u) = inr (inl (by_prefix _ []))
  effects-Reaches c on _ _ _ = inl (by_prefix _ [])

  -- An effect list that invalidates one key misses the keys of another name.
  misses :
      {n m : String} {k key : Key} → (n == m) ≡ false → ¬ (matches (str n ∷ k) (str m ∷ key) ⊎ ⊥)
  misses {n} {m} {k} {key} ne (inl h) = ground (arith, by_name n m k key h, eq_iff n m)
  misses {n} {m} {k} {key} ne (inr x) = elim x [ ]

  removed-misses :
      (c d name : String) (on : Bool)
      → ¬ Reaches (effects c (removed_cluster name)) (hook d on scopes).key
  unfolding effects hook
  removed-misses c d name on h = elim (Bool-cases (c == name)) [
    | inl e ↦ misses refl (rw e at h)
    | inr e ↦ misses refl (rw e at h)
  ]

  -- Where invalidating a key reaches the keys that it is a prefix of, and no key with another name
  -- in front: creating a user refreshes the users of its cluster, but the namespaces of no cluster;
  -- assigning a role refreshes the permissions of the user, but who has access to a namespace for
  -- no namespace; adding and removing a cluster refresh the clusters, but not the scopes that roles
  -- are granted on.
  pub effects-miss :
      (c d u name ns : String) (on : Bool) (user : CreateUserPayload) (role : Rbac.AssignRoleArgs)
      (added : AddClusterPayload)
      → Reaches (effects c (created_user user)) (hook c on users).key
        × (¬ Reaches (effects c (created_user user)) (hook d on namespaces).key)
        × Reaches (effects c (assigned u role)) (hook c on (user_permissions u)).key
        × (¬ Reaches (effects c (assigned u role)) (hook d on (namespace_access ns)).key)
        × Reaches (effects c (added_cluster added)) (hook c on clusters).key
        × (¬ Reaches (effects c (added_cluster added)) (hook d on scopes).key)
        × Reaches (effects c (removed_cluster name)) (hook c on clusters).key
        × (¬ Reaches (effects c (removed_cluster name)) (hook d on scopes).key)
  unfolding effects hook
  effects-miss c d u name ns on user role added = (
    effects-Reaches c on _ _ (user_created user),
    misses refl,
    effects-Reaches c on _ _ (role_assigned u role),
    misses refl,
    effects-Reaches c on _ _ (cluster_added added),
    misses refl,
    effects-Reaches c on _ _ (cluster_removed name),
    removed-misses c d name on,
  )
