-- ===== src/Hooks/Rbac.antt =====
-- frontend/src/hooks/useRbac.ts; `cluster` is the active cluster of the store.
use clustervision.Base.{String, Bool, List, [], ◌∷◌, Option, none, some}
use clustervision.Base.Json.{bool, str}
use clustervision.Types.{UserKind, AssignRolePayload, CheckAccessRequest}
use clustervision.Yaml.{PolicyRule}
use clustervision.Api.Rbac
use clustervision.Hooks.{
  Query, query, present, invalidate, toast_success, callback, Mutation, mutation,
}

unfoldable pub use_cluster_roles : String → Bool → Bool → Query
use_cluster_roles cluster include_system enabled =
    record (query (str "cluster-roles" ∷ str cluster ∷ bool include_system ∷ [])
      (Rbac.list_cluster_roles include_system 500 none) (some 60000)) { enabled = enabled }

unfoldable pub use_roles : String → String → Query
use_roles cluster namespace =
    record (query (str "roles" ∷ str cluster ∷ str namespace ∷ [])
      (Rbac.list_roles namespace 500 none) (some 60000)) { enabled = present namespace }

unfoldable pub use_user_permissions : String → String → Query
use_user_permissions cluster username =
    record (query (str "user-permissions" ∷ str cluster ∷ str username ∷ [])
      (Rbac.get_user_permissions username) (some 120000)) { enabled = present username }

unfoldable pub use_namespaces : String → Query
use_namespaces cluster =
    query (str "namespaces" ∷ str cluster ∷ []) Rbac.list_namespaces (some 120000)

unfoldable pub use_namespace_access : String → String → Query
use_namespace_access cluster namespace =
    record (query (str "namespace-access" ∷ str cluster ∷ str namespace ∷ [])
      (Rbac.get_namespace_access namespace) (some 120000)) { enabled = present namespace }

unfoldable use_check_access : Mutation CheckAccessRequest
use_check_access = record {
  call = Rbac.check_access;
  on_success = λ req. [];
  on_error = λ message. [];
}

pub record ClusterRoleArgs : Type 0 where
  pub name : String
  pub rules : List PolicyRule

pub record RoleArgs : Type 0 where
  pub namespace : String
  pub name : String
  pub rules : List PolicyRule

pub record DeleteRoleArgs : Type 0 where
  pub namespace : String
  pub name : String

pub record AssignRoleArgs : Type 0 where
  pub payload : AssignRolePayload
  pub kind : Option UserKind
  pub sa_namespace : Option String

pub record RevokeRoleArgs : Type 0 where
  pub role_name : String
  pub namespace : Option String

unfoldable pub use_create_cluster_role : String → Mutation ClusterRoleArgs
use_create_cluster_role cluster =
    mutation (λ a. Rbac.create_cluster_role a.name a.rules)
      (λ a.
        invalidate (str "cluster-roles" ∷ str cluster ∷ [])
        ∷ toast_success "ClusterRole created"
        ∷ callback
        ∷ [])

unfoldable pub use_update_cluster_role : String → Mutation ClusterRoleArgs
use_update_cluster_role cluster =
    mutation (λ a. Rbac.update_cluster_role a.name a.rules)
      (λ a.
        invalidate (str "cluster-roles" ∷ str cluster ∷ [])
        ∷ toast_success "ClusterRole updated"
        ∷ callback
        ∷ [])

unfoldable pub use_delete_cluster_role : String → Mutation String
use_delete_cluster_role cluster =
    mutation (λ name. Rbac.delete_cluster_role name)
      (λ name.
        invalidate (str "cluster-roles" ∷ str cluster ∷ [])
        ∷ toast_success "ClusterRole deleted"
        ∷ [])

unfoldable pub use_create_role : String → Mutation RoleArgs
use_create_role cluster =
    mutation (λ a. Rbac.create_role a.namespace a.name a.rules)
      (λ a.
        invalidate (str "roles" ∷ str cluster ∷ str a.namespace ∷ [])
        ∷ toast_success "Role created"
        ∷ callback
        ∷ [])

unfoldable pub use_update_role : String → Mutation RoleArgs
use_update_role cluster =
    mutation (λ a. Rbac.update_role a.namespace a.name a.rules)
      (λ a.
        invalidate (str "roles" ∷ str cluster ∷ str a.namespace ∷ [])
        ∷ toast_success "Role updated"
        ∷ callback
        ∷ [])

unfoldable pub use_delete_role : String → Mutation DeleteRoleArgs
use_delete_role cluster =
    mutation (λ a. Rbac.delete_role a.namespace a.name)
      (λ a.
        invalidate (str "roles" ∷ str cluster ∷ str a.namespace ∷ [])
        ∷ toast_success "Role deleted"
        ∷ [])

unfoldable pub use_assign_role : String → String → Mutation AssignRoleArgs
use_assign_role cluster username =
    mutation (λ a. Rbac.assign_role username a.payload a.kind a.sa_namespace)
      (λ a.
        invalidate (str "user-permissions" ∷ str cluster ∷ str username ∷ [])
        ∷ toast_success "Role assigned"
        ∷ [])

unfoldable pub use_revoke_role : String → String → Mutation RevokeRoleArgs
use_revoke_role cluster username =
    mutation (λ a. Rbac.revoke_role username a.role_name a.namespace)
      (λ a.
        invalidate (str "user-permissions" ∷ str cluster ∷ str username ∷ [])
        ∷ toast_success "Role revoked"
        ∷ [])
