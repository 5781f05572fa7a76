-- ===== src/Hooks/Accounts.antt =====
-- frontend/src/hooks/useCluster.ts, useBackendHealth.ts, useLink.ts and usePermissions.ts
use clustervision.Base.{String, Bool, false, [], ◌∷◌, ◌++◌, Option, none, some, ◌==◌, if◌then◌else◌}
use clustervision.Base.Json.{Value, null, str}
use clustervision.Auth.{RoleName}
use clustervision.Types.{AddClusterPayload}
use clustervision.Api.{get}
use clustervision.Api.Accounts
use clustervision.Api.Clusters
use clustervision.Hooks.{
  Query, query, present, invalidate, toast_success, set_cluster, callback, Mutation, mutation,
}

unfoldable pub use_cluster_info : String → Query
use_cluster_info cluster =
    record (query (str "cluster-info" ∷ str cluster ∷ []) Clusters.info (some 60000)) {
      retry = some false;
    }

unfoldable pub use_clusters : Query
use_clusters = query (str "clusters" ∷ []) Clusters.list (some 30000)

unfoldable pub use_add_cluster : Mutation AddClusterPayload
use_add_cluster =
    mutation Clusters.add
      (λ a. invalidate (str "clusters" ∷ []) ∷ toast_success "Cluster added" ∷ callback ∷ [])

-- `active` is the active cluster when the answer comes.
unfoldable pub use_remove_cluster : String → Mutation String
use_remove_cluster active = mutation Clusters.remove (λ name.
    invalidate (str "clusters" ∷ []) ∷ (if active == name then set_cluster "local" ∷ [] else [])
    ++ toast_success "Cluster removed" ∷ [])

unfoldable pub use_backend_health : Query
use_backend_health = record (query (str "backend-health" ∷ []) (get "/auth/me") (some 60000)) {
  retry = some false;
}

unfoldable pub use_my_link : Query
use_my_link = query (str "my-link" ∷ []) Accounts.my_link (some 30000)

pub record LinkArgs : Type 0 where
  pub name : String
  pub namespace : String

-- `username` is not null where the mutation is used.
unfoldable pub use_set_link : String → Mutation LinkArgs
use_set_link username =
    mutation (λ a. Accounts.set_link username a.name a.namespace)
      (λ a.
        invalidate (str "cv-users" ∷ [])
        ∷ invalidate (str "my-link" ∷ [])
        ∷ toast_success "Identity linked"
        ∷ [])

unfoldable pub use_clear_link : String → Mutation (Unit {0})
use_clear_link username =
    mutation (λ _. Accounts.clear_link username)
      (λ _.
        invalidate (str "cv-users" ∷ [])
        ∷ invalidate (str "my-link" ∷ [])
        ∷ toast_success "Identity unlinked"
        ∷ [])

unfoldable pub use_scopes : Query
use_scopes = query (str "permission-scopes" ∷ []) Accounts.list_scopes (some 30000)

abbrev opt_key : Option String → Value
opt_key none = null
opt_key (some s) = str s

abbrev or_null : Option String → String
or_null none = "null"
or_null (some s) = s

abbrev is_given : Option String → Bool
is_given none = false
is_given (some s) = present s

-- Without a username the query is off, so its call is not made.
unfoldable pub use_user_roles : Option String → Query
use_user_roles username =
    record (query (str "user-roles" ∷ opt_key username ∷ [])
      (Accounts.list_user_roles (or_null username)) none) { enabled = is_given username }

pub record SetRoleArgs : Type 0 where
  pub scope : String
  pub role : RoleName

unfoldable pub use_set_user_role : String → Mutation SetRoleArgs
use_set_user_role username =
    mutation (λ a. Accounts.set_user_role username a.scope a.role)
      (λ a.
        invalidate (str "user-roles" ∷ str username ∷ [])
        ∷ invalidate (str "cv-users" ∷ [])
        ∷ toast_success "Role saved"
        ∷ [])

unfoldable pub use_delete_user_role : String → Mutation String
use_delete_user_role username =
    mutation (λ scope. Accounts.delete_user_role username scope)
      (λ scope.
        invalidate (str "user-roles" ∷ str username ∷ [])
        ∷ invalidate (str "cv-users" ∷ [])
        ∷ toast_success "Role removed"
        ∷ [])
