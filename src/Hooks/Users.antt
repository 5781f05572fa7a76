-- ===== src/Hooks/Users.antt =====
-- frontend/src/hooks/useUsers.ts, useTokens.ts and useKubeconfig.ts
use clustervision.Base.{String, [], ◌∷◌, Option, none, some, ◌<>◌}
use clustervision.Base.Json.{str}
use clustervision.Types.{UserType, CreateUserPayload, ImportUserPayload, KubeconfigRequest}
use clustervision.Api.Users
use clustervision.Hooks.{
  Query, query, Effect, invalidate, toast_success, download, callback, Mutation, mutation,
}

unfoldable pub use_users : String → Query
use_users cluster = query (str "users" ∷ str cluster ∷ []) Users.list none

unfoldable pub use_create_user : String → Mutation CreateUserPayload
use_create_user cluster =
    mutation Users.create (λ a. invalidate (str "users" ∷ str cluster ∷ []) ∷ callback ∷ [])

unfoldable pub use_unmanaged_service_accounts : String → Query
use_unmanaged_service_accounts cluster =
    query (str "unmanaged-sa" ∷ str cluster ∷ []) Users.list_unmanaged_service_accounts none

unfoldable pub use_import_user : String → Mutation ImportUserPayload
use_import_user cluster = mutation Users.import_user (λ a.
    invalidate (str "users" ∷ str cluster ∷ [])
    ∷ invalidate (str "unmanaged-sa" ∷ str cluster ∷ [])
    ∷ toast_success "User imported"
    ∷ callback
    ∷ [])

-- types/user.ts
pub record DeleteUserArgs : Type 0 where
  pub username : String
  pub user_type : UserType
  pub namespace : Option String

unfoldable pub use_delete_user : String → Mutation DeleteUserArgs
use_delete_user cluster =
    mutation (λ a. Users.delete_user a.username a.user_type a.namespace)
      (λ a. invalidate (str "users" ∷ str cluster ∷ []) ∷ toast_success "User deleted" ∷ [])

unfoldable pub use_token_history : String → Query
use_token_history cluster =
    query (str "token-history" ∷ str cluster ∷ []) Users.list_history (some 30000)

unfoldable pub use_delete_history_entry : String → Mutation String
use_delete_history_entry cluster =
    mutation Users.delete_history_entry
      (λ id. invalidate (str "token-history" ∷ str cluster ∷ []) ∷ [])

unfoldable pub use_clear_history : String → Mutation (Unit {0})
use_clear_history cluster =
    mutation (λ _. Users.clear_history)
      (λ _. invalidate (str "token-history" ∷ str cluster ∷ []) ∷ [])

unfoldable pub use_sa_tokens : String → Query
use_sa_tokens cluster = query (str "sa-tokens" ∷ str cluster ∷ []) Users.list_sa_tokens (some 30000)

pub record RevokeTokenArgs : Type 0 where
  pub secret_name : String
  pub namespace : String

pub record RotateTokenArgs : Type 0 where
  pub secret_name : String
  pub sa_name : String
  pub namespace : String

unfoldable pub use_revoke_sa_token : String → Mutation RevokeTokenArgs
use_revoke_sa_token cluster =
    mutation (λ a. Users.revoke_sa_token a.secret_name a.namespace)
      (λ a. invalidate (str "sa-tokens" ∷ str cluster ∷ []) ∷ toast_success "Token revoked" ∷ [])

unfoldable pub use_rotate_sa_token : String → Mutation RotateTokenArgs
use_rotate_sa_token cluster =
    mutation (λ a. Users.rotate_sa_token a.secret_name a.sa_name a.namespace)
      (λ a. invalidate (str "sa-tokens" ∷ str cluster ∷ []) ∷ toast_success "Token rotated" ∷ [])

unfoldable use_generate_kubeconfig : Mutation KubeconfigRequest
use_generate_kubeconfig = mutation Users.generate (λ a. [])

-- `downloadKubeconfig`: the name of the file.
unfoldable pub download_kubeconfig : String → Effect
download_kubeconfig username = download (username <> "-kubeconfig.yaml")
