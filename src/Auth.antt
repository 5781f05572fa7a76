-- ===== src/Auth.antt =====
-- frontend/src/store: the session (authStore.ts) and the active cluster (clusterStore.ts).
pub mod Session
pub mod Roles
pub mod Guards
mod Tests
use clustervision.Base.{
  String, ◌≡◌, Bool, true, false, not, ◌||◌, List, [], ◌∷◌, Option, none, some, ◌==◌, any, lookup,
}

pub data RoleName : Type 0 where
  viewer operator approver admin : RoleName

-- The instance pseudo-scope.
abbrev pub instance_scope : String
instance_scope = "_instance"

-- `roles` maps a scope to the role held there; an object's own keys.
pub record AuthUser : Type 0 where
  pub username : String
  pub roles : List (String × RoleName)

pub record AuthStore : Type 0 where
  pub user : Option AuthUser
  pub access_token : Option String

unfoldable signed_out : AuthStore
signed_out = record { user = none; access_token = none }

unfoldable pub set_auth : AuthUser → String → AuthStore → AuthStore
set_auth u token s = record s { user = some u; access_token = some token }

unfoldable pub set_access_token : String → AuthStore → AuthStore
set_access_token token s = record s { access_token = some token }

unfoldable pub clear_auth : AuthStore → AuthStore
clear_auth s = record s { user = none; access_token = none }

abbrev pub roles_of : Option AuthUser → List (String × RoleName)
roles_of none = []
roles_of (some u) = u.roles

-- `get().user?.roles[scope]`
unfoldable pub role_for : AuthStore → String → Option RoleName
role_for s scope = lookup scope (roles_of s.user)

abbrev is_admin : Option RoleName → Bool
is_admin (some admin) = true
is_admin _ = false

abbrev writes : Option RoleName → Bool
writes (some operator) = true
writes (some admin) = true
writes _ = false

unfoldable pub is_instance_admin : AuthStore → Bool
unfolding role_for
is_instance_admin s = is_admin (role_for s instance_scope)

unfoldable pub can_write : AuthStore → String → Bool
unfolding role_for
can_write s scope = writes (role_for s scope)

unfoldable pub has_any_cluster_access : AuthStore → Bool
has_any_cluster_access s = any (λ e. not (e.0 == instance_scope)) (roles_of s.user)

-- The active cluster, kept across sessions.
pub record ClusterStore : Type 0 where
  pub active_cluster : String

unfoldable default_cluster : ClusterStore
default_cluster = record { active_cluster = "local" }

unfoldable pub set_active_cluster : String → ClusterStore → ClusterStore
set_active_cluster name s = record s { active_cluster = name }
