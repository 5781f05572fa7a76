-- ===== src/Shell.antt =====
-- What surrounds the pages: frontend/src/components/layout/Sidebar.tsx, TopBar.tsx and
-- ClusterSwitcher.tsx, and the sign-in of pages/LoginPage.tsx. Icons, descriptions, texts and styles
-- are left out.
pub mod Links
pub mod Sessions
pub mod Frame
mod Tests
use clustervision.Base.{
  ℕ, String, Bool, true, false, not, ◌&&◌, ◌||◌, List, [], ◌∷◌, ◌++◌, Option, none, some, ◌==◌, any,
  filter, length, lookup, includes, get_or, ltb, if◌then◌else◌,
}
use clustervision.Types.{AccessRequestStatus, pending, AccessRequest}
use clustervision.Auth.{
  RoleName, admin, AuthStore, AuthUser, ClusterStore, set_auth, clear_auth, is_instance_admin,
  has_any_cluster_access, set_active_cluster,
}
use clustervision.Auth.Guards.{LoginResponse}

-- An entry of the sidebar.
pub record Link : Type 0 where
  pub to : String
  pub label : String

-- `CLUSTER_SCOPED_LINKS`
abbrev pub cluster_scoped_links : List String
cluster_scoped_links = "/users" ∷ "/rbac" ∷ "/kubeconfig" ∷ "/tokens" ∷ []

abbrev pub links : List Link
links =
    record { to = "/dashboard"; label = "Dashboard" }
    ∷ record { to = "/users"; label = "Users" }
    ∷ record { to = "/rbac"; label = "Permissions" }
    ∷ record { to = "/access-requests"; label = "Access Requests" }
    ∷ record { to = "/kubeconfig"; label = "Kubeconfig" }
    ∷ record { to = "/tokens"; label = "History" }
    ∷ record { to = "/clusters"; label = "Clusters" }
    ∷ []

unfoldable pub visible_links : AuthStore → List Link
visible_links s =
    filter (λ l. has_any_cluster_access s || not (includes cluster_scoped_links l.to)) links

abbrev pub admin_links : List Link
admin_links =
    record { to = "/settings"; label = "Settings" }
    ∷ record { to = "/audit-log"; label = "Audit Log" }
    ∷ []

-- All links that are shown.
unfoldable pub sidebar : AuthStore → List Link
sidebar s = visible_links s ++ (if is_instance_admin s then admin_links else [])

abbrev is_pending : AccessRequestStatus → Bool
is_pending pending = true
is_pending _ = false

-- The number at the link of the access requests; none if it is zero.
unfoldable pending_badge : List AccessRequest → Option ℕ
pending_badge rs =
    let n = length (filter (λ r. is_pending r.status) rs) in if ltb 0 n then some n else none

-- `routeLabels`
abbrev labels : List (String × String)
labels =
    ("/users", "Users")
    ∷ ("/rbac", "Permissions")
    ∷ ("/kubeconfig", "Kubeconfig")
    ∷ ("/tokens", "Tokens")
    ∷ ("/access-requests", "Access Requests")
    ∷ ("/clusters", "Clusters")
    ∷ ("/settings", "Settings")
    ∷ []

-- `routeLabels[pathname] ?? 'ClusterVision'`
unfoldable page_label : String → String
page_label pathname = get_or (lookup pathname labels) "ClusterVision"

-- api/cluster.ts
pub record ClusterEntry : Type 0 where
  pub name : String
  pub api_url : String
  pub is_local : Bool

-- `clusters.some((c) => c.name === activeCluster)`
unfoldable pub is_listed : List ClusterEntry → ClusterStore → Bool
is_listed clusters c = any (λ x. x.name == c.active_cluster) clusters

-- The effect of the top bar: a cluster that is gone is left.
unfoldable pub fall_back : Bool → List ClusterEntry → ClusterStore → ClusterStore
fall_back loaded clusters c =
    if loaded && not (is_listed clusters c) then set_active_cluster "local" c else c

-- The badge of the user: the role on the active cluster, marked if it is admin.
pub data RoleBadge : Type 0 where
  admin_badge no_access : RoleBadge
  role_badge : RoleName → RoleBadge

abbrev badge : Option RoleName → RoleBadge
badge none = no_access
badge (some admin) = admin_badge
badge (some r) = role_badge r

unfoldable user_badge : ClusterStore → AuthUser → RoleBadge
user_badge c u = badge (lookup c.active_cluster u.roles)

-- The list of clusters; it is shown as a button only if there is more than one.
unfoldable has_list : List ClusterEntry → Bool
has_list clusters = ltb 1 (length clusters)

pub data ListEvent : Type 0 where
  toggle_list click_outside escape_pressed : ListEvent
  pick : String → ListEvent

unfoldable handle_list : ListEvent → Bool × ClusterStore → Bool × ClusterStore
handle_list toggle_list (open_list, c) = (not open_list, c)
handle_list click_outside (open_list, c) = (false, c)
handle_list escape_pressed (open_list, c) = (false, c)
handle_list (pick name) (open_list, c) = (false, set_active_cluster name c)

-- What signing in and out asks for.
pub data Effect : Type 0 where
  post_login : String → String → Effect
  post_logout clear_cache : Effect
  toast navigate : String → Effect

-- `handleLogout` up to its `await`, and what follows, whether the call succeeds or fails.
unfoldable start_logout : List Effect
start_logout = post_logout ∷ []

unfoldable pub logout_settled : AuthStore → AuthStore × List Effect
logout_settled s = (clear_auth s, clear_cache ∷ toast "Signed out" ∷ navigate "/login" ∷ [])

pub record Login : Type 0 where
  pub username : String
  pub password : String
  pub error : String
  pub loading : Bool

-- `handleSubmit` up to its `await`; the button is disabled while it is loading.
unfoldable pub handle_submit : Login → Login × List Effect
handle_submit p =
    if p.loading
    then (p, [])
    else (record p { error = ""; loading = true }, post_login p.username p.password ∷ [])

-- The text for a failure with this message.
unfoldable pub login_error : String → Login → String
login_error message p =
    if message == "Invalid credentials"
    then "Incorrect username or password."
    else if p.username == "" || p.password == ""
    then "Please fill in all fields."
    else "Sign in failed — please try again."

-- The rest of `handleSubmit`: the answer, or the message of the failure.
pub data LoginAnswer : Type 0 where
  accepted : LoginResponse → LoginAnswer
  refused : String → LoginAnswer

unfoldable pub login_answered : LoginAnswer → Login → AuthStore → Login × AuthStore × List Effect
login_answered (accepted d) p s = (
  record p { loading = false },
  set_auth (record { username = d.username; roles = d.roles }) d.access_token s,
  navigate "/" ∷ [],
)
login_answered (refused message) p s =
    (record p { loading = false; error = login_error message p }, s, [])
