-- ===== src/Auth/Guards.antt =====
-- Route guards: components/auth/RequireAuth.tsx, components/auth/RequireInstanceAdmin.tsx and the
-- route table of App.tsx. How react-router fits a path to a route is a parameter.
pub mod Allowed
pub mod Redirects
pub mod Refresh
use mathlib.Core.Path.{subst}
use clustervision.Base.{
  ℕ, zero, suc, String, ◌≡◌, ◌≢◌, refl, sym, ◌⊎◌, inl, inr, Bool, true, false, not, List, Option,
  none, some, is_some, if◌then◌else◌, arith,
}
use clustervision.Auth.{RoleName, AuthStore, set_auth, is_instance_admin}

-- api/auth.ts, what a refresh or a login answers.
pub record LoginResponse : Type 0 where
  pub access_token : String
  pub token_type : String
  pub roles : List (String × RoleName)
  pub username : String

-- `RequireAuth`: its own state, and the store that it reads.
pub record Guard : Type 0 where
  pub checking : Bool
  pub store : AuthStore

unfoldable pub mount : AuthStore → Guard
mount s = record { checking = not (is_some s.user); store = s }

-- Whether the effect of the first render calls `authApi.refresh`.
unfoldable pub asks_refresh : AuthStore → Bool
asks_refresh s = not (is_some s.user)

-- `none`: the refresh was refused.
unfoldable pub refresh_answered : Option LoginResponse → Guard → Guard
unfolding set_auth
refresh_answered none g = g
refresh_answered (some d) g = record g {
  store = set_auth (record { username = d.username; roles = d.roles }) d.access_token g.store;
}

-- `.finally(() => setChecking(false))`
unfoldable pub refresh_settled : Guard → Guard
refresh_settled g = record g { checking = false }

pub data Page : Type 0 where
  login dashboard users rbac kubeconfig tokens access_requests clusters settings audit_log : Page
  not_found : Page

pub data View : Type 0 where
  spinner : View
  redirect : String → View
  page : Page → View

-- The paths of the route table.
pub data Route : Type 0 where
  index splat : Route
  path : Page → Route

unfoldable pub require_auth : Guard → View → View
require_auth g outlet =
    if g.checking then spinner else if not (is_some g.store.user) then redirect "/login" else outlet

unfoldable pub require_instance_admin : AuthStore → View → View
require_instance_admin s outlet = if not (is_instance_admin s) then redirect "/" else outlet

-- The routes below `RequireAuth`.
unfoldable pub inside : AuthStore → Route → View
inside s index = redirect "/dashboard"
inside s splat = page not_found
inside s (path settings) = require_instance_admin s (page settings)
inside s (path audit_log) = require_instance_admin s (page audit_log)
inside s (path p) = page p

-- The element of a route.
unfoldable pub app : Guard → Route → View
app g (path login) = page login
app g r = require_auth g (inside g.store r)

abbrev pub IsFinal : View → Type 0
IsFinal (redirect to) = ⊥
IsFinal _ = Unit

-- A redirection is followed by `k`.
abbrev pub follow : View → (String → View) → View
follow (redirect next) k = k next
follow v k = v

-- The view at a path, after at most `n` redirections; `fits` is react-router's choice of a route.
unfoldable pub visit : (String → Route) → ℕ → Guard → String → View
visit fits zero g to = app g (fits to)
visit fits (suc n) g to = follow (app g (fits to)) (visit fits n g)
