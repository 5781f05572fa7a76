-- ===== src/Auth/Tests.antt =====
-- The theorems of the session and of the route guards at concrete sessions.
use clustervision.Base.{String, ◌≡◌, ◌≢◌, ◌↔◌, refl, true, false, [], ◌∷◌, none, some}
use clustervision.Auth.{
  RoleName, operator, admin, instance_scope, AuthUser, AuthStore, role_for, can_write,
  is_instance_admin, has_any_cluster_access,
}
use clustervision.Auth.Roles.{has_any_cluster_access_iff}
use clustervision.Auth.Guards.{
  LoginResponse, Guard, mount, require_auth, require_instance_admin, asks_refresh, refresh_answered,
  refresh_settled, login, dashboard, users, settings, spinner, page, Route, index, splat, path, app,
  inside, IsFinal, visit,
}
use clustervision.Auth.Guards.Allowed.{Allowed, visit-Allowed}
use clustervision.Auth.Guards.Redirects.{visit-IsFinal}
use clustervision.Auth.Guards.Refresh.{Settled, refresh_outcomes}
use text.Mathlib.Text.{◌==◌}
use clustervision.Base.{if◌then◌else◌}

abbrev alice : AuthUser
alice = record { username = "alice"; roles = ("prod", operator) ∷ (instance_scope, admin) ∷ [] }

abbrev signed_in : AuthStore
signed_in = record { user = some alice; access_token = some "t" }

abbrev ready : Guard
ready = record { checking = false; store = signed_in }

-- A router that fits four paths.
abbrev fits : String → Route
fits p =
    if p == "/login"
    then path login
    else if p == "/"
    then index
    else if p == "/dashboard"
    then path dashboard
    else if p == "/settings"
    then path settings
    else splat

alice_writes : (can_write signed_in "prod" ≡ true) × (can_write signed_in "dev" ≡ false)
unfolding can_write
alice_writes = (refl, refl)

settings_shown : visit fits 2 ready "/settings" ≡ page settings
unfolding visit app require_auth inside require_instance_admin is_instance_admin
settings_shown = refl

no_admin :
    visit fits 2
      (record {
        checking = false;
        store = record signed_in { user = some (record alice { roles = [] }) };
      })
      "/settings"
    ≡ page dashboard
unfolding visit app require_auth inside require_instance_admin is_instance_admin
no_admin = refl

has_any_cluster_access_iff_example : (has_any_cluster_access signed_in ≡ true) ↔ (
    (scope : String) × (scope ≢ instance_scope)
    × (r : RoleName) × (role_for signed_in scope ≡ some r))
has_any_cluster_access_iff_example = has_any_cluster_access_iff signed_in

visit-Allowed_example : Allowed ready settings
visit-Allowed_example = visit-Allowed fits 2 ready "/settings" settings settings_shown

visit-IsFinal_example : IsFinal (visit fits 2 ready "/settings")
visit-IsFinal_example = visit-IsFinal fits refl refl refl ready "/settings"

abbrev answered : LoginResponse
answered = record {
  access_token = "t";
  token_type = "bearer";
  roles = alice.roles;
  username = "alice";
}

refresh_outcomes_example :
    let s : AuthStore = record { user = none; access_token = none } in
    let g = refresh_settled (refresh_answered (some answered) (mount s)) in
    (asks_refresh s ≡ true)
    × (app (mount s) (path users) ≡ spinner)
    × (app (refresh_answered (some answered) (mount s)) (path users) ≡ spinner)
    × Settled (some answered) g (app g (path users)) (path users)
refresh_outcomes_example =
    refresh_outcomes (record { user = none; access_token = none }) (some answered) (path users) refl
      (λ e. cc)
