-- ===== src/Shell/Tests.antt =====
-- Runs of the sidebar, of signing in and out, and of the top bar.
use clustervision.Base.{
  String, ◌≡◌, ◌≢◌, ◌⊎◌, refl, true, false, [], ◌∷◌, none, some, All, ◌==◌, if◌then◌else◌,
}
use clustervision.Auth.{operator, AuthStore, ClusterStore}
use clustervision.Auth.Guards.{
  LoginResponse, Guard, mount, login, dashboard, users, rbac, kubeconfig, tokens, access_requests,
  clusters, settings, audit_log, not_found, page, Route, index, splat, path, visit,
}
use clustervision.Shell.{sidebar, ClusterEntry, navigate, Login, accepted, refused, login_answered}
use clustervision.Shell.Links.{FitsPaths, Leads, sidebar-Leads}
use clustervision.Shell.Sessions.{login-outcomes}

-- A router: the routes of the table.
abbrev routes : String → Route
routes to =
    if to == "/login"
    then path login
    else if to == "/dashboard"
    then path dashboard
    else if to == "/users"
    then path users
    else if to == "/rbac"
    then path rbac
    else if to == "/kubeconfig"
    then path kubeconfig
    else if to == "/tokens"
    then path tokens
    else if to == "/access-requests"
    then path access_requests
    else if to == "/clusters"
    then path clusters
    else if to == "/settings"
    then path settings
    else if to == "/audit-log"
    then path audit_log
    else if to == "/"
    then index
    else splat

routes-FitsPaths : FitsPaths routes
routes-FitsPaths login = refl
routes-FitsPaths dashboard = refl
routes-FitsPaths users = refl
routes-FitsPaths rbac = refl
routes-FitsPaths kubeconfig = refl
routes-FitsPaths tokens = refl
routes-FitsPaths access_requests = refl
routes-FitsPaths clusters = refl
routes-FitsPaths settings = refl
routes-FitsPaths audit_log = refl
routes-FitsPaths not_found = tt

abbrev olga : AuthStore
olga = record {
  user = some (record { username = "olga"; roles = ("prod", operator) ∷ [] });
  access_token = some "t";
}

abbrev inside_app : Guard
inside_app = record { checking = false; store = olga }

sidebar-Leads_example : All (Leads routes routes-FitsPaths 0 inside_app refl refl) (sidebar olga)
sidebar-Leads_example = sidebar-Leads routes routes-FitsPaths 0 inside_app refl refl

abbrev answer : LoginResponse
answer = record {
  access_token = "t";
  token_type = "bearer";
  roles = ("prod", operator) ∷ [];
  username = "olga";
}

abbrev signing_in : Login
signing_in = record { username = "olga"; password = "p"; error = ""; loading = true }

abbrev nobody : AuthStore
nobody = record { user = none; access_token = none }

login-outcomes_example :
    let (p', s', effects) = login_answered (accepted answer) signing_in nobody in
    (((d : LoginResponse) × (accepted answer ≡ accepted d)
        × (effects ≡ navigate "/" ∷ [])
        × (visit routes 2 (mount s') "/" ≡ page dashboard)
        × (s' ≡ record {
          user = some (record { username = d.username; roles = d.roles });
          access_token = some d.access_token;
        }))
      ⊎ ((m : String) × (accepted answer ≡ refused m)
          × (effects ≡ [])
          × (s' ≡ nobody)
          × (p'.error ≢ "")))
    × (p'.loading ≡ false)
login-outcomes_example = login-outcomes routes (accepted answer) signing_in nobody refl refl

abbrev gone : ClusterStore
gone = record { active_cluster = "gone" }

abbrev only_local : ClusterEntry
only_local = record { name = "local"; api_url = ""; is_local = true }
