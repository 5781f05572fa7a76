-- ===== src/Shell/Sessions.antt =====
-- Signing in and out, and the cluster that is left when it is gone.
use clustervision.Base.{
  String, ◌≡◌, ◌≢◌, ◌⊎◌, inl, inr, refl, sym, ap, ◌∙◌, Bool, true, false, not, ◌&&◌, ◌||◌, List, [],
  ◌∷◌, none, some, ◌==◌, Bool-cases, arith,
}
use mathlib.Core.Path.{subst}
use clustervision.Auth.{AuthStore, ClusterStore, set_auth, clear_auth, set_active_cluster}
use clustervision.Auth.Guards.{
  LoginResponse, Guard, mount, login, dashboard, View, redirect, page, Route, index, path,
  require_auth, inside, app, follow, visit,
}
use clustervision.Shell.{
  ClusterEntry, is_listed, fall_back, clear_cache, toast, navigate, logout_settled, Login,
  login_error, LoginAnswer, accepted, refused, login_answered,
}

-- The guard sends whoever is not signed in to the login page.
require_auth-out :
    (g : Guard) (v : View)
    → g.checking ≡ false
    → g.store.user ≡ none
    → require_auth g v ≡ redirect "/login"
unfolding require_auth
require_auth-out g v c u = simp (c, u)

signed_out-app :
    (g : Guard) (r : Route)
    → g.checking ≡ false
    → g.store.user ≡ none
    → (app g r ≡ page login) ⊎ (app g r ≡ redirect "/login")
unfolding app
signed_out-app g (path login) c u = inl refl
signed_out-app g r c u = inr (require_auth-out g (inside g.store r) c u)

login_error-given : (m : String) (p : Login) → login_error m p ≢ ""
unfolding login_error
login_error-given m p = elim (Bool-cases (m == "Invalid credentials")) [
  | inl e ↦ rw e (λ k. cc)
  | inr e ↦ elim (Bool-cases (p.username == "" || p.password == "")) [
    | inl f ↦ rw (e, f) (λ k. cc)
    | inr f ↦ rw (e, f) (λ k. cc)
  ]
]

-- Once the logout has ended, well or not: with a router that takes `/login` to its route, every path
-- shows the login page, after one redirection at most, and the cache is cleared.
logout_settled-login :
    (fits : String → Route) (g : Guard) (to : String)
    → fits "/login" ≡ path login
    → g.checking ≡ false
    → (visit fits 1 (record g { store = (logout_settled g.store).0 }) to ≡ page login)
      × ((logout_settled g.store).1 ≡ clear_cache ∷ toast "Signed out" ∷ navigate "/login" ∷ [])
unfolding logout_settled clear_auth visit app
logout_settled-login fits g to good c =
    let h : Guard = record g { store = clear_auth g.store } in
    (
      elim (signed_out-app h (fits to) c refl) [
        | inl e ↦ ap (λ v. follow v (visit fits 0 h)) e
        | inr e ↦ ap (λ v. follow v (visit fits 0 h)) e ∙ ap (app h) good
      ],
      refl,
    )

abbrev signed_in : LoginResponse → AuthStore → AuthStore
signed_in d s = set_auth (record { username = d.username; roles = d.roles }) d.access_token s

-- After a login that is accepted, with a router that takes `/` and `/dashboard` to their routes: the
-- navigation to `/` ends at the dashboard without another session check, and the store has the user
-- and the token of the answer. After one that is refused the store is as before, nobody is sent
-- anywhere, and a text is shown.
pub login-outcomes :
    (fits : String → Route) (a : LoginAnswer) (p : Login) (s : AuthStore)
    → fits "/" ≡ index
    → fits "/dashboard" ≡ path dashboard
    → let (p', s', effects) = login_answered a p s in
      (((d : LoginResponse) × (a ≡ accepted d)
          × (effects ≡ navigate "/" ∷ [])
          × (visit fits 2 (mount s') "/" ≡ page dashboard)
          × (s' ≡ record {
            user = some (record { username = d.username; roles = d.roles });
            access_token = some d.access_token;
          }))
        ⊎ ((m : String) × (a ≡ refused m) × (effects ≡ []) × (s' ≡ s) × (p'.error ≢ "")))
      × (p'.loading ≡ false)
unfolding login_answered set_auth visit mount app require_auth inside
login-outcomes fits (accepted d) p s root dash = (
  inl (
    d,
    refl,
    refl,
    ap (λ r. follow (app (mount (signed_in d s)) r) (visit fits 1 (mount (signed_in d s)))) root
        ∙ ap (λ r. follow (app (mount (signed_in d s)) r) (visit fits 0 (mount (signed_in d s))))
            dash,
    refl,
  ),
  refl,
)
login-outcomes fits (refused m) p s root dash =
    (inr (m, refl, refl, refl, login_error-given m p), refl)

module _ (loaded : Bool) (clusters : List ClusterEntry) where
  abbrev local : ClusterStore
  local = record { active_cluster = "local" }

  fall_back-gone :
      (c : ClusterStore)
      → (loaded && not (is_listed clusters c)) ≡ true
      → fall_back loaded clusters c ≡ local
  unfolding fall_back set_active_cluster
  fall_back-gone c e = rw (e, fall_back) refl

  fall_back-kept :
      (c : ClusterStore)
      → (loaded && not (is_listed clusters c)) ≡ false
      → fall_back loaded clusters c ≡ c
  unfolding fall_back
  fall_back-kept c e = rw (e, fall_back) refl

  fall_back-local : fall_back loaded clusters local ≡ local
  fall_back-local = elim (Bool-cases (loaded && not (is_listed clusters local))) [
    | inl e ↦ fall_back-gone local e
    | inr e ↦ fall_back-kept local e
  ]

  -- The effect of the top bar: once the clusters are loaded, the active cluster is one of them or
  -- `local`; a cluster that is listed is kept, before they are loaded every one is, and running it
  -- again changes nothing.
  pub fall_back-settled :
      (c : ClusterStore)
      → let after = fall_back loaded clusters c in
        (loaded ≡ true → (is_listed clusters after ≡ true) ⊎ (after.active_cluster ≡ "local"))
        × (is_listed clusters c ≡ true → after ≡ c)
        × (loaded ≡ false → after ≡ c)
        × (fall_back loaded clusters after ≡ after)
  fall_back-settled c = elim (Bool-cases (loaded && not (is_listed clusters c))) [
    | inl gone ↦
        let e = fall_back-gone c gone in
        (
          λ k. inr (ap (λ s. s.active_cluster) e),
          λ k. absurd (ground arith),
          λ k. absurd (ground arith),
          ap (fall_back loaded clusters) e ∙ fall_back-local ∙ sym e,
        )
    | inr kept ↦
        let e = fall_back-kept c kept in
        (
          λ k. inl (subst (λ s. is_listed clusters s ≡ true) (sym e) (ground arith)),
          λ k. e,
          λ k. e,
          ap (fall_back loaded clusters) e,
        )
  ]
