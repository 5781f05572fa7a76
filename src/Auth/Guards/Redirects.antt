-- ===== src/Auth/Guards/Redirects.antt =====
-- Redirections end.
use mathlib.Core.Path.{subst}
use clustervision.Base.{
  ℕ, zero, suc, String, ◌≡◌, refl, sym, ◌⊎◌, inl, inr, true, false, is_some, arith,
}
use clustervision.Auth.{AuthStore}
use clustervision.Auth.Guards.{
  Guard, login, dashboard, settings, audit_log, View, spinner, redirect, page, Route, index, splat,
  path, require_auth, require_instance_admin, inside, app, IsFinal, follow, visit,
}

-- Where the routes inside the guard redirect to.
inside_redirect :
    (s : AuthStore) (r : Route) (to : String)
    → inside s r ≡ redirect to
    → (to ≡ "/") ⊎ (to ≡ "/dashboard")
unfolding inside require_instance_admin
inside_redirect s index to h = inr (ground arith)
inside_redirect s splat to h = cc
inside_redirect s (path settings) to h = inl (ground arith)
inside_redirect s (path audit_log) to h = inl (ground arith)
inside_redirect s (path _) to h = cc

app_redirect :
    (g : Guard) (r : Route) (to : String)
    → app g r ≡ redirect to
    → (to ≡ "/login") ⊎ ((to ≡ "/") ⊎ (to ≡ "/dashboard"))
unfolding app require_auth
app_redirect g (path login) to h = cc
app_redirect g index to h = ground (arith, inside_redirect g.store index to)
app_redirect g splat to h = ground (arith, inside_redirect g.store splat to)
app_redirect g (path p) to h = ground (arith, inside_redirect g.store (path p) to)

follow-IsFinal :
    (v : View) (k : String → View)
    → ((to : String) → v ≡ redirect to → IsFinal (k to))
    → IsFinal (follow v k)
follow-IsFinal spinner k h = tt
follow-IsFinal (redirect to) k h = h to refl
follow-IsFinal (page p) k h = tt

index_redirect :
    (g : Guard) (to : String)
    → app g index ≡ redirect to
    → (to ≡ "/login") ⊎ ((to ≡ "/dashboard") × (g.checking ≡ false) × (is_some g.store.user ≡ true))
unfolding app require_auth inside
index_redirect g to h = ground arith

dashboard_redirect :
    (g : Guard) (to : String) → app g (path dashboard) ≡ redirect to → to ≡ "/login"
unfolding app require_auth inside
dashboard_redirect g to h = ground arith

dashboard_page :
    (g : Guard)
    → g.checking ≡ false
    → is_some g.store.user ≡ true
    → app g (path dashboard) ≡ page dashboard
unfolding app require_auth inside
dashboard_page g c u = ground arith

-- What the code relies on of the router: the three paths that it navigates to.
module _ (fits : String → Route) (fits_login : fits "/login" ≡ path login)
    (fits_index : fits "/" ≡ index) (fits_dashboard : fits "/dashboard" ≡ path dashboard) where
  login-IsFinal : (n : ℕ) (g : Guard) → IsFinal (visit fits n g "/login")
  unfolding visit app
  login-IsFinal zero g = subst (λ r. IsFinal (app g r)) (sym fits_login) tt
  login-IsFinal (suc n) g =
      subst (λ r. IsFinal (follow (app g r) (visit fits n g))) (sym fits_login) tt

  dashboard-IsFinal :
      (g : Guard)
      → g.checking ≡ false
      → is_some g.store.user ≡ true
      → IsFinal (visit fits 0 g "/dashboard")
  unfolding visit
  dashboard-IsFinal g c u =
      subst (λ r. IsFinal (app g r)) (sym fits_dashboard)
        (subst IsFinal (sym (dashboard_page g c u)) tt)

  index-IsFinal : (g : Guard) → IsFinal (visit fits 1 g "/")
  unfolding visit
  index-IsFinal g = follow-IsFinal (app g (fits "/")) (visit fits 0 g) λ to e.
      elim (index_redirect g to (rw fits_index at e)) [
        | inl l ↦ subst (λ t. IsFinal (visit fits 0 g t)) (sym l) (login-IsFinal 0 g)
        | inr (d, c, u) ↦ subst (λ t. IsFinal (visit fits 0 g t)) (sym d) (dashboard-IsFinal g c u)
      ]

  to_dashboard-IsFinal : (g : Guard) → IsFinal (visit fits 1 g "/dashboard")
  unfolding visit
  to_dashboard-IsFinal g = follow-IsFinal (app g (fits "/dashboard")) (visit fits 0 g) λ to e.
      subst (λ t. IsFinal (visit fits 0 g t))
        (sym (dashboard_redirect g to (rw fits_dashboard at e))) (login-IsFinal 0 g)

  -- With a router that fits `/login`, `/` and `/dashboard` to their routes, following redirections
  -- ends: from every path, after two at most, there is a page, or the spinner of the session check.
  pub visit-IsFinal : (g : Guard) (to : String) → IsFinal (visit fits 2 g to)
  unfolding visit
  visit-IsFinal g to = follow-IsFinal (app g (fits to)) (visit fits 1 g) λ next e.
      elim (app_redirect g (fits to) next e) [
        | inl l ↦ subst (λ t. IsFinal (visit fits 1 g t)) (sym l) (login-IsFinal 1 g)
        | inr (inl i) ↦ subst (λ t. IsFinal (visit fits 1 g t)) (sym i) (index-IsFinal g)
        | inr (inr d) ↦ subst (λ t. IsFinal (visit fits 1 g t)) (sym d) (to_dashboard-IsFinal g)
      ]
