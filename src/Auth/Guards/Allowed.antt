-- ===== src/Auth/Guards/Allowed.antt =====
-- Who sees which page.
use clustervision.Base.{
  ℕ, zero, suc, String, ◌≡◌, refl, ◌⊎◌, inl, inr, Bool, true, false, is_some, arith,
}
use clustervision.Auth.{AuthStore, is_instance_admin}
use clustervision.Auth.Guards.{
  Guard, Page, login, settings, audit_log, View, spinner, redirect, page, Route, index, splat, path,
  require_auth, require_instance_admin, inside, app, IsFinal, visit,
}

abbrev is_login : Page → Bool
is_login login = true
is_login _ = false

abbrev for_admins : Page → Bool
for_admins settings = true
for_admins audit_log = true
for_admins _ = false

-- A page other than the login page is shown to a signed-in user; an admin page only to an
-- instance admin.
pub record Allowed (g : Guard) (p : Page) : Type 0 where
  pub settled : is_login p ≡ false → g.checking ≡ false
  pub signed_in : is_login p ≡ false → is_some g.store.user ≡ true
  pub admins : for_admins p ≡ true → is_instance_admin g.store ≡ true

inside-admins :
    (s : AuthStore) (r : Route) (p : Page)
    → inside s r ≡ page p
    → for_admins p ≡ true
    → is_instance_admin s ≡ true
unfolding inside require_instance_admin
inside-admins s index p h a = cc
inside-admins s splat p h a = ground arith
inside-admins s (path login) p h a = ground arith
inside-admins s (path settings) p h a = ground arith
inside-admins s (path audit_log) p h a = ground arith
inside-admins s (path _) p h a = ground arith

require_auth-Allowed :
    (g : Guard) (r : Route) (p : Page) → require_auth g (inside g.store r) ≡ page p → Allowed g p
unfolding require_auth
require_auth-Allowed g r p h = record {
  settled = λ e. ground arith;
  signed_in = λ e. ground arith;
  admins = λ a. ground (arith, inside-admins g.store r p);
}

app-Allowed : (g : Guard) (r : Route) (p : Page) → app g r ≡ page p → Allowed g p
unfolding app
app-Allowed g (path login) p h = record {
  settled = λ e. ground arith;
  signed_in = λ e. ground arith;
  admins = λ a. ground arith;
}
app-Allowed g index p h = require_auth-Allowed g index p h
app-Allowed g splat p h = require_auth-Allowed g splat p h
app-Allowed g (path q) p h = require_auth-Allowed g (path q) p h

View-cases : (v : View) → IsFinal v ⊎ ((to : String) × (v ≡ redirect to))
View-cases spinner = inl tt
View-cases (redirect to) = inr (to, refl)
View-cases (page p) = inl tt

-- However a path is fitted and however many redirections are followed, a page other than the
-- login page is shown only to a signed-in user whose session check is over, and the settings and
-- the audit log only to an instance admin.
pub visit-Allowed :
    (fits : String → Route) (n : ℕ) (g : Guard) (to : String) (p : Page)
    → visit fits n g to ≡ page p
    → Allowed g p
unfolding visit
visit-Allowed fits zero g to p h = app-Allowed g (fits to) p h
visit-Allowed fits (suc n) g to p h = elim (View-cases (app g (fits to))) [
  | inl final ↦ app-Allowed g (fits to) p (ground arith)
  | inr (next, e) ↦ visit-Allowed fits n g next p (rw (e, visit) at h)
]
