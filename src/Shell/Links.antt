-- ===== src/Shell/Links.antt =====
-- Where the links of the sidebar lead.
use clustervision.Base.{
  ℕ, zero, suc, String, ◌≡◌, refl, ap, ◌∙◌, Bool, true, false, not, ◌||◌, List, [], ◌∷◌, Option,
  none, some, All, All-append, is_some, filter, includes, Bool-cases, inl, inr,
}
use mathlib.Core.Path.{subst}
use clustervision.Auth.{is_instance_admin, has_any_cluster_access}
use clustervision.Auth.Guards.{
  Guard, Page, login, dashboard, users, rbac, kubeconfig, tokens, access_requests, clusters,
  settings, audit_log, not_found, View, page, Route, path, require_auth, require_instance_admin,
  inside, app, follow, visit,
}
use clustervision.Shell.{Link, cluster_scoped_links, links, visible_links, admin_links, sidebar}

-- The path of a page of the route table.
abbrev path_of : Page → Option String
path_of login = some "/login"
path_of dashboard = some "/dashboard"
path_of users = some "/users"
path_of rbac = some "/rbac"
path_of kubeconfig = some "/kubeconfig"
path_of tokens = some "/tokens"
path_of access_requests = some "/access-requests"
path_of clusters = some "/clusters"
path_of settings = some "/settings"
path_of audit_log = some "/audit-log"
path_of not_found = none

abbrev FitsAt : (String → Route) → Page → Option String → Type 0
FitsAt fits p none = Unit
FitsAt fits p (some to) = fits to ≡ path p

-- react-router takes the path of a page to the route with that path.
abbrev pub FitsPaths : (String → Route) → Type 0
FitsPaths fits = (p : Page) → FitsAt fits p (path_of p)

module _ (fits : String → Route) (good : FitsPaths fits) (n : ℕ) (g : Guard)
    (settled : g.checking ≡ false) (signed_in : is_some g.store.user ≡ true) where
  -- The link leads to a page of the table, and the guards show it.
  abbrev pub Leads : Link → Type 0
  Leads l = (p : Page) × (path_of p ≡ some l.to) × (visit fits n g l.to ≡ page p)

  passes : (v : View) → require_auth g v ≡ v
  unfolding require_auth
  passes v = rw (settled, signed_in, require_auth) refl

  lands : (m : ℕ) (to : String) (p : Page) → app g (fits to) ≡ page p → visit fits m g to ≡ page p
  unfolding visit
  lands zero to p e = e
  lands (suc m) to p e = ap (λ v. follow v (visit fits m g)) e

  leads : (l : Link) (p : Page) → path_of p ≡ some l.to → app g (path p) ≡ page p → Leads l
  leads l p known shown =
      (p, known, lands n l.to p (ap (app g) (subst (FitsAt fits p) known (good p)) ∙ shown))

  links-Leads : All Leads links
  unfolding app inside
  links-Leads = (
    leads (record { to = "/dashboard"; label = "Dashboard" }) dashboard refl
        (passes (page dashboard)),
    (
      leads (record { to = "/users"; label = "Users" }) users refl (passes (page users)),
      (
        leads (record { to = "/rbac"; label = "Permissions" }) rbac refl (passes (page rbac)),
        (
          leads (record { to = "/access-requests"; label = "Access Requests" }) access_requests refl
              (passes (page access_requests)),
          (
            leads (record { to = "/kubeconfig"; label = "Kubeconfig" }) kubeconfig refl
                (passes (page kubeconfig)),
            (
              leads (record { to = "/tokens"; label = "History" }) tokens refl
                  (passes (page tokens)),
              (
                leads (record { to = "/clusters"; label = "Clusters" }) clusters refl
                    (passes (page clusters)),
                tt,
              ),
            ),
          ),
        ),
      ),
    ),
  )

  admin-Leads : is_instance_admin g.store ≡ true → All Leads admin_links
  unfolding app inside require_instance_admin
  admin-Leads admin = (
    leads (record { to = "/settings"; label = "Settings" }) settings refl
        (passes (require_instance_admin g.store (page settings))
          ∙ rw (admin, require_instance_admin) refl),
    (
      leads (record { to = "/audit-log"; label = "Audit Log" }) audit_log refl
          (passes (require_instance_admin g.store (page audit_log))
            ∙ rw (admin, require_instance_admin) refl),
      tt,
    ),
  )

  All-filter : (f : Link → Bool) (ls : List Link) → All Leads ls → All Leads (filter f ls)
  All-filter f [] h = tt
  All-filter f (l ∷ ls) (h, hs) = elim (Bool-cases (f l)) [
    | inl e ↦ rw e (h, All-filter f ls hs)
    | inr e ↦ rw e (All-filter f ls hs)
  ]

  -- With a user signed in and a router that takes the path of each page to its route: every link of
  -- the sidebar leads to a page of the route table, which the guards show without a redirection,
  -- however many would be followed.
  pub sidebar-Leads : All Leads (sidebar g.store)
  unfolding sidebar visible_links
  sidebar-Leads = elim (Bool-cases (is_instance_admin g.store)) [
    | inl e ↦ rw e (
        All-append Leads (visible_links g.store) admin_links
          (All-filter
            (λ l. has_any_cluster_access g.store || not (includes cluster_scoped_links l.to)) links
            links-Leads)
          (admin-Leads e))
    | inr e ↦ rw e (
        All-append Leads (visible_links g.store) []
          (All-filter
            (λ l. has_any_cluster_access g.store || not (includes cluster_scoped_links l.to)) links
            links-Leads)
          tt)
  ]
