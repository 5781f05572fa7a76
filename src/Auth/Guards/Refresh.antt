-- ===== src/Auth/Guards/Refresh.antt =====
-- The session check at the start.
use clustervision.Base.{◌≡◌, ◌≢◌, refl, true, Option, none, some, arith}
use clustervision.Auth.{AuthStore}
use clustervision.Auth.Guards.{
  LoginResponse, Guard, mount, asks_refresh, refresh_answered, refresh_settled, login, View,
  spinner, redirect, Route, index, splat, path, require_auth, inside, app,
}

app-require_auth :
    (g : Guard) (r : Route) → r ≢ path login → app g r ≡ require_auth g (inside g.store r)
unfolding app
app-require_auth g (path login) ne = absurd (ne refl)
app-require_auth g index ne = refl
app-require_auth g splat ne = refl
app-require_auth g (path p) ne = refl

-- The end of the session check, by the answer to the refresh.
abbrev pub Settled : Option LoginResponse → Guard → View → Route → Type 0
Settled none g shown r = shown ≡ redirect "/login"
Settled (some d) g shown r =
    (shown ≡ inside g.store r)
    × (g.store.user ≡ some (record { username = d.username; roles = d.roles }))
    × (g.store.access_token ≡ some d.access_token)

-- A session that starts without a user: until the refresh is settled every path but the login
-- page shows the spinner, never the login page. After a refused refresh each such path redirects
-- to the login page; after an answer each shows what its route holds, with the answer's user,
-- roles and token in the store.
pub refresh_outcomes :
    (s : AuthStore) (answer : Option LoginResponse) (r : Route)
    → s.user ≡ none
    → r ≢ path login
    → (asks_refresh s ≡ true)
      × (app (mount s) r ≡ spinner)
      × (app (refresh_answered answer (mount s)) r ≡ spinner)
      × (let g = refresh_settled (refresh_answered answer (mount s)) in
          Settled answer g (app g r) r)
unfolding require_auth mount asks_refresh refresh_answered refresh_settled
refresh_outcomes s none r e ne = ground (
  arith,
  app-require_auth (mount s) r ne,
  app-require_auth (refresh_answered none (mount s)) r ne,
  app-require_auth (refresh_settled (refresh_answered none (mount s))) r ne,
)
refresh_outcomes s (some d) r e ne = ground (
  arith,
  app-require_auth (mount s) r ne,
  app-require_auth (refresh_answered (some d) (mount s)) r ne,
  app-require_auth (refresh_settled (refresh_answered (some d) (mount s))) r ne,
)
