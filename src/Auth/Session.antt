-- ===== src/Auth/Session.antt =====
-- Histories of the session store.
use clustervision.Base.{String, ◌≡◌, refl, false, List, [], ◌∷◌, none}
use clustervision.Auth.{
  AuthUser, AuthStore, set_auth, set_access_token, clear_auth, role_for, can_write,
  is_instance_admin, has_any_cluster_access,
}

-- The writes that the program makes.
pub data Write : Type 0 where
  signs_in : AuthUser → String → Write
  renews : String → Write
  clears : Write

unfoldable pub apply : Write → AuthStore → AuthStore
apply (signs_in u token) s = set_auth u token s
apply (renews token) s = set_access_token token s
apply clears s = clear_auth s

unfoldable pub run : AuthStore → List Write → AuthStore
run s [] = s
run s (w ∷ ws) = run (apply w s) ws

-- A user is signed in only with a token at hand.
abbrev pub HasToken : AuthStore → Type 0
HasToken s = s.access_token ≡ none → s.user ≡ none

apply-HasToken : (w : Write) (s : AuthStore) → HasToken s → HasToken (apply w s)
unfolding apply set_auth set_access_token clear_auth
apply-HasToken (signs_in u token) s h = λ e. cc
apply-HasToken (renews token) s h = λ e. cc
apply-HasToken clears s h = λ e. refl

-- From a store that has no user if it has no token, every history of sign-ins, renewals and clears
-- leads to such a store.
run-HasToken : (s : AuthStore) (ws : List Write) → HasToken s → HasToken (run s ws)
unfolding run
run-HasToken s [] h = h
run-HasToken s (w ∷ ws) h = run-HasToken (apply w s) ws (apply-HasToken w s h)

-- A history of renewals only.
abbrev Renewals : List Write → Type 0
Renewals [] = Unit
Renewals (renews token ∷ ws) = Renewals ws
Renewals (w ∷ ws) = ⊥

run-no_user :
    (s : AuthStore) (ws : List Write) → Renewals ws → s.user ≡ none → (run s ws).user ≡ none
unfolding run apply set_access_token
run-no_user s [] h e = e
run-no_user s (renews token ∷ ws) h e = run-no_user (set_access_token token s) ws h e
run-no_user s (signs_in u token ∷ ws) h e = elim h [ ]
run-no_user s (clears ∷ ws) h e = elim h [ ]

-- After a clear, whatever tokens are renewed without a sign-in, there is no role in any scope,
-- nothing can be written, and there is neither instance nor cluster access.
clear_auth-no_access :
    (s : AuthStore) (ws : List Write) (scope : String)
    → Renewals ws
    → let t = run (clear_auth s) ws in
      (role_for t scope ≡ none)
      × (can_write t scope ≡ false)
      × (is_instance_admin t ≡ false)
      × (has_any_cluster_access t ≡ false)
unfolding role_for can_write is_instance_admin has_any_cluster_access clear_auth
clear_auth-no_access s ws scope h =
    let e = run-no_user (clear_auth s) ws h refl in (rw e, rw e, rw e, rw e)
