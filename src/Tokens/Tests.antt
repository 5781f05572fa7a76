-- ===== src/Tokens/Tests.antt =====
-- Runs of the tokens page.
use clustervision.Base.{◌≡◌, refl, true, false, [], ◌∷◌, none, some, All}
use clustervision.Auth.{operator, AuthStore, can_write, role_for}
use clustervision.Tokens.{
  SaTokenInfo, Page, sa_tab, opened, Loaded, ask_revoke, set_tab, click_revoke, confirm_revoke,
  controls, sa_rows, handle, revoke_shown, Reach, here, used,
}
use clustervision.Tokens.Confirming.{Confirmed, Reach-Confirmed}

abbrev olga : AuthStore
olga = record {
  user = some (record { username = "olga"; roles = ("local", operator) ∷ [] });
  access_token = some "t";
}

abbrev bot_token : SaTokenInfo
bot_token = record {
  secret_name = "bot-token";
  sa_name = "bot";
  namespace = "default";
  created_at = none;
  token_present = true;
}

abbrev one_token : Loaded
one_token = record {
  history = [];
  loading_history = false;
  sa_tokens = bot_token ∷ [];
  loading_sa = false;
}

abbrev asking : Page
asking = record opened { tab = sa_tab; revoke_target = some bot_token }

abbrev reach_asking : Reach olga "local" (click_revoke bot_token ∷ set_tab sa_tab ∷ []) asking
unfolding controls handle sa_rows can_write role_for
reach_asking =
    used (used here one_token (set_tab sa_tab) refl) one_token (click_revoke bot_token) refl

confirms : (handle confirm_revoke asking).1 ≡ ask_revoke "bot-token" "default" ∷ []
unfolding handle revoke_shown
confirms = refl

Reach-Confirmed_example :
    All
      (Confirmed olga "local" (click_revoke bot_token ∷ set_tab sa_tab ∷ []))
      (handle confirm_revoke asking).1
Reach-Confirmed_example =
    Reach-Confirmed reach_asking one_token confirm_revoke (unfold controls in refl)
