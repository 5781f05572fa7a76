-- ===== src/Admin/Tests.antt =====
-- Runs of the page of the accounts.
use clustervision.Base.{
  ◌≡◌, refl, String, true, false, [], ◌∷◌, none, some, All, starts_and, is_name_char, List, split,
}
use clustervision.Auth.{admin, instance_scope, AuthStore}
use clustervision.Admin.{
  local, CvUser, Page, opened, is_username, confirm_delete, click_delete, handle, is_self, controls,
  Reach, here, used, roles_badge, scopes,
}
use clustervision.Admin.Accounts.{Permitted, ShowsLocal, Reach-Permitted}
use clustervision.Admin.Links
use clustervision.Admin.Links.{handle_save, handle_save-chosen}
use clustervision.Admin.Assignments
use clustervision.Admin.Assignments.{assigned_scopes, handle_submit-outcome}
use clustervision.Admin.Vault
use clustervision.Admin.Vault.{
  VaultStatus, addr, token, field_of, form_of, typed, type_all, ask_configure, Section,
  default_config, save-typed,
}

abbrev root : AuthStore
root = record {
  user = some (record { username = "root"; roles = (instance_scope, admin) ∷ [] });
  access_token = some "t";
}

abbrev account : String → CvUser
account name = record {
  username = name;
  roles = (instance_scope, admin) ∷ [];
  source = local;
  last_login_at = none;
  linked_managed_user = none;
}

accepts : is_username "ann_b.c-1" ≡ true
unfolding is_username starts_and is_name_char
accepts = refl

refuses : is_username "Ann" ≡ false
unfolding is_username starts_and is_name_char
refuses = refl

badge : roles_badge (account "ann") ≡ scopes true 1
unfolding roles_badge
badge = refl

own_row : controls root opened (click_delete (account "root")) ≡ false
unfolding controls is_self
own_row = refl

abbrev asking : Page
asking = record opened { delete_target = some (account "ann") }

abbrev reach_asking : Reach root asking
unfolding controls handle is_self
reach_asking = used here (click_delete (account "ann")) refl

Reach-Permitted_example :
    All (Permitted root asking) (handle confirm_delete asking).1
    × ShowsLocal (handle confirm_delete asking).0.roles_target
Reach-Permitted_example = Reach-Permitted reach_asking confirm_delete (unfold controls in refl)

abbrev ann_row : Links.Dialog
ann_row = Links.opened (some (record { name = "ann"; namespace = "team" }))

saves : handle_save ann_row ≡ some (record { name = "ann"; namespace = "team" })
unfolding handle_save Links.opened split
saves = refl

abbrev held : List Assignments.ScopeRole
held = record { scope = "local"; role = admin } ∷ []

abbrev healthy : VaultStatus
healthy = record {
  enabled = true;
  addr = some "https://vault";
  mount = some "kv";
  base_path = none;
  namespace = none;
  tls_skip_verify = none;
  healthy = some true;
  error = none;
}

abbrev typed_in : List (Vault.Key × String)
typed_in = (token, "a") ∷ (token, "ab") ∷ []
