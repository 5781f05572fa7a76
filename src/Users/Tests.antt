-- ===== src/Users/Tests.antt =====
-- Runs of the page of the users.
use clustervision.Base.{String, false, ◌≡◌, refl, true, [], ◌∷◌, none, some, All, arith, eq_iff}
use clustervision.Types.{certificate, service_account, User}
use clustervision.Auth.{operator, AuthStore, can_write, role_for}
use clustervision.Users.{
  set_type, set_name, set_namespace, SaRef, Page, opened, import_payload, submit_import,
  click_delete, confirm_delete, handle, controls, Reach, here, used,
}
use clustervision.Users.Importing.{
  picked, retyped, renamed, import-namespaces, Authorized, Reach-Authorized,
}

abbrev olga : AuthStore
olga = record {
  user = some (record { username = "olga"; roles = ("local", operator) ∷ [] });
  access_token = some "t";
}

abbrev robot : SaRef
robot = record { name = "robot"; namespace = "ci" }

abbrev importing : Page
importing = record opened { import_open = true }

import-namespaces_example :
    ((import_payload (picked (λ t. t) robot importing).form).name ≡ "robot")
    × ((import_payload (picked (λ t. t) robot importing).form).namespace ≡ "ci")
    × (controls olga "local" (robot ∷ []) (picked (λ t. t) robot importing) (set_type certificate)
        ≡ true)
    × (controls olga "local" (robot ∷ []) (retyped (λ t. t) robot importing) (set_name "ann")
        ≡ true)
    × (let q = renamed (λ t. t) robot "ann" importing in
        (controls olga "local" (robot ∷ []) q submit_import ≡ true)
        × ((v : String) → controls olga "local" (robot ∷ []) q (set_namespace v) ≡ false)
        × ((import_payload q.form).user_type ≡ certificate)
        × ((import_payload q.form).name ≡ "ann")
        × ((import_payload q.form).namespace ≡ "ci"))
import-namespaces_example =
    import-namespaces olga "local" (λ t. t) (robot ∷ []) importing robot "ann"
      (unfold controls in refl) refl (ground (arith, eq_iff "ann" ""))

abbrev bob : User
bob = record {
  name = "bob";
  user_type = service_account;
  groups = [];
  namespace = "ci";
  created_at = "";
  cert_expiry = none;
  csr_name = none;
}

abbrev asking : Page
asking = record opened { to_delete = some bob }

abbrev reach_asking : Reach olga "local" (λ t. t) asking
unfolding controls handle can_write role_for
reach_asking = used here [] (click_delete bob) refl

Reach-Authorized_example :
    All (Authorized olga "local" asking) (handle (λ t. t) confirm_delete asking).1
Reach-Authorized_example = Reach-Authorized reach_asking [] confirm_delete (unfold controls in refl)
