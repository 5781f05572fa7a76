-- ===== src/Kubeconfig/Tests.antt =====
-- Runs of the kubeconfig panel.
use clustervision.Base.{String, ◌≡◌, refl, true, false, inl, trim, [], ◌∷◌, none, some, All, ◌<>◌}
use clustervision.Types.{KubeconfigRequest, UserType, certificate, service_account, User}
use clustervision.Kubeconfig.{
  idle, ready, ask, Props, Panel, opened, selected_user, is_cert, can_generate, request_for,
  handle_generate, ns_only_changed, auto_timer, auto_generate, user_changed, ns_rendered,
  key_rendered, preselect, users_loaded, select_key, set_private_key, timer_fired, handle, controls,
  Reach, here, then_,
}
use clustervision.Kubeconfig.Requests.{IsFor, Reach-IsFor}
use clustervision.Kubeconfig.Shown.{Honest, start, used, succeeded, ForKey, shown-ForKey}
use clustervision.Kubeconfig.Previews.{cert_request, key_of_another}

abbrev managed : String → UserType → String → User
managed name type ns = record {
  name = name;
  user_type = type;
  groups = [];
  namespace = ns;
  created_at = "";
  cert_expiry = none;
  csr_name = none;
}

abbrev alice : User
alice = managed "alice" certificate ""

abbrev bob : User
bob = managed "bob" certificate ""

abbrev carol : User
carol = managed "carol" certificate "team"

abbrev bot : User
bot = managed "bot" service_account "ops"

abbrev nobody : Props
nobody = record { preselected_name = none; preselected_namespace = none }

-- Alice is selected, and her key is in the field.
abbrev with_key : Panel
with_key = record {
  users = alice ∷ bob ∷ carol ∷ bot ∷ [];
  vault_enabled = true;
  can_write = true;
  selected_key = "/alice";
  namespace = "";
  private_key = "PEM";
  preselection_done = false;
  generate = idle;
  timer = some (cert_request alice "" "");
  prev_key = "/alice";
  prev_ns = "";
}

abbrev reach_key : Reach nobody with_key
unfolding handle controls opened key_rendered ns_rendered auto_generate auto_timer user_changed
    preselect selected_user is_cert can_generate handle_generate request_for ns_only_changed trim
reach_key =
    then_
      (then_ (then_ (here true true) (users_loaded (alice ∷ bob ∷ carol ∷ bot ∷ [])) refl)
        (select_key "/alice") refl)
      (set_private_key "PEM") refl

Reach-IsFor_example : All (IsFor with_key) (handle nobody timer_fired with_key).1
Reach-IsFor_example = Reach-IsFor reach_key timer_fired (unfold controls in refl)

key_of_another_example :
    ((handle nobody (select_key "/bob") with_key).0.timer ≡ some (cert_request bob "" "PEM"))
    × ((handle nobody (select_key "/bob") with_key).0.private_key ≡ "")
key_of_another_example =
    key_of_another bob "/bob" reach_key refl (unfold selected_user in refl) refl refl refl
      (inl refl)

abbrev answers : KubeconfigRequest → String
answers q = "kubeconfig of " <> q.username

abbrev with_text : Panel
with_text = record with_key { timer = none; generate = ready "kubeconfig of alice" }

abbrev honest_text : Honest nobody answers with_text (some (cert_request alice "" ""))
unfolding handle controls opened key_rendered ns_rendered auto_generate auto_timer user_changed
    preselect selected_user is_cert can_generate handle_generate request_for ns_only_changed trim
    ask
honest_text =
    succeeded (cert_request alice "" "")
      (used
        (used
          (used (used (start true true) (users_loaded (alice ∷ bob ∷ carol ∷ bot ∷ [])) refl refl)
            (select_key "/alice") refl refl)
          (set_private_key "PEM") refl refl)
        timer_fired refl refl)
      refl

shown-ForKey_example :
    (q : KubeconfigRequest) × ("kubeconfig of alice" ≡ answers q) × ForKey "/alice" q
shown-ForKey_example = shown-ForKey honest_text "kubeconfig of alice" refl
