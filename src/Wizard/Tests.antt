-- ===== src/Wizard/Tests.antt =====
-- The theorems of the wizard at concrete states.
use clustervision.Base.{
  All, false, arith, eq_iff, String, ◌≡◌, refl, true, ◌&&◌, [], ◌∷◌, none, some, includes,
  starts_and, is_name_char, is_label_char, trim, if◌then◌else◌,
}
use clustervision.Types.{service_account, certificate, UserWithCredentials}
use clustervision.Wizard.{
  identity, permissions, done, cluster, namespace, Wizard, create_user, initial, is_sa, is_new,
  is_name, is_label, create_payload, namespaces_with_pending, validate_step1, validate_namespace,
  advance, pending_ns, drop_stale, set_add, handle_step1_next,
}
use clustervision.Wizard.Finishing.{selected_role, on_created}
use clustervision.Wizard.Controls.{
  set_name, set_new_namespace, next, back, create, copy_key, handle, identity_controls,
  permissions_controls, done_controls, controls, shown_key, control, Reach, here, then_,
}
use clustervision.Wizard.Identity.{create-valid}
use clustervision.Wizard.Renaming.{Replaced, after, renamed-stays}
use clustervision.Wizard.Grants.{Gives, count_granted, count_cluster, on_created-grants}
use clustervision.Wizard.Done.{Kept, done-keeps_key}

abbrev named : Wizard
named = record initial { name = "sa-ci"; new_namespace = "ci" }

abbrev on_step2 : Wizard
on_step2 = record named {
  stage = permissions;
  selected_ns = "ci" ∷ [];
  last_auto_added = some "ci";
}

named_next : handle_step1_next false named ≡ on_step2
unfolding handle_step1_next validate_step1 validate_namespace advance pending_ns drop_stale set_add
    starts_and trim is_name_char is_label_char
named_next = refl

abbrev reach_step2 : Reach [] initial on_step2
unfolding handle controls identity_controls handle_step1_next validate_step1 validate_namespace
    advance pending_ns drop_stale set_add starts_and trim is_name_char is_label_char
reach_step2 =
    then_
      (then_ (then_ here (control (set_name "sa-ci") refl)) (control (set_new_namespace "ci") refl))
      (control (next false) refl)

-- The field was renamed after step 2 was reached.
abbrev renamed : Wizard
renamed = record on_step2 { stage = identity; new_namespace = "cd" }

abbrev reach_renamed : Reach [] initial renamed
unfolding handle controls identity_controls permissions_controls
reach_renamed =
    then_ (then_ reach_step2 (control back refl)) (control (set_new_namespace "cd") refl)

renamed-Replaced : Replaced [] "ci" renamed
unfolding validate_step1 validate_namespace pending_ns starts_and trim is_name_char is_label_char
renamed-Replaced = record {
  on_step1 = refl;
  valid = refl;
  added = refl;
  selected = refl;
  named = λ e. ground (arith, eq_iff "ci" "");
  other = λ e. ground (arith, eq_iff "ci" "cd");
  unlisted = refl;
  untyped = refl;
}

renamed-stays_example :
    Reach [] initial (after true renamed)
    × Reach [] initial (after false renamed)
    × ((after true renamed).stage ≡ permissions)
    × ((after false renamed).stage ≡ permissions)
    × (includes (after true renamed).selected_ns "ci" ≡ false)
    × (includes (after false renamed).selected_ns "ci" ≡ true)
    × (includes (namespaces_with_pending [] (after false renamed)) "ci" ≡ false)
renamed-stays_example = renamed-stays [] "ci" renamed reach_renamed renamed-Replaced

create-valid_example :
    ((handle create on_step2).1 ≡ create_user (create_payload on_step2) ∷ [])
    × (is_name (create_payload on_step2).name ≡ true)
    × ((is_sa service_account && is_new on_step2) ≡ true
        → is_label (create_payload on_step2).namespace ≡ true)
    × (service_account ≡ certificate → (create_payload on_step2).namespace ≡ "")
create-valid_example =
    create-valid [] on_step2 reach_step2 (unfold controls permissions_controls trim in refl)

abbrev issued : UserWithCredentials
issued = record {
  user = record {
    name = "ann";
    user_type = certificate;
    groups = [];
    created_at = "";
    namespace = "";
    cert_expiry = none;
    csr_name = none;
  };
  certificate_pem = some "C";
  private_key_pem = some "K";
  vault_path = none;
}

abbrev creating_now : Wizard
creating_now = record on_step2 { creating = true }

on_created-grants_example :
    let es = (on_created issued creating_now).1 in
    ((role : String)
      → selected_role creating_now ≡ some role
      → creating_now.scope ≡ namespace
      → All (Gives issued service_account role) es
        × (count_granted "ci" es ≡ (if includes ("ci" ∷ []) "ci" then 1 else 0))
        × (count_cluster es ≡ 0))
    × ((role : String)
        → selected_role creating_now ≡ some role
        → creating_now.scope ≡ cluster
        → All (Gives issued service_account role) es
          × (count_granted "ci" es ≡ 0)
          × (count_cluster es ≡ 1))
    × (selected_role creating_now ≡ none → (count_granted "ci" es ≡ 0) × (count_cluster es ≡ 0))
on_created-grants_example = on_created-grants issued creating_now "ci" (refl, tt)

abbrev showing : Wizard
showing = record initial { stage = done; user_type = certificate; credentials = some issued }

key_shown : shown_key showing ≡ some "K"
unfolding shown_key
key_shown = refl

done-keeps_key_example :
    Kept showing (handle copy_key showing).0
    × (shown_key (handle copy_key showing).0 ≡ shown_key showing)
done-keeps_key_example =
    done-keeps_key [] showing copy_key refl refl refl refl (unfold controls done_controls in refl)

abbrev left_over : Wizard
left_over = record named { user_type = certificate; new_namespace = "No!" }
