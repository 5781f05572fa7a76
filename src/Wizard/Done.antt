-- ===== src/Wizard/Done.antt =====
-- When the wizard can be left, and what is lost when it is left too early.
use clustervision.Base.{
  Bool, if◌then◌else◌, String, ◌≡◌, ◌≢◌, refl, true, false, List, [], none, some, eq_iff, trim,
  starts_and, includes, arith, Option-cases, inl, inr,
}
use clustervision.Types.{certificate, UserWithCredentials}
use clustervision.Wizard.{
  permissions, done, Wizard, initial, is_new, is_name, pending_ns, drop_stale, advance, or_null,
  validate_namespace, validate_step1, handle_step1_next, handle_close,
}
use clustervision.Wizard.Finishing.{
  assignments, finish_created, on_created, on_assigned, handle_copy_key, handle_copy_kubeconfig,
  handle_download_credentials, key_of, vault_of, data_of, can_close,
}
use clustervision.Wizard.Controls.{
  Event, copy_key, copy_kubeconfig, download_kubeconfig, download_credentials, confirm, closes,
  handle, permissions_controls, done_controls, controls, shown_key,
}
use clustervision.Wizard.Sets.{includes-set_add}

-- What stays of a wizard that shows a key.
pub record Kept (s t : Wizard) : Type 0 where
  pub stage : t.stage ≡ done
  pub credentials : t.credentials ≡ s.credentials
  pub user_type : t.user_type ≡ s.user_type

read-Kept :
    (now : String) (s : Wizard)
    → s.stage ≡ done
    → Kept s (handle_copy_key s).0
      × Kept s (handle_copy_kubeconfig s).0
      × Kept s (handle_download_credentials now s).0
unfolding handle_copy_key handle_copy_kubeconfig handle_download_credentials
read-Kept now s d = (
  elim (Option-cases (key_of s.credentials)) [
    | inl e ↦ rw (e, handle_copy_key) (record { stage = d; credentials = refl; user_type = refl })
    | inr (k, e) ↦
        rw (e, handle_copy_key) (record { stage = d; credentials = refl; user_type = refl })
  ],
  elim (Option-cases (data_of s.kubeconfig)) [
    | inl e ↦
        rw (e, handle_copy_kubeconfig) (record { stage = d; credentials = refl; user_type = refl })
    | inr (y, e) ↦
        rw (e, handle_copy_kubeconfig) (record { stage = d; credentials = refl; user_type = refl })
  ],
  elim (Option-cases s.credentials) [
    | inl e ↦
        rw (e, handle_download_credentials)
          (record { stage = d; credentials = rw e; user_type = refl })
    | inr (c, e) ↦
        rw (e, handle_download_credentials)
          (record { stage = d; credentials = rw e; user_type = refl })
  ],
)

handle-Kept :
    (nss : List String) (e : Event) (s : Wizard)
    → s.stage ≡ done
    → s.user_type ≡ certificate
    → vault_of s.credentials ≡ none
    → s.confirmed ≡ false
    → controls nss s e ≡ true
    → Kept s (handle e s).0
unfolding handle controls done_controls can_close
handle-Kept nss copy_key s d c n f on = (read-Kept "" s d).0
handle-Kept nss copy_kubeconfig s d c n f on = (read-Kept "" s d).1
handle-Kept nss (download_credentials now) s d c n f on = (read-Kept now s d).2
handle-Kept nss download_kubeconfig s d c n f on = record {
  stage = d;
  credentials = refl;
  user_type = refl;
}
handle-Kept nss (confirm v) s d c n f on = record {
  stage = d;
  credentials = refl;
  user_type = refl;
}
handle-Kept nss _ s d c n f on = ground arith

Kept-shown_key : (s t : Wizard) → Kept s t → shown_key t ≡ shown_key s
unfolding shown_key
Kept-shown_key s t k = rw (k.credentials, k.user_type)

-- On the last step, for a certificate user whose key is not in Vault and not yet confirmed as
-- saved, no control that is enabled leaves the step, drops the credentials or hides the key.
pub done-keeps_key :
    (nss : List String) (s : Wizard) (e : Event)
    → s.stage ≡ done
    → s.user_type ≡ certificate
    → vault_of s.credentials ≡ none
    → s.confirmed ≡ false
    → controls nss s e ≡ true
    → Kept s (handle e s).0 × (shown_key (handle e s).0 ≡ shown_key s)
done-keeps_key nss s e d c n f on =
    let k = handle-Kept nss e s d c n f on in (k, Kept-shown_key s (handle e s).0 k)

-- Closing a wizard at rest, with no user being created and no role being assigned, restores the
-- state that it starts with, whatever was entered.
handle_close-initial :
    (s : Wizard) → s.creating ≡ false → s.assigning ≡ false → (handle_close s).0 ≡ initial
unfolding handle_close
handle_close-initial s c a = ground arith

-- Closing is offered on step 2 while a user is being created. When the answer comes after that, for
-- whatever user and input, no role is assigned in any namespace that was selected, the wizard
-- stands on its last step with the credentials, does not show the private key, and can be closed
-- without a confirmation.
closed_while_creating :
    (nss : List String) (s : Wizard) (d : UserWithCredentials)
    → s.stage ≡ permissions
    → s.creating ≡ true
    → let (t, effects) = on_created d (handle_close s).0 in
      let u = (on_assigned d true t).0 in
      (controls nss s closes ≡ true)
      × (effects ≡ [])
      × (u.stage ≡ done)
      × (u.credentials ≡ some d)
      × (shown_key u ≡ none)
      × (controls nss u closes ≡ true)
unfolding controls permissions_controls done_controls can_close handle_close on_created on_assigned
    finish_created assignments shown_key
closed_while_creating nss s d p c = (ground arith, refl, refl, refl, refl, refl)

name-nonempty : (n : String) → is_name n ≡ true → n ≢ ""
unfolding starts_and
name-nonempty n h e = absurd_empty (rw e at h)
  where
    absurd_empty : is_name "" ≡ true → ⊥
    absurd_empty k = cc

certificate-valid :
    (s : Wizard) → s.user_type ≡ certificate → is_name s.name ≡ true → (validate_step1 s).1 ≡ true
unfolding validate_step1 validate_namespace
certificate-valid s c n = ground (arith, eq_iff s.name "", name-nonempty s.name n)

-- A certificate user is offered no namespace, but a text that was left in the field of the new
-- namespace before the type was changed is selected by step 1, whether it is a valid label or not.
certificate-selects_unchecked :
    (at_once : Bool) (s : Wizard)
    → s.user_type ≡ certificate
    → is_name s.name ≡ true
    → is_new s ≡ true
    → trim s.new_namespace ≢ ""
    → ((handle_step1_next at_once s).stage ≡ permissions)
      × (includes (handle_step1_next at_once s).selected_ns (trim s.new_namespace) ≡ true)
unfolding handle_step1_next advance pending_ns
certificate-selects_unchecked at_once s c n w ne =
    let sel =
      drop_stale
        (if at_once then (validate_step1 s).0.last_auto_added else or_null (trim s.new_namespace))
        (trim s.new_namespace) (validate_step1 s).0.selected_ns in
    ground (
      arith,
      certificate-valid s c n,
      eq_iff (trim s.new_namespace) "",
      eq_iff (trim s.new_namespace) (trim s.new_namespace),
      includes-set_add sel (trim s.new_namespace) (trim s.new_namespace),
    )
