-- ===== src/Wizard/Identity.antt =====
-- What step 1 guarantees for the request that step 2 sends.
use clustervision.Base.{Bool, String, ◌≡◌, refl, true, ◌&&◌, List, [], ◌∷◌, trim, arith}
use clustervision.Types.{certificate, UserWithCredentials}
use clustervision.Wizard.{
  identity, permissions, Wizard, Effect, create_user, initial, is_sa, is_new, is_name, is_label,
  validate_namespace, validate_step1, handle_step1_next, create_payload, add_inline_ns, toggle_ns,
}
use clustervision.Wizard.Finishing.{finish_created, on_created, on_assigned}
use clustervision.Wizard.Controls.{
  Event, set_user_type, set_name, set_sa_namespace, set_new_namespace, set_groups, toggles, next,
  back, create, add_inline, copy_key, copy_kubeconfig, download_kubeconfig, download_credentials,
  closes, handle, identity_controls, permissions_controls, done_controls, controls, Step, control,
  created, create_failed, assigned, generated, generate_failed, copied_over, Reach, here, then_,
}

-- The name is a valid name, and a new namespace is a valid label.
record Validated (s : Wizard) : Type 0 where
  pub valid_name : is_name s.name ≡ true
  pub valid_namespace :
      (is_sa s.user_type && is_new s) ≡ true → is_label (trim s.new_namespace) ≡ true

-- On step 2 the input of step 1 has been validated.
abbrev Checked : Wizard → Type 0
Checked s = s.stage ≡ permissions → Validated s

validate_namespace_sound :
    (s : Wizard)
    → (validate_namespace s).1 ≡ true
    → (is_sa s.user_type && is_new s) ≡ true
    → is_label (trim s.new_namespace) ≡ true
unfolding validate_namespace
validate_namespace_sound s h k = ground arith

-- Validation changes the error texts alone.
pub record SameInput (s t : Wizard) : Type 0 where
  pub stage : t.stage ≡ s.stage
  pub name : t.name ≡ s.name
  pub user_type : t.user_type ≡ s.user_type
  pub sa_namespace : t.sa_namespace ≡ s.sa_namespace
  pub new_namespace : t.new_namespace ≡ s.new_namespace
  pub selected_ns : t.selected_ns ≡ s.selected_ns
  pub extra_ns : t.extra_ns ≡ s.extra_ns
  pub last_auto_added : t.last_auto_added ≡ s.last_auto_added

validate_namespace-SameInput : (s : Wizard) → SameInput s (validate_namespace s).0
unfolding validate_namespace
validate_namespace-SameInput s = ground arith

pub validate_step1-SameInput : (s : Wizard) → SameInput s (validate_step1 s).0
unfolding validate_step1
validate_step1-SameInput s =
    ground (arith, validate_namespace-SameInput (record s { name_error = "" }))

validate_step1_sound : (s : Wizard) → (validate_step1 s).1 ≡ true → Validated s
unfolding validate_step1
validate_step1_sound s h = record {
  valid_name = ground arith;
  valid_namespace = λ k. ground (arith, validate_namespace_sound (record s { name_error = "" }));
}

next-Checked :
    (at_once : Bool) (s : Wizard) → s.stage ≡ identity → Checked (handle_step1_next at_once s)
unfolding handle_step1_next
next-Checked at_once s i e =
    let same = validate_step1-SameInput s in
    let valid : (validate_step1 s).1 ≡ true = ground arith in
    let v = validate_step1_sound s valid in
    record { valid_name = ground arith; valid_namespace = λ k. ground arith }

toggle-Checked : (ns : String) (s : Wizard) → Checked s → Checked (toggle_ns ns s)
unfolding toggle_ns
toggle-Checked ns s v = λ p. ground arith

add_inline-Checked : (s : Wizard) → Checked s → Checked (add_inline_ns s)
unfolding add_inline_ns
add_inline-Checked s v = λ p. ground arith

-- What else step 1 and the other steps do to the input.
handle-Checked :
    (namespaces : List String) (e : Event) (s : Wizard)
    → controls namespaces s e ≡ true
    → Checked s
    → Checked (handle e s).0
unfolding handle controls identity_controls permissions_controls done_controls
handle-Checked nss (set_user_type t) s on v = λ p. ground arith
handle-Checked nss (set_name t) s on v = λ p. ground arith
handle-Checked nss (set_sa_namespace t) s on v = λ p. ground arith
handle-Checked nss (set_new_namespace t) s on v = λ p. ground arith
handle-Checked nss (set_groups t) s on v = λ p. ground arith
handle-Checked nss (next at_once) s on v = next-Checked at_once s (ground arith)
handle-Checked nss add_inline s on v = add_inline-Checked s v
handle-Checked nss (toggles ns) s on v = toggle-Checked ns s v
handle-Checked nss copy_key s on v = λ p. ground arith
handle-Checked nss copy_kubeconfig s on v = λ p. ground arith
handle-Checked nss download_kubeconfig s on v = v
handle-Checked nss (download_credentials now) s on v = λ p. ground arith
handle-Checked nss closes s on v = λ p. cc
handle-Checked nss back s on v = λ p. cc
handle-Checked nss _ s on v = λ p. ground arith

on_created-not_permissions :
    (d : UserWithCredentials) (s : Wizard) → Checked s → Checked (on_created d s).0
unfolding on_created finish_created
on_created-not_permissions d s v = λ p. ground arith

Step-Checked :
    {nss : List String} {s t : Wizard} {es : List Effect} → Step nss s t es → Checked s → Checked t
unfolding on_assigned finish_created
Step-Checked {nss} {s} (control e on) v = handle-Checked nss e s on v
Step-Checked {s} (created d w) v = on_created-not_permissions d s v
Step-Checked {s} (create_failed w) v = λ p. ground arith
Step-Checked {s} (assigned d worked w) v = λ p. cc
Step-Checked {s} (generated y w) v = λ p. ground arith
Step-Checked {s} (generate_failed w) v = λ p. ground arith
Step-Checked {s} copied_over v = λ p. ground arith

Reach-Checked : {nss : List String} {s : Wizard} → Reach nss initial s → Checked s
Reach-Checked here = λ p. cc
Reach-Checked (then_ r st) = Step-Checked st (Reach-Checked r)

-- However the wizard is used from its start: when Create user can be pressed, the request has a
-- name in the accepted form; the namespace of a service account, if it is a new one, is a label in
-- the accepted form; and a certificate user has none.
pub create-valid :
    (nss : List String) (s : Wizard)
    → Reach nss initial s
    → controls nss s create ≡ true
    → ((handle create s).1 ≡ create_user (create_payload s) ∷ [])
      × (is_name (create_payload s).name ≡ true)
      × ((is_sa s.user_type && is_new s) ≡ true → is_label (create_payload s).namespace ≡ true)
      × (s.user_type ≡ certificate → (create_payload s).namespace ≡ "")
unfolding handle controls identity_controls permissions_controls done_controls create_payload
create-valid nss s r on =
    let on_step2 : s.stage ≡ permissions = ground arith in
    let v = Reach-Checked r on_step2 in
    (refl, v.valid_name, (λ k. ground (arith, v.valid_namespace k)), λ k. ground arith)
