-- ===== src/Kubeconfig/Previews.antt =====
-- What the panel asks for once a user is selected.
use clustervision.Base.{
  String, ◌≡◌, ◌≢◌, ◌⊎◌, ap, ◌∙◌, true, false, none, some, ◌==◌, arith, eq_iff, Bool-cases, inl,
  inr, if◌then◌else◌,
}
use clustervision.Types.{certificate, service_account, User, KubeconfigRequest}
use clustervision.Kubeconfig.{
  Props, Panel, selected_user, request_for, auto_generate, user_changed, select_key, handle,
  or_undefined, Reach,
}
use clustervision.Kubeconfig.Requests.{Reach-Inv}
use clustervision.Kubeconfig.Selecting.{
  timer-sa, timer-vault, updated, updated-namespace, kept-namespace, updated-user, timer-kept,
  timer-moved, emptied, first-ns_only, moved-ns_only,
}

-- What is asked for a service account, with its own namespace.
abbrev sa_request : User → KubeconfigRequest
sa_request u = record {
  username = u.name;
  user_type = service_account;
  namespace = u.namespace;
  sa_namespace = some u.namespace;
  private_key_pem = none;
}

sa-request :
    (q : Panel) (u : User)
    → u.user_type ≡ service_account
    → u.namespace ≢ ""
    → q.namespace ≡ u.namespace
    → request_for q u ≡ sa_request u
unfolding request_for
sa-request q u t given n =
    let own : or_undefined u.namespace ≡ some u.namespace = ground (arith, eq_iff u.namespace "") in
    simp (t, n, own)

-- What is asked for a certificate user, with a private key.
abbrev pub cert_request : User → String → String → KubeconfigRequest
cert_request u ns key = record {
  username = u.name;
  user_type = certificate;
  namespace = ns;
  sa_namespace = none;
  private_key_pem = some key;
}

cert-request :
    (q : Panel) (u : User)
    → u.user_type ≡ certificate
    → request_for q u ≡ cert_request u q.namespace q.private_key
unfolding request_for
cert-request q u t = simp t

same_text : (s t : String) → (s == t) ≡ true → s ≡ t
same_text s t e = ground (arith, eq_iff s t)

-- Selecting a service account with a namespace, as a user who may write: the timer is set to ask for
-- its kubeconfig, with its own namespace whatever namespace was chosen before, and without a key.
sa_selected :
    (props : Props) (p : Panel) (u : User) (k : String)
    → (p.selected_key == k) ≡ false
    → selected_user (record p { selected_key = k }) ≡ some u
    → p.can_write ≡ true
    → u.user_type ≡ service_account
    → u.namespace ≢ ""
    → (handle props (select_key k) p).0.timer ≡ some (sa_request u)
sa_selected props p u k another found writer t given =
    let q : Panel = record p { selected_key = k } in
    let after : Panel = updated props p u k another found in
    let n : after.namespace ≡ u.namespace = updated-namespace props p u k another found given in
    elim (Bool-cases (p.namespace == after.namespace)) [
      | inl e ↦
          timer-kept props p u k another found e
          ∙ timer-sa q u writer found t
          ∙ ap some (sa-request q u t given (same_text p.namespace after.namespace e ∙ n))
      | inr e ↦
          timer-moved props p u k another found e
          ∙ timer-sa after u (unfold user_changed auto_generate in writer)
              (updated-user props p u k another found) t
          ∙ ap some (sa-request after u t given n)
    ]

-- Selecting a certificate user without a namespace, or with the one that is shown, when Vault is
-- enabled, by a user who may write, after any use of the panel: the timer is set to ask for the new
-- user's kubeconfig with the private key that was in the field for the user before, although the
-- field is emptied.
pub key_of_another :
    {props : Props} {p : Panel} (u : User) (k : String)
    → Reach props p
    → (p.selected_key == k) ≡ false
    → selected_user (record p { selected_key = k }) ≡ some u
    → p.can_write ≡ true
    → p.vault_enabled ≡ true
    → u.user_type ≡ certificate
    → (u.namespace ≡ "") ⊎ (u.namespace ≡ p.namespace)
    → ((handle props (select_key k) p).0.timer ≡ some (cert_request u p.namespace p.private_key))
      × ((handle props (select_key k) p).0.private_key ≡ "")
key_of_another {props} {p} u k r another found writer vault t kept =
    let q : Panel = record p { selected_key = k } in
    let after : Panel = updated props p u k another found in
    let n : after.namespace ≡ p.namespace = kept-namespace props p u k another found kept in
    let same : (p.namespace == after.namespace) ≡ true =
      ground (arith, eq_iff p.namespace after.namespace, n) in
    let first = first-ns_only props p u k another found (Reach-Inv r).1 in
    (
      timer-kept props p u k another found same
          ∙ timer-vault q u writer found t vault
          ∙ ap (λ b. if b then none else some (request_for q u)) first
          ∙ ap some (cert-request q u t),
      emptied props p u k another found,
    )

-- Selecting a certificate user with another namespace than the one that is shown, when Vault is
-- enabled, by a user who may write: no timer is set to ask for a kubeconfig.
no_preview :
    (props : Props) (p : Panel) (u : User) (k : String)
    → (p.selected_key == k) ≡ false
    → selected_user (record p { selected_key = k }) ≡ some u
    → p.can_write ≡ true
    → p.vault_enabled ≡ true
    → u.user_type ≡ certificate
    → u.namespace ≢ ""
    → u.namespace ≢ p.namespace
    → (handle props (select_key k) p).0.timer ≡ none
no_preview props p u k another found writer vault t given moved =
    let after : Panel = updated props p u k another found in
    let n : after.namespace ≡ u.namespace = updated-namespace props p u k another found given in
    let e : (p.namespace == after.namespace) ≡ false =
      ground (arith, eq_iff p.namespace after.namespace, n) in
    timer-moved props p u k another found e
    ∙ timer-vault after u (unfold user_changed auto_generate in writer)
        (updated-user props p u k another found) t (unfold user_changed auto_generate in vault)
    ∙ ap (λ b. if b then none else some (request_for after u))
        (moved-ns_only props p u k another found e)
