-- ===== src/Wizard/Finishing.antt =====
-- The second half of frontend/src/components/users/CreateUserWizard.tsx: what follows the creation of
-- a user, and the handlers of the last step.
use clustervision.Base.{
  String, Bool, true, false, not, ◌||◌, List, [], ◌∷◌, map, Option, none, some, ◌==◌, ◌<>◌, join,
  find, get_or, is_some, if◌then◌else◌,
}
use clustervision.Types.{
  UserType, certificate, service_account, UserKind, user_kind, sa_kind, cluster_role,
  UserWithCredentials, KubeconfigRequest,
}
use clustervision.Wizard.{
  Stage, done, Scope, cluster, namespace, Preset, presets, Fetch, pending, ready, Wizard, Effect,
  assign_role, generate, toast_error, toast_success, copy, download, is_sa, or_null,
}

-- The callback of `useCreateUser`, in two parts: up to the wait for the role assignments, and after
-- it. It reads the state as it is when the answer comes.
abbrev role_of : Option Preset → Option String
role_of none = none
role_of (some p) = p.role

abbrev pub selected_role : Wizard → Option String
selected_role s = role_of (find (λ p. p.id == s.preset) presets)

abbrev pub sa_of : UserType → String → Option String
sa_of service_account ns = some ns
sa_of certificate ns = none

abbrev pub kind_of : UserType → UserKind
kind_of service_account = sa_kind
kind_of certificate = user_kind

abbrev pub assignment : Wizard → UserWithCredentials → String → Option String → Effect
assignment s d role ns =
    assign_role d.name (record { role_name = role; role_kind = cluster_role; namespace = ns })
      (kind_of s.user_type) (sa_of s.user_type d.namespace)

unfoldable pub assignments : Wizard → UserWithCredentials → String → Scope → List Effect
assignments s d role cluster = assignment s d role none ∷ []
assignments s d role namespace = map (λ ns. assignment s d role (some ns)) s.selected_ns

kubeconfig_request : UserWithCredentials → KubeconfigRequest
kubeconfig_request d = record {
  username = d.name;
  user_type = d.user_type;
  namespace = d.namespace;
  sa_namespace = if is_sa d.user_type then or_null d.namespace else none;
  private_key_pem = d.private_key_pem;
}

unfoldable pub finish_created : UserWithCredentials → Wizard → Wizard × List Effect
unfolding kubeconfig_request
finish_created d s =
    (record s { kubeconfig = pending; stage = done }, generate (kubeconfig_request d) ∷ [])

-- `role?.` is truthy: the roles of the presets are not empty.
unfoldable pub on_created : UserWithCredentials → Wizard → Wizard × List Effect
unfolding finish_created assignments
on_created d s =
    let t : Wizard = record s { credentials = some d; creating = false } in
    elim (selected_role s) [
      | none ↦ finish_created d t
      | some role ↦ (record t { assigning = true }, assignments s d role s.scope)
    ]

unfoldable pub on_assigned : UserWithCredentials → Bool → Wizard → Wizard × List Effect
unfolding finish_created
on_assigned d worked s =
    let (t, effects) = finish_created d (record s { assigning = false }) in
    (t, if worked then effects else toast_error "User created but role assignment failed" ∷ effects)

-- Texts that may be missing or empty: `if (!x) return`.
abbrev truthy : Option String → Option String
truthy none = none
truthy (some a) = or_null a

abbrev pub key_of : Option UserWithCredentials → Option String
key_of none = none
key_of (some d) = truthy d.private_key_pem

abbrev pub vault_of : Option UserWithCredentials → Option String
vault_of none = none
vault_of (some d) = truthy d.vault_path

abbrev pub data_of : Fetch → Option String
data_of (ready y) = or_null y
data_of _ = none

unfoldable pub handle_copy_key : Wizard → Wizard × List Effect
handle_copy_key s = elim (key_of s.credentials) [
  | none ↦ (s, [])
  | some k ↦ (s, copy k ∷ toast_success "Private key copied" ∷ [])
]

unfoldable pub handle_copy_kubeconfig : Wizard → Wizard × List Effect
handle_copy_kubeconfig s = elim (data_of s.kubeconfig) [
  | none ↦ (s, [])
  | some y ↦ (record s { copied = true }, copy y ∷ [])
]

-- `now` is the date as a text.
credentials_text : String → UserWithCredentials → String
unfolding join
credentials_text now d = join "\n" (
    ("# ClusterVision credentials for " <> d.name)
    ∷ ("# Generated: " <> now)
    ∷ "# WARNING: Store these securely. The private key will NOT be shown again."
    ∷ ""
    ∷ "# Certificate:"
    ∷ get_or d.certificate_pem ""
    ∷ ""
    ∷ "# Private Key:"
    ∷ get_or d.private_key_pem ""
    ∷ [])

unfoldable pub handle_download_credentials : String → Wizard → Wizard × List Effect
unfolding credentials_text
handle_download_credentials now s = elim s.credentials [
  | none ↦ (s, [])
  | some d ↦ (s, download (d.name <> "-credentials.pem") (credentials_text now d) ∷ [])
]

abbrev pub is_cert : Wizard → Bool
is_cert s = not (is_sa s.user_type)

abbrev is_done : Stage → Bool
is_done done = true
is_done _ = false

unfoldable pub can_close : Wizard → Bool
can_close s =
    not (is_done s.stage) || not (is_cert s) || s.confirmed || is_some (vault_of s.credentials)
