-- ===== src/Wizard.antt =====
-- frontend/src/components/users/CreateUserWizard.tsx: the state of the wizard and its handlers.
-- The list of namespaces is the answer of `useNamespaces`.
pub mod Finishing
pub mod Controls
pub mod Sets
pub mod Identity
pub mod Selection
pub mod Namespaces
pub mod Grants
pub mod Renaming
pub mod Done
mod Tests
use clustervision.Base.{
  String, ◌≡◌, Bool, true, false, not, ◌&&◌, ◌||◌, List, [], ◌∷◌, ◌++◌, map, Option, none, some,
  ◌==◌, ◌<>◌, trim, split, join, non_empty, starts_and, is_name_char, is_label_char, includes,
  filter, find, get_or, is_some, if◌then◌else◌,
}
use clustervision.Types.{
  UserType, certificate, service_account, UserKind, user_kind, sa_kind, cluster_role,
  UserWithCredentials, CreateUserPayload, AssignRolePayload, KubeconfigRequest,
}

pub data Stage : Type 0 where
  identity permissions done : Stage

pub data Scope : Type 0 where
  cluster namespace : Scope

pub record Preset : Type 0 where
  pub id : String
  pub role : Option String

abbrev pub presets : List Preset
presets =
    record { id = "none"; role = none }
    ∷ record { id = "readonly"; role = some "view" }
    ∷ record { id = "developer"; role = some "edit" }
    ∷ record { id = "admin"; role = some "admin" }
    ∷ []

-- The mutation that generates the kubeconfig.
pub data Fetch : Type 0 where
  idle pending failed : Fetch
  ready : String → Fetch

-- `step` is `stage`, since a handler has that name elsewhere; `creating` is `createUser.isPending`,
-- and `last_auto_added` the ref of that name.
pub record Wizard : Type 0 where
  pub stage : Stage
  pub name : String
  pub name_error : String
  pub user_type : UserType
  pub sa_namespace : String
  pub new_namespace : String
  pub new_namespace_error : String
  pub groups : String
  pub preset : String
  pub scope : Scope
  pub selected_ns : List String
  pub assigning : Bool
  pub inline_ns_input : String
  pub inline_ns_error : String
  pub extra_ns : List String
  pub credentials : Option UserWithCredentials
  pub confirmed : Bool
  pub copied : Bool
  pub last_auto_added : Option String
  pub creating : Bool
  pub kubeconfig : Fetch

abbrev pub initial : Wizard
initial = record {
  stage = identity;
  name = "";
  name_error = "";
  user_type = service_account;
  sa_namespace = "__new__";
  new_namespace = "";
  new_namespace_error = "";
  groups = "";
  preset = "readonly";
  scope = namespace;
  selected_ns = [];
  assigning = false;
  inline_ns_input = "";
  inline_ns_error = "";
  extra_ns = [];
  credentials = none;
  confirmed = false;
  copied = false;
  last_auto_added = none;
  creating = false;
  kubeconfig = idle;
}

-- What a handler asks of the rest of the program.
pub data Effect : Type 0 where
  create_user : CreateUserPayload → Effect
  assign_role : String → AssignRolePayload → UserKind → Option String → Effect
  generate : KubeconfigRequest → Effect
  toast_error toast_success copy : String → Effect
  download : String → String → Effect
  on_close : Effect

-- A set of texts in the order of insertion: `add`, `delete` and `new Set([...])`.
pub set_add : List String → String → List String
set_add s a = if includes s a then s else s ++ a ∷ []

pub set_delete : List String → String → List String
set_delete s a = filter (λ x. not (x == a)) s

pub set_adds : List String → List String → List String
set_adds s [] = s
set_adds s (a ∷ as') = set_adds (set_add s a) as'

abbrev pub is_sa : UserType → Bool
is_sa service_account = true
is_sa certificate = false

abbrev pub is_new : Wizard → Bool
is_new s = s.sa_namespace == "__new__"

pub pending_ns : Wizard → String
pending_ns s = if is_new s then trim s.new_namespace else ""

-- `a || null`
abbrev pub or_null : String → Option String
or_null a = if a == "" then none else some a

abbrev pub one_of : Option String → List String
one_of none = []
one_of (some a) = a ∷ []

pub all_new_ns : Wizard → List String
all_new_ns s = set_adds [] (one_of (or_null (pending_ns s)) ++ s.extra_ns)

pub namespaces_with_pending : List String → Wizard → List String
namespaces_with_pending namespaces s =
    filter (λ ns. not (includes namespaces ns)) (all_new_ns s) ++ namespaces

-- `/^[a-z0-9][a-z0-9\-\.]*$/` and `/^[a-z0-9][a-z0-9\-]*$/`
abbrev pub is_name : String → Bool
is_name = starts_and is_name_char

abbrev pub is_label : String → Bool
is_label = starts_and is_label_char

-- The part of `validateStep1` for the new namespace.
validate_namespace : Wizard → Wizard × Bool
validate_namespace s =
    if is_sa s.user_type && is_new s
    then (if trim s.new_namespace == ""
        then (record s { new_namespace_error = "Required" }, false)
        else (if not (is_label (trim s.new_namespace))
            then (
              record s {
                new_namespace_error = "Lowercase alphanumeric and hyphens only (e.g. my-namespace)";
              },
              false,
            )
            else (record s { new_namespace_error = "" }, true)))
    else (record s { new_namespace_error = "" }, true)

pub validate_step1 : Wizard → Wizard × Bool
validate_step1 s =
    if s.name == ""
    then (record s { name_error = "Required" }, false)
    else (if not (is_name s.name)
        then (record s { name_error = "Lowercase letters, numbers, dashes and dots only" }, false)
        else validate_namespace (record s { name_error = "" }))

-- `last && last !== pending ? next.delete(last)`
pub drop_stale : Option String → String → List String → List String
drop_stale none p sel = sel
drop_stale (some last) p sel =
    if not (last == "") && not (last == p) then set_delete sel last else sel

abbrev pub add_pending : String → List String → List String
add_pending p sel = if p == "" then sel else set_add sel p

-- The updates after a validation that passed; `p` is `pendingNs`. The updater of `setSelectedNs`
-- reads the ref when React runs it: in the next render, when the ref is already set anew, or at once,
-- where no update is queued before it.
pub advance : Bool → String → Wizard → Wizard
advance at_once p s = record s {
  selected_ns =
      add_pending p (drop_stale (if at_once then s.last_auto_added else or_null p) p s.selected_ns);
  last_auto_added = or_null p;
  stage = permissions;
}

pub handle_step1_next : Bool → Wizard → Wizard
unfolding advance
handle_step1_next at_once s =
    let (t, valid) = validate_step1 s in if valid then advance at_once (pending_ns s) t else t

pub handle_close : Wizard → Wizard × List Effect
handle_close s = (
  record s {
    stage = identity;
    name = "";
    name_error = "";
    user_type = service_account;
    sa_namespace = "__new__";
    new_namespace = "";
    new_namespace_error = "";
    groups = "";
    preset = "readonly";
    scope = namespace;
    selected_ns = [];
    inline_ns_input = "";
    inline_ns_error = "";
    extra_ns = [];
    credentials = none;
    confirmed = false;
    copied = false;
    last_auto_added = none;
    kubeconfig = idle;
  },
  on_close ∷ [],
)

pub create_payload : Wizard → CreateUserPayload
create_payload s = record {
  name = s.name;
  user_type = s.user_type;
  groups = non_empty (map trim (split b',' s.groups));
  namespace =
      if is_sa s.user_type then (if is_new s then trim s.new_namespace else s.sa_namespace) else "";
}

pub handle_create : Wizard → Wizard × List Effect
unfolding create_payload
handle_create s = (record s { creating = true }, create_user (create_payload s) ∷ [])

pub add_inline_ns : Wizard → Wizard
add_inline_ns s =
    let ns = trim s.inline_ns_input in
    if ns == ""
    then s
    else (if not (is_label ns)
        then record s { inline_ns_error = "Lowercase alphanumeric and hyphens only" }
        else record s {
          extra_ns = set_add s.extra_ns ns;
          selected_ns = set_add s.selected_ns ns;
          inline_ns_input = "";
          inline_ns_error = "";
        })

pub toggle_ns : String → Wizard → Wizard
toggle_ns ns s = record s {
  selected_ns =
      if includes s.selected_ns ns then set_delete s.selected_ns ns else set_add s.selected_ns ns;
}
