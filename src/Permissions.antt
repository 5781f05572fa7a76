-- ===== src/Permissions.antt =====
-- frontend/src/components/users/UserPermissionsPanel.tsx: the bindings of a user, and the form that
-- assigns a role. The roles and namespaces are what the hooks return; texts and styles are left out.
pub mod Assigning
mod Tests
use clustervision.Base.{
  String, ◌≡◌, Bool, true, false, not, ◌&&◌, List, [], ◌∷◌, ◌++◌, Option, none, some, ◌==◌,
  includes, if◌then◌else◌,
}
use clustervision.Types.{
  UserType, certificate, service_account, UserKind, user_kind, sa_kind, RoleKind, cluster_role,
  namespaced_role, AssignRolePayload,
}
use clustervision.Hooks.Rbac.{AssignRoleArgs, RevokeRoleArgs}
use clustervision.Requests.{options_of, first_two, split_colons}

pub data Scope : Type 0 where
  cluster namespace : Scope

-- `user_namespace` is optional, and the other properties are fixed while the panel is open.
pub record Props : Type 0 where
  pub username : String
  pub user_type : UserType
  pub user_namespace : Option String
  pub can_write : Bool

-- types/rbac.ts, as far as it is used
pub record Binding : Type 0 where
  pub role_ref : String
  pub namespace : Option String

pub record Panel : Type 0 where
  pub show_assign : Bool
  pub selected_role : String
  pub selected_ns : String
  pub scope : Scope
  pub assigning : Bool

abbrev pub opened : Panel
opened = record {
  show_assign = false;
  selected_role = "";
  selected_ns = "";
  scope = cluster;
  assigning = false;
}

abbrev pub is_namespace : Scope → Bool
is_namespace namespace = true
is_namespace cluster = false

-- The namespace whose roles are loaded.
unfoldable roles_namespace : Panel → String
roles_namespace p = if is_namespace p.scope then p.selected_ns else ""

-- The values of `roleOptions`, from the names of the roles.
unfoldable pub role_options : List String → List String → Panel → List String
role_options ns_roles cluster_roles p =
    if is_namespace p.scope && not (p.selected_ns == "")
    then options_of namespaced_role ns_roles ++ options_of cluster_role cluster_roles
    else options_of cluster_role cluster_roles

abbrev pub kind_of : UserType → UserKind
kind_of service_account = sa_kind
kind_of certificate = user_kind

abbrev or_default : Option String → String
or_default none = "default"
or_default (some ns) = ns

abbrev pub sa_of : UserType → Option String → Option String
sa_of service_account ns = some (or_default ns)
sa_of certificate ns = none

abbrev pub namespace_of : Scope → String → Option String
namespace_of namespace ns = some ns
namespace_of cluster ns = none

unfoldable pub assignment : Props → Panel → AssignRoleArgs
assignment props p =
    let (kind, name) = first_two (split_colons p.selected_role) in
    record {
      payload = record {
        role_name = name;
        role_kind = kind;
        namespace = namespace_of p.scope p.selected_ns;
      };
      kind = some (kind_of props.user_type);
      sa_namespace = sa_of props.user_type props.user_namespace;
    }

pub data Effect : Type 0 where
  ask_assign : AssignRoleArgs → Effect
  ask_revoke : RevokeRoleArgs → Effect

-- `handleAssign`
unfoldable pub handle_assign : Props → Panel → Panel × List Effect
handle_assign props p =
    if p.selected_role == ""
    then (p, [])
    else (record p { assigning = true }, ask_assign (assignment props p) ∷ [])

pub data Event : Type 0 where
  toggle_assign click_add : Event
  set_scope : Scope → Event
  set_namespace set_role : String → Event
  click_revoke : Binding → Event
  answered : Bool → Event

-- The controls; `ns_roles` and `cluster_roles` are the names that are listed at that moment.
unfoldable pub controls : Props → List String → List String → List String → Panel → Event → Bool
controls props namespaces ns_roles cluster_roles p toggle_assign = props.can_write
controls props namespaces ns_roles cluster_roles p (click_revoke b) = props.can_write
controls props namespaces ns_roles cluster_roles p click_add =
    p.show_assign && not (p.selected_role == "") && not p.assigning
controls props namespaces ns_roles cluster_roles p (set_scope s) = p.show_assign
controls props namespaces ns_roles cluster_roles p (set_namespace ns) =
    p.show_assign && is_namespace p.scope && includes ("" ∷ namespaces) ns
controls props namespaces ns_roles cluster_roles p (set_role r) =
    p.show_assign && includes ("" ∷ role_options ns_roles cluster_roles p) r
controls props namespaces ns_roles cluster_roles p (answered ok) = p.assigning

unfoldable pub handle : Props → Event → Panel → Panel × List Effect
handle props toggle_assign p = (record p { show_assign = not p.show_assign }, [])
handle props (set_scope s) p = (record p { scope = s; selected_role = ""; selected_ns = "" }, [])
handle props (set_namespace ns) p = (record p { selected_ns = ns; selected_role = "" }, [])
handle props (set_role r) p = (record p { selected_role = r }, [])
handle props click_add p = handle_assign props p
handle props (click_revoke b) p =
    (p, ask_revoke (record { role_name = b.role_ref; namespace = b.namespace }) ∷ [])
handle props (answered true) p =
    (record p { assigning = false; show_assign = false; selected_role = "" }, [])
handle props (answered false) p = (record p { assigning = false }, [])
