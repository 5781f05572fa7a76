-- ===== src/Rbac.antt =====
-- frontend/src/pages/RbacPage.tsx: the roles of the cluster and of a namespace, which dialog is open,
-- and what is asked of the mutations. The lists are what the hooks return, their rows and buttons
-- are those of components/rbac/RoleList.tsx; texts and styles are left out.
pub mod Editable
pub mod Access
mod Tests
use clustervision.Base.{
  String, ◌≡◌, Bool, true, false, not, ◌&&◌, ◌||◌, List, [], ◌∷◌, Option, none, some, get_or,
  is_some, if◌then◌else◌,
}
use clustervision.Yaml.{PolicyRule}
use clustervision.Auth.{AuthStore, can_write}
use clustervision.Roles
use clustervision.Roles.{RoleRead, Props, on_save}

pub data Tab : Type 0 where
  roles clusterroles access simulator : Tab

-- `open` is `shown`.
pub record Modal : Type 0 where
  pub shown : Bool
  pub is_cluster : Bool
  pub role : Option RoleRead
  pub copy_from : Option RoleRead

abbrev pub closed : Modal
closed = record { shown = false; is_cluster = false; role = none; copy_from = none }

-- `saving` and `deleting` are `isPending` of the mutations that save and delete.
pub record Page : Type 0 where
  pub tab : Tab
  pub namespace : String
  pub show_system : Bool
  pub modal : Modal
  pub delete_target : Option (RoleRead × Bool)
  pub saving : Bool
  pub deleting : Bool

abbrev pub opened : Page
opened = record {
  tab = roles;
  namespace = "default";
  show_system = false;
  modal = closed;
  delete_target = none;
  saving = false;
  deleting = false;
}

pub data Effect : Type 0 where
  ask_create_cluster_role ask_update_cluster_role : String → List PolicyRule → Effect
  ask_create_role ask_update_role : String → String → List PolicyRule → Effect
  ask_delete_cluster_role : String → Effect
  ask_delete_role : String → String → Effect
  refetch : Effect

-- `handleSave`
unfoldable pub handle_save : Page → String → List PolicyRule → Option String → Effect
handle_save p name rules ns =
    if p.modal.is_cluster
    then (if is_some p.modal.role
        then ask_update_cluster_role name rules
        else ask_create_cluster_role name rules)
    else (if is_some p.modal.role
        then ask_update_role (get_or ns p.namespace) name rules
        else ask_create_role (get_or ns p.namespace) name rules)

unfoldable pub delete_of : Page → RoleRead → Bool → Effect
delete_of p r true = ask_delete_cluster_role r.name
delete_of p r false = ask_delete_role (get_or r.namespace p.namespace) r.name

-- `confirmDelete`, on the target that the dialog shows.
unfoldable pub confirm_delete : Page → Option (RoleRead × Bool) → Page × List Effect
confirm_delete p none = (p, [])
confirm_delete p (some (r, is_cluster)) =
    (record p { deleting = true; delete_target = none }, delete_of p r is_cluster ∷ [])

-- The properties of the editor.
unfoldable pub editor_props : Page → List String → Props
editor_props p namespaces = record {
  role = p.modal.role;
  copy_from = p.modal.copy_from;
  namespace = some p.namespace;
  namespaces = namespaces;
  is_cluster = p.modal.is_cluster;
  loading = p.saving;
}

-- What the page does with an effect of the editor.
unfoldable pub from_editor : Page → Roles.Effect → Page × List Effect
from_editor p (on_save name rules ns) =
    (record p { saving = true }, handle_save p name rules ns ∷ [])
from_editor p (Roles.parse_rules text) = (p, [])
from_editor p Roles.on_close = (record p { modal = closed }, [])

pub data Event : Type 0 where
  set_tab : Tab → Event
  set_namespace : String → Event
  set_show_system : Bool → Event
  refresh cancel_delete confirmed : Event
  click_create : Bool → Event
  click_edit click_copy click_delete : RoleRead → Bool → Event
  from : Roles.Effect → Event

-- The tab with the list of the kind.
abbrev shows_list : Tab → Bool → Bool
shows_list roles is_cluster = not is_cluster
shows_list clusterroles is_cluster = is_cluster
shows_list _ is_cluster = false

abbrev on_roles : Tab → Bool
on_roles roles = true
on_roles _ = false

-- The controls; the roles are those that are listed when a button of a row is pressed.
unfoldable pub controls : AuthStore → String → Page → Event → Bool
controls s c p (click_create k) = shows_list p.tab k && can_write s c
controls s c p (click_edit r k) = shows_list p.tab k && can_write s c && not r.is_system
controls s c p (click_copy r k) = shows_list p.tab k && can_write s c
controls s c p (click_delete r k) = shows_list p.tab k && can_write s c && not r.is_system
controls s c p (set_namespace ns) = on_roles p.tab
controls s c p cancel_delete = is_some p.delete_target
controls s c p confirmed = is_some p.delete_target && not p.deleting
controls s c p (from (on_save name rules ns)) = p.modal.shown && not p.saving
controls s c p (from e) = p.modal.shown
controls s c p _ = true

abbrev edits : Bool → RoleRead → Modal
edits k r = record { shown = true; is_cluster = k; role = some r; copy_from = none }

unfoldable pub handle : Event → Page → Page × List Effect
handle (set_tab t) p = (record p { tab = t }, [])
handle (set_namespace ns) p = (record p { namespace = ns }, [])
handle (set_show_system b) p = (record p { show_system = b }, [])
handle refresh p = (p, refetch ∷ [])
handle (click_create k) p = (
  record p { modal = record { shown = true; is_cluster = k; role = none; copy_from = none } },
  [],
)
handle (click_edit r k) p = (record p { modal = edits k r }, [])
handle (click_copy r k) p = (
  record p { modal = record { shown = true; is_cluster = k; role = none; copy_from = some r } },
  [],
)
handle (click_delete r k) p = (record p { delete_target = some (r, k) }, [])
handle cancel_delete p = (record p { delete_target = none }, [])
handle confirmed p = confirm_delete p p.delete_target
handle (from e) p = from_editor p e

-- The answers: a save that succeeds closes the editor.
pub data Answer : Type 0 where
  saved deleted : Bool → Answer

abbrev pub awaits : Page → Answer → Bool
awaits p (saved ok) = p.saving
awaits p (deleted ok) = p.deleting

unfoldable pub answered : Answer → Page → Page
answered (saved ok) p = record p { saving = false; modal = if ok then closed else p.modal }
answered (deleted ok) p = record p { deleting = false }

-- One use of the page in a session on one cluster.
pub data Reach (s : AuthStore) (c : String) : Page → Type 0 where
  here : Reach s c opened
  used : {p : Page} → Reach s c p → (e : Event) → controls s c p e ≡ true → Reach s c (handle e p).0
  settled : {p : Page} → Reach s c p → (a : Answer) → awaits p a ≡ true → Reach s c (answered a p)
