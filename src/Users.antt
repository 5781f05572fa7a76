-- ===== src/Users.antt =====
-- frontend/src/pages/UsersPage.tsx with components/users/ImportUserModal.tsx and DeleteUserModal.tsx:
-- the import of an existing user and the deletion of one. The wizard that creates users is in
-- Wizard.antt; the list, texts and styles are left out.
pub mod Importing
mod Tests
use clustervision.Base.{
  String, ◌≡◌, Bool, true, false, not, ◌&&◌, List, [], ◌∷◌, map, Option, none, some, ◌==◌, ◌<>◌,
  is_some, includes, any, trim, split, non_empty, if◌then◌else◌,
}
use clustervision.Types.{UserType, certificate, service_account, User, ImportUserPayload}
use clustervision.Auth.{AuthStore, can_write}
use clustervision.Hooks.Users.{DeleteUserArgs}

-- An unmanaged service account.
pub record SaRef : Type 0 where
  pub name : String
  pub namespace : String

pub record Import : Type 0 where
  pub user_type : UserType
  pub name : String
  pub namespace : String
  pub groups : String
  pub selected_sa : Option SaRef
  pub importing : Bool

pub record Page : Type 0 where
  pub create_open : Bool
  pub import_open : Bool
  pub to_delete : Option User
  pub deleting : Bool
  pub form : Import

abbrev pub opened : Page
opened = record {
  create_open = false;
  import_open = false;
  to_delete = none;
  deleting = false;
  form = record {
    user_type = service_account;
    name = "";
    namespace = "default";
    groups = "";
    selected_sa = none;
    importing = false;
  };
}

-- `handleClose` of the import, without `onClose`.
unfoldable pub cleared : Import → Import
cleared f = record f { name = ""; namespace = "default"; groups = ""; selected_sa = none }

-- `handleSelectSA`
unfoldable pub handle_select_sa : SaRef → Import → Import
handle_select_sa sa f = record f { selected_sa = some sa; name = sa.name; namespace = sa.namespace }

unfoldable pub import_payload : Import → ImportUserPayload
import_payload f = record {
  name = f.name;
  user_type = f.user_type;
  namespace = f.namespace;
  groups = non_empty (map trim (split b',' f.groups));
}

pub data Effect : Type 0 where
  ask_import : ImportUserPayload → Effect
  ask_delete : DeleteUserArgs → Effect
  navigate : String → Effect

pub data Event : Type 0 where
  open_create close_create open_import close_import submit_import : Event
  set_type : UserType → Event
  select_sa : SaRef → Event
  set_name set_namespace set_groups : String → Event
  click_delete click_kubeconfig : User → Event
  close_delete confirm_delete : Event

-- `handleDelete`
unfoldable pub handle_delete : Page → Option User → Page × List Effect
handle_delete p none = (p, [])
handle_delete p (some u) = (
  record p { deleting = true },
  ask_delete (record { username = u.name; user_type = u.user_type; namespace = some u.namespace })
      ∷ [],
)

-- The path of a user's kubeconfig; `encode` is the encoding of `URLSearchParams`.
unfoldable pub kubeconfig_path : (String → String) → User → String
kubeconfig_path encode u =
    let user = "/kubeconfig?user=" <> encode u.name in
    if u.namespace == "" then user else user <> "&namespace=" <> encode u.namespace

unfoldable pub handle : (String → String) → Event → Page → Page × List Effect
handle encode open_create p = (record p { create_open = true }, [])
handle encode close_create p = (record p { create_open = false }, [])
handle encode open_import p = (record p { import_open = true }, [])
handle encode close_import p = (record p { import_open = false; form = cleared p.form }, [])
handle encode submit_import p = (
  record p { form = record p.form { importing = true } },
  ask_import (import_payload p.form) ∷ [],
)
handle encode (set_type t) p =
    (record p { form = record p.form { user_type = t; selected_sa = none; name = "" } }, [])
handle encode (select_sa sa) p = (record p { form = handle_select_sa sa p.form }, [])
handle encode (set_name v) p = (record p { form = record p.form { name = v } }, [])
handle encode (set_namespace v) p = (record p { form = record p.form { namespace = v } }, [])
handle encode (set_groups v) p = (record p { form = record p.form { groups = v } }, [])
handle encode (click_delete u) p = (record p { to_delete = some u }, [])
handle encode (click_kubeconfig u) p = (p, navigate (kubeconfig_path encode u) ∷ [])
handle encode close_delete p = (record p { to_delete = none }, [])
handle encode confirm_delete p = handle_delete p p.to_delete

abbrev pub is_sa : UserType → Bool
is_sa service_account = true
is_sa certificate = false

-- The controls; `unmanaged` is the list of the service accounts that can be imported.
unfoldable pub controls : AuthStore → String → List SaRef → Page → Event → Bool
controls s c unmanaged p open_create = can_write s c
controls s c unmanaged p open_import = can_write s c
controls s c unmanaged p (click_delete u) = can_write s c
controls s c unmanaged p (click_kubeconfig u) = true
controls s c unmanaged p close_create = p.create_open
controls s c unmanaged p close_delete = is_some p.to_delete
controls s c unmanaged p confirm_delete = is_some p.to_delete && not p.deleting
controls s c unmanaged p submit_import =
    p.import_open && not (p.form.name == "") && not p.form.importing
controls s c unmanaged p (select_sa sa) =
    p.import_open
    && is_sa p.form.user_type
    && any (λ x. x.name == sa.name && x.namespace == sa.namespace) unmanaged
controls s c unmanaged p (set_namespace v) = p.import_open && is_sa p.form.user_type
controls s c unmanaged p (set_groups v) = p.import_open && not (is_sa p.form.user_type)
controls s c unmanaged p _ = p.import_open

-- The answers; a success closes the dialog, and the import keeps its fields.
pub data Answer : Type 0 where
  imported deleted : Bool → Answer

abbrev pub awaits : Page → Answer → Bool
awaits p (imported ok) = p.form.importing
awaits p (deleted ok) = p.deleting

unfoldable pub answered : Answer → Page → Page
answered (imported ok) p = record p {
  import_open = if ok then false else p.import_open;
  form = record p.form { importing = false };
}
answered (deleted ok) p = record p {
  deleting = false;
  to_delete = if ok then none else p.to_delete;
}

-- One use of the page in a session on one cluster.
pub data Reach (s : AuthStore) (c : String) (encode : String → String) : Page → Type 0 where
  here : Reach s c encode opened
  used :
      {p : Page}
      → Reach s c encode p
      → (unmanaged : List SaRef) (e : Event) → controls s c unmanaged p e ≡ true
      → Reach s c encode (handle encode e p).0
  settled :
      {p : Page}
      → Reach s c encode p
      → (a : Answer) → awaits p a ≡ true
      → Reach s c encode (answered a p)
