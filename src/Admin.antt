-- ===== src/Admin.antt =====
-- frontend/src/pages/AdminPage.tsx: the accounts of the program, with the dialogs to create one, to
-- reset a password and to delete one. Dates, texts and styles are left out.
pub mod Accounts
pub mod Passwords
pub mod Links
pub mod Vault
pub mod Assignments
mod Tests
use clustervision.Base.{
  ℕ, String, ◌≡◌, Bool, true, false, not, ◌&&◌, ◌||◌, List, [], ◌∷◌, Option, none, some, ◌==◌,
  is_some, length, lookup, num_eq, is_name_char, starts_and, if◌then◌else◌,
}
use clustervision.Auth.{RoleName, admin, instance_scope, AuthStore, AuthUser}
use clustervision.Api.{Call}
use clustervision.Api.Accounts.{create_user, reset_password, delete_user}

pub data Source : Type 0 where
  local ldap : Source

-- api/auth.ts
pub record LinkedUser : Type 0 where
  pub name : String
  pub namespace : String

-- api/admin.ts
pub record CvUser : Type 0 where
  pub username : String
  pub roles : List (String × RoleName)
  pub source : Source
  pub last_login_at : Option String
  pub linked_managed_user : Option LinkedUser

-- The page with the state of its dialogs, which stay mounted: `username`, `password` and
-- `username_error` are those of `CreateUserModal`, `new_password` that of `ResetPasswordModal`.
pub record Page : Type 0 where
  pub create_open : Bool
  pub username : String
  pub password : String
  pub username_error : String
  pub creating : Bool
  pub reset_target : Option CvUser
  pub new_password : String
  pub resetting : Bool
  pub delete_target : Option CvUser
  pub deleting : Bool
  pub roles_target : Option CvUser
  pub link_target : Option CvUser

abbrev pub opened : Page
opened = record {
  create_open = false;
  username = "";
  password = "";
  username_error = "";
  creating = false;
  reset_target = none;
  new_password = "";
  resetting = false;
  delete_target = none;
  deleting = false;
  roles_target = none;
  link_target = none;
}

pub data Effect : Type 0 where
  ask_create ask_reset : String → String → Effect
  ask_delete : String → Effect

unfoldable pub call_of : Effect → Call
call_of (ask_create username password) = create_user username password
call_of (ask_reset username password) = reset_password username password
call_of (ask_delete username) = delete_user username

-- `/^[a-z0-9][a-z0-9_\-\.]*$/`
unfoldable pub is_username : String → Bool
is_username s = starts_and (λ c. is_name_char c || num_eq c b'_') s

-- `handleSubmit` of the dialog to create an account
unfoldable pub handle_submit : Page → Page × List Effect
handle_submit p =
    if p.username == ""
    then (record p { username_error = "Required" }, [])
    else if not (is_username p.username)
    then (
      record p { username_error = "Lowercase letters, numbers, dashes, dots, underscores only" },
      [],
    )
    else if p.password == ""
    then (p, [])
    else (record p { creating = true }, ask_create p.username p.password ∷ [])

unfoldable pub reset_shown : Page → Option CvUser → Page × List Effect
reset_shown p none = (p, [])
reset_shown p (some u) = (record p { resetting = true }, ask_reset u.username p.new_password ∷ [])

unfoldable pub delete_shown : Page → Option CvUser → Page × List Effect
delete_shown p none = (p, [])
delete_shown p (some u) = (record p { deleting = true }, ask_delete u.username ∷ [])

pub data Event : Type 0 where
  open_create close_create submit_create : Event
  set_username set_password set_new_password : String → Event
  click_roles click_link click_reset click_delete : CvUser → Event
  close_roles close_link close_reset submit_reset close_delete confirm_delete : Event

unfoldable pub handle : Event → Page → Page × List Effect
unfolding handle_submit reset_shown delete_shown
handle open_create p = (record p { create_open = true }, [])
handle close_create p = (record p { create_open = false }, [])
handle submit_create p = handle_submit p
handle (set_username v) p = (record p { username = v; username_error = "" }, [])
handle (set_password v) p = (record p { password = v }, [])
handle (set_new_password v) p = (record p { new_password = v }, [])
handle (click_roles u) p = (record p { roles_target = some u }, [])
handle close_roles p = (record p { roles_target = none }, [])
handle (click_link u) p = (record p { link_target = some u }, [])
handle close_link p = (record p { link_target = none }, [])
handle (click_reset u) p = (record p { reset_target = some u }, [])
handle close_reset p = (record p { reset_target = none }, [])
handle submit_reset p = reset_shown p p.reset_target
handle (click_delete u) p = (record p { delete_target = some u }, [])
handle close_delete p = (record p { delete_target = none }, [])
handle confirm_delete p = delete_shown p p.delete_target

abbrev same_name : Option AuthUser → CvUser → Bool
same_name none u = false
same_name (some me) u = u.username == me.username

-- `user.username === currentUser?.username`
unfoldable pub is_self : AuthStore → CvUser → Bool
is_self s u = same_name s.user u

abbrev pub is_ldap : Source → Bool
is_ldap ldap = true
is_ldap local = false

-- The controls; the accounts are those that are listed when a button of a row is pressed.
unfoldable pub controls : AuthStore → Page → Event → Bool
unfolding is_self
controls s p open_create = true
controls s p close_create = p.create_open
controls s p submit_create =
    p.create_open && not (p.username == "" || p.password == "") && not p.creating
controls s p (set_username v) = p.create_open
controls s p (set_password v) = p.create_open
controls s p (set_new_password v) = is_some p.reset_target
controls s p (click_roles u) = not (is_ldap u.source)
controls s p (click_link u) = true
controls s p (click_reset u) = not (is_ldap u.source)
controls s p (click_delete u) = not (is_self s u)
controls s p close_roles = is_some p.roles_target
controls s p close_link = is_some p.link_target
controls s p close_reset = is_some p.reset_target
controls s p submit_reset = is_some p.reset_target && not (p.new_password == "") && not p.resetting
controls s p close_delete = is_some p.delete_target
controls s p confirm_delete = is_some p.delete_target && not p.deleting

-- The answers of the mutations.
pub data Answer : Type 0 where
  created reset deleted : Bool → Answer

abbrev pub awaits : Page → Answer → Bool
awaits p (created ok) = p.creating
awaits p (reset ok) = p.resetting
awaits p (deleted ok) = p.deleting

unfoldable pub answered : Answer → Page → Page
answered (created false) p = record p { creating = false }
answered (created true) p = record p {
  creating = false;
  create_open = false;
  username = "";
  password = "";
  username_error = "";
}
answered (reset false) p = record p { resetting = false }
answered (reset true) p = record p { resetting = false; reset_target = none; new_password = "" }
answered (deleted false) p = record p { deleting = false }
answered (deleted true) p = record p { deleting = false; delete_target = none }

-- One use of the page in a session.
pub data Reach (s : AuthStore) : Page → Type 0 where
  here : Reach s opened
  used : {p : Page} → Reach s p → (e : Event) → controls s p e ≡ true → Reach s (handle e p).0
  settled : {p : Page} → Reach s p → (a : Answer) → awaits p a ≡ true → Reach s (answered a p)

-- The badges of a row.
pub data RolesBadge : Type 0 where
  no_access : RolesBadge
  scopes : Bool → ℕ → RolesBadge

abbrev is_admin : Option RoleName → Bool
is_admin (some admin) = true
is_admin _ = false

-- The number of the scopes; marked if the role on the instance is admin.
unfoldable pub roles_badge : CvUser → RolesBadge
roles_badge u =
    if num_eq (length u.roles) 0
    then no_access
    else scopes (is_admin (lookup instance_scope u.roles)) (length u.roles)
