-- ===== src/Requests.antt =====
-- Requests for temporary access: the form of frontend/src/components/access/RequestAccessModal.tsx.
-- The users, namespaces and roles are what the hooks return. Texts and styles are left out.
pub mod Split
pub mod Submitting
pub mod Review
pub mod Approving
pub mod Policies
mod Tests
use Prim.Native.String
use clustervision.Base.{
  ℕ, String, ◌≡◌, Bool, true, false, not, ◌&&◌, ◌||◌, List, [], ◌∷◌, ◌++◌, map, Option, none, some,
  ◌==◌, ◌<>◌, trim, find, is_some, num_eq, includes, if◌then◌else◌,
}
use clustervision.Types.{
  UserType, certificate, service_account, UserKind, user_kind, sa_kind, RoleKind, cluster_role,
  namespaced_role, role_kind_text, User, AccessRequestCreatePayload,
}

pub data Scope : Type 0 where
  cluster namespace : Scope

pub record Form : Type 0 where
  pub target_key : String
  pub scope : Scope
  pub namespace : String
  pub role_value : String
  pub ttl_minutes : ℕ
  pub reason : String

abbrev blank : Form
blank = record {
  target_key = "";
  scope = cluster;
  namespace = "";
  role_value = "";
  ttl_minutes = 60;
  reason = "";
}

abbrev pub user_key : User → String
user_key u = u.namespace <> "/" <> u.name

-- `users.find((u) => userKey(u) === targetKey)`
unfoldable pub target_of : List User → Form → Option User
target_of users f = find (λ u. user_key u == f.target_key) users

abbrev is_namespace : Scope → Bool
is_namespace namespace = true
is_namespace cluster = false

-- The value of a role in the list.
abbrev pub role_option : RoleKind → String → String
role_option kind name = role_kind_text kind <> "::" <> name

abbrev pub options_of : RoleKind → List String → List String
options_of kind names = map (role_option kind) names

-- The values of `roleOptions`, from the names of the roles.
unfoldable role_options : List String → List String → Form → List String
role_options ns_roles cluster_roles f =
    if is_namespace f.scope && not (f.namespace == "")
    then options_of namespaced_role ns_roles ++ options_of cluster_role cluster_roles
    else options_of cluster_role cluster_roles

unfoldable pub can_submit : List User → Form → Bool
unfolding target_of
can_submit users f =
    is_some (target_of users f)
    && not (f.role_value == "")
    && not (trim f.reason == "")
    && (not (is_namespace f.scope) || not (f.namespace == ""))

-- `s.split('::')`: `cur` is the part so far, `half` tells that one colon has been read.
unfoldable pub split_from : Bool → String → String → List String
split_from true cur String.[] = (cur <> ":") ∷ []
split_from false cur String.[] = cur ∷ []
split_from true cur (String.◌∷◌ c s) =
    let closed = cur ∷ split_from false "" s in
    let longer = split_from false (cur <> ":" <> String.◌∷◌ c "") s in
    if String.◌∷◌ c "" == ":" then closed else longer
split_from false cur (String.◌∷◌ c s) =
    let half_read = split_from true cur s in
    let longer = split_from false (cur <> String.◌∷◌ c "") s in
    if String.◌∷◌ c "" == ":" then half_read else longer

unfoldable pub split_colons : String → List String
unfolding split_from
split_colons s = split_from false "" s

-- `as 'Role' | 'ClusterRole'`: the values of the list have no other kind.
abbrev kind_named : String → RoleKind
kind_named k = if k == "Role" then namespaced_role else cluster_role

abbrev pub first_two : List String → RoleKind × String
first_two (k ∷ n ∷ others) = (kind_named k, n)
first_two (k ∷ []) = (kind_named k, "")
first_two [] = (cluster_role, "")

unfoldable pub chosen_role : Form → RoleKind × String
unfolding split_colons
chosen_role f = first_two (split_colons f.role_value)

abbrev kind_of : UserType → UserKind
kind_of service_account = sa_kind
kind_of certificate = user_kind

abbrev sa_of : User → UserType → Option String
sa_of u service_account = some u.namespace
sa_of u certificate = none

abbrev namespace_of : Scope → String → Option String
namespace_of namespace ns = some ns
namespace_of cluster ns = none

unfoldable pub payload : User → Form → AccessRequestCreatePayload
unfolding chosen_role
payload target f = record {
  target_username = target.name;
  kind = kind_of target.user_type;
  sa_namespace = sa_of target target.user_type;
  role_name = (chosen_role f).1;
  role_kind = (chosen_role f).0;
  namespace = namespace_of f.scope f.namespace;
  ttl_minutes = f.ttl_minutes;
  reason = trim f.reason;
}

abbrev submitted : Form → Option User → Option AccessRequestCreatePayload
submitted f none = none
submitted f (some u) = some (payload u f)

-- What `create.mutate` is called with.
unfoldable pub handle_submit : List User → Form → Option AccessRequestCreatePayload
unfolding can_submit target_of
handle_submit users f = if can_submit users f then submitted f (target_of users f) else none

pub data Event : Type 0 where
  set_target set_namespace set_role set_reason : String → Event
  set_scope : Scope → Event
  set_ttl : ℕ → Event

-- The handlers of the fields.
unfoldable pub handle : Event → Form → Form
handle (set_target k) f = record f { target_key = k }
handle (set_scope v) f = record f { scope = v }
handle (set_namespace ns) f = record f { namespace = ns; role_value = "" }
handle (set_role r) f = record f { role_value = r }
handle (set_ttl n) f = record f { ttl_minutes = n }
handle (set_reason r) f = record f { reason = r }
