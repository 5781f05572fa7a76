-- ===== src/Api/Rbac.antt =====
-- frontend/src/api/rbac.ts
use clustervision.Base.{
  ℕ, String, Bool, List, [], ◌∷◌, Option, none, some, ◌==◌, ◌<>◌, if◌then◌else◌, get_or,
}
use clustervision.Base.Json.{Value, bool, num, str, arr, obj, end, field, opt_str}
use clustervision.Types.{
  UserKind, user_kind, user_kind_text, AssignRolePayload, assign_role_value, CheckAccessRequest,
  check_access_value, rules_items,
}
use clustervision.Yaml.{PolicyRule}
use clustervision.Api.{Call, get, get_with, send, delete, delete_with}

-- `...(cursor ? { continue: cursor } : {})`
abbrev cursor_params : Option String → List (String × Value)
cursor_params none = []
cursor_params (some c) = if c == "" then [] else ("continue", str c) ∷ []

unfoldable pub list_cluster_roles : Bool → ℕ → Option String → Call
list_cluster_roles include_system limit cursor =
    get_with "/rbac/cluster-roles"
      (("include_system", bool include_system) ∷ ("limit", num limit) ∷ cursor_params cursor)

unfoldable pub create_cluster_role : String → List PolicyRule → Call
create_cluster_role name rules =
    send "POST" "/rbac/cluster-roles"
      (obj (field "name" (str name) (field "rules" (arr (rules_items rules)) end)))

unfoldable pub update_cluster_role : String → List PolicyRule → Call
update_cluster_role name rules =
    send "PATCH" ("/rbac/cluster-roles/" <> name)
      (obj (field "rules" (arr (rules_items rules)) end))

unfoldable pub delete_cluster_role : String → Call
delete_cluster_role name = delete ("/rbac/cluster-roles/" <> name)

unfoldable pub list_roles : String → ℕ → Option String → Call
list_roles namespace limit cursor =
    get_with ("/rbac/roles/" <> namespace) (("limit", num limit) ∷ cursor_params cursor)

unfoldable pub create_role : String → String → List PolicyRule → Call
create_role namespace name rules = send "POST" "/rbac/roles" (
    obj (
      field "namespace" (str namespace)
        (field "name" (str name) (field "rules" (arr (rules_items rules)) end))))

unfoldable pub update_role : String → String → List PolicyRule → Call
update_role namespace name rules =
    send "PATCH" ("/rbac/roles/" <> namespace <> "/" <> name)
      (obj (field "rules" (arr (rules_items rules)) end))

unfoldable pub delete_role : String → String → Call
delete_role namespace name = delete ("/rbac/roles/" <> namespace <> "/" <> name)

unfoldable pub get_user_permissions : String → Call
get_user_permissions username = get ("/rbac/users/" <> username <> "/permissions")

unfoldable pub assign_role : String → AssignRolePayload → Option UserKind → Option String → Call
assign_role username payload kind sa_namespace =
    record (send "POST" ("/rbac/users/" <> username <> "/roles") (assign_role_value payload)) {
      params =
          ("user_kind", str (user_kind_text (get_or kind user_kind)))
          ∷ ("sa_namespace", opt_str sa_namespace)
          ∷ [];
    }

unfoldable pub revoke_role : String → String → Option String → Call
revoke_role username role_name namespace =
    delete_with ("/rbac/users/" <> username <> "/roles/" <> role_name)
      (("namespace", opt_str namespace) ∷ [])

unfoldable pub list_namespaces : Call
list_namespaces = get "/rbac/namespaces"

unfoldable pub get_namespace_access : String → Call
get_namespace_access namespace = get ("/rbac/namespace/" <> namespace <> "/access")

unfoldable pub check_access : CheckAccessRequest → Call
check_access req = send "POST" "/rbac/check-access" (check_access_value req)
