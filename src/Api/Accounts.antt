-- ===== src/Api/Accounts.antt =====
-- frontend/src/api/auth.ts, admin.ts, permissions.ts and vault.ts
use clustervision.Base.{String, ◌<>◌}
use clustervision.Base.Json.{Value, undefined, str, obj, end, field}
use clustervision.Auth.{RoleName, viewer, operator, approver, admin}
use clustervision.Types.{VaultConfig, vault_value}
use clustervision.Api.{Call, auth_client, get, send, delete}

abbrev role_text : RoleName → String
role_text viewer = "viewer"
role_text operator = "operator"
role_text approver = "approver"
role_text admin = "admin"

abbrev credentials : String → String → Value
credentials username password =
    obj (field "username" (str username) (field "password" (str password) end))

unfoldable pub login : String → String → Call
login username password = record (send "POST" "/auth/login" (credentials username password)) {
  through = auth_client;
}

unfoldable pub refresh : Call
refresh = record (send "POST" "/auth/refresh" undefined) { through = auth_client }

unfoldable logout : Call
logout = record (send "POST" "/auth/logout" undefined) { through = auth_client }

unfoldable pub me : Call
me = record (get "/auth/me") { through = auth_client }

unfoldable pub my_link : Call
my_link = get "/auth/me/link"

unfoldable list_users : Call
list_users = get "/auth/users"

unfoldable pub create_user : String → String → Call
create_user username password = send "POST" "/auth/users" (credentials username password)

unfoldable pub delete_user : String → Call
delete_user username = delete ("/auth/users/" <> username)

unfoldable pub reset_password : String → String → Call
reset_password username password =
    send "POST" ("/auth/users/" <> username <> "/password") (credentials username password)

unfoldable pub set_link : String → String → String → Call
set_link username name namespace =
    send "PUT" ("/auth/users/" <> username <> "/link")
      (obj (field "name" (str name) (field "namespace" (str namespace) end)))

unfoldable pub clear_link : String → Call
clear_link username = delete ("/auth/users/" <> username <> "/link")

unfoldable pub list_scopes : Call
list_scopes = get "/permissions/scopes"

unfoldable pub list_user_roles : String → Call
list_user_roles username = get ("/permissions/users/" <> username)

unfoldable pub set_user_role : String → String → RoleName → Call
set_user_role username scope role =
    send "PUT" ("/permissions/users/" <> username <> "/" <> scope)
      (obj (field "role" (str (role_text role)) end))

unfoldable pub delete_user_role : String → String → Call
delete_user_role username scope = delete ("/permissions/users/" <> username <> "/" <> scope)

unfoldable vault_status : Call
vault_status = get "/admin/vault/status"

unfoldable vault_configure : VaultConfig → Call
vault_configure config = send "PUT" "/admin/vault/config" (vault_value config)

unfoldable vault_disable : Call
vault_disable = delete "/admin/vault/config"
