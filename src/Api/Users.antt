-- ===== src/Api/Users.antt =====
-- frontend/src/api/users.ts, kubeconfig.ts and tokens.ts
use clustervision.Base.{String, [], ◌∷◌, ◌<>◌, Option, get_or}
use clustervision.Base.Json.{str, obj, end, field}
use clustervision.Types.{
  UserType, user_type_text, CreateUserPayload, create_user_value, ImportUserPayload,
  import_user_value, KubeconfigRequest, kubeconfig_value,
}
use clustervision.Api.{Call, text, get, send, delete, delete_with}

unfoldable pub list : Call
list = get "/users"

unfoldable pub list_unmanaged_service_accounts : Call
list_unmanaged_service_accounts = get "/users/unmanaged-serviceaccounts"

unfoldable pub import_user : ImportUserPayload → Call
import_user payload = send "POST" "/users/import" (import_user_value payload)

unfoldable pub create : CreateUserPayload → Call
create payload = send "POST" "/users" (create_user_value payload)

-- `namespace` is `'default'` where the caller gives none.
unfoldable pub delete_user : String → UserType → Option String → Call
delete_user username user_type namespace = delete_with ("/users/" <> username) (
    ("user_type", str (user_type_text user_type))
    ∷ ("namespace", str (get_or namespace "default"))
    ∷ [])

unfoldable pub generate : KubeconfigRequest → Call
generate payload = record (send "POST" "/kubeconfig/generate" (kubeconfig_value payload)) {
  response = text;
}

unfoldable pub list_history : Call
list_history = get "/tokens/history"

unfoldable pub delete_history_entry : String → Call
delete_history_entry id = delete ("/tokens/history/" <> id)

unfoldable pub clear_history : Call
clear_history = delete "/tokens/history"

unfoldable pub list_sa_tokens : Call
list_sa_tokens = get "/tokens/sa-tokens"

unfoldable pub revoke_sa_token : String → String → Call
revoke_sa_token secret_name namespace =
    delete_with ("/tokens/sa-tokens/" <> secret_name) (("namespace", str namespace) ∷ [])

unfoldable pub rotate_sa_token : String → String → String → Call
rotate_sa_token secret_name sa_name namespace =
    send "POST" ("/tokens/sa-tokens/" <> secret_name <> "/rotate")
      (obj (field "sa_name" (str sa_name) (field "namespace" (str namespace) end)))
