-- ===== src/Api/AccessRequests.antt =====
-- frontend/src/api/accessRequests.ts and audit.ts
use clustervision.Base.{String, [], ◌∷◌, ◌<>◌}
use clustervision.Base.Json.{undefined, num, opt_str}
use clustervision.Types.{
  AccessRequestCreatePayload, access_request_value, JitRolePolicySetPayload, policy_value,
  AccessRequestExportQuery, AuditLogQuery, AuditLogExportQuery,
}
use clustervision.Api.{Call, blob, get, get_with, send, delete}

unfoldable pub list : Call
list = get "/access-requests"

unfoldable pub create : AccessRequestCreatePayload → Call
create payload = send "POST" "/access-requests" (access_request_value payload)

unfoldable pub approve : String → Call
approve id = send "POST" ("/access-requests/" <> id <> "/approve") undefined

unfoldable pub deny : String → Call
deny id = send "POST" ("/access-requests/" <> id <> "/deny") undefined

unfoldable pub revoke : String → Call
revoke id = send "POST" ("/access-requests/" <> id <> "/revoke") undefined

unfoldable pub list_policies : Call
list_policies = get "/access-requests/policies"

unfoldable pub set_policy : String → String → JitRolePolicySetPayload → Call
set_policy role_kind role_name payload =
    send "PUT" ("/access-requests/policies/" <> role_kind <> "/" <> role_name)
      (policy_value payload)

unfoldable pub delete_policy : String → String → Call
delete_policy role_kind role_name =
    delete ("/access-requests/policies/" <> role_kind <> "/" <> role_name)

unfoldable pub export : AccessRequestExportQuery → Call
export q =
    record (get_with "/access-requests/export"
      (("from", opt_str q.from) ∷ ("to", opt_str q.to) ∷ [])) { response = blob }

unfoldable pub list_audit : AuditLogQuery → Call
list_audit q = get_with "/audit" (
    ("limit", num q.limit)
    ∷ ("offset", num q.offset)
    ∷ ("actor", opt_str q.actor)
    ∷ ("path_contains", opt_str q.path_contains)
    ∷ [])

unfoldable pub export_audit : AuditLogExportQuery → Call
export_audit q =
    record (get_with "/audit/export" (
      ("from", opt_str q.from)
      ∷ ("to", opt_str q.to)
      ∷ ("actor", opt_str q.actor)
      ∷ ("path_contains", opt_str q.path_contains)
      ∷ [])) { response = blob }
