-- ===== src/Hooks/AccessRequests.antt =====
-- frontend/src/hooks/useAccessRequests.ts and useAudit.ts
use clustervision.Base.{String, Bool, true, [], ◌∷◌, some}
use clustervision.Base.Json.{Value, num, str, obj, end, field, opt_str}
use clustervision.Types.{
  AccessRequestCreatePayload, JitRolePolicySetPayload, AccessRequestExportQuery, AuditLogQuery,
  AuditLogExportQuery,
}
use clustervision.Api.AccessRequests
use clustervision.Hooks.{
  Query, query, invalidate, toast_success, download, callback, Mutation, mutation,
}

unfoldable pub use_access_requests : String → Query
use_access_requests cluster =
    record (query (str "access-requests" ∷ str cluster ∷ []) AccessRequests.list (some 15000)) {
      refetch_interval = some 30000;
    }

unfoldable pub use_create_access_request : String → Mutation AccessRequestCreatePayload
use_create_access_request cluster = mutation AccessRequests.create (λ a.
    invalidate (str "access-requests" ∷ str cluster ∷ [])
    ∷ toast_success "Access request submitted"
    ∷ callback
    ∷ [])

unfoldable pub use_approve_access_request : String → Mutation String
use_approve_access_request cluster = mutation AccessRequests.approve (λ id.
    invalidate (str "access-requests" ∷ str cluster ∷ []) ∷ toast_success "Access granted" ∷ [])

unfoldable pub use_deny_access_request : String → Mutation String
use_deny_access_request cluster = mutation AccessRequests.deny (λ id.
    invalidate (str "access-requests" ∷ str cluster ∷ []) ∷ toast_success "Request denied" ∷ [])

unfoldable pub use_revoke_access_request : String → Mutation String
use_revoke_access_request cluster = mutation AccessRequests.revoke (λ id.
    invalidate (str "access-requests" ∷ str cluster ∷ []) ∷ toast_success "Access revoked" ∷ [])

unfoldable pub use_jit_policies : Query
use_jit_policies = query (str "jit-policies" ∷ []) AccessRequests.list_policies (some 15000)

pub record SetPolicyArgs : Type 0 where
  pub role_kind : String
  pub role_name : String
  pub payload : JitRolePolicySetPayload

pub record DeletePolicyArgs : Type 0 where
  pub role_kind : String
  pub role_name : String

unfoldable pub use_set_jit_policy : Mutation SetPolicyArgs
use_set_jit_policy =
    mutation (λ a. AccessRequests.set_policy a.role_kind a.role_name a.payload)
      (λ a. invalidate (str "jit-policies" ∷ []) ∷ toast_success "Policy saved" ∷ [])

unfoldable use_export_access_requests : Mutation AccessRequestExportQuery
use_export_access_requests =
    mutation AccessRequests.export (λ a. download "clustervision-access-requests.csv" ∷ [])

unfoldable pub use_delete_jit_policy : Mutation DeletePolicyArgs
use_delete_jit_policy =
    mutation (λ a. AccessRequests.delete_policy a.role_kind a.role_name)
      (λ a. invalidate (str "jit-policies" ∷ []) ∷ toast_success "Policy override removed" ∷ [])

-- The query object that is part of the key.
abbrev audit_query_value : AuditLogQuery → Value
audit_query_value q = obj (
    field "limit" (num q.limit) (
      field "offset" (num q.offset)
        (field "actor" (opt_str q.actor) (field "path_contains" (opt_str q.path_contains) end))))

unfoldable pub use_audit_log : AuditLogQuery → Bool → Query
use_audit_log q enabled =
    record (query (str "audit-log" ∷ audit_query_value q ∷ []) (AccessRequests.list_audit q)
      (some 15000)) { enabled = enabled; keep_previous = true }

unfoldable use_export_audit_log : Mutation AuditLogExportQuery
use_export_audit_log =
    mutation AccessRequests.export_audit (λ a. download "clustervision-audit-log.csv" ∷ [])
