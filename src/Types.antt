-- ===== src/Types.antt =====
-- frontend/src/types, and the payload types of frontend/src/api: what the program sends, with the
-- objects that they are as values. A property that is left out is `undefined`.
use clustervision.Base.{ℕ, String, Bool, List, [], ◌∷◌, Option, none, some}
use clustervision.Base.Json.{
  Value, null, bool, num, str, arr, obj, Items, nil, cons, Fields, end, field, strings, opt_str,
}
use clustervision.Yaml.{PolicyRule}

pub data UserType : Type 0 where
  certificate service_account : UserType

abbrev pub user_type_text : UserType → String
user_type_text certificate = "certificate"
user_type_text service_account = "service_account"

pub data UserKind : Type 0 where
  user_kind sa_kind : UserKind

abbrev pub user_kind_text : UserKind → String
user_kind_text user_kind = "User"
user_kind_text sa_kind = "ServiceAccount"

pub data RoleKind : Type 0 where
  cluster_role namespaced_role : RoleKind

abbrev pub role_kind_text : RoleKind → String
role_kind_text cluster_role = "ClusterRole"
role_kind_text namespaced_role = "Role"

-- types/user.ts
pub record User : Type 0 where
  pub name : String
  pub user_type : UserType
  pub groups : List String
  pub namespace : String
  pub created_at : String
  pub cert_expiry : Option String
  pub csr_name : Option String

pub record UserWithCredentials : Type 0 where
  pub user : User
  pub open user use *
  pub private_key_pem : Option String
  pub certificate_pem : Option String
  pub vault_path : Option String

pub record CreateUserPayload : Type 0 where
  pub name : String
  pub user_type : UserType
  pub groups : List String
  pub namespace : String

abbrev pub create_user_value : CreateUserPayload → Value
create_user_value p = obj (
    field "name" (str p.name) (
      field "user_type" (str (user_type_text p.user_type))
        (field "groups" (arr (strings p.groups)) (field "namespace" (str p.namespace) end))))

-- api/users.ts
pub record ImportUserPayload : Type 0 where
  pub name : String
  pub user_type : UserType
  pub namespace : String
  pub groups : List String

abbrev pub import_user_value : ImportUserPayload → Value
import_user_value p = obj (
    field "name" (str p.name) (
      field "user_type" (str (user_type_text p.user_type))
        (field "namespace" (str p.namespace) (field "groups" (arr (strings p.groups)) end))))

-- types/rbac.ts
pub record AssignRolePayload : Type 0 where
  pub role_name : String
  pub role_kind : RoleKind
  pub namespace : Option String

abbrev pub assign_role_value : AssignRolePayload → Value
assign_role_value p = obj (
    field "role_name" (str p.role_name) (
      field "role_kind" (str (role_kind_text p.role_kind))
        (field "namespace" (opt_str p.namespace) end)))

pub record CheckAccessRequest : Type 0 where
  pub user : String
  pub verb : String
  pub resource : String
  pub namespace : Option String
  pub api_group : Option String

abbrev pub check_access_value : CheckAccessRequest → Value
check_access_value p = obj (
    field "user" (str p.user) (
      field "verb" (str p.verb) (
        field "resource" (str p.resource)
          (field "namespace" (opt_str p.namespace) (field "api_group" (opt_str p.api_group) end)))))

abbrev resource_names : Option (List String) → Fields
resource_names none = end
resource_names (some ns) = field "resource_names" (arr (strings ns)) end

abbrev rule_value : PolicyRule → Value
rule_value r = obj (
    field "api_groups" (arr (strings r.api_groups)) (
      field "resources" (arr (strings r.resources))
        (field "verbs" (arr (strings r.verbs)) (resource_names r.resource_names))))

abbrev pub rules_items : List PolicyRule → Items
rules_items [] = nil
rules_items (r ∷ rs) = cons (rule_value r) (rules_items rs)

-- types/accessRequest.ts
pub data AccessRequestStatus : Type 0 where
  pending approved denied revoked expired : AccessRequestStatus

pub record AccessRequest : Type 0 where
  pub id : String
  pub requester : String
  pub target_username : String
  pub kind : UserKind
  pub sa_namespace : Option String
  pub role_name : String
  pub role_kind : RoleKind
  pub namespace : Option String
  pub ttl_minutes : ℕ
  pub reason : String
  pub status : AccessRequestStatus

pub record AccessRequestCreatePayload : Type 0 where
  pub target_username : String
  pub kind : UserKind
  pub sa_namespace : Option String
  pub role_name : String
  pub role_kind : RoleKind
  pub namespace : Option String
  pub ttl_minutes : ℕ
  pub reason : String

abbrev pub access_request_value : AccessRequestCreatePayload → Value
access_request_value p = obj (
    field "target_username" (str p.target_username) (
      field "user_kind" (str (user_kind_text p.kind)) (
        field "sa_namespace" (opt_str p.sa_namespace) (
          field "role_name" (str p.role_name) (
            field "role_kind" (str (role_kind_text p.role_kind)) (
              field "namespace" (opt_str p.namespace)
                (field "ttl_minutes" (num p.ttl_minutes) (field "reason" (str p.reason) end))))))))

abbrev opt_num : Option ℕ → Value
opt_num none = null
opt_num (some n) = num n

pub record JitRolePolicySetPayload : Type 0 where
  pub eligible : Bool
  pub max_ttl_minutes : Option ℕ

abbrev pub policy_value : JitRolePolicySetPayload → Value
policy_value p =
    obj
      (field "eligible" (bool p.eligible) (field "max_ttl_minutes" (opt_num p.max_ttl_minutes) end))

pub record AccessRequestExportQuery : Type 0 where
  pub from : Option String
  pub to : Option String

-- types/audit.ts
pub record AuditLogQuery : Type 0 where
  pub limit : ℕ
  pub offset : ℕ
  pub actor : Option String
  pub path_contains : Option String

pub record AuditLogExportQuery : Type 0 where
  pub from : Option String
  pub to : Option String
  pub actor : Option String
  pub path_contains : Option String

-- api/cluster.ts
pub record AddClusterPayload : Type 0 where
  pub name : String
  pub api_url : String
  pub ca_data : String
  pub token : String

abbrev pub add_cluster_value : AddClusterPayload → Value
add_cluster_value p = obj (
    field "name" (str p.name) (
      field "api_url" (str p.api_url)
        (field "ca_data" (str p.ca_data) (field "token" (str p.token) end))))

-- api/kubeconfig.ts, and the options of hooks/useKubeconfig.ts
pub record KubeconfigRequest : Type 0 where
  pub username : String
  pub user_type : UserType
  pub namespace : String
  pub sa_namespace : Option String
  pub private_key_pem : Option String

abbrev pub kubeconfig_value : KubeconfigRequest → Value
kubeconfig_value p = obj (
    field "username" (str p.username) (
      field "user_type" (str (user_type_text p.user_type)) (
        field "namespace" (str p.namespace) (
          field "sa_namespace" (opt_str p.sa_namespace)
            (field "private_key_pem" (opt_str p.private_key_pem) end)))))

-- api/vault.ts
pub record VaultConfig : Type 0 where
  pub addr : String
  pub token : String
  pub mount : String
  pub base_path : String
  pub namespace : String
  pub tls_skip_verify : Bool

abbrev pub vault_value : VaultConfig → Value
vault_value p = obj (
    field "addr" (str p.addr) (
      field "token" (str p.token) (
        field "mount" (str p.mount) (
          field "base_path" (str p.base_path) (
            field "namespace" (str p.namespace)
              (field "tls_skip_verify" (bool p.tls_skip_verify) end))))))
