-- ===== src/Hooks/Keys.antt =====
-- The cache keys of all queries: each key tells its query, and the cluster that it was asked of.
use clustervision.Base.{
  ℕ, String, ◌≡◌, refl, ◌∙◌, sym, ap, Bool, [], ◌∷◌, Option, none, some, ◌==◌, if◌then◌else◌,
}
use clustervision.Base.Json.{Value, null, bool, num, str, obj, Fields, end, field}
use clustervision.Types.{AuditLogQuery}
use clustervision.Hooks.{Key, Query}
use clustervision.Hooks.Rbac
use clustervision.Hooks.Users
use clustervision.Hooks.AccessRequests
use clustervision.Hooks.Accounts

-- The queries with the arguments that they are asked with.
pub data Asked : Type 0 where
  cluster_roles : Bool → Asked
  roles user_permissions namespace_access : String → Asked
  namespaces users unmanaged_sa token_history sa_tokens access_requests cluster_info : Asked
  jit_policies clusters backend_health my_link scopes : Asked
  audit_log : AuditLogQuery → Asked
  user_roles : Option String → Asked

-- The hook of a query, under the active cluster, switched on or off where it has a switch.
unfoldable pub hook : String → Bool → Asked → Query
unfolding Rbac.use_cluster_roles Rbac.use_roles Rbac.use_user_permissions Rbac.use_namespace_access
    Rbac.use_namespaces Users.use_users Users.use_unmanaged_service_accounts Users.use_token_history
    Users.use_sa_tokens AccessRequests.use_access_requests Accounts.use_cluster_info
    AccessRequests.use_jit_policies Accounts.use_clusters Accounts.use_backend_health
    Accounts.use_my_link Accounts.use_scopes AccessRequests.use_audit_log Accounts.use_user_roles
hook c on (cluster_roles system) = Rbac.use_cluster_roles c system on
hook c on (roles ns) = Rbac.use_roles c ns
hook c on (user_permissions u) = Rbac.use_user_permissions c u
hook c on (namespace_access ns) = Rbac.use_namespace_access c ns
hook c on namespaces = Rbac.use_namespaces c
hook c on users = Users.use_users c
hook c on unmanaged_sa = Users.use_unmanaged_service_accounts c
hook c on token_history = Users.use_token_history c
hook c on sa_tokens = Users.use_sa_tokens c
hook c on access_requests = AccessRequests.use_access_requests c
hook c on cluster_info = Accounts.use_cluster_info c
hook c on jit_policies = AccessRequests.use_jit_policies
hook c on clusters = Accounts.use_clusters
hook c on backend_health = Accounts.use_backend_health
hook c on my_link = Accounts.use_my_link
hook c on scopes = Accounts.use_scopes
hook c on (audit_log q) = AccessRequests.use_audit_log q on
hook c on (user_roles u) = Accounts.use_user_roles u

-- The cluster whose data a query shows; `none` for what is the same under every cluster: accounts,
-- the registry of clusters, the audit log and the JIT policies.
abbrev pub scope : String → Asked → Option String
scope c jit_policies = none
scope c clusters = none
scope c backend_health = none
scope c my_link = none
scope c scopes = none
scope c (audit_log q) = none
scope c (user_roles u) = none
scope c _ = some c

abbrev Read : Type 0
Read = Option String × Asked

-- Reading a key back: with nothing after the name, with a cluster, with a cluster and an argument.
abbrev of_name : String → Option Read
of_name n =
    if n == "jit-policies"
    then some (none, jit_policies)
    else if n == "clusters"
    then some (none, clusters)
    else if n == "backend-health"
    then some (none, backend_health)
    else if n == "my-link"
    then some (none, my_link)
    else if n == "permission-scopes"
    then some (none, scopes)
    else none

abbrev of_cluster : String → String → Option Read
of_cluster n c =
    if n == "namespaces"
    then some (some c, namespaces)
    else if n == "users"
    then some (some c, users)
    else if n == "unmanaged-sa"
    then some (some c, unmanaged_sa)
    else if n == "token-history"
    then some (some c, token_history)
    else if n == "sa-tokens"
    then some (some c, sa_tokens)
    else if n == "access-requests"
    then some (some c, access_requests)
    else if n == "cluster-info"
    then some (some c, cluster_info)
    else if n == "user-roles"
    then some (none, user_roles (some c))
    else none

abbrev of_argument : String → String → String → Option Read
of_argument n c a =
    if n == "roles"
    then some (some c, roles a)
    else if n == "user-permissions"
    then some (some c, user_permissions a)
    else if n == "namespace-access"
    then some (some c, namespace_access a)
    else none

abbrev to_opt : Value → Option String
to_opt (str s) = some s
to_opt _ = none

abbrev to_num : Value → ℕ
to_num (num n) = n
to_num _ = 0

-- The object of the audit log's key.
abbrev of_audit : Fields → Option Read
of_audit (field _ l (field _ o (field _ a (field _ p end)))) = some (
  none,
  audit_log
      (record { limit = to_num l; offset = to_num o; actor = to_opt a; path_contains = to_opt p }),
)
of_audit _ = none

read_key : Key → Option Read
read_key (str n ∷ []) = of_name n
read_key (str n ∷ str c ∷ []) = of_cluster n c
read_key (str n ∷ null ∷ []) = some (none, user_roles none)
read_key (str n ∷ obj fs ∷ []) = of_audit fs
read_key (str n ∷ str c ∷ bool b ∷ []) = some (some c, cluster_roles b)
read_key (str n ∷ str c ∷ str a ∷ []) = of_argument n c a
read_key _ = none

audit_options :
    (l o : ℕ) (a p : Option String) (on : Bool) (c : String)
    → let q : AuditLogQuery = record { limit = l; offset = o; actor = a; path_contains = p } in
      read_key (hook c on (audit_log q)).key ≡ some (none, audit_log q)
unfolding read_key hook
audit_options l o none none on c = refl
audit_options l o none (some p) on c = refl
audit_options l o (some a) none on c = refl
audit_options l o (some a) (some p) on c = refl

read_key-hook :
    (c : String) (on : Bool) (q : Asked) → read_key (hook c on q).key ≡ some (scope c q, q)
unfolding read_key hook
read_key-hook c on (audit_log q) = audit_options q.limit q.offset q.actor q.path_contains on c
read_key-hook c on (user_roles none) = refl
read_key-hook c on (user_roles (some u)) = refl
read_key-hook c on q = refl

-- Two query hooks that build the same cache key, whether they are enabled or not, are the same hook
-- with the same arguments, and their keys hold the same cluster, or neither holds one.
pub hook-key_injective :
    (c d : String) (on off : Bool) (p q : Asked)
    → (hook c on p).key ≡ (hook d off q).key
    → (scope c p ≡ scope d q) × (p ≡ q)
hook-key_injective c d on off p q h =
    let same = sym (read_key-hook c on p) ∙ ap read_key h ∙ read_key-hook d off q in (cc, cc)
