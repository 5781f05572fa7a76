-- ===== src/Hooks/Tests.antt =====
-- The theorems of the hooks at concrete queries.
use clustervision.Base.{String, List, some, ◌≡◌, refl, true, false, [], ◌∷◌, ◌++◌}
use clustervision.Base.Json.{str}
use clustervision.Types.{
  CreateUserPayload, AddClusterPayload, service_account, cluster_role, sa_kind,
}
use clustervision.Hooks.{Key, Effect}
use clustervision.Hooks.Rbac
use clustervision.Hooks.Keys.{
  Asked, roles, users, namespaces, user_permissions, namespace_access, clusters, scopes, hook,
  scope, hook-key_injective,
}
use clustervision.Hooks.Refreshing.{
  created_user, assigned, added_cluster, removed_cluster, effects, Reaches, effects-miss,
}

roles_key : (hook "prod" true (roles "default")).key ≡ str "roles" ∷ str "prod" ∷ str "default" ∷ []
unfolding hook
roles_key = refl

hook-key_injective_example :
    (scope "prod" (roles "default") ≡ scope "prod" (roles "default"))
    × ◌≡◌ {A = Asked} (roles "default") (roles "default")
hook-key_injective_example =
    hook-key_injective "prod" "prod" true false (roles "default") (roles "default")
      (unfold hook in refl)

-- Matching by prefix, as a concrete relation.
abbrev Prefix : Key → Key → Type 0
Prefix k key = (rest : Key) × (key ≡ k ++ rest)

abbrev prefix_name : (n m : String) (k key : Key) → Prefix (str n ∷ k) (str m ∷ key) → n ≡ m
prefix_name n m k key (rest, e) = cc

abbrev sa_ci : CreateUserPayload
sa_ci = record { name = "sa-ci"; user_type = service_account; groups = []; namespace = "ci" }

abbrev viewer : Rbac.AssignRoleArgs
viewer = record {
  payload = record { role_name = "view"; role_kind = cluster_role; namespace = some "ci" };
  kind = some sa_kind;
  sa_namespace = some "ci";
}

abbrev prod : AddClusterPayload
prod = record { name = "prod"; api_url = "https://prod"; ca_data = "ca"; token = "t" }

abbrev Prefixed : List Effect → Key → Type 0
Prefixed = Reaches Prefix (λ k rest. (rest, refl)) prefix_name

effects-miss_example :
    Prefixed (effects "dev" (created_user sa_ci)) (hook "dev" true users).key
    × (¬ Prefixed (effects "dev" (created_user sa_ci)) (hook "dev" true namespaces).key)
    × Prefixed
        (effects "dev" (assigned "sa-ci" viewer))
        (hook "dev" true (user_permissions "sa-ci")).key
    × (¬ Prefixed
        (effects "dev" (assigned "sa-ci" viewer))
        (hook "dev" true (namespace_access "ci")).key)
    × Prefixed (effects "dev" (added_cluster prod)) (hook "dev" true clusters).key
    × (¬ Prefixed (effects "dev" (added_cluster prod)) (hook "dev" true scopes).key)
    × Prefixed (effects "dev" (removed_cluster "prod")) (hook "dev" true clusters).key
    × (¬ Prefixed (effects "dev" (removed_cluster "prod")) (hook "dev" true scopes).key)
effects-miss_example =
    effects-miss Prefix (λ k rest. (rest, refl)) prefix_name "dev" "dev" "sa-ci" "prod" "ci" true
      sa_ci viewer prod
