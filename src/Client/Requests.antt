-- ===== src/Client/Requests.antt =====
-- What the request interceptor adds to a request.
use clustervision.Base.{
  String, ◌≡◌, ◌≢◌, refl, List, [], ◌∷◌, some, ◌==◌, eq_iff, lookup, if◌then◌else◌, arith,
}
use clustervision.Base.Json.{Value, str}
use clustervision.Auth.{AuthStore, ClusterStore}
use clustervision.Client.{Request, with_param, on_request}

lookup-with_param :
    (k j : String) (v : Value) (ps : List (String × Value))
    → lookup j (with_param k v ps) ≡ (if k == j then some v else lookup j ps)
unfolding with_param
lookup-with_param k j v [] = refl
lookup-with_param k j v ((i, w) ∷ ps) =
    ground (arith, eq_iff k j, eq_iff i k, eq_iff i j, lookup-with_param k j v ps)

-- A request for a cluster other than the local one names that cluster, whatever it named before;
-- all its other parameters stay, and so do its method and URL.
on_request-cluster :
    (c : ClusterStore) (s : AuthStore) (r : Request)
    → c.active_cluster ≢ ""
    → c.active_cluster ≢ "local"
    → (lookup "cluster" (on_request c s r).params ≡ some (str c.active_cluster))
      × ((j : String) → j ≢ "cluster" → lookup j (on_request c s r).params ≡ lookup j r.params)
      × ((on_request c s r).method ≡ r.method)
      × ((on_request c s r).url ≡ r.url)
unfolding on_request
on_request-cluster c s r ne nl = (
  ground (
    arith,
    eq_iff c.active_cluster "",
    eq_iff c.active_cluster "local",
    lookup-with_param "cluster" "cluster" (str c.active_cluster) r.params,
  ),
  λ j nj. ground (
    arith,
    eq_iff c.active_cluster "",
    eq_iff c.active_cluster "local",
    eq_iff "cluster" j,
    lookup-with_param "cluster" j (str c.active_cluster) r.params,
  ),
  ground arith,
  ground arith,
)
