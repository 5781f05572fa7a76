-- ===== src/Api/Clusters.antt =====
-- frontend/src/api/cluster.ts
use clustervision.Base.{String, [], ◌∷◌, ◌<>◌}
use clustervision.Base.Json.{str}
use clustervision.Types.{AddClusterPayload, add_cluster_value}
use clustervision.Api.{Call, text, get, get_with, send, delete}

unfoldable pub info : Call
info = get "/cluster/info"

unfoldable pub list : Call
list = get "/cluster/clusters"

unfoldable pub add : AddClusterPayload → Call
add payload = send "POST" "/cluster/clusters" (add_cluster_value payload)

unfoldable pub remove : String → Call
remove name = delete ("/cluster/clusters/" <> name)

unfoldable bootstrap_script : String → Call
bootstrap_script name = record (get_with "/cluster/bootstrap-script" (("name", str name) ∷ [])) {
  response = text;
}
