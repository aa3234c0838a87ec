-- ===== src/Utils/Clusters.antt =====
-- pkg/utils/clusterUtils.go: the clusters that Argo CD knows, and the check of a destination.
use applicationset.Prelude.{
  String, true, List, [], ◌∷◌, ◌++◌, Option, none, some, Map, lookup, str_eq, if◌then◌else◌, any,
}
use applicationset.Errors.{
  Error, Result, ok, err, panic, ◌>>=◌, invalid_cluster_secret, unable_to_find_server,
  missing_cluster, name_and_server, same_name_clusters, no_such_cluster,
}
use applicationset.Api.Template.{Destination}
use applicationset.Utils.Text.{trim_right, is_empty}

-- The fields of a Kubernetes `Secret` that the code reads; `secret_data` is its `Data`.
pub record Secret : Type 0 where
  pub name : String
  pub labels : Map String
  pub annotations : Map String
  pub secret_data : Map String

-- The fields of Argo CD's `Cluster` that the code reads again.
pub record Cluster : Type 0 where
  pub name : String
  pub server : String

-- `appv1.KubernetesInternalAPIServerAddr`
abbrev pub kubernetes_internal_api_server_addr : String
kubernetes_internal_api_server_addr = "https://kubernetes.default.svc"

-- `s.Data[key]`, which is empty if it is missing
unfoldable pub data_at : String → Map String → String
unfolding lookup
data_at key m = elim (lookup key m) [ none ↦ "" | some v ↦ v ]

-- `localCluster`, as far as it is read
abbrev pub local_cluster : Cluster
local_cluster = record { name = "in-cluster"; server = kubernetes_internal_api_server_addr }

-- What the functions below read from outside. `check_config` is `json.Unmarshal` of a cluster's
-- configuration, which the code only checks.
pub record KubeClient : Type 0 where
  pub cluster_secrets : String → Result (Option (List Secret))
  pub check_config : String → Option Error

module _ (kube : KubeClient) where
  -- `secretToCluster`
  unfoldable pub secret_to_cluster : Secret → Result Cluster
  unfolding data_at trim_right
  secret_to_cluster s =
      let config = data_at "config" s.secret_data in
      elim (if is_empty config then none else kube.check_config config) [
        | some e ↦ err e
        | none ↦ ok (record {
          name = data_at "name" s.secret_data;
          server = trim_right b'/' (data_at "server" s.secret_data);
        })
      ]

  -- The loop of `ListClusters`: a secret that is no cluster ends it.
  unfoldable pub clusters_of : List Secret → Result (List Cluster)
  unfolding secret_to_cluster
  clusters_of [] = ok []
  clusters_of (s ∷ ss) = elim (secret_to_cluster s) [
    | err e ↦ err (invalid_cluster_secret s.name e)
    | panic ↦ panic
    | ok c ↦ clusters_of ss >>= λ cs. ok (c ∷ cs)
  ]

  -- The local cluster is added if no secret has its address.
  unfoldable pub with_local_cluster : List Cluster → List Cluster
  with_local_cluster cs =
      if any (λ c. str_eq c.server kubernetes_internal_api_server_addr) cs
      then cs
      else cs ++ local_cluster ∷ []

  -- `ListClusters`; `none` is a nil list.
  unfoldable pub list_clusters : String → Result (Option (List Cluster))
  unfolding clusters_of with_local_cluster
  list_clusters namespace = do
    secrets ← kube.cluster_secrets namespace
    elim secrets [
      | none ↦ ok none
      | some items ↦ clusters_of items >>= λ cs. ok (some (with_local_cluster cs))
    ]

  -- The choice of `getDestinationServer` among the servers of the clusters of the name.
  unfoldable pub one_server : String → List String → Result String
  one_server name [] = err (no_such_cluster name)
  one_server name (server ∷ []) = ok server
  one_server name (s ∷ t ∷ rest) = err (same_name_clusters (s ∷ t ∷ rest))

  -- The servers of the clusters of the name.
  unfoldable pub servers_of : String → List Cluster → List String
  servers_of name [] = []
  servers_of name (c ∷ cs) =
      let rest = servers_of name cs in if str_eq c.name name then c.server ∷ rest else rest

  -- `getDestinationServer`; a nil list is dereferenced.
  unfoldable pub get_destination_server : String → String → Result String
  unfolding list_clusters one_server servers_of
  get_destination_server name namespace = do
    clusters ← list_clusters namespace
    elim clusters [ none ↦ panic | some cs ↦ one_server name (servers_of name cs) ]

  -- The end of `ValidateDestination`, once the server of the name is known.
  -- `SetInferredServer` sets the server and marks it as inferred.
  unfoldable pub infer_server : Destination → Result String → Result Destination
  infer_server dest (err e) = err (unable_to_find_server e)
  infer_server dest panic = panic
  infer_server dest (ok server) =
      if is_empty server
      then err (missing_cluster dest.name)
      else ok (record dest { server = server; inferred = true })

  -- `ValidateDestination`, which returns the destination as it leaves it.
  unfoldable pub validate_destination : Destination → String → Result Destination
  unfolding get_destination_server infer_server
  validate_destination dest namespace =
      if is_empty dest.name
      then ok dest
      else if is_empty dest.server
      then infer_server dest (get_destination_server dest.name namespace)
      else if dest.inferred
      then ok dest
      else err (name_and_server dest.name dest.server)
