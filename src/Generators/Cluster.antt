-- ===== src/Generators/Cluster.antt =====
-- pkg/generators/cluster.go: a set of parameters for each selected cluster.
pub mod SanitizeName
pub mod Laws
pub mod Describes
use Prim.Native.String.{◌++◌ as ◌+++◌}
use applicationset.Prelude.{
  String, Bool, true, false, List, [], ◌∷◌, ◌++◌, Option, none, some, Map, insert, lookup,
  if◌then◌else◌,
}
use applicationset.Errors.{Error, Result, ok, err, panic, ◌>>=◌, empty_app_set_generator}
use applicationset.Api.Template.{ApplicationSetTemplate}
use applicationset.Api.Generator.{ApplicationSetGenerator, ClusterGenerator, LabelSelector}
use applicationset.Api.ApplicationSet.{ApplicationSet}
use applicationset.Utils.Combine.{Params}
use applicationset.Utils.Clusters.{Cluster, KubeClient, Secret, data_at, list_clusters}
use applicationset.Generators.Interface.{Generator, no_requeue_after}
use applicationset.Generators.Prefixed.{add_prefixed}
use applicationset.Generators.Cluster.SanitizeName.{sanitize_name}

-- Kubernetes' functions: `AddLabelToSelector` followed by `LabelSelectorAsSelector`, and `Client.List`
-- of the secrets that a selector selects.
pub record SecretClient {ℓ} (Selector : Type ℓ) : Type ℓ where
  pub add_label_to_selector : LabelSelector → String → String → LabelSelector
  pub label_selector_as_selector : LabelSelector → Result Selector
  pub list : Selector → Result (List Secret)

-- `ArgoCDSecretTypeLabel` and `ArgoCDSecretTypeCluster`
abbrev pub secret_type_label : String
secret_type_label = "argocd.argoproj.io/secret-type"

abbrev pub secret_type_cluster : String
secret_type_cluster = "cluster"

-- The first field of a selector that is a slice or a map with an entry.
abbrev pub is_filled {ℓ} : {A : Type ℓ} → Option (List A) → Bool
is_filled (some (x ∷ xs)) = true
is_filled _ = false

-- `len(Selector.MatchExpressions) > 0 || len(Selector.MatchLabels) > 0`
abbrev pub ignore_local_clusters : LabelSelector → Bool
ignore_local_clusters s = if is_filled s.match_expressions then true else is_filled s.match_labels

-- The loop of `getSecretsByClusterName`: the last secret of a name stays.
unfoldable pub secrets_by_name : List Secret → Map Secret → Map Secret
unfolding data_at insert
secrets_by_name [] res = res
secrets_by_name (s ∷ secrets) res =
    secrets_by_name secrets (insert (data_at "name" s.secret_data) s res)

-- The parameters of a cluster that has no secret.
unfoldable pub local_params : ClusterGenerator → Cluster → Params
unfolding insert add_prefixed
local_params clusters cluster =
    add_prefixed "values." clusters.values
      (insert "server" cluster.server (insert "name" cluster.name []))

-- The parameters of a cluster's secret.
unfoldable pub secret_params : ClusterGenerator → Secret → Params
unfolding insert add_prefixed data_at sanitize_name
secret_params clusters s =
    let name = data_at "name" s.secret_data in
    let params =
      insert "server" (data_at "server" s.secret_data)
        (insert "nameNormalized" (sanitize_name name) (insert "name" name [])) in
    add_prefixed "values." clusters.values (
      add_prefixed "metadata.labels." s.labels
        (add_prefixed "metadata.annotations." s.annotations params))

-- The loop over the clusters: `res` and `secretsFound`.
unfoldable pub find_secrets :
    ClusterGenerator
    → Map Secret
    → List Cluster
    → List Params
    → List Secret
    → List Params × List Secret
unfolding lookup local_params
find_secrets clusters secrets [] res found = (res, found)
find_secrets clusters secrets (c ∷ cs) res found = elim (lookup c.name secrets) [
  | some s ↦ find_secrets clusters secrets cs res (found ++ s ∷ [])
  | none ↦
      let res' =
        if ignore_local_clusters clusters.selector
        then res
        else res ++ local_params clusters c ∷ [] in
      find_secrets clusters secrets cs res' found
]

-- The loop over `secretsFound`.
unfoldable pub add_secrets : ClusterGenerator → List Secret → List Params → List Params
unfolding secret_params
add_secrets clusters [] res = res
add_secrets clusters (s ∷ found) res =
    add_secrets clusters found (res ++ secret_params clusters s ∷ [])

-- The two loops, once clusters and secrets are known.
unfoldable pub cluster_params : ClusterGenerator → List Cluster → Map Secret → List Params
unfolding find_secrets add_secrets
cluster_params clusters items secrets =
    let (res, found) = find_secrets clusters secrets items [] [] in add_secrets clusters found res

module _ {ℓ} {Selector : Type ℓ} (secret_client : SecretClient Selector) (kube : KubeClient)
    (namespace : String) where
  -- `getSecretsByClusterName`
  unfoldable pub get_secrets_by_cluster_name : ClusterGenerator → Result (Map Secret)
  unfolding secrets_by_name
  get_secrets_by_cluster_name clusters = do
    selector ← secret_client.label_selector_as_selector (
        secret_client.add_label_to_selector clusters.selector secret_type_label secret_type_cluster)
    secrets ← secret_client.list selector
    ok (secrets_by_name secrets [])

  -- `GenerateParams`
  unfoldable pub generate_params : ApplicationSetGenerator → ApplicationSet → Result (List Params)
  unfolding list_clusters get_secrets_by_cluster_name cluster_params
  generate_params g app_set = elim g.clusters [
    | none ↦ err empty_app_set_generator
    | some clusters ↦ do
      found ← list_clusters kube namespace
      elim found [
        | none ↦ ok []
        | some items ↦ do
          secrets ← get_secrets_by_cluster_name clusters
          ok (cluster_params clusters items secrets)
      ]
  ]

  -- `GetTemplate`
  unfoldable pub get_template : ApplicationSetGenerator → Result ApplicationSetTemplate
  get_template g = elim g.clusters [ none ↦ panic | some clusters ↦ ok clusters.template ]

  -- `NewClusterGenerator`, with `GetRequeueAfter`
  unfoldable pub new_cluster_generator : Generator
  unfolding generate_params get_template
  new_cluster_generator = record {
    generate_params = generate_params;
    get_requeue_after = λ g. ok no_requeue_after;
    get_template = get_template;
  }
