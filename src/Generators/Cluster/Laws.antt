-- ===== src/Generators/Cluster/Laws.antt =====
-- What the cluster generator (pkg/generators/cluster.go) returns, without its loops.
use applicationset.Prelude.{
  String, List, [], ◌∷◌, ◌++◌, map, none, some, Map, lookup, if◌then◌else◌, ◌≡◌, refl, sym, ap, not,
  has_key, keep_if, Option-cases, Bool-cases, inl, inr,
}
use applicationset.Errors.{ok}
use applicationset.Api.Generator.{ApplicationSetGenerator, ClusterGenerator}
use applicationset.Api.ApplicationSet.{ApplicationSet}
use applicationset.Utils.Combine.{Params}
use applicationset.Utils.Clusters.{Cluster, KubeClient, Secret, list_clusters}
use applicationset.Generators.Cluster.{
  SecretClient, ignore_local_clusters, local_params, secret_params, find_secrets, add_secrets,
  cluster_params, get_secrets_by_cluster_name, generate_params,
}
use mathlib.Core.List.{append_assoc, append-nil}

-- The clusters that have no secret, and the secrets of the others, in the order of the clusters.
abbrev pub without_secret : Map Secret → List Cluster → List Cluster
without_secret secrets = keep_if (λ c. not (has_key c.name secrets))

abbrev pub secrets_of : Map Secret → List Cluster → List Secret
secrets_of secrets [] = []
secrets_of secrets (c ∷ cs) =
    let rest = secrets_of secrets cs in
    elim (lookup c.name secrets) [ none ↦ rest | some s ↦ s ∷ rest ]

-- The clusters that get parameters of their own.
abbrev pub local_clusters : ClusterGenerator → Map Secret → List Cluster → List Cluster
local_clusters clusters secrets cs =
    if ignore_local_clusters clusters.selector then [] else without_secret secrets cs

find_secrets_lem :
    (g : ClusterGenerator) (secrets : Map Secret) (cs : List Cluster) (res : List Params)
    (found : List Secret)
    → find_secrets g secrets cs res found
      ≡ (res ++ map (local_params g) (local_clusters g secrets cs), found ++ secrets_of secrets cs)
unfolding find_secrets has_key
find_secrets_lem g secrets [] res found = elim (Bool-cases (ignore_local_clusters g.selector)) [
  | inl e ↦ rw (e, append-nil res, append-nil found) refl
  | inr e ↦ rw (e, append-nil res, append-nil found) refl
]
find_secrets_lem g secrets (c ∷ cs) res found = elim (Option-cases (lookup c.name secrets)) [
  | inr (s, e) ↦ elim (Bool-cases (ignore_local_clusters g.selector)) [
    | inl i ↦
        rw
          (
            find_secrets,
            secrets_of,
            e,
            find_secrets_lem g secrets cs res (found ++ s ∷ []),
            append_assoc found (s ∷ []) (secrets_of secrets cs),
            i,
          )
          refl
    | inr i ↦
        rw
          (
            find_secrets,
            secrets_of,
            has_key,
            e,
            find_secrets_lem g secrets cs res (found ++ s ∷ []),
            append_assoc found (s ∷ []) (secrets_of secrets cs),
            i,
          )
          refl
  ]
  | inl e ↦ elim (Bool-cases (ignore_local_clusters g.selector)) [
    | inl i ↦ rw (find_secrets, secrets_of, e, i, find_secrets_lem g secrets cs res found, i) refl
    | inr i ↦
        let res' = res ++ local_params g c ∷ [] in
        rw
          (
            find_secrets,
            secrets_of,
            has_key,
            e,
            i,
            find_secrets_lem g secrets cs res' found,
            i,
            append_assoc res (local_params g c ∷ [])
                (map (local_params g) (without_secret secrets cs)),
          )
          refl
  ]
]

add_secrets_lem :
    (g : ClusterGenerator) (found : List Secret) (res : List Params)
    → add_secrets g found res ≡ res ++ map (secret_params g) found
unfolding add_secrets
add_secrets_lem g [] res = sym (append-nil res)
add_secrets_lem g (s ∷ found) res =
    rw
      (
        add_secrets_lem g found (res ++ secret_params g s ∷ []),
        append_assoc res (secret_params g s ∷ []) (map (secret_params g) found),
      )
      refl

cluster_params_lem :
    (g : ClusterGenerator) (cs : List Cluster) (secrets : Map Secret)
    → cluster_params g cs secrets
      ≡ map (local_params g) (local_clusters g secrets cs)
        ++ map (secret_params g) (secrets_of secrets cs)
unfolding cluster_params
cluster_params_lem g cs secrets =
    rw (find_secrets_lem g secrets cs [] []) (add_secrets_lem g (secrets_of secrets cs) _)

module _ {ℓ} {Selector : Type ℓ} (secret_client : SecretClient Selector) (kube : KubeClient)
    (namespace : String) where
  -- Once the clusters and the secrets that the selector selects are read, GenerateParams returns the
  -- parameters of the clusters that have no secret among these, unless the selector is not empty, and
  -- behind them those of the secrets of the other clusters, both in the order of the clusters.
  pub generate_params-clusters :
      (g : ApplicationSetGenerator) (app_set : ApplicationSet) (clusters : ClusterGenerator)
      (cs : List Cluster) (secrets : Map Secret)
      → g.clusters ≡ some clusters
      → list_clusters kube namespace ≡ ok (some cs)
      → get_secrets_by_cluster_name secret_client kube namespace clusters ≡ ok secrets
      → generate_params secret_client kube namespace g app_set
        ≡ ok (
            map (local_params clusters) (local_clusters clusters secrets cs)
            ++ map (secret_params clusters) (secrets_of secrets cs))
  unfolding generate_params
  generate_params-clusters g app_set clusters cs secrets h listed found =
      rw (generate_params, h, listed, found) (ap ok (cluster_params_lem clusters cs secrets))
