-- ===== src/Tests/Sources.antt =====
-- The theorems on the generators that read lists, clusters, repositories and decisions, at small
-- inputs.

use applicationset.Prelude.{
  negsuc, ◌≤ℤ◌, pos, ◌↔◌, ◌≡◌, refl, List, [], ◌∷◌, ◌++◌, map, none, some, insert, lookup, has_key,
  All2, str_eq, if◌then◌else◌, IsInt64,
}
use applicationset.Errors.{ok}
use applicationset.Api.Template.{empty_template}
use applicationset.Api.Generator.{
  ApplicationSetGenerator, ListGenerator, ClusterGenerator, LabelSelector,
}
use applicationset.Utils.Json.{Value, text, end_fields, field, object}
use applicationset.Utils.Combine.{Params}
use applicationset.Utils.Clusters.{Cluster, KubeClient, Secret, data_at, list_clusters}
use applicationset.Generators.Interface.{second}
use applicationset.Generators.Elements.{
  UnmarshalObject, add_values, add_field, add_fields, element_params, all_params,
  generate_params as generate_list,
}
use applicationset.Generators.Elements.Laws.{IsSetOf, generate_params-IsSetOf}
use applicationset.Generators.RequeueAfter.{
  requeue_after_or, exact_product, requeue_after_or_bounds,
}
use applicationset.Generators.Cluster.{
  SecretClient, local_params, secret_params, secrets_by_name, get_secrets_by_cluster_name,
  generate_params as generate_clusters,
}
use applicationset.Generators.Cluster.Laws.{local_clusters, secrets_of, generate_params-clusters}
use applicationset.Generators.Cluster.Describes.{Describes, secret_params-Describes}
use applicationset.Generators.Cluster.SanitizeName.{
  IsDnsName, sanitize_name, sanitize_name-IsDnsName,
}
use applicationset.Tests.Store.{request, guestbook_set}

abbrev leaf : ApplicationSetGenerator
leaf = record request { list = none }

-- ---- the list generator

abbrev staging : Value
staging = object (field "cluster" (text "staging") end_fields)

abbrev decode : UnmarshalObject
decode raw =
    if str_eq raw "{}"
    then ok []
    else ok (
        ("cluster", text "engineering")
        ∷ ("values", object (field "zone" (text "eu") end_fields))
        ∷ [])

abbrev two_elements : ListGenerator
two_elements = record { elements = "{}" ∷ "{...}" ∷ []; template = empty_template }

abbrev element_sets : List Params
element_sets = [] ∷ (("cluster", "engineering") ∷ ("values.zone", "eu") ∷ []) ∷ []

generate_params-IsSetOf_example :
    (l : ListGenerator) × (some two_elements ≡ some l)
    × All2 (IsSetOf decode) l.elements element_sets
unfolding generate_list element_params all_params add_values add_field add_fields insert
generate_params-IsSetOf_example =
    generate_params-IsSetOf decode (record leaf { list = some two_elements }) guestbook_set
      element_sets refl

-- ---- the requeue times and the names

requeue_after_or_bounds_example :
    IsInt64 (requeue_after_or (pos 0) (some (negsuc 59)))
    × ((requeue_after_or (pos 0) (some (negsuc 59)) ≡ exact_product (negsuc 59) second)
        ↔ ((negsuc 9_223_372_035 ≤ℤ negsuc 59) × (negsuc 59 ≤ℤ pos 9_223_372_036)))
requeue_after_or_bounds_example = requeue_after_or_bounds (pos 0) (negsuc 59)

sanitize_name-IsDnsName_example : IsDnsName (sanitize_name "-Prod_EU.")
sanitize_name-IsDnsName_example = sanitize_name-IsDnsName "-Prod_EU."

sanitize_name_runs : sanitize_name "-Prod_EU." ≡ "prod-eu"
unfolding sanitize_name
sanitize_name_runs = refl

-- ---- the cluster generator

abbrev production : Secret
production = record {
  name = "cluster-production";
  labels = ("argocd.argoproj.io/secret-type", "cluster") ∷ ("env", "prod") ∷ [];
  annotations = ("owner", "team a") ∷ [];
  secret_data = ("name", "Production_01") ∷ ("server", "https://production.example") ∷ [];
}

abbrev kube : KubeClient
kube = record {
  cluster_secrets = λ namespace. ok (some (production ∷ []));
  check_config = λ config. none;
}

abbrev secret_client : SecretClient LabelSelector
secret_client = record {
  add_label_to_selector = λ s label v. record s { match_labels = some ((label, v) ∷ []) };
  label_selector_as_selector = λ s. ok s;
  list = λ s. ok (production ∷ []);
}

abbrev all_clusters : ClusterGenerator
all_clusters = record {
  selector = record { match_labels = none; match_expressions = none };
  template = empty_template;
  values = ("revision", "main") ∷ [];
}

abbrev known : List Cluster
known =
    record { name = "Production_01"; server = "https://production.example" }
    ∷ record { name = "in-cluster"; server = "https://kubernetes.default.svc" }
    ∷ []

generate_params-clusters_example :
    generate_clusters secret_client kube "argocd"
      (record leaf { clusters = some all_clusters })
      guestbook_set
    ≡ ok (
        map
          (local_params all_clusters)
          (local_clusters all_clusters (("Production_01", production) ∷ []) known)
        ++ map (secret_params all_clusters) (secrets_of (("Production_01", production) ∷ []) known))
unfolding list_clusters get_secrets_by_cluster_name secrets_by_name insert data_at
generate_params-clusters_example =
    generate_params-clusters secret_client kube "argocd"
      (record leaf { clusters = some all_clusters }) guestbook_set all_clusters known
      (("Production_01", production) ∷ []) refl refl refl

secret_params-Describes_example :
    Describes all_clusters production (secret_params all_clusters production)
unfolding lookup has_key
secret_params-Describes_example =
    secret_params-Describes all_clusters production (refl, tt) (refl, (refl, tt)) (refl, tt)
