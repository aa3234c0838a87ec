-- ===== src/Generators/DuckType.antt =====
-- pkg/generators/duck_type.go: a set of parameters for each cluster that a resource decides on.
pub mod Decisions
pub mod Laws
pub mod Found
use Prim.Native.Char.{Char, code}
use Prim.Native.String.{String}
use applicationset.Prelude.{
  Bool, true, false, not, ◌&&◌, ◌||◌, ◌==◌, List, [], ◌∷◌, ◌++◌, Option, none, some, Map, insert,
  lookup, str_eq, if◌then◌else◌,
}
use applicationset.Errors.{
  Error, Result, ok, err, panic, ◌>>=◌, empty_app_set_generator, no_gvk, bad_definition,
  no_cluster_decision_resources,
}
use applicationset.Api.Template.{ApplicationSetTemplate}
use applicationset.Api.Generator.{ApplicationSetGenerator, DuckTypeGenerator, LabelSelector}
use applicationset.Api.ApplicationSet.{ApplicationSet}
use applicationset.Utils.Combine.{Params}
use applicationset.Utils.Clusters.{Cluster, KubeClient, data_at, list_clusters}
use applicationset.Utils.Json.{Value, null, text, object, to_map, as_text, as_object, as_array}
use applicationset.Utils.Text.{is_empty}
use applicationset.Generators.Interface.{Generator, Duration, default_requeue_after_seconds}
use applicationset.Generators.RequeueAfter.{requeue_after_or}
use applicationset.Generators.DuckType.Decisions.{cluster_decisions, decision_params}

-- A text before its first slash and behind it; none if it has no slash.
unfoldable pub cut_slash : String → Option (String × String)
cut_slash String.[] = none
cut_slash (String.◌∷◌ c s) =
    let rest = cut_slash s in
    if code c == b'/'
    then some (String.[], s)
    else (elim rest [ none ↦ none | some (before, behind) ↦ some (String.◌∷◌ c before, behind) ])

-- What the resources are listed by: `FormatLabelSelector` of a selector, or the name.
pub data ListOptions : Type 0 where
  by_labels : LabelSelector → ListOptions
  by_name : String → ListOptions

-- Kubernetes' clients in the namespace of Argo CD: the data of a config map, and the objects of a
-- group, a version and a kind.
pub record DuckClient : Type 0 where
  pub config_map : String → Result (Map String)
  pub list : String → String → String → ListOptions → Result (List (Map Value))

-- The spec names a resource or has a selector, and not both.
unfoldable pub is_bad_definition : DuckTypeGenerator → Bool
is_bad_definition duck =
    let has_selector : Bool = elim duck.label_selector.match_labels [
      | some labels ↦ true
      | none ↦ elim duck.label_selector.match_expressions [ none ↦ false | some es ↦ true ]
    ] in
    if is_empty duck.name then not has_selector else has_selector

-- `statusListKey`, with its default
abbrev pub status_list_key : Map String → String
status_list_key cm =
    let key = data_at "statusListKey" cm in if is_empty key then "clusters" else key

module _ (client : DuckClient) (kube : KubeClient) (namespace : String) where
  -- `GenerateParams` behind the reading of the resources.
  unfoldable pub params_of_resources :
      DuckTypeGenerator → Map String → List Cluster → List (Map Value) → Result (List Params)
  unfolding cluster_decisions decision_params data_at
  params_of_resources duck cm clusters [] = err no_cluster_decision_resources
  params_of_resources duck cm clusters (r ∷ resources) =
      let match_key = data_at "matchKey" cm in
      if is_empty match_key then ok [] else do
        decisions ← cluster_decisions (status_list_key cm) (r ∷ resources) []
        decision_params duck match_key clusters decisions []

  -- `GenerateParams` behind the reading of the config map.
  unfoldable pub params_of_config_map :
      DuckTypeGenerator → Map String → List Cluster → Result (List Params)
  unfolding params_of_resources cut_slash is_bad_definition data_at
  params_of_config_map duck cm clusters =
      let kind = data_at "kind" cm in
      elim (cut_slash (data_at "apiVersion" cm)) [
        | none ↦ err no_gvk
        | some (group, version) ↦
            if is_empty kind || is_empty group
            then err no_gvk
            else if is_bad_definition duck
            then err bad_definition
            else do
              resources ←
                  client.list group version kind (
                    if is_empty duck.name then by_labels duck.label_selector else by_name duck.name)
              params_of_resources duck cm clusters resources
      ]

  -- `GenerateParams`
  unfoldable pub generate_params : ApplicationSetGenerator → ApplicationSet → Result (List Params)
  unfolding list_clusters params_of_config_map
  generate_params g app_set = elim g.cluster_decision_resource [
    | none ↦ err empty_app_set_generator
    | some duck ↦ do
      clusters ← list_clusters kube namespace
      elim clusters [
        | none ↦ ok []
        | some items ↦ do
          cm ← client.config_map duck.config_map_ref
          params_of_config_map duck cm items
      ]
  ]

  -- `GetRequeueAfter`
  unfoldable pub get_requeue_after : ApplicationSetGenerator → Result Duration
  unfolding requeue_after_or
  get_requeue_after g = elim g.cluster_decision_resource [
    | none ↦ panic
    | some duck ↦ ok (requeue_after_or default_requeue_after_seconds duck.requeue_after_seconds)
  ]

  -- `GetTemplate`
  unfoldable pub get_template : ApplicationSetGenerator → Result ApplicationSetTemplate
  get_template g = elim g.cluster_decision_resource [ none ↦ panic | some duck ↦ ok duck.template ]

  -- `NewDuckTypeGenerator`
  unfoldable pub new_duck_type_generator : Generator
  unfolding generate_params get_requeue_after get_template
  new_duck_type_generator = record {
    generate_params = generate_params;
    get_requeue_after = get_requeue_after;
    get_template = get_template;
  }
