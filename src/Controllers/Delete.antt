-- ===== src/Controllers/Delete.antt =====
-- How Applications that are no longer desired are deleted
-- (pkg/controllers/applicationset_controller.go).
pub mod Frame
pub mod Errors
use applicationset.Prelude.{
  String, Bool, true, false, not, ◌&&◌, ◌||◌, List, [], ◌∷◌, Option, none, some, any, keep_if,
  length, ◌==◌, str_eq, if◌then◌else◌,
}
use applicationset.Errors.{Error, Result, ok, err, panic, ◌>>=◌}
use applicationset.Api.Template.{Application, ApplicationSpec, Destination}
use applicationset.Api.ApplicationSet.{ApplicationSet}
use applicationset.Utils.Text.{is_empty}
use applicationset.Utils.Clusters.{KubeClient, Cluster, list_clusters, validate_destination}
use applicationset.Controllers.Client.{Client}

-- `argov1alpha1.ResourcesFinalizerName`
abbrev pub resources_finalizer_name : String
resources_finalizer_name = "resources-finalizer.argocd.argoproj.io"

-- A cluster matches a destination by its server, and by its name if the destination has one.
unfoldable pub matches_cluster : Destination → Cluster → Bool
matches_cluster dest c =
    str_eq dest.server c.server && (is_empty dest.name || str_eq c.name dest.name)

-- The finalizers without the one of Argo CD.
unfoldable pub without_resources_finalizer : List String → List String
without_resources_finalizer = keep_if (λ f. not (str_eq f resources_finalizer_name))

-- The Application with its destination as `ValidateDestination` left it, and whether it is valid.
unfoldable pub check_target :
    Option (List Cluster) → Application → Result Destination → Result (Application × Bool)
unfolding matches_cluster
check_target clusters app (err e) = ok (app, false)
check_target clusters app panic = panic
check_target none app (ok dest) = panic
check_target (some cs) app (ok dest) =
    ok (record app { spec = record app.spec { destination = dest } }, any (matches_cluster dest) cs)

module _ {W : Type 0} (client : Client W) (kube : KubeClient) (app_set : ApplicationSet)
    (clusters : Option (List Cluster)) where
  -- The end of `removeFinalizerOnInvalidDestination`: the update, if a finalizer goes away.
  unfoldable pub drop_finalizer : Application → W → Result Application × W
  drop_finalizer app w =
      let finalizers = without_resources_finalizer app.finalizers in
      if length finalizers == length app.finalizers
      then (ok app, w)
      else let app' = record app { finalizers = finalizers } in
        let (error, w') = client.update_app app' (client.event "Updated" app.name w) in
        elim error [ none ↦ (ok app', w') | some e ↦ (err e, w') ]

  -- `removeFinalizerOnInvalidDestination`, which returns the Application as it leaves it.
  unfoldable pub remove_finalizer_on_invalid_destination : Application → W → Result Application × W
  remove_finalizer_on_invalid_destination app w =
      if length app.finalizers == 0
      then (ok app, w)
      else elim (check_target clusters app
          (validate_destination kube app.spec.destination app_set.namespace)) [
            | err e ↦ (err e, w)
            | panic ↦ (panic, w)
            | ok (app', valid) ↦ if valid then (ok app', w) else drop_finalizer app' w
          ]

  -- `if firstError != nil { firstError = err }`
  unfoldable pub note_delete_error : Error → Option Error → Option Error
  note_delete_error e none = none
  note_delete_error e (some first) = some e

  -- The deletion, once the finalizer is dealt with.
  unfoldable pub after_finalizer : Result Application × W → Result Application × W
  after_finalizer (err e, w) = (err e, w)
  after_finalizer (panic, w) = (panic, w)
  after_finalizer (ok app, w) =
      let (error, w') = client.delete_app app w in
      elim error [ none ↦ (ok app, client.event "Deleted" app.name w') | some e ↦ (err e, w') ]

  -- One Application that is not desired: the finalizer first, then the deletion.
  unfoldable pub delete_one : Application → W → Result Application × W
  delete_one app w = after_finalizer (remove_finalizer_on_invalid_destination app w)

  -- The loop over the Applications of the cluster.
  unfoldable pub delete_loop :
      List Application → List Application → Option Error → W → Result (Option Error) × W
  unfolding note_delete_error
  delete_loop desired [] first w = (ok first, w)
  delete_loop desired (app ∷ apps) first w = elim (any (λ d. str_eq d.name app.name) desired) [
    | true ↦ delete_loop desired apps first w
    | false ↦
        let (r, w') = delete_one app w in
        elim r [
          | ok app' ↦ delete_loop desired apps first w'
          | err e ↦ delete_loop desired apps (note_delete_error e first) w'
          | panic ↦ (panic, w')
        ]
  ]

-- `deleteInCluster`; `ok none` is a nil error.
unfoldable pub delete_in_cluster :
    {W : Type 0}
    → Client W
    → KubeClient
    → ApplicationSet
    → List Application
    → W
    → Result (Option Error) × W
unfolding delete_loop
delete_in_cluster client kube app_set desired w = elim (list_clusters kube app_set.namespace) [
  | err e ↦ (ok (some e), w)
  | panic ↦ (panic, w)
  | ok clusters ↦ elim (client.list_apps app_set.name w) [
    | err e ↦ (ok (some e), w)
    | panic ↦ (panic, w)
    | ok current ↦ delete_loop client kube app_set clusters desired current none w
  ]
]
