-- ===== src/Controllers/Apply.antt =====
-- How the desired Applications are created and updated
-- (pkg/controllers/applicationset_controller.go).
pub mod Frame
use applicationset.Prelude.{
  String, Bool, not, List, [], ◌∷◌, map, Option, none, some, or_else, any, keep_if, str_eq,
  if◌then◌else◌, Map, lookup, insert,
}
use applicationset.Errors.{Error, Result, ok, err, panic, ◌>>=◌}
use applicationset.Api.Template.{Application, empty_template}
use applicationset.Api.ApplicationSet.{ApplicationSet}
use applicationset.Utils.CreateOrUpdate.{
  MutateFn, OperationResult, result_none, result_created, result_updated, create_or_update,
}
use applicationset.Controllers.Client.{Client, Libraries}

abbrev pub notified_annotation_key : String
notified_annotation_key = "notified.notifications.argoproj.io"

-- `found` before it is looked up.
unfoldable pub found_application : String → String → Application
found_application name namespace = record {
  name = name;
  namespace = namespace;
  labels = [];
  annotations = [];
  finalizers = [];
  controller = none;
  spec = empty_template.spec;
}

-- The annotations of the generated Application, with the notification state of the found one.
unfoldable pub preserve_notified : Map String → Map String → Map String
unfolding lookup insert
preserve_notified found generated = elim (lookup notified_annotation_key found) [
  | none ↦ generated
  | some state ↦ insert notified_annotation_key state generated
]

-- The callback of `CreateOrUpdate`, before it sets the owner.
unfoldable pub copy_generated : Application → Application → Application
unfolding preserve_notified
copy_generated generated found = record found {
  spec = generated.spec;
  annotations = preserve_notified found.annotations generated.annotations;
  finalizers = generated.finalizers;
  labels = generated.labels;
}

unfoldable pub mutate_found : Libraries → ApplicationSet → Application → MutateFn
unfolding copy_generated
mutate_found libraries app_set generated found =
    libraries.set_controller_reference app_set (copy_generated generated found)

-- The names that Go prints for the operation results.
unfoldable pub action_text : OperationResult → String
action_text result_none = "unchanged"
action_text result_created = "created"
action_text result_updated = "updated"

module _ {W : Type 0} (client : Client W) (libraries : Libraries) (app_set : ApplicationSet) where
  -- `CreateOrUpdate` of one Application.
  unfoldable pub apply_one : Application → W → Result OperationResult × W
  unfolding mutate_found found_application
  apply_one generated w =
      create_or_update client.apps libraries.deep_equal (mutate_found libraries app_set generated)
        (found_application generated.name app_set.namespace) w

  -- The loop of `createOrUpdateInCluster`: the first error is kept, and the loop goes on.
  unfoldable pub apply_loop : List Application → Option Error → W → Result (Option Error) × W
  unfolding apply_one action_text
  apply_loop [] first w = (ok first, w)
  apply_loop (app ∷ apps) first w =
      let (r, w') = apply_one app w in
      elim r [
        | ok action ↦ apply_loop apps first (client.event (action_text action) app.name w')
        | err e ↦ apply_loop apps (or_else first (some e)) w'
        | panic ↦ (panic, w')
      ]

  -- `createOrUpdateInCluster`; `ok none` is a nil error.
  unfoldable pub create_or_update_in_cluster : List Application → W → Result (Option Error) × W
  unfolding apply_loop
  create_or_update_in_cluster apps w = apply_loop apps none w

  -- The Applications whose name is not among those of the cluster.
  unfoldable pub new_apps : List Application → List Application → List Application
  new_apps current = keep_if (λ app. not (any (λ c. str_eq c.name app.name) current))

  -- `createInCluster`, with `getCurrentApplications`
  unfoldable pub create_in_cluster : List Application → W → Result (Option Error) × W
  unfolding create_or_update_in_cluster new_apps
  create_in_cluster desired w = elim (client.list_apps app_set.name w) [
    | err e ↦ (ok (some e), w)
    | panic ↦ (panic, w)
    | ok current ↦ create_or_update_in_cluster (new_apps current desired) w
  ]
