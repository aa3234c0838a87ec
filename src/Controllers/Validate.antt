-- ===== src/Controllers/Validate.antt =====
-- `validateGeneratedApplications` (pkg/controllers/applicationset_controller.go).
pub mod Valid
use applicationset.Prelude.{String, List, [], ◌∷◌, Option, none, some, any, str_eq, if◌then◌else◌}
use applicationset.Errors.{
  Error, is_not_found, Result, ok, err, panic, ◌>>=◌, duplicate_name, missing_project,
  invalid_destination, invalid_spec,
}
use applicationset.Api.Template.{Application, ApplicationSpec}
use applicationset.Utils.Clusters.{KubeClient, validate_destination}
use applicationset.Controllers.Client.{Libraries}

module _ (libraries : Libraries) (kube : KubeClient) (namespace : String) where
  -- The permissions of a spec in its project; its destination is as `ValidateDestination` left it.
  unfoldable pub check_permissions : ApplicationSpec → String → Result (Option Error)
  check_permissions spec proj = elim (libraries.validate_permissions spec proj) [
    | err e ↦ err e
    | panic ↦ panic
    | ok none ↦ ok none
    | ok (some conditions) ↦ ok (some (invalid_spec conditions))
  ]

  unfoldable pub check_destination : ApplicationSpec → String → Result (Option Error)
  unfolding check_permissions
  check_destination spec proj = elim (validate_destination kube spec.destination namespace) [
    | err e ↦ ok (some (invalid_destination e))
    | panic ↦ panic
    | ok dest ↦ check_permissions (record spec { destination = dest }) proj
  ]

  -- The checks of one Application whose name is new. `some` is an entry of `errorsByIndex`, and
  -- `err` ends the loop.
  unfoldable pub check_app : Application → Result (Option Error)
  unfolding check_destination
  check_app app = elim (libraries.get_app_project namespace (libraries.get_project_name app.spec)) [
    | err e ↦ if is_not_found e then ok (some (missing_project app.spec.project)) else err e
    | panic ↦ panic
    | ok proj ↦ check_destination app.spec proj
  ]

  -- The loop: for each Application its entry of `errorsByIndex`. `names` is `namesSet`.
  unfoldable pub validate_loop :
      String → List String → List Application → Result (List (Option Error))
  unfolding check_app
  validate_loop app_set_name names [] = ok []
  validate_loop app_set_name names (app ∷ apps) =
      if any (str_eq app.name) names
      then (do
        errors ← validate_loop app_set_name names apps
        ok (some (duplicate_name app_set_name app.name) ∷ errors))
      else (do
        error ← check_app app
        errors ← validate_loop app_set_name (app.name ∷ names) apps
        ok (error ∷ errors))

  -- `validateGeneratedApplications`
  unfoldable pub validate_generated_applications :
      String → List Application → Result (List (Option Error))
  unfolding validate_loop
  validate_generated_applications app_set_name apps = validate_loop app_set_name [] apps

-- `validApps` of `Reconcile`
unfoldable pub valid_apps : List Application → List (Option Error) → List Application
valid_apps (app ∷ apps) (none ∷ errors) = app ∷ valid_apps apps errors
valid_apps (app ∷ apps) (some e ∷ errors) = valid_apps apps errors
valid_apps _ _ = []

-- The errors of `errorsByIndex`.
unfoldable pub validation_errors : List (Option Error) → List Error
validation_errors [] = []
validation_errors (none ∷ errors) = validation_errors errors
validation_errors (some e ∷ errors) = e ∷ validation_errors errors
