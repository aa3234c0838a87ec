-- ===== src/Controllers/Reconcile.antt =====
-- `Reconcile` (pkg/controllers/applicationset_controller.go), cut at its blocks.
pub mod Blocks
pub mod Frame
use Prim.Native.String.{◌++◌}
use applicationset.Prelude.{
  ℤ, pos, ◌*◌, ◌-◌, String, Bool, true, false, not, List, [], ◌∷◌, Option, none, some, length,
  keep_if, str_eq, if◌then◌else◌, Map,
}
use applicationset.Errors.{Error, is_not_found, Result, ok, err, panic}
use applicationset.Errors.Message.{error_text}
use applicationset.Api.Template.{Application}
use applicationset.Api.Condition.{
  ApplicationSetCondition, error_occurred, resources_up_to_date, status_true,
}
use applicationset.Api.ApplicationSet.{
  ApplicationSet, refresh_required, annotation_application_set_refresh,
}
use applicationset.Utils.Text.{itoa}
use applicationset.Utils.Policy.{allows_update, allows_delete}
use applicationset.Generators.Interface.{Duration, second}
use applicationset.Controllers.Client.{Reconciler}
use applicationset.Controllers.Generate.{
  Generated, GenerateReason, no_reason, application_params_generation_error,
  render_template_params_error, generate_applications, get_min_requeue_after,
}
use applicationset.Controllers.Validate.{
  validate_generated_applications, valid_apps, validation_errors,
}
use applicationset.Controllers.Apply.{create_or_update_in_cluster, create_in_cluster}
use applicationset.Controllers.Delete.{delete_in_cluster}
use applicationset.Controllers.Status.{
  condition, up_to_date_reason, StatusUpdate, set_application_set_status_condition,
}

-- 3 minutes
abbrev pub reconcile_requeue_on_validation_error : Duration
reconcile_requeue_on_validation_error = pos (180 * second)

unfoldable pub reason_text : GenerateReason → String
reason_text no_reason = ""
reason_text application_params_generation_error = "ApplicationGenerationFromParamsError"
reason_text render_template_params_error = "RenderTemplateParamsError"

-- The condition that reports an error.
abbrev pub error_condition : String → String → ApplicationSetCondition
error_condition message reason = condition error_occurred message reason status_true

-- `message` of the loop over the validation errors: the last, with the number of the others.
unfoldable pub validation_message : List Error → String
unfolding error_text itoa
validation_message [] = ""
validation_message (e ∷ []) = error_text e
validation_message (e ∷ f ∷ es) = last_text e f es ++ " (and " ++ itoa (length (f ∷ es)) ++ " more)"
  where
    last_text : Error → Error → List Error → String
    last_text e f [] = error_text f
    last_text e f (g ∷ gs) = last_text f g gs

-- `delete(annotations, key)`
unfoldable pub without_key : String → Map String → Map String
without_key k = keep_if (λ e. not (str_eq e.0 k))

module _ {W : Type 0} (r : Reconciler W) where
  abbrev set_status : ApplicationSet → ApplicationSetCondition → W → StatusUpdate W
  set_status app_set c = set_application_set_status_condition r.client r.libraries app_set c true

  -- The return of an error after its report in the status.
  unfoldable pub fail_with :
      Error → ApplicationSet → ApplicationSetCondition → W → Result Duration × W
  fail_with e app_set c w = (err e, (set_status app_set c w).world)

  -- The status, if there was no validation error, and the requeue time.
  unfoldable pub finish_status : ApplicationSet → Duration → List Error → W → Result Duration × W
  finish_status app_set requeue_after (e ∷ es) w = (ok requeue_after, w)
  finish_status app_set requeue_after [] w =
      let c =
        condition resources_up_to_date "All applications have been generated successfully"
          up_to_date_reason status_true in
      let s = set_status app_set c w in
      elim s.error [ none ↦ (ok requeue_after, s.world) | some e ↦ (err e, s.world) ]

  -- The last block.
  unfoldable pub finish : ApplicationSet → List Error → W → Result Duration × W
  finish app_set errors w = elim (get_min_requeue_after (r.generators w) app_set) [
    | err e ↦ (err e, w)
    | panic ↦ (panic, w)
    | ok requeue_after ↦ finish_status app_set requeue_after errors w
  ]

  -- What follows the write without the refresh annotation, with the answer of the server.
  unfoldable pub after_refresh :
      List Error → Option Error × ApplicationSet × W → Result Duration × W
  after_refresh errors (none, app_set, w) = finish app_set errors w
  after_refresh errors (some e, app_set, w) =
      fail_with e app_set (error_condition (error_text e) "RefreshApplicationError") w

  -- The refresh annotation is taken off.
  unfoldable pub refresh : ApplicationSet → List Error → W → Result Duration × W
  refresh app_set errors w =
      let rest = without_key annotation_application_set_refresh app_set.annotations in
      let app_set' = record app_set { annotations = rest } in
      if refresh_required app_set
      then after_refresh errors (r.client.update_app_set app_set' w)
      else finish app_set errors w

  -- What follows the deletions. Their error is reported under another type.
  unfoldable pub after_delete :
      ApplicationSet → List Error → Result (Option Error) × W → Result Duration × W
  after_delete app_set errors (ok none, w) = refresh app_set errors w
  after_delete app_set errors (ok (some e), w) =
      fail_with e app_set
        (condition resources_up_to_date (error_text e) "DeleteApplicationError" status_true) w
  after_delete app_set errors (err e, w) = (err e, w)
  after_delete app_set errors (panic, w) = (panic, w)

  -- The deletions, if the policy has them.
  unfoldable pub remove_apps :
      ApplicationSet → List Application → List Error → W → Result Duration × W
  remove_apps app_set desired errors w =
      if allows_delete r.policy
      then after_delete app_set errors (delete_in_cluster r.client (r.kube w) app_set desired w)
      else refresh app_set errors w

  -- What follows the creations and the updates.
  unfoldable pub after_apply :
      String
      → ApplicationSet
      → List Application
      → List Error
      → Result (Option Error) × W
      → Result Duration × W
  after_apply reason app_set desired errors (ok none, w) = remove_apps app_set desired errors w
  after_apply reason app_set desired errors (ok (some e), w) =
      fail_with e app_set (error_condition (error_text e) reason) w
  after_apply reason app_set desired errors (err e, w) = (err e, w)
  after_apply reason app_set desired errors (panic, w) = (panic, w)

  -- The creations and the updates, by the policy.
  unfoldable pub apply_apps :
      ApplicationSet → List Application → List Application → List Error → W → Result Duration × W
  apply_apps app_set desired valid errors w =
      if allows_update r.policy
      then after_apply "UpdateApplicationError" app_set desired errors
          (create_or_update_in_cluster r.client r.libraries app_set valid w)
      else after_apply "CreateApplicationError" app_set desired errors
          (create_in_cluster r.client r.libraries app_set valid w)

  -- The report of the validation errors, if there are any.
  unfoldable pub report_errors : ApplicationSet → List Error → W → ApplicationSet × W
  report_errors app_set [] w = (app_set, w)
  report_errors app_set (e ∷ es) w =
      let message = validation_message (r.libraries.range_errors (e ∷ es)) in
      let s = set_status app_set (error_condition message "ApplicationValidationError") w in
      (s.app_set, s.world)

  -- What follows the validation: the valid Applications are applied, all desired ones are kept.
  unfoldable pub after_validation :
      ApplicationSet → List Application → List (Option Error) → W → Result Duration × W
  after_validation app_set desired by_index w =
      let errors = validation_errors by_index in
      let (app_set', w') = report_errors app_set errors w in
      apply_apps app_set' desired (valid_apps desired by_index) errors w'

  -- The validation of the generated Applications.
  unfoldable pub validate_and_apply :
      String → ApplicationSet → List Application → W → Result Duration × W
  validate_and_apply namespace app_set desired w =
      elim (validate_generated_applications r.libraries (r.kube w) namespace app_set.name desired) [
        | panic ↦ (panic, w)
        | err e ↦ (
          ok reconcile_requeue_on_validation_error,
          (set_status app_set (error_condition (error_text e) "ApplicationValidationError")
              w).world,
        )
        | ok by_index ↦ after_validation app_set desired by_index w
      ]

  -- The generation, for an ApplicationSet that is not being deleted.
  unfoldable pub generate_and_apply : String → ApplicationSet → W → Result Duration × W
  generate_and_apply namespace app_set w =
      elim (generate_applications r.libraries.merge_templates (r.generators w) r.render app_set) [
        | panic ↦ (panic, w)
        | err e ↦ (err e, w)
        | ok g ↦ elim g.first_error [
          | none ↦ validate_and_apply namespace app_set g.apps w
          | some e ↦ (
            err e,
            (set_application_set_status_condition r.client r.libraries app_set
                (error_condition (error_text e) (reason_text g.reason)) false w).world,
          )
        ]
      ]

  -- `Reconcile`
  unfoldable pub reconcile : String → String → W → Result Duration × W
  reconcile namespace name w = elim (r.client.get_app_set namespace name w) [
    | panic ↦ (panic, w)
    | err e ↦ (if is_not_found e then ok (pos 0) else err e, w)
    | ok app_set ↦ elim app_set.deletion_timestamp [
      | some t ↦ (ok (pos 0), w)
      | none ↦ generate_and_apply namespace app_set w
    ]
  ]
