-- ===== src/Controllers/Status.antt =====
-- The status conditions that a reconcile reports
-- (pkg/controllers/applicationset_controller.go).
use applicationset.Prelude.{
  String, Bool, not, ◌&&◌, ◌||◌, List, [], ◌∷◌, Option, none, some, any, length, ltb, str_eq,
  if◌then◌else◌,
}
use applicationset.Errors.{
  Error, is_not_found, ok, err, panic, fetch_status_error, update_status_error,
}
use applicationset.Api.Condition.{
  ConditionStatus, ConditionType, error_occurred, parameters_generated, resources_up_to_date,
  status_true, status_false, same_type, same_status, ApplicationSetCondition,
}
use applicationset.Api.Condition.Set.{set_conditions}
use applicationset.Api.ApplicationSet.{ApplicationSet}
use applicationset.Controllers.Client.{Client, Libraries}

abbrev pub condition : ConditionType → String → String → ConditionStatus → ApplicationSetCondition
condition type message reason status = record {
  type = type;
  message = message;
  last_transition_time = none;
  status = status;
  reason = reason;
}

abbrev pub generated_message : String
generated_message = "Successfully generated parameters for all Applications"

abbrev pub up_to_date_reason : String
up_to_date_reason = "ApplicationSetUpToDate"

-- `getParametersGeneratedCondition`
unfoldable pub get_parameters_generated_condition : Bool → String → ApplicationSetCondition
get_parameters_generated_condition generated message =
    if generated
    then condition parameters_generated generated_message "ParametersGenerated" status_true
    else condition parameters_generated message "ErrorOccurred" status_false

-- `getResourceUpToDateCondition`
unfoldable pub get_resource_up_to_date_condition : Bool → String → String → ApplicationSetCondition
get_resource_up_to_date_condition occurred message reason =
    if occurred
    then condition resources_up_to_date message reason status_false
    else condition resources_up_to_date "ApplicationSet up to date" up_to_date_reason status_true

-- `errOccurredCondition`
unfoldable pub get_error_occurred_condition : ApplicationSetCondition → ApplicationSetCondition
get_error_occurred_condition c =
    if same_type c.type error_occurred
    then c
    else condition error_occurred generated_message up_to_date_reason status_false

-- `newConditions`
unfoldable pub new_conditions : ApplicationSetCondition → Bool → List ApplicationSetCondition
unfolding get_error_occurred_condition get_parameters_generated_condition
    get_resource_up_to_date_condition same_type
new_conditions c generated =
    get_error_occurred_condition c
    ∷ get_parameters_generated_condition generated c.message
    ∷ get_resource_up_to_date_condition (same_type c.type error_occurred) c.message c.reason
    ∷ []

-- A stored condition that the new one of its type replaces.
unfoldable pub differs : ApplicationSetCondition → ApplicationSetCondition → Bool
unfolding same_type same_status
differs new old =
    same_type old.type new.type
    && (not (str_eq old.reason new.reason)
        || not (same_status old.status new.status)
        || not (str_eq old.message new.message))

-- `needToUpdateConditions || len(applicationSet.Status.Conditions) < 3`
unfoldable pub need_to_update : List ApplicationSetCondition → List ApplicationSetCondition → Bool
unfolding differs
need_to_update new stored = any (λ c. any (differs c) stored) new || ltb (length stored) 3

abbrev pub evaluated_types : List ConditionType
evaluated_types = error_occurred ∷ parameters_generated ∷ resources_up_to_date ∷ []

-- What `setApplicationSetStatusCondition` leaves: its error, the ApplicationSet behind the pointer,
-- and the world.
pub record StatusUpdate (W : Type 0) : Type 0 where
  pub error : Option Error
  pub app_set : ApplicationSet
  pub world : W

module _ {W : Type 0} (client : Client W) (libraries : Libraries) where
  -- The error that the status update returns.
  unfoldable pub status_error : Option Error → Option Error
  status_error none = none
  status_error (some e) = if is_not_found e then none else some (update_status_error e)

  -- The write, to the ApplicationSet that was fetched anew; the answer of the server is kept.
  unfoldable pub write_status : ApplicationSet → List ApplicationSetCondition → W → StatusUpdate W
  unfolding set_conditions status_error
  write_status fresh new w =
      let status =
        set_conditions libraries.print_time (client.now w) new evaluated_types fresh.status in
      let (error, answer, w') = client.update_status (record fresh { status = status }) w in
      record { error = status_error error; app_set = answer; world = w' }

  -- `setApplicationSetStatusCondition`
  unfoldable pub set_application_set_status_condition :
      ApplicationSet → ApplicationSetCondition → Bool → W → StatusUpdate W
  unfolding new_conditions need_to_update write_status
  set_application_set_status_condition app_set c generated w =
      let new = new_conditions c generated in
      if need_to_update new app_set.status.conditions
      then elim (client.get_app_set app_set.namespace app_set.name w) [
        | ok fresh ↦ write_status fresh new w
        | err e ↦ record {
          error = if is_not_found e then some (fetch_status_error e) else none;
          app_set = app_set;
          world = w;
        }
        | panic ↦ record { error = none; app_set = app_set; world = w }
      ]
      else record { error = none; app_set = app_set; world = w }
