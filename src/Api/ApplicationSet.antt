-- ===== src/Api/ApplicationSet.antt =====
-- The ApplicationSet resource (api/v1alpha1/applicationset_types.go, common/annotations.go).
use applicationset.Prelude.{ℕ, String, Bool, List, Map, Option, has_key}
use applicationset.Api.Template.{ApplicationSetTemplate}
use applicationset.Api.Generator.{ApplicationSetGenerator}
use applicationset.Api.Condition.{ApplicationSetStatus}

pub record ApplicationSetSyncPolicy : Type 0 where
  pub preserve_resources_on_deletion : Bool

pub record ApplicationSetSpec : Type 0 where
  pub generators : List ApplicationSetGenerator
  pub template : ApplicationSetTemplate
  pub sync_policy : Option ApplicationSetSyncPolicy

-- The fields of its metadata that the code reads stand beside `spec` and `status`.
pub record ApplicationSet : Type 0 where
  pub name : String
  pub namespace : String
  pub annotations : Map String
  pub deletion_timestamp : Option ℕ
  pub spec : ApplicationSetSpec
  pub status : ApplicationSetStatus

abbrev pub annotation_application_set_refresh : String
annotation_application_set_refresh = "argocd.argoproj.io/application-set-refresh"

unfoldable pub refresh_required : ApplicationSet → Bool
unfolding has_key
refresh_required a = has_key annotation_application_set_refresh a.annotations
