-- ===== src/Controllers/Client.antt =====
-- What the controller of pkg/controllers/applicationset_controller.go calls outside the
-- repository, over a state `W` of the world. A write returns its error and the world it leaves.
use applicationset.Prelude.{ℕ, String, Option, List}
use applicationset.Errors.{Error, Result}
use applicationset.Api.Template.{Application, ApplicationSpec}
use applicationset.Api.ApplicationSet.{ApplicationSet, ApplicationSetSyncPolicy}
use applicationset.Utils.Policy.{Policy}
use applicationset.Utils.Combine.{Params}
use applicationset.Utils.Clusters.{KubeClient}
use applicationset.Utils.CreateOrUpdate.{AppClient, DeepEqual}
use applicationset.Generators.Interface.{Generators}
use applicationset.Generators.Transform.{MergeTemplates}

-- The client for ApplicationSets, the list of Applications by their controller's name, and the
-- recorder of events. The writes of an ApplicationSet return the error, the ApplicationSet that they
-- leave behind the pointer (the answer of the server), and the world.
pub record Client (W : Type 0) : Type 0 where
  pub apps : AppClient W
  pub open apps use *
  pub get_app_set : String → String → W → Result ApplicationSet
  pub update_app_set : ApplicationSet → W → Option Error × ApplicationSet × W
  pub update_status : ApplicationSet → W → Option Error × ApplicationSet × W
  pub list_apps : String → W → Result (List Application)
  pub event : String → String → W → W
  pub now : W → ℕ

-- The libraries of Argo CD and of the controller runtime. A project is its text.
-- `validate_permissions` returns the text of the conditions that it finds, if it finds any.
pub record Libraries : Type 0 where
  pub get_project_name : ApplicationSpec → String
  pub get_app_project : String → String → Result String
  pub validate_permissions : ApplicationSpec → String → Result (Option String)
  pub set_controller_reference : ApplicationSet → Application → Result Application
  pub deep_equal : DeepEqual
  pub merge_templates : MergeTemplates
  pub print_time : Option ℕ → String
  -- the order of a `range` loop over a map of errors by index
  pub range_errors : List Error → List Error

-- `ApplicationSetReconciler`, with the interface `Renderer` as a function.
pub record Reconciler (W : Type 0) : Type 0 where
  pub client : Client W
  pub libraries : Libraries
  pub kube : W → KubeClient
  pub generators : W → Generators
  pub policy : Policy
  pub render : Application → Option ApplicationSetSyncPolicy → Params → Result Application
