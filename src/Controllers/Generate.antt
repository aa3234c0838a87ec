-- ===== src/Controllers/Generate.antt =====
-- From the spec to the desired Applications, and to the time of the next reconcile
-- (pkg/controllers/applicationset_controller.go).
pub mod Requeue
use applicationset.Prelude.{
  pos, not, ◌&&◌, List, [], ◌∷◌, ◌++◌, Option, none, some, ltb_ℤ, eqb_ℤ, if◌then◌else◌,
}
use applicationset.Errors.{Error, Result, ok, err, panic, ◌>>=◌}
use applicationset.Api.Template.{Application, ApplicationSetTemplate}
use applicationset.Api.Generator.{ApplicationSetGenerator}
use applicationset.Api.ApplicationSet.{ApplicationSet, ApplicationSetSyncPolicy}
use applicationset.Utils.Combine.{Params}
use applicationset.Generators.Interface.{Generator, Generators, Duration}
use applicationset.Generators.Transform.{
  MergeTemplates, TransformResult, Transformed, transform, get_relevant_generators,
}

-- `getTempApplication`
unfoldable pub get_temp_application : ApplicationSetTemplate → Application
get_temp_application t = record {
  name = t.name;
  namespace = t.namespace;
  labels = t.labels;
  annotations = t.annotations;
  finalizers = t.finalizers;
  controller = none;
  spec = t.spec;
}

-- The reasons that `generateApplications` returns beside its error.
pub data GenerateReason : Type 0 where
  no_reason application_params_generation_error render_template_params_error : GenerateReason

-- `res`, `firstError` and `applicationSetReason`
pub record Generated : Type 0 where
  pub apps : List Application
  pub first_error : Option Error
  pub reason : GenerateReason

-- `if firstError == nil { firstError = err; applicationSetReason = … }`
unfoldable pub note_error : Error → GenerateReason → Generated → Generated
note_error e reason g = elim g.first_error [
  | some first ↦ g
  | none ↦ record g { first_error = some e; reason = reason }
]

abbrev pub Render : Type 0
Render = Application → Option ApplicationSetSyncPolicy → Params → Result Application

module _ (render : Render) (policy : Option ApplicationSetSyncPolicy) where
  -- One set of parameters: the rendered Application, or a note of the error.
  unfoldable pub add_rendered : Result Application → Generated → Result Generated
  unfolding note_error
  add_rendered (ok app) g = ok (record g { apps = g.apps ++ app ∷ [] })
  add_rendered (err e) g = ok (note_error e render_template_params_error g)
  add_rendered panic g = panic

  -- The loop over the sets of parameters of one result.
  unfoldable pub render_all : Application → List Params → Generated → Result Generated
  unfolding add_rendered
  render_all tmpl [] g = ok g
  render_all tmpl (p ∷ ps) g = add_rendered (render tmpl policy p) g >>= render_all tmpl ps

  -- The loop over the results of one generator.
  unfoldable pub render_results : List TransformResult → Generated → Result Generated
  unfolding get_temp_application render_all
  render_results [] g = ok g
  render_results (a ∷ t) g =
      render_all (get_temp_application a.template) a.params g >>= render_results t

  -- What one generator adds: nothing but its error, if `Transform` returns one.
  unfoldable pub add_generated : Transformed → Generated → Result Generated
  unfolding render_results note_error
  add_generated (t, some e) g = ok (note_error e application_params_generation_error g)
  add_generated (t, none) g = render_results t g

module _ (merge : MergeTemplates) (generators : Generators) (render : Render) where
  -- The loop over the generators of the spec.
  unfoldable pub generate_loop :
      ApplicationSet → List ApplicationSetGenerator → Generated → Result Generated
  unfolding transform add_generated
  generate_loop app_set [] g = ok g
  generate_loop app_set (requested ∷ rest) g = do
    t ← transform merge requested generators app_set.spec.template app_set
    g' ← add_generated render app_set.spec.sync_policy t g
    generate_loop app_set rest g'

  -- `generateApplications`
  unfoldable pub generate_applications : ApplicationSet → Result Generated
  unfolding generate_loop
  generate_applications app_set =
      generate_loop app_set app_set.spec.generators
        (record { apps = []; first_error = none; reason = no_reason })

-- `if res == 0 { res = t } else if t != 0 && t < res { res = t }`
unfoldable pub sooner : Duration → Duration → Duration
sooner t res =
    if eqb_ℤ res (pos 0) then t else if not (eqb_ℤ t (pos 0)) && ltb_ℤ t res then t else res

-- The inner loop of `getMinRequeueAfter`.
unfoldable pub min_requeue_one :
    ApplicationSetGenerator → List (Option Generator) → Duration → Result Duration
unfolding sooner
min_requeue_one requested [] res = ok res
min_requeue_one requested (none ∷ gs) res = panic
min_requeue_one requested (some g ∷ gs) res =
    g.get_requeue_after requested >>= λ t. min_requeue_one requested gs (sooner t res)

-- The outer loop.
unfoldable pub min_requeue_all :
    Generators → List ApplicationSetGenerator → Duration → Result Duration
unfolding min_requeue_one get_relevant_generators
min_requeue_all generators [] res = ok res
min_requeue_all generators (requested ∷ rest) res =
    min_requeue_one requested (get_relevant_generators requested generators) res
    >>= min_requeue_all generators rest

-- `getMinRequeueAfter`
unfoldable pub get_min_requeue_after : Generators → ApplicationSet → Result Duration
unfolding min_requeue_all
get_min_requeue_after generators app_set =
    min_requeue_all generators app_set.spec.generators (pos 0)
