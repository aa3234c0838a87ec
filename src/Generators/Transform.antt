-- ===== src/Generators/Transform.antt =====
-- pkg/generators/generator_spec_processor.go: from a generator of the spec to parameters and a
-- template. Merging two templates is mergo's `Merge`, a parameter.
pub mod Laws
use applicationset.Prelude.{String, List, [], ◌∷◌, ◌++◌, map, Option, none, some, lookup, or_else}
use applicationset.Errors.{Error, Result, ok, err, panic, ◌>>=◌}
use applicationset.Api.Template.{ApplicationSetTemplate}
use applicationset.Api.Generator.{ApplicationSetGenerator}
use applicationset.Api.ApplicationSet.{ApplicationSet}
use applicationset.Utils.Combine.{Params}
use applicationset.Generators.Interface.{Generator, Generators}

-- A field of the request, named if its pointer is set.
abbrev pub field {ℓ} : {A : Type ℓ} → String → Option A → List String
field name none = []
field name (some g) = name ∷ []

unfoldable pub relevant_names : ApplicationSetGenerator → List String
relevant_names g =
    field "List" g.list
    ++ (field "Clusters" g.clusters
        ++ (field "Git" g.git
            ++ (field "SCMProvider" g.scm_provider
                ++ (field "ClusterDecisionResource" g.cluster_decision_resource
                    ++ (field "PullRequest" g.pull_request
                        ++ (field "Matrix" g.matrix ++ field "Merge" g.merge))))))

-- `GetRelevantGenerators`; `none` is a nil interface, on which every call panics.
unfoldable pub get_relevant_generators :
    ApplicationSetGenerator → Generators → List (Option Generator)
unfolding relevant_names lookup
get_relevant_generators requested generators =
    map (λ name. lookup name generators) (relevant_names requested)

pub record TransformResult : Type 0 where
  pub params : List Params
  pub template : ApplicationSetTemplate

-- What `Transform` returns: the results, and the first error beside them.
abbrev pub Transformed : Type 0
Transformed = List TransformResult × Option Error

abbrev pub MergeTemplates : Type 0
MergeTemplates = ApplicationSetTemplate → ApplicationSetTemplate → Result ApplicationSetTemplate

module _ (merge : MergeTemplates) where
  -- `mergeGeneratorTemplate`
  unfoldable pub merge_generator_template :
      Generator → ApplicationSetGenerator → ApplicationSetTemplate → Result ApplicationSetTemplate
  merge_generator_template g requested base = do dest ← g.get_template requested; merge dest base

  -- The body of the loop: the template first, then the parameters.
  unfoldable pub transform_one :
      Generator
      → ApplicationSetGenerator
      → ApplicationSetTemplate
      → ApplicationSet
      → Result TransformResult
  unfolding merge_generator_template
  transform_one g requested base app_set = do
    merged ← merge_generator_template g requested base
    params ← g.generate_params requested app_set
    ok (record { params = params; template = merged })

  -- The loop of `Transform`, over the results so far and the first error. A generator that fails is
  -- left out, and the loop goes on.
  unfoldable pub transform_loop :
      ApplicationSetGenerator
      → ApplicationSetTemplate
      → ApplicationSet
      → List (Option Generator)
      → List TransformResult
      → Option Error
      → Result Transformed
  transform_loop requested base app_set [] res first_error = ok (res, first_error)
  transform_loop requested base app_set (none ∷ gs) res first_error = panic
  transform_loop requested base app_set (some g ∷ gs) res first_error =
      elim (transform_one g requested base app_set) [
        | ok r ↦ transform_loop requested base app_set gs (res ++ r ∷ []) first_error
        | err e ↦ transform_loop requested base app_set gs res (or_else first_error (some e))
        | panic ↦ panic
      ]

  -- `Transform`
  unfoldable pub transform :
      ApplicationSetGenerator
      → Generators
      → ApplicationSetTemplate
      → ApplicationSet
      → Result Transformed
  unfolding get_relevant_generators transform_loop
  transform requested generators base app_set =
      transform_loop requested base app_set (get_relevant_generators requested generators) [] none
