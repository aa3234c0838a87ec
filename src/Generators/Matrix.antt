-- ===== src/Generators/Matrix.antt =====
-- pkg/generators/matrix.go: the cartesian product of two generators.
pub mod Product
pub mod Laws
use applicationset.Prelude.{List, [], ◌∷◌, ◌++◌, Option, none, some, length, ltb, if◌then◌else◌}
use applicationset.Errors.{
  Result, ok, err, panic, ◌>>=◌, empty_app_set_generator, less_than_two_generators,
  more_than_two_generators,
}
use applicationset.Api.Template.{ApplicationSetTemplate}
use applicationset.Api.Generator.{
  ApplicationSetGenerator, ApplicationSetNestedGenerator, MatrixGenerator,
}
use applicationset.Api.ApplicationSet.{ApplicationSet}
use applicationset.Utils.Combine.{Params}
use applicationset.Generators.Interface.{Generator, Generators, Duration}
use applicationset.Generators.Transform.{MergeTemplates}
use applicationset.Generators.Nested.{get_params, min_requeue_after}
use Product.{product}

-- `GenerateParams` behind its nil check; the two length tests leave exactly two children.
unfoldable pub generate_matrix :
    MergeTemplates
    → Generators
    → List ApplicationSetNestedGenerator
    → ApplicationSet
    → Result (List Params)
unfolding product
generate_matrix merge supported [] app_set = err less_than_two_generators
generate_matrix merge supported (c ∷ []) app_set = err less_than_two_generators
generate_matrix merge supported (c ∷ d ∷ []) app_set = do
  g0 ← get_params merge supported c app_set
  g1 ← get_params merge supported d app_set
  product g0 g1
generate_matrix merge supported (c ∷ d ∷ e ∷ cs) app_set = err more_than_two_generators

module _ (merge : MergeTemplates) (supported : Generators) where
  -- `GenerateParams`
  unfoldable pub generate_params : ApplicationSetGenerator → ApplicationSet → Result (List Params)
  unfolding generate_matrix
  generate_params g app_set = elim g.matrix [
    | none ↦ err empty_app_set_generator
    | some m ↦ generate_matrix merge supported m.generators app_set
  ]

  -- `GetRequeueAfter`
  unfoldable pub get_requeue_after : ApplicationSetGenerator → Result Duration
  unfolding min_requeue_after
  get_requeue_after g = elim g.matrix [
    | none ↦ panic
    | some m ↦ min_requeue_after supported m.generators
  ]

  -- `GetTemplate`
  unfoldable pub get_template : ApplicationSetGenerator → Result ApplicationSetTemplate
  get_template g = elim g.matrix [ none ↦ panic | some m ↦ ok m.template ]

  -- `NewMatrixGenerator`
  unfoldable pub new_matrix_generator : Generator
  unfolding generate_params get_requeue_after get_template
  new_matrix_generator = record {
    generate_params = generate_params;
    get_requeue_after = get_requeue_after;
    get_template = get_template;
  }
