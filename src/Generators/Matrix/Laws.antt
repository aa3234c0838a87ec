-- ===== src/Generators/Matrix/Laws.antt =====
-- What the matrix generator returns from its two children.
use applicationset.Prelude.{◌≡◌, List, [], ◌∷◌, some, All, DistinctKeys}
use applicationset.Errors.{ok}
use applicationset.Api.Generator.{
  ApplicationSetGenerator, ApplicationSetNestedGenerator, MatrixGenerator,
}
use applicationset.Api.ApplicationSet.{ApplicationSet}
use applicationset.Utils.Combine.{Params}
use applicationset.Generators.Interface.{Generators}
use applicationset.Generators.Transform.{MergeTemplates}
use applicationset.Generators.Nested.{get_params}
use applicationset.Generators.Matrix.{generate_matrix, generate_params}
use applicationset.Generators.Matrix.Product.{ProductOf, product-ProductOf}

-- If a matrix generator has two children, and these return lists of Go maps, `GenerateParams`
-- returns the cartesian product of the two lists, or fails with the clash of a pair.
pub generate_params-ProductOf :
    (merge : MergeTemplates) (supported : Generators) (requested : ApplicationSetGenerator)
    (app_set : ApplicationSet) (m : MatrixGenerator) (c d : ApplicationSetNestedGenerator)
    (g0 g1 : List Params)
    → requested.matrix ≡ some m
    → m.generators ≡ c ∷ d ∷ []
    → get_params merge supported c app_set ≡ ok g0
    → get_params merge supported d app_set ≡ ok g1
    → All DistinctKeys g0
    → All DistinctKeys g1
    → ProductOf g0 g1 (generate_params merge supported requested app_set)
unfolding generate_params generate_matrix
generate_params-ProductOf merge supported requested app_set m c d g0 g1 is children first second d0
      d1 =
    rw (is, children, first, second) (product-ProductOf g0 g1 d0 d1)
