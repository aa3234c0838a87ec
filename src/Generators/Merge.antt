-- ===== src/Generators/Merge.antt =====
-- pkg/generators/merge.go: the sets of a first generator, overridden by those of the others that
-- have the same values at the merge keys.
pub mod Keys
pub mod Generate
pub mod Override
pub mod Laws
pub mod Overriding
use applicationset.Prelude.{List, [], ◌∷◌, map, Option, none, some, length, ltb, if◌then◌else◌}
use applicationset.Errors.{
  Result, ok, err, panic, ◌>>=◌, empty_app_set_generator, less_than_two_generators_in_merge,
}
use applicationset.Api.Template.{ApplicationSetTemplate}
use applicationset.Api.Generator.{
  ApplicationSetGenerator, ApplicationSetNestedGenerator, MergeGenerator,
}
use applicationset.Api.ApplicationSet.{ApplicationSet}
use applicationset.Utils.Combine.{Params}
use applicationset.Generators.Interface.{Generator, Generators, Duration}
use applicationset.Generators.Transform.{MergeTemplates}
use applicationset.Generators.Nested.{get_params, min_requeue_after}
use Keys.{Marshal}
use Override.{RangeOrder, merge_param_sets}

module _ (merge : MergeTemplates) (supported : Generators) where
  -- `getParamSetsForAllGenerators`
  unfoldable pub get_param_sets_for_all_generators :
      List ApplicationSetNestedGenerator → ApplicationSet → Result (List (List Params))
  unfolding get_params
  get_param_sets_for_all_generators [] app_set = ok []
  get_param_sets_for_all_generators (g ∷ gs) app_set = do
    sets ← get_params merge supported g app_set
    rest ← get_param_sets_for_all_generators gs app_set
    ok (sets ∷ rest)

  module _ (marshal : Marshal) (order : RangeOrder) where
    -- `GenerateParams` behind its nil check
    unfoldable pub generate_merge : MergeGenerator → ApplicationSet → Result (List Params)
    unfolding get_param_sets_for_all_generators merge_param_sets
    generate_merge m app_set =
        if ltb (length m.generators) 2 then err less_than_two_generators_in_merge else do
          sets ← get_param_sets_for_all_generators m.generators app_set
          merge_param_sets marshal order m.merge_keys sets

    -- `GenerateParams`
    unfoldable pub generate_params : ApplicationSetGenerator → ApplicationSet → Result (List Params)
    unfolding generate_merge
    generate_params g app_set = elim g.merge [
      | none ↦ err empty_app_set_generator
      | some m ↦ generate_merge m app_set
    ]

    -- `GetRequeueAfter`
    unfoldable pub get_requeue_after : ApplicationSetGenerator → Result Duration
    unfolding min_requeue_after
    get_requeue_after g = elim g.merge [
      | none ↦ panic
      | some m ↦ min_requeue_after supported m.generators
    ]

    -- `GetTemplate`
    unfoldable pub get_template : ApplicationSetGenerator → Result ApplicationSetTemplate
    get_template g = elim g.merge [ none ↦ panic | some m ↦ ok m.template ]

    -- `NewMergeGenerator`
    unfoldable pub new_merge_generator : Generator
    unfolding generate_params get_requeue_after get_template
    new_merge_generator = record {
      generate_params = generate_params;
      get_requeue_after = get_requeue_after;
      get_template = get_template;
    }
