-- ===== src/Generators/Nested.antt =====
-- What the matrix and the merge generator share (pkg/generators/matrix.go, merge.go): a child
-- generator is run through `Transform`, and its requeue time is asked for.
pub mod Requeue
use applicationset.Prelude.{
  List, [], ◌∷◌, Option, none, some, Bool, true, false, not, ◌&&◌, if◌then◌else◌, ltb_ℤ, eqb_ℤ,
}
use mathlib.Core.Option
use applicationset.Errors.{
  Result, ok, err, panic, ◌>>=◌, child_generator_error, no_child_parameters,
  more_then_one_inner_generators,
}
use applicationset.Api.Template.{empty_template}
use applicationset.Api.Generator.{ApplicationSetGenerator, ApplicationSetNestedGenerator}
use applicationset.Api.Conversion.{to_matrix_generator, to_merge_generator}
use applicationset.Api.ApplicationSet.{ApplicationSet}
use applicationset.Utils.Combine.{Params}
use applicationset.Generators.Interface.{
  Generator, Generators, Duration, max_duration, no_requeue_after,
}
use applicationset.Generators.Transform.{
  MergeTemplates, Transformed, transform, get_relevant_generators,
}

-- The generator that `getParams` hands to `Transform`.
unfoldable pub to_generator : ApplicationSetNestedGenerator → ApplicationSetGenerator
unfolding to_matrix_generator to_merge_generator
to_generator g = record {
  list = g.list;
  clusters = g.clusters;
  git = g.git;
  scm_provider = g.scm_provider;
  cluster_decision_resource = g.cluster_decision_resource;
  pull_request = g.pull_request;
  matrix = Option.map to_matrix_generator g.matrix;
  merge = Option.map to_merge_generator g.merge;
}

-- The tests of `getParams` on what `Transform` returned.
unfoldable pub only_params : Transformed → Result (List Params)
only_params (t, some e) = err (child_generator_error e)
only_params ([], none) = err no_child_parameters
only_params (r ∷ [], none) = ok r.params
only_params (r ∷ s ∷ t, none) = err more_then_one_inner_generators

-- `getParams`, of the matrix and of the merge generator
unfoldable pub get_params :
    MergeTemplates
    → Generators
    → ApplicationSetNestedGenerator
    → ApplicationSet
    → Result (List Params)
unfolding to_generator transform only_params
get_params merge supported g app_set = do
  t ← transform merge (to_generator g) supported empty_template app_set
  only_params t

-- The generator whose requeue time a combination asks for: three of the fields only.
unfoldable pub requeue_base : ApplicationSetNestedGenerator → ApplicationSetGenerator
requeue_base r = record {
  list = r.list;
  clusters = r.clusters;
  git = r.git;
  scm_provider = none;
  cluster_decision_resource = none;
  pull_request = none;
  matrix = none;
  merge = none;
}

-- `if temp < res && temp != NoRequeueAfter { found = true; res = temp }`
unfoldable pub shorter : Duration → Duration × Bool → Duration × Bool
shorter temp (res, found) =
    if ltb_ℤ temp res && not (eqb_ℤ temp no_requeue_after) then (temp, true) else (res, found)

-- The inner loop of `GetRequeueAfter`.
unfoldable pub requeue_one :
    ApplicationSetGenerator → List (Option Generator) → Duration × Bool → Result (Duration × Bool)
unfolding shorter
requeue_one base [] s = ok s
requeue_one base (none ∷ gs) s = panic
requeue_one base (some g ∷ gs) s = do
  temp ← g.get_requeue_after base
  requeue_one base gs (shorter temp s)

-- The outer loop.
unfoldable pub requeue_all :
    Generators → List ApplicationSetNestedGenerator → Duration × Bool → Result (Duration × Bool)
unfolding requeue_base requeue_one get_relevant_generators
requeue_all supported [] s = ok s
requeue_all supported (r ∷ rs) s = do
  s' ← requeue_one (requeue_base r) (get_relevant_generators (requeue_base r) supported) s
  requeue_all supported rs s'

-- The end of `GetRequeueAfter`.
unfoldable pub found_or_none : Duration × Bool → Duration
found_or_none (res, found) = if found then res else no_requeue_after

-- `GetRequeueAfter`, of the matrix and of the merge generator, over their children.
unfoldable pub min_requeue_after : Generators → List ApplicationSetNestedGenerator → Result Duration
unfolding requeue_all found_or_none
min_requeue_after supported children = do
  s ← requeue_all supported children (max_duration, false)
  ok (found_or_none s)
