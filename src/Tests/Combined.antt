-- ===== src/Tests/Combined.antt =====
-- Runs of the generators that combine others, and of the conditions of a status.
use mathlib.Core.List.{Perm}
use mathlib.Core.List.Perm
use applicationset.Prelude.{◌≡◌, refl, List, [], ◌∷◌, none, some, pos, All2, has_key, lookup, arith}
use applicationset.Errors.{ok}
use applicationset.Api.Template.{empty_template}
use applicationset.Api.Generator.{
  ApplicationSetNestedGenerator, ApplicationSetGenerator, MatrixGenerator, MergeGenerator,
}
use applicationset.Api.ApplicationSet.{ApplicationSet}
use applicationset.Api.Condition.{
  ApplicationSetCondition, error_occurred, resources_up_to_date, status_true,
}
use applicationset.Api.Condition.Set.{set_conditions}
use applicationset.Api.Condition.Laws.{SaysSame, set_conditions-SaysSame}
use applicationset.Utils.Combine.{Params}
use applicationset.Generators.Interface.{Generator, Generators, Duration, no_requeue_after}
use applicationset.Generators.Transform.{
  get_relevant_generators, relevant_names, transform, transform_loop, transform_one,
  merge_generator_template,
}
use applicationset.Generators.Nested.{get_params, to_generator, only_params, min_requeue_after}
use applicationset.Generators.Nested.Requeue.{min_requeue_after_ignored}
use applicationset.Generators.Matrix
use applicationset.Generators.Matrix.Product.{ProductOf}
use applicationset.Generators.Matrix.Laws.{generate_params-ProductOf}
use applicationset.Generators.Merge
use applicationset.Generators.Merge.Laws.{MergeOf}
use applicationset.Generators.Merge.Generate.{generate_params-MergeOf}
use applicationset.Controllers.Generate.{get_min_requeue_after}
use applicationset.Controllers.Generate.Requeue.{IsSoonest, get_min_requeue_after-IsSoonest}
use applicationset.Tests.Store.{list_generator, guestbook_set, supported, request}
use applicationset.Tests.Sets.{marshal_values, keys, keep_base}

abbrev child : ApplicationSetNestedGenerator
child = record {
  list = some list_generator;
  clusters = none;
  git = none;
  scm_provider = none;
  cluster_decision_resource = none;
  pull_request = none;
  matrix = none;
  merge = none;
}

abbrev pull_request_child : ApplicationSetNestedGenerator
pull_request_child = record child {
  list = none;
  pull_request =
      some (record {
        github = none;
        requeue_after_seconds = some (pos 30);
        template = empty_template;
      });
}

abbrev two_children : MatrixGenerator
two_children = record { generators = child ∷ child ∷ []; template = empty_template }

abbrev two_merged : MergeGenerator
two_merged = record {
  generators = child ∷ child ∷ [];
  merge_keys = keys;
  template = empty_template;
}

abbrev matrix_request : ApplicationSetGenerator
matrix_request = record request { list = none; matrix = some two_children }

abbrev merge_request : ApplicationSetGenerator
merge_request = record request { list = none; merge = some two_merged }

abbrev staging_sets : List Params
staging_sets = (("cluster", "staging") ∷ []) ∷ []

min_requeue_after_ignored_example :
    min_requeue_after supported (pull_request_child ∷ []) ≡ ok no_requeue_after
min_requeue_after_ignored_example =
    min_requeue_after_ignored supported (pull_request_child ∷ []) ((refl, refl, refl), tt)

generate_params-ProductOf_example :
    ProductOf staging_sets staging_sets
      (Matrix.generate_params keep_base supported matrix_request guestbook_set)
unfolding get_params to_generator only_params transform transform_loop transform_one
    merge_generator_template get_relevant_generators relevant_names lookup has_key
generate_params-ProductOf_example =
    generate_params-ProductOf keep_base supported matrix_request guestbook_set two_children child
      child staging_sets staging_sets refl refl refl refl ((refl, tt), tt) ((refl, tt), tt)

generate_params-MergeOf_example :
    MergeOf marshal_values keys staging_sets (staging_sets ∷ []) (
      Merge.generate_params keep_base supported marshal_values (λ m. m) merge_request guestbook_set)
unfolding Merge.get_param_sets_for_all_generators get_params to_generator only_params transform
    transform_loop transform_one merge_generator_template get_relevant_generators relevant_names
    lookup has_key
generate_params-MergeOf_example =
    generate_params-MergeOf keep_base supported marshal_values (λ m. m) merge_request guestbook_set
      two_merged staging_sets (staging_sets ∷ []) (λ m. Perm.refl m) refl (λ e. cc) (omega arith)
      refl (((refl, tt), tt), (((refl, tt), tt), tt))

abbrev old_error : ApplicationSetCondition
old_error = record {
  type = error_occurred;
  message = "failed";
  last_transition_time = some 1;
  status = status_true;
  reason = "ErrorOccurred";
}

abbrev up_to_date : ApplicationSetCondition
up_to_date = record {
  type = resources_up_to_date;
  message = "ApplicationSet up to date";
  last_transition_time = none;
  status = status_true;
  reason = "ApplicationSetUpToDate";
}

set_conditions-SaysSame_example :
    (out : List ApplicationSetCondition) × Perm
      (set_conditions
        (λ time. "")
        2
        (up_to_date ∷ [])
        []
        (record { conditions = old_error ∷ [] })).conditions
      out
    × All2 SaysSame (up_to_date ∷ []) out
set_conditions-SaysSame_example =
    set_conditions-SaysSame (λ time. "") 2 (up_to_date ∷ []) []
      (record { conditions = old_error ∷ [] })

-- A generator that asks for the time.
abbrev asks : Duration → Generator
asks time = record {
  generate_params = λ requested app_set. ok staging_sets;
  get_requeue_after = λ requested. ok time;
  get_template = λ requested. ok empty_template;
}

abbrev timed : Generators
timed = ("List", asks (pos 0)) ∷ ("PullRequest", asks (pos 30)) ∷ ("Matrix", asks (pos 20)) ∷ []

abbrev timed_set : ApplicationSet
timed_set = record guestbook_set {
  spec = record guestbook_set.spec {
    generators =
        request
        ∷ record request { list = none; pull_request = pull_request_child.pull_request }
        ∷ matrix_request
        ∷ [];
  };
}

get_min_requeue_after-IsSoonest_example :
    (r : Duration) × (get_min_requeue_after timed timed_set ≡ ok r)
    × IsSoonest r (pos 0 ∷ pos 30 ∷ pos 20 ∷ [])
unfolding get_relevant_generators relevant_names lookup
get_min_requeue_after-IsSoonest_example =
    get_min_requeue_after-IsSoonest timed timed_set (pos 0 ∷ pos 30 ∷ pos 20 ∷ []) refl
