-- ===== src/Tests/Sets.antt =====
-- Runs of the generators and of the joins of parameter sets.
use mathlib.Core.List.Perm
use applicationset.Prelude.{
  String, ◌≡◌, refl, List, [], ◌∷◌, some, none, lookup, insert, has_key, pos,
}
use applicationset.Errors.{ok, err, duplicate_key, no_child_parameters}
use applicationset.Api.Template.{empty_template}
use applicationset.Api.Generator.{ApplicationSetGenerator}
use applicationset.Utils.Combine.{
  Params, add_params, combine_string_maps, combine_string_maps_allow_duplicates,
}
use applicationset.Utils.Combine.Laws.{
  Joins, IsUnion, combine_string_maps-Joins, combine_string_maps_allow_duplicates-IsUnion,
}
use applicationset.Generators.Interface.{Generator, Generators}
use applicationset.Generators.Matrix.Product.{row, product, ProductOf, product-ProductOf}
use applicationset.Generators.Merge.Keys.{
  Marshal, ByMergeKey, get_param_sets_by_merge_key, get_param_sets_by_merge_key-ByMergeKey,
}
use applicationset.Generators.Merge.Override.{merge_param_sets}
use applicationset.Generators.Merge.Laws.{MergeOf, merge_param_sets-MergeOf}
use applicationset.Generators.Transform.{
  MergeTemplates, transform, transform_one, merge_generator_template, get_relevant_generators,
  relevant_names,
}
use applicationset.Tests.Store.{request, guestbook_set}
use applicationset.Generators.Transform.Laws.{results, first_error, outcomes, transform_lem}

abbrev staging : Params
staging = ("cluster", "staging") ∷ ("url", "https://1.2.3.4") ∷ []

abbrev production : Params
production = ("cluster", "production") ∷ ("url", "https://2.4.6.8") ∷ []

abbrev guestbook : Params
guestbook = ("path", "apps/guestbook") ∷ []

abbrev pinned : Params
pinned = ("cluster", "staging") ∷ ("revision", "v1") ∷ []

-- A clash of two values of one key
clash_test :
    combine_string_maps staging production ≡ err (duplicate_key "cluster" "staging" "production")
unfolding combine_string_maps add_params lookup insert
clash_test = refl

product_test :
    product (staging ∷ []) (guestbook ∷ [])
    ≡ ok (
        (("cluster", "staging") ∷ ("url", "https://1.2.3.4") ∷ ("path", "apps/guestbook") ∷ [])
        ∷ [])
unfolding product row combine_string_maps add_params lookup insert
product_test = refl

combine_string_maps-Joins_example : Joins staging pinned (combine_string_maps staging pinned)
unfolding has_key
combine_string_maps-Joins_example =
    combine_string_maps-Joins staging pinned (refl, (refl, tt)) (refl, (refl, tt))

combine_string_maps_allow_duplicates-IsUnion_example :
    (c : Params) × (combine_string_maps_allow_duplicates staging production ≡ ok c)
    × IsUnion staging production c
unfolding has_key
combine_string_maps_allow_duplicates-IsUnion_example =
    combine_string_maps_allow_duplicates-IsUnion staging production (refl, (refl, tt))
      (refl, (refl, tt))

product-ProductOf_example :
    ProductOf
      (staging ∷ production ∷ [])
      (guestbook ∷ pinned ∷ [])
      (product (staging ∷ production ∷ []) (guestbook ∷ pinned ∷ []))
unfolding has_key
product-ProductOf_example =
    product-ProductOf (staging ∷ production ∷ []) (guestbook ∷ pinned ∷ [])
      ((refl, (refl, tt)), ((refl, (refl, tt)), tt)) ((refl, tt), ((refl, (refl, tt)), tt))

-- The text of the value at the merge key stands for its JSON.
abbrev pub marshal_values : Marshal
marshal_values [] = ""
marshal_values ((k, v) ∷ p) = v

abbrev pub keys : List String
keys = "cluster" ∷ []

get_param_sets_by_merge_key-ByMergeKey_example :
    ByMergeKey marshal_values keys
      (staging ∷ production ∷ [])
      (get_param_sets_by_merge_key marshal_values keys (staging ∷ production ∷ []))
get_param_sets_by_merge_key-ByMergeKey_example =
    get_param_sets_by_merge_key-ByMergeKey marshal_values keys (staging ∷ production ∷ [])

merge_param_sets-MergeOf_example :
    MergeOf marshal_values keys (staging ∷ production ∷ []) ((pinned ∷ []) ∷ []) (
      merge_param_sets marshal_values
        (λ m. m)
        keys
        ((staging ∷ production ∷ []) ∷ (pinned ∷ []) ∷ []))
unfolding has_key
merge_param_sets-MergeOf_example =
    merge_param_sets-MergeOf marshal_values (λ m. m) keys (λ e. cc) (staging ∷ production ∷ [])
      ((pinned ∷ []) ∷ []) (λ m. Perm.refl m)
      (((refl, (refl, tt)), ((refl, (refl, tt)), tt)), (((refl, (refl, tt)), tt), tt))

abbrev from_list : Generator
from_list = record {
  generate_params = λ requested app_set. ok (staging ∷ production ∷ []);
  get_requeue_after = λ requested. ok (pos 0);
  get_template = λ requested. ok empty_template;
}

-- The `git` generator fails here.
abbrev from_git : Generator
from_git = record from_list { generate_params = λ requested app_set. err no_child_parameters }

abbrev supported : Generators
supported = ("List", from_list) ∷ ("Git", from_git) ∷ []

abbrev two_requests : ApplicationSetGenerator
two_requests = record request {
  git = some (record {
    repo_url = "https://github.com/argoproj/applicationset";
    directories = none;
    files = none;
    revision = "HEAD";
    requeue_after_seconds = none;
    template = empty_template;
  });
}

abbrev pub keep_base : MergeTemplates
keep_base template base = ok base

transform_lem_example :
    transform keep_base two_requests supported empty_template guestbook_set
    ≡ ok (
      results (
          outcomes keep_base two_requests empty_template guestbook_set
            (get_relevant_generators two_requests supported)),
      first_error (
          outcomes keep_base two_requests empty_template guestbook_set
            (get_relevant_generators two_requests supported)),
    )
unfolding get_relevant_generators relevant_names lookup transform_one merge_generator_template
transform_lem_example =
    transform_lem keep_base two_requests empty_template guestbook_set supported (tt, (tt, tt))
