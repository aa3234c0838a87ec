-- ===== src/Generators/Merge/Generate.antt =====
-- What the merge generator returns from its children.
use mathlib.Core.List.{Perm}
use applicationset.Prelude.{
  ◌≡◌, ◌≢◌, ◌≤◌, false, List, [], ◌∷◌, some, Map, All, DistinctKeys, length, ltb, arith,
}
use applicationset.Errors.{ok}
use applicationset.Api.Generator.{ApplicationSetGenerator, MergeGenerator}
use applicationset.Api.ApplicationSet.{ApplicationSet}
use applicationset.Utils.Combine.{Params}
use applicationset.Generators.Interface.{Generators}
use applicationset.Generators.Transform.{MergeTemplates}
use applicationset.Generators.Merge.{
  get_param_sets_for_all_generators, generate_merge, generate_params,
}
use applicationset.Generators.Merge.Keys.{Marshal}
use applicationset.Generators.Merge.Override.{RangeOrder}
use applicationset.Generators.Merge.Laws.{MergeOf, merge_param_sets-MergeOf}

-- If a merge generator has merge keys and at least two children, and these return lists of Go maps,
-- `GenerateParams` returns the merge of these lists by the keys, or fails since in one of the lists
-- two sets have equal keys; `order` is the order of a `range` loop.
pub generate_params-MergeOf :
    (merge : MergeTemplates) (supported : Generators) (marshal : Marshal) (order : RangeOrder)
    (requested : ApplicationSetGenerator) (app_set : ApplicationSet) (m : MergeGenerator)
    (first : List Params) (rest : List (List Params))
    → ((entries : Map Params) → Perm (order entries) entries)
    → requested.merge ≡ some m
    → m.merge_keys ≢ []
    → 2 ≤ length m.generators
    → get_param_sets_for_all_generators merge supported m.generators app_set ≡ ok (first ∷ rest)
    → All (All DistinctKeys) (first ∷ rest)
    → MergeOf marshal m.merge_keys first rest
        (generate_params merge supported marshal order requested app_set)
unfolding generate_params generate_merge
generate_params-MergeOf merge supported marshal order requested app_set m first rest shuffled is
      some_keys two sets d =
    let enough : ltb (length m.generators) 2 ≡ false = ground arith in
    rw (is, enough, sets)
      (merge_param_sets-MergeOf marshal order m.merge_keys some_keys first rest shuffled d)
