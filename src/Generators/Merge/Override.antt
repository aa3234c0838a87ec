-- ===== src/Generators/Merge/Override.antt =====
-- The override loops of the merge generator (pkg/generators/merge.go, `GenerateParams`).
use applicationset.Prelude.{String, List, [], ◌∷◌, map, none, some, Map, lookup}
use applicationset.Errors.{Result, ok, panic, ◌>>=◌}
use applicationset.Utils.Combine.{Params, combine_string_maps_allow_duplicates}
use applicationset.Generators.Merge.Keys.{Marshal, get_param_sets_by_merge_key}

-- The order in which a `range` loop meets the entries of a Go map.
abbrev pub RangeOrder : Type 0
RangeOrder = Map Params → Map Params

-- The loop over `baseParamSetsByMergeKey`: each set is overridden by that of its key, if there is
-- one. The loop writes only the entry that it stands at.
unfoldable pub override_base : Map Params → Map Params → Result (Map Params)
override_base [] overrides = ok []
override_base ((key, base) ∷ rest) overrides = do
  new ← elim (lookup key overrides) [
    | none ↦ ok base
    | some override ↦ combine_string_maps_allow_duplicates base override
  ]
  rest' ← override_base rest overrides
  ok ((key, new) ∷ rest')

-- The values of a map, in the order of its entries.
abbrev pub values : Map Params → List Params
values = map (λ e. e.1)

module _ (marshal : Marshal) (order : RangeOrder) (merge_keys : List String) where
  -- The loop over `paramSetsFromGenerators[1:]`.
  unfoldable pub override_all : Map Params → List (List Params) → Result (Map Params)
  override_all base [] = ok base
  override_all base (sets ∷ rest) = do
    by_key ← get_param_sets_by_merge_key marshal merge_keys sets
    base' ← override_base base by_key
    override_all base' rest

  -- `GenerateParams` from the sets of the generators on.
  unfoldable pub merge_param_sets : List (List Params) → Result (List Params)
  merge_param_sets [] = panic
  merge_param_sets (first ∷ rest) = do
    base ← get_param_sets_by_merge_key marshal merge_keys first
    merged ← override_all base rest
    ok (values (order merged))
