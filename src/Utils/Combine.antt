-- ===== src/Utils/Combine.antt =====
-- pkg/utils/map.go: the two ways to join the parameter sets of two generators.
pub mod Laws
use applicationset.Prelude.{
  String, Bool, true, false, List, [], ◌∷◌, Option, none, some, not, str_eq, if◌then◌else◌, Map,
  lookup, insert, insert_all,
}
use applicationset.Errors.{Result, ok, err, duplicate_key, ◌>>=◌}

abbrev pub Params : Type 0
Params = Map String

-- The loop over `b` of `CombineStringMaps`.
unfoldable pub add_params : Params → Params → Result Params
unfolding lookup insert
add_params [] res = ok res
add_params ((k, v) ∷ b) res = elim (lookup k res) [
  | none ↦ add_params b (insert k v res)
  | some current ↦ elim (str_eq current v) [
    | true ↦ add_params b (insert k v res)
    | false ↦ err (duplicate_key k current v)
  ]
]

-- `CombineStringMaps`
unfoldable pub combine_string_maps : Params → Params → Result Params
unfolding add_params insert_all
combine_string_maps a b = add_params b (insert_all a [])

-- `CombineStringMapsAllowDuplicates`
unfoldable pub combine_string_maps_allow_duplicates : Params → Params → Result Params
unfolding insert_all
combine_string_maps_allow_duplicates a b = ok (insert_all b (insert_all a []))
