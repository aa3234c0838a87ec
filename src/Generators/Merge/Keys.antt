-- ===== src/Generators/Merge/Keys.antt =====
-- Parameter sets by merge key (pkg/generators/merge.go, `getParamSetsByMergeKey`). The text of a
-- key is made by `json.Marshal`, a parameter.
use applicationset.Prelude.{
  String, ◌≡◌, refl, sym, ◌⊎◌, inl, inr, Bool, true, false, List, [], ◌∷◌, ◌++◌, insert-new, ◌≢◌,
  DistinctKeys-middle, map, none, some, Map, lookup, insert, has_key, insert-DistinctKeys,
  DistinctKeys, Bool-cases,
}
use mathlib.Core.List.{append-nil, append_assoc}
use applicationset.Errors.{Result, ok, err, panic, no_merge_keys, non_unique_param_sets}
use applicationset.Utils.Combine.{Params}

-- `json.Marshal` of a map of strings, which does not fail.
abbrev pub Marshal : Type 0
Marshal = Params → String

-- `deDuplicatedMergeKeys`
unfoldable pub de_duplicated : List String → Map Bool
unfolding insert
de_duplicated [] = []
de_duplicated (k ∷ ks) = insert k false (de_duplicated ks)

-- `paramSet[mergeKey]`, which is the empty text if the key is missing
unfoldable pub value_at : String → Params → String
unfolding lookup
value_at k p = elim (lookup k p) [ none ↦ "" | some v ↦ v ]

-- The loop that fills `paramSetKey`.
unfoldable pub param_set_key : Map Bool → Params → Params
unfolding value_at insert
param_set_key [] p = []
param_set_key ((k, b) ∷ ks) p = insert k (value_at k p) (param_set_key ks p)

module _ (marshal : Marshal) (merge_keys : List String) where
  -- `paramSetKeyString`
  unfoldable pub merge_key : Params → String
  unfolding param_set_key de_duplicated
  merge_key p = marshal (param_set_key (de_duplicated merge_keys) p)

  -- The loop over the sets: a key that is there already is an error.
  unfoldable pub index_sets : List Params → Map Params → Result (Map Params)
  index_sets [] m = ok m
  index_sets (p ∷ ps) m = elim (has_key (merge_key p) m) [
    | true ↦ err (non_unique_param_sets (merge_key p))
    | false ↦ index_sets ps (insert (merge_key p) p m)
  ]

  -- `getParamSetsByMergeKey`
  unfoldable pub get_param_sets_by_merge_key : List Params → Result (Map Params)
  get_param_sets_by_merge_key ps = elim merge_keys [
    | [] ↦ err no_merge_keys
    | k ∷ ks ↦ index_sets ps []
  ]

  -- The sets as a map, by their keys.
  abbrev pub entries : List Params → Map Params
  entries = map (λ p. (merge_key p, p))

  -- No two sets have the same key.
  abbrev pub UniqueKeys : List Params → Type 0
  UniqueKeys ps = DistinctKeys (entries ps)

  abbrev IndexOf : List Params → Map Params → Result (Map Params) → Type 0
  IndexOf ps m (ok m') = (m' ≡ m ++ entries ps) × DistinctKeys (m ++ entries ps)
  IndexOf ps m (err e) =
      (¬ DistinctKeys (m ++ entries ps)) × ((key : String) × (e ≡ non_unique_param_sets key))
  IndexOf ps m panic = ⊥

  IndexOf-step :
      (p : Params) (ps : List Params) (m : Map Params) (r : Result (Map Params))
      → IndexOf ps (m ++ (merge_key p, p) ∷ []) r
      → IndexOf (p ∷ ps) m r
  IndexOf-step p ps m (ok m') h = rw append_assoc at h
  IndexOf-step p ps m (err e) h = rw append_assoc at h
  IndexOf-step p ps m panic h = h

  index_sets-IndexOf :
      (ps : List Params) (m : Map Params) → DistinctKeys m → IndexOf ps m (index_sets ps m)
  unfolding index_sets
  index_sets-IndexOf [] m d = (sym (append-nil m), rw append-nil d)
  index_sets-IndexOf (p ∷ ps) m d = elim (Bool-cases (has_key (merge_key p) m)) [
    | inl there ↦
        rw (there, index_sets)
          (
            λ distinct. cc (there, DistinctKeys-middle (merge_key p) p m (entries ps) distinct),
            (merge_key p, refl),
          )
    | inr new ↦
        rw (new, index_sets)
          (IndexOf-step p ps m _ (
            rw (← insert-new (merge_key p) p m new) (
              index_sets-IndexOf ps (insert (merge_key p) p m)
                (insert-DistinctKeys (merge_key p) p m d))))
  ]

  -- `getParamSetsByMergeKey` of some sets: their map, if there are merge keys and the keys of the
  -- sets differ; otherwise the error that says which failed.
  abbrev pub ByMergeKey : List Params → Result (Map Params) → Type 0
  ByMergeKey ps (ok m) = (merge_keys ≢ []) × (m ≡ entries ps) × UniqueKeys ps
  ByMergeKey ps (err e) =
      ((merge_keys ≡ []) × (e ≡ no_merge_keys))
      ⊎ ((merge_keys ≢ []) × (¬ UniqueKeys ps) × ((key : String) × (e ≡ non_unique_param_sets key)))
  ByMergeKey ps panic = ⊥

  ByMergeKey-index :
      (ps : List Params) (r : Result (Map Params))
      → merge_keys ≢ []
      → IndexOf ps [] r
      → ByMergeKey ps r
  ByMergeKey-index ps (ok m) some_keys h = (some_keys, h.0, h.1)
  ByMergeKey-index ps (err e) some_keys h = inr (some_keys, h.0, h.1)
  ByMergeKey-index ps panic some_keys h = h

-- `getParamSetsByMergeKey` returns the sets by their keys if there are merge keys and no two sets
-- have the same key; without merge keys, or with two equal keys, its error says which of these it is.
pub get_param_sets_by_merge_key-ByMergeKey :
    (marshal : Marshal) (merge_keys : List String) (ps : List Params)
    → ByMergeKey marshal merge_keys ps (get_param_sets_by_merge_key marshal merge_keys ps)
unfolding get_param_sets_by_merge_key
get_param_sets_by_merge_key-ByMergeKey marshal [] ps = inl (refl, refl)
get_param_sets_by_merge_key-ByMergeKey marshal (k ∷ ks) ps =
    ByMergeKey-index marshal (k ∷ ks) ps _ (λ e. cc) (index_sets-IndexOf marshal (k ∷ ks) ps [] tt)
