-- ===== src/Generators/Merge/Laws.antt =====
-- What the merge generator computes from the sets of its children.
use mathlib.Core.List.{Perm}
use mathlib.Core.List.Perm
use mathlib.Core.Path.{subst}
use applicationset.Prelude.{
  String, ◌≡◌, ◌≢◌, inl, inr, List, [], ◌∷◌, Map, lookup, DistinctKeys, All, All2,
}
use applicationset.Errors.{
  Error, Result, ok, err, panic, ◌>>=◌, non_unique_param_sets, Result-Cases, is_ok, is_err,
  is_panic,
}
use applicationset.Utils.Combine.{Params}
use applicationset.Generators.Merge.Keys.{
  Marshal, merge_key, entries, UniqueKeys, ByMergeKey, get_param_sets_by_merge_key,
  get_param_sets_by_merge_key-ByMergeKey,
}
use applicationset.Generators.Merge.Override.{RangeOrder, override_all, values, merge_param_sets}
use applicationset.Generators.Merge.Overriding.{
  over_entries, MergedEntry, AllMerged, override_base_lem, entries-values, MergedEntry-nil,
  AllMerged-cons, over_entries-DistinctKeys, value_after,
}

module _ (marshal : Marshal) (merge_keys : List String) where
  -- A merged set of the base set `p`.
  abbrev pub Merged : List (List Params) → Params → Params → Type 0
  Merged rest p out =
      (j : String)
      → lookup j out
        ≡ value_after marshal merge_keys rest (merge_key marshal merge_keys p) j (lookup j p)

  -- What the merge of the sets of a first generator and of the others may return.
  abbrev pub MergeOf : List Params → List (List Params) → Result (List Params) → Type 0
  MergeOf first rest (ok res) =
      All (UniqueKeys marshal merge_keys) (first ∷ rest)
      × ((outs : List Params) × Perm res outs × All2 (Merged rest) first outs)
  MergeOf first rest (err e) =
      (¬ All (UniqueKeys marshal merge_keys) (first ∷ rest))
      × ((key : String) × (e ≡ non_unique_param_sets key))
  MergeOf first rest panic = ⊥

  All2-values :
      (rest : List (List Params)) (first : List Params) (m : Map Params)
      → All2 (MergedEntry marshal merge_keys rest) (entries marshal merge_keys first) m
      → All2 (Merged rest) first (values m)
  All2-values rest [] [] h = tt
  All2-values rest [] (e ∷ m) h = h
  All2-values rest (p ∷ first) [] h = h
  All2-values rest (p ∷ first) (e ∷ m) h = (h.0.1, All2-values rest first m h.1)

module _ (marshal : Marshal) (order : RangeOrder) (merge_keys : List String)
    (some_keys : merge_keys ≢ []) where
  -- A list of sets with equal keys ends the merge with its error.
  refused :
      {All' : Type 0} {x : Error} (sets : List Params)
      → (All' → UniqueKeys marshal merge_keys sets)
      → ByMergeKey marshal merge_keys sets (err x)
      → (¬ All') × ((key : String) × (x ≡ non_unique_param_sets key))
  refused sets f (inl (no_keys, _)) = absurd (some_keys no_keys)
  refused sets f (inr (_, n, key)) = (λ all. n (f all), key)

  override_all-AllMerged :
      (base : Map Params) (rest : List (List Params))
      → All DistinctKeys (values base)
      → All (All DistinctKeys) rest
      → AllMerged marshal merge_keys base rest (override_all marshal order merge_keys base rest)
  unfolding override_all
  override_all-AllMerged base [] db dr = (tt, MergedEntry-nil marshal merge_keys base)
  override_all-AllMerged base (sets ∷ rest) db dr =
      let by_key = get_param_sets_by_merge_key marshal merge_keys sets in
      let h = get_param_sets_by_merge_key-ByMergeKey marshal merge_keys sets in
      elim (Result-Cases by_key) [
        | is_ok m e ↦
            let (_, index, unique) = subst (ByMergeKey marshal merge_keys sets) e h in
            rw (e, override_base_lem base m, index)
              (AllMerged-cons marshal merge_keys sets rest base _ dr.0 db unique (
                override_all-AllMerged (over_entries (entries marshal merge_keys sets) base) rest
                  (over_entries-DistinctKeys _ base db) dr.1))
        | is_err x e ↦
            rw e (refused sets (λ all. all.0) (subst (ByMergeKey marshal merge_keys sets) e h))
        | is_panic e ↦ absurd (subst (ByMergeKey marshal merge_keys sets) e h)
      ]

  MergeOf-values :
      (first : List Params) (rest : List (List Params)) (r : Result (Map Params))
      → ((m : Map Params) → Perm (order m) m)
      → UniqueKeys marshal merge_keys first
      → AllMerged marshal merge_keys (entries marshal merge_keys first) rest r
      → MergeOf marshal merge_keys first rest (r >>= λ merged. ok (values (order merged)))
  MergeOf-values first rest (ok m) shuffled unique h = (
    (unique, h.0),
    (values m, Perm.map (λ e. e.1) (shuffled m), All2-values marshal merge_keys rest first m h.1),
  )
  MergeOf-values first rest (err e) shuffled unique h = (λ all. h.0 all.1, h.1)
  MergeOf-values first rest panic shuffled unique h = h

  -- With merge keys given, and `order` the order of a `range` loop, the merge of lists of Go maps
  -- succeeds exactly if in each list the keys of the sets differ. It then returns, in some order,
  -- one set for each set of the first list, in which a parameter has the value of the last list
  -- that has a set of the same key with the parameter in it. Otherwise the error is that of equal
  -- keys.
  pub merge_param_sets-MergeOf :
      (first : List Params) (rest : List (List Params))
      → ((m : Map Params) → Perm (order m) m)
      → All (All DistinctKeys) (first ∷ rest)
      → MergeOf marshal merge_keys first rest
          (merge_param_sets marshal order merge_keys (first ∷ rest))
  unfolding merge_param_sets
  merge_param_sets-MergeOf first rest shuffled d =
      let h = get_param_sets_by_merge_key-ByMergeKey marshal merge_keys first in
      elim (Result-Cases (get_param_sets_by_merge_key marshal merge_keys first)) [
        | is_ok m e ↦
            let (_, index, unique) = subst (ByMergeKey marshal merge_keys first) e h in
            rw (e, index)
              (MergeOf-values first rest _ shuffled unique (
                override_all-AllMerged (entries marshal merge_keys first) rest
                  (rw (entries-values marshal merge_keys first) d.0) d.1))
        | is_err x e ↦
            rw e (refused first (λ all. all.0) (subst (ByMergeKey marshal merge_keys first) e h))
        | is_panic e ↦ absurd (subst (ByMergeKey marshal merge_keys first) e h)
      ]
