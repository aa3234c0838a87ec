-- ===== src/Generators/Merge/Overriding.antt =====
-- What one more generator overrides in the sets of a merge (pkg/generators/merge.go,
-- `GenerateParams`).

use mathlib.Core.Option.{some-injective}
use mathlib.Core.Path.{subst}
use applicationset.Prelude.{
  String, ◌≡◌, refl, ap, ◌∙◌, inl, inr, List, [], ◌∷◌, map, Option, none, some, Map, lookup,
  insert_all, lookup-insert_all, insert_all-DistinctKeys, DistinctKeys, arith, or_else, str_eq, All,
  All2, Option-cases, Bool-cases,
}
use applicationset.Errors.{Result, ok, err, panic, non_unique_param_sets}
use applicationset.Utils.Combine.{Params, combine_string_maps_allow_duplicates}
use applicationset.Utils.Combine.Laws.{lookup-copy}
use applicationset.Generators.Merge.Keys.{Marshal, entries, UniqueKeys}
use applicationset.Generators.Merge.Override.{override_base, values}

-- A base set with what overrides it: the set of its key, if there is one.
abbrev pub over : Option Params → Params → Params
over none base = base
over (some override) base = insert_all override (insert_all base [])

abbrev pub over_entries : Map Params → Map Params → Map Params
over_entries by_key = map (λ e. (e.0, over (lookup e.0 by_key) e.1))

pub override_base_lem :
    (base by_key : Map Params) → override_base base by_key ≡ ok (over_entries by_key base)
unfolding override_base combine_string_maps_allow_duplicates
override_base_lem [] by_key = refl
override_base_lem ((key, p) ∷ base) by_key = ground (arith, override_base_lem base by_key)

-- The value that a parameter has after the sets of one more generator: that of the set that
-- overrides, if it has one.
abbrev pub override_value : Option Params → String → Option String → Option String
override_value none j value = value
override_value (some override) j value = or_else (lookup j override) value

lookup-All :
    (P : Params → Type 0) (key : String) (m : Map Params) (q : Params)
    → All P (values m)
    → lookup key m ≡ some q
    → P q
unfolding lookup
lookup-All P key [] q h e = cc
lookup-All P key ((k, p) ∷ m) q h e = elim (Bool-cases (str_eq k key)) [
  | inl hit ↦ subst P (some-injective _ _ (rw hit at e)) h.0
  | inr miss ↦ lookup-All P key m q h.1 (rw miss at e)
]

abbrev pub IsMap : Option Params → Type 0
IsMap none = Unit
IsMap (some q) = DistinctKeys q

lookup-IsMap : (key : String) (m : Map Params) → All DistinctKeys (values m) → IsMap (lookup key m)
lookup-IsMap key m h = elim (Option-cases (lookup key m)) [
  | inl e ↦ rw e tt
  | inr (q, e) ↦ rw e (lookup-All DistinctKeys key m q h e)
]

lookup-over :
    (o : Option Params) (p : Params) (j : String)
    → IsMap o
    → DistinctKeys p
    → lookup j (over o p) ≡ override_value o j (lookup j p)
lookup-over none p j d dp = refl
lookup-over (some q) p j d dp =
    lookup-insert_all j q (insert_all p []) d ∙ ap (or_else (lookup j q)) (lookup-copy p j dp)

over-DistinctKeys : (o : Option Params) (p : Params) → DistinctKeys p → DistinctKeys (over o p)
over-DistinctKeys none p d = d
over-DistinctKeys (some q) p d =
    insert_all-DistinctKeys q (insert_all p []) (insert_all-DistinctKeys p [] tt)

pub over_entries-DistinctKeys :
    (by_key base : Map Params)
    → All DistinctKeys (values base)
    → All DistinctKeys (values (over_entries by_key base))
over_entries-DistinctKeys by_key [] d = tt
over_entries-DistinctKeys by_key ((key, p) ∷ base) d =
    (over-DistinctKeys (lookup key by_key) p d.0, over_entries-DistinctKeys by_key base d.1)

module _ (marshal : Marshal) (merge_keys : List String) where
  pub entries-values : (ps : List Params) → values (entries marshal merge_keys ps) ≡ ps
  entries-values [] = refl
  entries-values (p ∷ ps) = ap (◌∷◌ p) (entries-values ps)

  -- The value of a parameter after all the generators, for a base set of the key: that of the last
  -- generator which has a set of this key with the parameter in it.
  abbrev pub value_after : List (List Params) → String → String → Option String → Option String
  value_after [] key j value = value
  value_after (sets ∷ rest) key j value =
      value_after rest key j (override_value (lookup key (entries marshal merge_keys sets)) j value)

  abbrev pub MergedEntry : List (List Params) → String × Params → String × Params → Type 0
  MergedEntry rest e e' =
      (e'.0 ≡ e.0) × ((j : String) → lookup j e'.1 ≡ value_after rest e.0 j (lookup j e.1))

  abbrev pub AllMerged : Map Params → List (List Params) → Result (Map Params) → Type 0
  AllMerged base rest (ok m) =
      All (UniqueKeys marshal merge_keys) rest × All2 (MergedEntry rest) base m
  AllMerged base rest (err e) =
      (¬ All (UniqueKeys marshal merge_keys) rest)
      × ((key : String) × (e ≡ non_unique_param_sets key))
  AllMerged base rest panic = ⊥

  pub MergedEntry-nil : (base : Map Params) → All2 (MergedEntry []) base base
  MergedEntry-nil [] = tt
  MergedEntry-nil ((k, p) ∷ base) = ((refl, λ j. refl), MergedEntry-nil base)

  MergedEntry-cons :
      (sets : List Params) (rest : List (List Params)) (base m : Map Params)
      → All DistinctKeys sets
      → All DistinctKeys (values base)
      → All2 (MergedEntry rest) (over_entries (entries marshal merge_keys sets) base) m
      → All2 (MergedEntry (sets ∷ rest)) base m
  MergedEntry-cons sets rest [] [] ds db h = tt
  MergedEntry-cons sets rest [] (e ∷ m) ds db h = h
  MergedEntry-cons sets rest (e ∷ base) [] ds db h = h
  MergedEntry-cons sets rest ((k, p) ∷ base) ((k', p') ∷ m) ds db h = (
    (h.0.0, λ j. h.0.1 j ∙ ap (value_after rest k j) (value j)),
    MergedEntry-cons sets rest base m ds db.1 h.1,
  )
    where
      by_key : Map Params
      by_key = entries marshal merge_keys sets

      value :
          (j : String)
          → lookup j (over (lookup k by_key) p) ≡ override_value (lookup k by_key) j (lookup j p)
      value j =
          lookup-over (lookup k by_key) p j (lookup-IsMap k by_key (rw (entries-values sets) ds))
            db.0

  pub AllMerged-cons :
      (sets : List Params) (rest : List (List Params)) (base : Map Params) (r : Result (Map Params))
      → All DistinctKeys sets
      → All DistinctKeys (values base)
      → UniqueKeys marshal merge_keys sets
      → AllMerged (over_entries (entries marshal merge_keys sets) base) rest r
      → AllMerged base (sets ∷ rest) r
  AllMerged-cons sets rest base (ok m) ds db unique h =
      ((unique, h.0), MergedEntry-cons sets rest base m ds db h.1)
  AllMerged-cons sets rest base (err e) ds db unique h = (λ all. h.0 all.1, h.1)
  AllMerged-cons sets rest base panic ds db unique h = h
