-- ===== src/Generators/Levels/NoPanic.antt =====
-- The combinations do not panic if their children do not (pkg/generators/matrix.go, merge.go).
use mathlib.Core.Path.{subst}
use applicationset.Prelude.{
  suc, String, ◌≡◌, ◌∙◌, ap, sym, ◌<◌, List, [], ◌∷◌, none, some, lookup, str_eq, All, length, ltb,
  arith, Map, Option-cases, Bool-cases, inl, inr,
}
use applicationset.Errors.{ok, NoPanic, Result-Cases, is_ok, is_err, is_panic}
use applicationset.Errors.Laws.{ok-injective, bind-ok, bind-NoPanic}
use applicationset.Api.Template.{ApplicationSetTemplate, empty_template}
use applicationset.Api.Generator.{
  ApplicationSetGenerator, ApplicationSetNestedGenerator, MergeGenerator,
}
use applicationset.Api.ApplicationSet.{ApplicationSet}
use applicationset.Utils.Combine.{
  Params, add_params, combine_string_maps, combine_string_maps_allow_duplicates,
}
use applicationset.Generators.Interface.{Generators}
use applicationset.Generators.Transform.{
  MergeTemplates, Transformed, transform, get_relevant_generators,
}
use applicationset.Generators.Transform.Laws.{outcomes, transform_lem}
use applicationset.Generators.Nested.{to_generator, only_params, get_params}
use applicationset.Generators.Matrix.{generate_matrix}
use applicationset.Generators.Matrix.Product.{row, product}
use applicationset.Generators.Merge.{get_param_sets_for_all_generators, generate_merge}
use applicationset.Generators.Merge.Keys.{
  Marshal, ByMergeKey, get_param_sets_by_merge_key, get_param_sets_by_merge_key-ByMergeKey,
}
use applicationset.Generators.Merge.Override.{
  RangeOrder, override_base, override_all, merge_param_sets,
}

add_params-NoPanic : (b res : Params) → NoPanic (add_params b res)
unfolding add_params
add_params-NoPanic [] res = tt
add_params-NoPanic ((k, v) ∷ b) res = elim (Option-cases (lookup k res)) [
  | inl e ↦ rw (add_params, e) (add_params-NoPanic b _)
  | inr (current, e) ↦ elim (Bool-cases (str_eq current v)) [
    | inl same ↦ rw (add_params, e, same) (add_params-NoPanic b _)
    | inr other ↦ rw (add_params, e, other) tt
  ]
]

row-NoPanic : (a : Params) (bs : List Params) → NoPanic (row a bs)
unfolding row combine_string_maps
row-NoPanic a [] = tt
row-NoPanic a (b ∷ bs) =
    bind-NoPanic _ _ (add_params-NoPanic b _)
      (λ val e. bind-NoPanic _ _ (row-NoPanic a bs) (λ rest f. tt))

product-NoPanic : (g0 g1 : List Params) → NoPanic (product g0 g1)
unfolding product
product-NoPanic [] g1 = tt
product-NoPanic (a ∷ rows) g1 =
    bind-NoPanic _ _ (row-NoPanic a g1)
      (λ first e. bind-NoPanic _ _ (product-NoPanic rows g1) (λ rest f. tt))

get_param_sets_by_merge_key-NoPanic :
    (marshal : Marshal) (keys : List String) (ps : List Params)
    → NoPanic (get_param_sets_by_merge_key marshal keys ps)
get_param_sets_by_merge_key-NoPanic marshal keys ps =
    let h = get_param_sets_by_merge_key-ByMergeKey marshal keys ps in
    elim (Result-Cases (get_param_sets_by_merge_key marshal keys ps)) [
      | is_ok m e ↦ rw e tt
      | is_err x e ↦ rw e tt
      | is_panic e ↦ absurd (subst (ByMergeKey marshal keys ps) e h)
    ]

override_base-NoPanic : (base overrides : Map Params) → NoPanic (override_base base overrides)
unfolding override_base combine_string_maps_allow_duplicates
override_base-NoPanic [] overrides = tt
override_base-NoPanic ((key, set) ∷ rest) overrides = elim (Option-cases (lookup key overrides)) [
  | inl e ↦
      rw (override_base, e) (bind-NoPanic _ _ (override_base-NoPanic rest overrides) (λ r f. tt))
  | inr (o, e) ↦
      rw (override_base, e) (bind-NoPanic _ _ (override_base-NoPanic rest overrides) (λ r f. tt))
]

override_all-NoPanic :
    (marshal : Marshal) (order : RangeOrder) (keys : List String) (base : Map Params)
    (rest : List (List Params))
    → NoPanic (override_all marshal order keys base rest)
unfolding override_all
override_all-NoPanic marshal order keys base [] = tt
override_all-NoPanic marshal order keys base (sets ∷ rest) =
    bind-NoPanic _ _ (get_param_sets_by_merge_key-NoPanic marshal keys sets) (λ by_key e.
      bind-NoPanic _ _ (override_base-NoPanic base by_key)
        (λ base' f. override_all-NoPanic marshal order keys base' rest))

merge_param_sets-NoPanic :
    (marshal : Marshal) (order : RangeOrder) (keys : List String) (sets : List (List Params))
    → 0 < length sets
    → NoPanic (merge_param_sets marshal order keys sets)
unfolding merge_param_sets
merge_param_sets-NoPanic marshal order keys [] h = omega (arith, h)
merge_param_sets-NoPanic marshal order keys (first ∷ rest) h =
    bind-NoPanic _ _ (get_param_sets_by_merge_key-NoPanic marshal keys first) (λ base e.
      bind-NoPanic _ _ (override_all-NoPanic marshal order keys base rest) (λ merged f. tt))

only_params-NoPanic : (t : Transformed) → NoPanic (only_params t)
unfolding only_params
only_params-NoPanic (t, some e) = tt
only_params-NoPanic ([], none) = tt
only_params-NoPanic (r ∷ [], none) = tt
only_params-NoPanic (r ∷ s ∷ t, none) = tt

module _ (merge : MergeTemplates) (below : Generators) where
  -- No generator of `below` that the request names panics.
  abbrev pub Serves : ApplicationSetGenerator → Type 0
  Serves r =
      (t : ApplicationSetTemplate) (s : ApplicationSet)
      → All NoPanic (outcomes merge r t s (get_relevant_generators r below))

  -- The child is run without a panic.
  abbrev pub Runs : ApplicationSetNestedGenerator → Type 0
  Runs g = (s : ApplicationSet) → NoPanic (get_params merge below g s)

  pub Serves-transform :
      (r : ApplicationSetGenerator) (t : ApplicationSetTemplate) (s : ApplicationSet)
      → Serves r
      → NoPanic (transform merge r below t s)
  Serves-transform r t s h = rw (transform_lem merge r t s below (h t s)) tt

  pub Serves-Runs : (g : ApplicationSetNestedGenerator) → Serves (to_generator g) → Runs g
  unfolding get_params
  Serves-Runs g h s =
      bind-NoPanic _ _ (Serves-transform (to_generator g) empty_template s h)
        (λ t e. only_params-NoPanic t)

  pub generate_matrix-NoPanic :
      (gs : List ApplicationSetNestedGenerator) (s : ApplicationSet)
      → All Runs gs
      → NoPanic (generate_matrix merge below gs s)
  unfolding generate_matrix
  generate_matrix-NoPanic [] s h = tt
  generate_matrix-NoPanic (c ∷ []) s h = tt
  generate_matrix-NoPanic (c ∷ d ∷ []) s h =
      bind-NoPanic _ _ (h.0 s) (λ g0 e. bind-NoPanic _ _ (h.1.0 s) (λ g1 f. product-NoPanic g0 g1))
  generate_matrix-NoPanic (c ∷ d ∷ e ∷ cs) s h = tt

  param_sets-NoPanic :
      (gs : List ApplicationSetNestedGenerator) (s : ApplicationSet)
      → All Runs gs
      → NoPanic (get_param_sets_for_all_generators merge below gs s)
  unfolding get_param_sets_for_all_generators
  param_sets-NoPanic [] s h = tt
  param_sets-NoPanic (g ∷ gs) s h =
      bind-NoPanic _ _ (h.0 s)
        (λ sets e. bind-NoPanic _ _ (param_sets-NoPanic gs s h.1) (λ rest f. tt))

  length-param_sets :
      (gs : List ApplicationSetNestedGenerator) (s : ApplicationSet) (sets : List (List Params))
      → get_param_sets_for_all_generators merge below gs s ≡ ok sets
      → length sets ≡ length gs
  unfolding get_param_sets_for_all_generators
  length-param_sets [] s sets h = ap length (sym (ok-injective h))
  length-param_sets (g ∷ gs) s sets h =
      let (x, e, h') = bind-ok (get_params merge below g s) h in
      let (xs, f, h'') = bind-ok (get_param_sets_for_all_generators merge below gs s) h' in
      ap length (sym (ok-injective h'')) ∙ ap suc (length-param_sets gs s xs f)

  pub generate_merge-NoPanic :
      (marshal : Marshal) (order : RangeOrder) (m : MergeGenerator) (s : ApplicationSet)
      → All Runs m.generators
      → NoPanic (generate_merge merge below marshal order m s)
  unfolding generate_merge
  generate_merge-NoPanic marshal order m s h = elim (Bool-cases (ltb (length m.generators) 2)) [
    | inl few ↦ rw few tt
    | inr enough ↦ rw enough (
        bind-NoPanic _ _ (param_sets-NoPanic m.generators s h) (λ sets e.
          let len = length-param_sets m.generators s sets e in
          merge_param_sets-NoPanic marshal order m.merge_keys sets (ground arith)))
  ]
