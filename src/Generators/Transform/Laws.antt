-- ===== src/Generators/Transform/Laws.antt =====
-- What `Transform` returns: every result, and the first error.
use applicationset.Prelude.{
  ap, ◌≡◌, refl, ◌∙◌, List, [], ◌∷◌, ◌++◌, map, Option, none, some, or_else, All, arith,
}
use mathlib.Core.List.{append-nil, append_assoc}
use applicationset.Errors.{
  Error, Result, ok, err, panic, NoPanic, Result-Cases, is_ok, is_err, is_panic,
}
use applicationset.Api.Template.{ApplicationSetTemplate}
use applicationset.Api.Generator.{ApplicationSetGenerator}
use applicationset.Api.ApplicationSet.{ApplicationSet}
use applicationset.Generators.Interface.{Generator, Generators}
use applicationset.Generators.Transform.{
  TransformResult, MergeTemplates, transform_one, transform_loop, transform,
  get_relevant_generators,
}

-- The results that are there, in order, and the first error.
abbrev pub results {ℓ} : {A : Type ℓ} → List (Result A) → List A
results [] = []
results (ok a ∷ rs) = a ∷ results rs
results (err e ∷ rs) = results rs
results (panic ∷ rs) = results rs

abbrev pub first_error {ℓ} : {A : Type ℓ} → List (Result A) → Option Error
first_error [] = none
first_error (ok a ∷ rs) = first_error rs
first_error (err e ∷ rs) = some e
first_error (panic ∷ rs) = first_error rs

or_else_first :
    (f : Option Error) (x : Error) (o : Option Error)
    → or_else (or_else f (some x)) o ≡ or_else f (some x)
or_else_first none x o = refl
or_else_first (some y) x o = refl

module _ (merge : MergeTemplates) (requested : ApplicationSetGenerator)
    (base : ApplicationSetTemplate) (app_set : ApplicationSet) where
  -- What each generator that the request names returns by itself.
  abbrev pub outcome : Option Generator → Result TransformResult
  outcome none = panic
  outcome (some g) = transform_one merge g requested base app_set

  abbrev pub outcomes : List (Option Generator) → List (Result TransformResult)
  outcomes = map outcome

  transform_loop_lem :
      (gs : List (Option Generator)) (res : List TransformResult) (first : Option Error)
      → All NoPanic (outcomes gs)
      → transform_loop merge requested base app_set gs res first
        ≡ ok (res ++ results (outcomes gs), or_else first (first_error (outcomes gs)))
  unfolding transform_loop
  transform_loop_lem [] res first h = ground (arith, append-nil res)
  transform_loop_lem (none ∷ gs) res first h = absurd h.0
  transform_loop_lem (some g ∷ gs) res first h =
      elim (Result-Cases (transform_one merge g requested base app_set)) [
        | is_ok r e ↦
            rw (e, transform_loop)
              (transform_loop_lem gs (res ++ r ∷ []) first h.1
                ∙ rw (append_assoc res (r ∷ []) (results (outcomes gs))))
        | is_err x e ↦
            rw (e, transform_loop)
              (transform_loop_lem gs res (or_else first (some x)) h.1
                ∙ ap (λ f. ok (res ++ results (outcomes gs), f)) (or_else_first first x _))
        | is_panic e ↦ absurd (rw e at h.0)
      ]

  -- `Transform`, when no generator panics, returns the results of the generators that succeed, in
  -- the order of the request's fields, beside the error of the first that fails.
  pub transform_lem :
      (generators : Generators)
      → All NoPanic (outcomes (get_relevant_generators requested generators))
      → transform merge requested generators base app_set
        ≡ ok (
          results (outcomes (get_relevant_generators requested generators)),
          first_error (outcomes (get_relevant_generators requested generators)),
        )
  unfolding transform
  transform_lem generators h =
      transform_loop_lem (get_relevant_generators requested generators) [] none h
