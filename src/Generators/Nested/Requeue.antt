-- ===== src/Generators/Nested/Requeue.antt =====
-- The requeue time of a matrix or merge generator, of which children it depends.
use applicationset.Prelude.{◌≡◌, refl, Bool, false, List, [], ◌∷◌, none, All}
use applicationset.Errors.{ok}
use applicationset.Api.Generator.{ApplicationSetNestedGenerator}
use applicationset.Generators.Interface.{Generators, Duration, no_requeue_after, max_duration}
use applicationset.Generators.Transform.{get_relevant_generators, relevant_names}
use applicationset.Generators.Nested.{
  requeue_base, requeue_one, requeue_all, found_or_none, min_requeue_after,
}

-- Of the fields of the child neither the list, nor the clusters, nor git is set.
abbrev pub IsIgnored : ApplicationSetNestedGenerator → Type 0
IsIgnored c = (c.list ≡ none) × (c.clusters ≡ none) × (c.git ≡ none)

requeue_all_ignored :
    (supported : Generators) (children : List ApplicationSetNestedGenerator) (s : Duration × Bool)
    → All IsIgnored children
    → requeue_all supported children s ≡ ok s
unfolding requeue_all requeue_base requeue_one get_relevant_generators relevant_names
requeue_all_ignored supported [] s h = refl
requeue_all_ignored supported (c ∷ children) s ((list, clusters, git), h) =
    rw (list, clusters, git) (requeue_all_ignored supported children s h)

-- A matrix or merge generator whose children are pull request, SCM provider, cluster decision or
-- combined generators asks for no requeue, whatever time these ask for.
pub min_requeue_after_ignored :
    (supported : Generators) (children : List ApplicationSetNestedGenerator)
    → All IsIgnored children
    → min_requeue_after supported children ≡ ok no_requeue_after
unfolding min_requeue_after found_or_none
min_requeue_after_ignored supported children h =
    rw (requeue_all_ignored supported children (max_duration, false) h)
