-- ===== src/Generators/Levels/Serves.antt =====
-- Which requests a level of generators serves without a panic.
use mathlib.Core.Path.{subst}
use applicationset.Prelude.{
  String, ◌≡◌, refl, sym, List, [], ◌∷◌, map, Option, none, some, lookup, All, All-append,
}
use applicationset.Errors.{NoPanic}
use applicationset.Errors.Laws.{bind-NoPanic}
use applicationset.Api.Template.{ApplicationSetTemplate}
use applicationset.Api.Generator.{
  ApplicationSetGenerator, ApplicationSetNestedGenerator, MatrixGenerator, MergeGenerator,
}
use applicationset.Api.ApplicationSet.{ApplicationSet}
use applicationset.Generators.Interface.{Generator, Generators}
use applicationset.Generators.Transform.{
  MergeTemplates, field, relevant_names, get_relevant_generators, transform_one,
  merge_generator_template,
}
use applicationset.Generators.Transform.Laws.{outcome, outcomes}
use applicationset.Generators.Matrix.{
  generate_params as generate_matrix_params, get_template as get_matrix_template,
}
use applicationset.Generators.Merge.{
  generate_params as generate_merge_params, get_template as get_merge_template,
}
use applicationset.Generators.Merge.Keys.{Marshal}
use applicationset.Generators.Merge.Override.{RangeOrder}
use applicationset.Generators.Levels.{Leaves}
use applicationset.Generators.Levels.NoPanic.{Runs, generate_matrix-NoPanic, generate_merge-NoPanic}

-- The generator does not panic on a request that has its field.
abbrev pub Answers {ℓ} : {A : Type ℓ} → (ApplicationSetGenerator → Option A) → Generator → Type ℓ
Answers {A = A} part g =
    (r : ApplicationSetGenerator) (x : A)
    → part r ≡ some x
    → NoPanic (g.get_template r) × ((s : ApplicationSet) → NoPanic (g.generate_params r s))

-- The generators that ask the outside do not panic on requests of theirs.
pub record LeavesAnswer (l : Leaves) : Type 0 where
  pub list : Answers (λ r. r.list) l.list
  pub clusters : Answers (λ r. r.clusters) l.clusters
  pub git : Answers (λ r. r.git) l.git
  pub scm_provider : Answers (λ r. r.scm_provider) l.scm_provider
  pub cluster_decision_resource :
      Answers (λ r. r.cluster_decision_resource) l.cluster_decision_resource
  pub pull_request : Answers (λ r. r.pull_request) l.pull_request

field-All {ℓ} :
    {A : Type ℓ} (P : String → Type 0) (name : String) (o : Option A)
    → ((x : A) → o ≡ some x → P name)
    → All P (field name o)
field-All P name none h = tt
field-All P name (some x) h = (h x refl, tt)

pub All-map {ℓ κ} :
    {A : Type ℓ} {B : Type κ} (P : B → Type 0) (f : A → B) (xs : List A)
    → All (λ x. P (f x)) xs
    → All P (map f xs)
All-map P f [] h = tt
All-map P f (x ∷ xs) h = (h.0, All-map P f xs h.1)

pub All-each {ℓ} : {A : Type ℓ} (P : A → Type 0) (xs : List A) → ((x : A) → P x) → All P xs
All-each P [] h = tt
All-each P (x ∷ xs) h = (h x, All-each P xs h)

-- The children of a combination, if the request has one.
abbrev pub MatrixChildren :
    (ApplicationSetNestedGenerator → Type 0) → Option MatrixGenerator → Type 0
MatrixChildren P none = Unit
MatrixChildren P (some m) = All P m.generators

abbrev pub MergeChildren : (ApplicationSetNestedGenerator → Type 0) → Option MergeGenerator → Type 0
MergeChildren P none = Unit
MergeChildren P (some m) = All P m.generators

pub matrix-Answers :
    (merge : MergeTemplates) (below : Generators) (r : ApplicationSetGenerator)
    (m : MatrixGenerator) (s : ApplicationSet)
    → r.matrix ≡ some m
    → All (Runs merge below) m.generators
    → NoPanic (get_matrix_template merge below r) × NoPanic (generate_matrix_params merge below r s)
unfolding get_matrix_template generate_matrix_params
matrix-Answers merge below r m s e h =
    (rw e tt, rw e (generate_matrix-NoPanic merge below m.generators s h))

pub merge-Answers :
    (merge : MergeTemplates) (below : Generators) (marshal : Marshal) (order : RangeOrder)
    (r : ApplicationSetGenerator) (m : MergeGenerator) (s : ApplicationSet)
    → r.merge ≡ some m
    → All (Runs merge below) m.generators
    → NoPanic (get_merge_template merge below marshal order r)
      × NoPanic (generate_merge_params merge below marshal order r s)
unfolding get_merge_template generate_merge_params
merge-Answers merge below marshal order r m s e h =
    (rw e tt, rw e (generate_merge-NoPanic merge below marshal order m s h))

module _ (merge : MergeTemplates)
    (total : (a b : ApplicationSetTemplate) → NoPanic (merge a b)) where
  pub outcome-NoPanic :
      (g : Generator) (r : ApplicationSetGenerator) (t : ApplicationSetTemplate)
      (s : ApplicationSet)
      → NoPanic (g.get_template r) × NoPanic (g.generate_params r s)
      → NoPanic (outcome merge r t s (some g))
  unfolding transform_one merge_generator_template
  outcome-NoPanic g r t s h =
      bind-NoPanic _ _ (bind-NoPanic _ _ h.0 (λ dest e. total dest t))
        (λ merged e. bind-NoPanic _ _ h.1 (λ params f. tt))

  -- The generators of the six leaves, and of the combinations that the request has, do not panic.
  pub names-Serve :
      (gens : Generators) (l : Leaves) (r : ApplicationSetGenerator) (t : ApplicationSetTemplate)
      (s : ApplicationSet)
      → LeavesAnswer l
      → lookup "List" gens ≡ some l.list
      → lookup "Clusters" gens ≡ some l.clusters
      → lookup "Git" gens ≡ some l.git
      → lookup "SCMProvider" gens ≡ some l.scm_provider
      → lookup "ClusterDecisionResource" gens ≡ some l.cluster_decision_resource
      → lookup "PullRequest" gens ≡ some l.pull_request
      → ((m : MatrixGenerator)
          → r.matrix ≡ some m
          → NoPanic (outcome merge r t s (lookup "Matrix" gens)))
      → ((m : MergeGenerator)
          → r.merge ≡ some m
          → NoPanic (outcome merge r t s (lookup "Merge" gens)))
      → All NoPanic (outcomes merge r t s (get_relevant_generators r gens))
  unfolding get_relevant_generators relevant_names
  names-Serve gens l r t s h at_list at_clusters at_git at_scm at_duck at_pull at_matrix at_merge =
      let P = λ (name : String). NoPanic (outcome merge r t s (lookup name gens)) in
      let leaf =
        λ (name : String) (g : Generator) (e : lookup name gens ≡ some g)
            (k : NoPanic (g.get_template r)
              × ((s : ApplicationSet) → NoPanic (g.generate_params r s))).
          subst (λ o. NoPanic (outcome merge r t s o)) (sym e)
            (outcome-NoPanic g r t s (k.0, k.1 s)) in
      All-map NoPanic (outcome merge r t s) _ (
        All-map (λ o. NoPanic (outcome merge r t s o)) (λ name. lookup name gens) (relevant_names r)
          (All-append P _ _
            (field-All P "List" r.list (λ x e. leaf "List" l.list at_list (h.list r x e)))
            (All-append P _ _
              (field-All P "Clusters" r.clusters
                (λ x e. leaf "Clusters" l.clusters at_clusters (h.clusters r x e)))
              (All-append P _ _
                (field-All P "Git" r.git (λ x e. leaf "Git" l.git at_git (h.git r x e)))
                (All-append P _ _
                  (field-All P "SCMProvider" r.scm_provider
                    (λ x e. leaf "SCMProvider" l.scm_provider at_scm (h.scm_provider r x e)))
                  (All-append P _ _
                    (field-All P "ClusterDecisionResource" r.cluster_decision_resource (λ x e.
                      leaf "ClusterDecisionResource" l.cluster_decision_resource at_duck
                        (h.cluster_decision_resource r x e)))
                    (All-append P _ _
                      (field-All P "PullRequest" r.pull_request
                        (λ x e. leaf "PullRequest" l.pull_request at_pull (h.pull_request r x e)))
                      (All-append P _ _ (field-All P "Matrix" r.matrix at_matrix)
                        (field-All P "Merge" r.merge at_merge)))))))))
