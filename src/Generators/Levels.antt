-- ===== src/Generators/Levels.antt =====
-- The three levels of generators that main.go builds: a combination has the generators of the level
-- below it, and the lowest level has no combinations.
pub mod NoPanic
pub mod Serves
pub mod Laws
use applicationset.Prelude.{String, List, [], ◌∷◌, Option, none, some, lookup}
use applicationset.Generators.Interface.{Generator, Generators}
use applicationset.Generators.Transform.{MergeTemplates}
use applicationset.Generators.Matrix.{new_matrix_generator}
use applicationset.Generators.Merge.{new_merge_generator}
use applicationset.Generators.Merge.Keys.{Marshal}
use applicationset.Generators.Merge.Override.{RangeOrder}

-- The generators of main.go that ask the outside.
pub record Leaves : Type 0 where
  pub list : Generator
  pub clusters : Generator
  pub git : Generator
  pub scm_provider : Generator
  pub cluster_decision_resource : Generator
  pub pull_request : Generator

-- `terminalGenerators`
unfoldable pub terminal_generators : Leaves → Generators
terminal_generators l =
    ("List", l.list)
    ∷ ("Clusters", l.clusters)
    ∷ ("Git", l.git)
    ∷ ("SCMProvider", l.scm_provider)
    ∷ ("ClusterDecisionResource", l.cluster_decision_resource)
    ∷ ("PullRequest", l.pull_request)
    ∷ []

module _ (merge : MergeTemplates) (marshal : Marshal) (order : RangeOrder) where
  -- A level above `below`, which has the same leaves.
  unfoldable pub level_above : Leaves → Generators → Generators
  unfolding new_matrix_generator new_merge_generator
  level_above l below =
      ("List", l.list)
      ∷ ("Clusters", l.clusters)
      ∷ ("Git", l.git)
      ∷ ("SCMProvider", l.scm_provider)
      ∷ ("ClusterDecisionResource", l.cluster_decision_resource)
      ∷ ("PullRequest", l.pull_request)
      ∷ ("Matrix", new_matrix_generator merge below)
      ∷ ("Merge", new_merge_generator merge below marshal order)
      ∷ []

  -- `nestedGenerators`
  unfoldable pub nested_generators : Leaves → Generators
  unfolding level_above terminal_generators
  nested_generators l = level_above l (terminal_generators l)

  -- `topLevelGenerators`
  unfoldable pub top_level_generators : Leaves → Generators
  unfolding level_above nested_generators
  top_level_generators l = level_above l (nested_generators l)
