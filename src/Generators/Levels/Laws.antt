-- ===== src/Generators/Levels/Laws.antt =====
-- No request meets a generator that its level of main.go lacks.
use mathlib.Core.Path.{subst}
use mathlib.Core.Option
use applicationset.Prelude.{refl, Option, none, some, lookup}
use applicationset.Errors.{NoPanic}
use applicationset.Api.Template.{ApplicationSetTemplate}
use applicationset.Api.Generator.{
  ApplicationSetGenerator, ApplicationSetNestedGenerator, ApplicationSetTerminalGenerator,
  MatrixGenerator, MergeGenerator, NestedMatrixGenerator, NestedMergeGenerator,
}
use applicationset.Api.Conversion.{
  to_nested_generator, to_application_set_nested_generators, to_matrix_generator,
  to_merge_generator,
}
use applicationset.Api.ApplicationSet.{ApplicationSet}
use applicationset.Generators.Interface.{Generators}
use applicationset.Generators.Nested.{to_generator}
use applicationset.Generators.Transform.{MergeTemplates, transform}
use applicationset.Generators.Matrix.{new_matrix_generator}
use applicationset.Generators.Merge.{new_merge_generator}
use applicationset.Generators.Merge.Keys.{Marshal}
use applicationset.Generators.Merge.Override.{RangeOrder}
use applicationset.Generators.Levels.{
  Leaves, level_above, terminal_generators, nested_generators, top_level_generators,
}
use applicationset.Generators.Levels.NoPanic.{Serves, Runs, Serves-transform, Serves-Runs}
use applicationset.Generators.Levels.Serves.{
  LeavesAnswer, All-map, All-each, MatrixChildren, MergeChildren, matrix-Answers, merge-Answers,
  outcome-NoPanic, names-Serve,
}

module _ (merge : MergeTemplates) (total : (a b : ApplicationSetTemplate) → NoPanic (merge a b))
    (marshal : Marshal) (order : RangeOrder) (l : Leaves) (answers : LeavesAnswer l) where
  above-Serves :
      (below : Generators) (r : ApplicationSetGenerator)
      → MatrixChildren (Runs merge below) r.matrix
      → MergeChildren (Runs merge below) r.merge
      → Serves merge (level_above merge marshal order l below) r
  unfolding level_above new_matrix_generator new_merge_generator lookup
  above-Serves below r matrix_runs merge_runs t s =
      names-Serve merge total (level_above merge marshal order l below) l r t s answers refl refl
        refl refl refl refl
        (λ m e. outcome-NoPanic merge total (new_matrix_generator merge below) r t s (
          matrix-Answers merge below r m s e
            (subst (MatrixChildren (Runs merge below)) e matrix_runs)))
        (λ m e. outcome-NoPanic merge total (new_merge_generator merge below marshal order) r t s (
          merge-Answers merge below marshal order r m s e
            (subst (MergeChildren (Runs merge below)) e merge_runs)))

  terminal-Runs :
      (g : ApplicationSetTerminalGenerator)
      → Runs merge (terminal_generators l) (to_nested_generator g)
  unfolding to_nested_generator to_generator terminal_generators lookup
  terminal-Runs g = Serves-Runs merge (terminal_generators l) (to_nested_generator g) (λ t s.
      names-Serve merge total (terminal_generators l) l (to_generator (to_nested_generator g)) t s
        answers refl refl refl refl refl refl (λ m e. cc) (λ m e. cc))

  nested_matrix :
      (o : Option NestedMatrixGenerator)
      → MatrixChildren (Runs merge (terminal_generators l)) (Option.map to_matrix_generator o)
  unfolding to_matrix_generator to_application_set_nested_generators
  nested_matrix none = tt
  nested_matrix (some m) =
      All-map _ to_nested_generator m.generators (All-each _ m.generators terminal-Runs)

  nested_merge :
      (o : Option NestedMergeGenerator)
      → MergeChildren (Runs merge (terminal_generators l)) (Option.map to_merge_generator o)
  unfolding to_merge_generator to_application_set_nested_generators
  nested_merge none = tt
  nested_merge (some m) =
      All-map _ to_nested_generator m.generators (All-each _ m.generators terminal-Runs)

  nested-Runs :
      (g : ApplicationSetNestedGenerator) → Runs merge (nested_generators merge marshal order l) g
  unfolding nested_generators to_generator
  nested-Runs g = Serves-Runs merge (nested_generators merge marshal order l) g (
      above-Serves (terminal_generators l) (to_generator g) (nested_matrix g.matrix)
        (nested_merge g.merge))

  matrix_children :
      (o : Option MatrixGenerator)
      → MatrixChildren (Runs merge (nested_generators merge marshal order l)) o
  matrix_children none = tt
  matrix_children (some m) = All-each _ m.generators nested-Runs

  merge_children :
      (o : Option MergeGenerator)
      → MergeChildren (Runs merge (nested_generators merge marshal order l)) o
  merge_children none = tt
  merge_children (some m) = All-each _ m.generators nested-Runs

  -- If merging templates does not panic, and none of the six generators that ask the outside
  -- panics on a request that has its field, `Transform` with the generators of the top level
  -- panics on no generator of a spec: neither it, nor a combination in it, nor a combination
  -- nested in that meets a generator that its level lacks.
  pub top_level-NoPanic :
      (r : ApplicationSetGenerator) (t : ApplicationSetTemplate) (s : ApplicationSet)
      → NoPanic (transform merge r (top_level_generators merge marshal order l) t s)
  unfolding top_level_generators
  top_level-NoPanic r t s =
      Serves-transform merge (top_level_generators merge marshal order l) r t s (
        above-Serves (nested_generators merge marshal order l) r (matrix_children r.matrix)
          (merge_children r.merge))
