-- ===== src/Api/Conversion.antt =====
-- The conversions between the nesting levels (applicationset_types.go): a terminal generator used
-- as a nested one, and a nested combination used as a top-level one.
use applicationset.Prelude.{List, none, map}
use applicationset.Api.Template.{empty_template}
use applicationset.Api.Generator.{
  ApplicationSetTerminalGenerator, ApplicationSetNestedGenerator, NestedMatrixGenerator,
  NestedMergeGenerator, MatrixGenerator, MergeGenerator,
}

unfoldable pub to_nested_generator : ApplicationSetTerminalGenerator → ApplicationSetNestedGenerator
to_nested_generator g = record {
  list = g.list;
  clusters = g.clusters;
  git = g.git;
  scm_provider = g.scm_provider;
  cluster_decision_resource = g.cluster_decision_resource;
  pull_request = g.pull_request;
  matrix = none;
  merge = none;
}

unfoldable pub to_application_set_nested_generators :
    List ApplicationSetTerminalGenerator → List ApplicationSetNestedGenerator
unfolding to_nested_generator
to_application_set_nested_generators = map to_nested_generator

unfoldable pub to_matrix_generator : NestedMatrixGenerator → MatrixGenerator
unfolding to_application_set_nested_generators
to_matrix_generator g = record {
  generators = to_application_set_nested_generators g.generators;
  template = empty_template;
}

unfoldable pub to_merge_generator : NestedMergeGenerator → MergeGenerator
unfolding to_application_set_nested_generators
to_merge_generator g = record {
  generators = to_application_set_nested_generators g.generators;
  merge_keys = g.merge_keys;
  template = empty_template;
}
