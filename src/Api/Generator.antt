-- ===== src/Api/Generator.antt =====
-- The generators of api/v1alpha1/applicationset_types.go. A pointer is an `Option`, and so is a
-- slice or a map that the code compares with nil.
use applicationset.Prelude.{ℤ, String, Bool, List, Map, Option}
use applicationset.Api.Template.{ApplicationSetTemplate}

pub record SecretRef : Type 0 where
  pub secret_name : String
  pub key : String

-- The element of Kubernetes' `LabelSelector.MatchExpressions`.
pub record LabelSelectorRequirement : Type 0 where
  pub key : String
  pub operator : String
  pub values : List String

pub record LabelSelector : Type 0 where
  pub match_labels : Option (Map String)
  pub match_expressions : Option (List LabelSelectorRequirement)

-- `elements` holds the raw JSON texts.
pub record ListGenerator : Type 0 where
  pub elements : List String
  pub template : ApplicationSetTemplate

pub record ClusterGenerator : Type 0 where
  pub selector : LabelSelector
  pub template : ApplicationSetTemplate
  pub values : Map String

pub record DuckTypeGenerator : Type 0 where
  pub config_map_ref : String
  pub name : String
  pub requeue_after_seconds : Option ℤ
  pub label_selector : LabelSelector
  pub template : ApplicationSetTemplate
  pub values : Map String

pub record GitDirectoryGeneratorItem : Type 0 where
  pub path : String
  pub exclude : Bool

pub record GitFileGeneratorItem : Type 0 where
  pub path : String

pub record GitGenerator : Type 0 where
  pub repo_url : String
  pub directories : Option (List GitDirectoryGeneratorItem)
  pub files : Option (List GitFileGeneratorItem)
  pub revision : String
  pub requeue_after_seconds : Option ℤ
  pub template : ApplicationSetTemplate

pub record ScmProviderGeneratorGithub : Type 0 where
  pub organization : String
  pub api : String
  pub token_ref : Option SecretRef
  pub all_branches : Bool

pub record ScmProviderGeneratorGitlab : Type 0 where
  pub group : String
  pub include_subgroups : Bool
  pub api : String
  pub token_ref : Option SecretRef
  pub all_branches : Bool

pub record ScmProviderGeneratorFilter : Type 0 where
  pub repository_match : Option String
  pub paths_exist : List String
  pub label_match : Option String
  pub branch_match : Option String

pub record ScmProviderGenerator : Type 0 where
  pub github : Option ScmProviderGeneratorGithub
  pub gitlab : Option ScmProviderGeneratorGitlab
  pub filters : List ScmProviderGeneratorFilter
  pub clone_protocol : String
  pub requeue_after_seconds : Option ℤ
  pub template : ApplicationSetTemplate

pub record PullRequestGeneratorGithub : Type 0 where
  pub owner : String
  pub repo : String
  pub api : String
  pub token_ref : Option SecretRef
  pub labels : List String

pub record PullRequestGenerator : Type 0 where
  pub github : Option PullRequestGeneratorGithub
  pub requeue_after_seconds : Option ℤ
  pub template : ApplicationSetTemplate

-- The generators that stand at every level.
pub record ApplicationSetTerminalGenerator : Type 0 where
  pub list : Option ListGenerator
  pub clusters : Option ClusterGenerator
  pub git : Option GitGenerator
  pub scm_provider : Option ScmProviderGenerator
  pub cluster_decision_resource : Option DuckTypeGenerator
  pub pull_request : Option PullRequestGenerator

pub record NestedMatrixGenerator : Type 0 where
  pub generators : List ApplicationSetTerminalGenerator

pub record NestedMergeGenerator : Type 0 where
  pub generators : List ApplicationSetTerminalGenerator
  pub merge_keys : List String

pub record ApplicationSetNestedGenerator : Type 0 where
  pub list : Option ListGenerator
  pub clusters : Option ClusterGenerator
  pub git : Option GitGenerator
  pub scm_provider : Option ScmProviderGenerator
  pub cluster_decision_resource : Option DuckTypeGenerator
  pub pull_request : Option PullRequestGenerator
  pub matrix : Option NestedMatrixGenerator
  pub merge : Option NestedMergeGenerator

pub record MatrixGenerator : Type 0 where
  pub generators : List ApplicationSetNestedGenerator
  pub template : ApplicationSetTemplate

pub record MergeGenerator : Type 0 where
  pub generators : List ApplicationSetNestedGenerator
  pub merge_keys : List String
  pub template : ApplicationSetTemplate

pub record ApplicationSetGenerator : Type 0 where
  pub list : Option ListGenerator
  pub clusters : Option ClusterGenerator
  pub git : Option GitGenerator
  pub scm_provider : Option ScmProviderGenerator
  pub cluster_decision_resource : Option DuckTypeGenerator
  pub pull_request : Option PullRequestGenerator
  pub matrix : Option MatrixGenerator
  pub merge : Option MergeGenerator
