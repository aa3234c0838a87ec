-- ===== src/Errors/Message.antt =====
-- The texts of the errors, `err.Error()`.
use Prim.Native.String.{◌++◌}
use applicationset.Prelude.{String, List, [], ◌∷◌, length}
use applicationset.Errors.{
  Error, empty_app_set_generator, more_than_two_generators, less_than_two_generators,
  more_then_one_inner_generators, less_than_two_generators_in_merge, no_merge_keys,
  non_unique_param_sets, child_generator_error, no_child_parameters, list_element_error,
  list_values_error, list_value_error, file_error, parse_file_error, no_gvk, bad_definition,
  no_cluster_decision_resources, token_error, service_error, list_repos_error, no_scm_provider,
  select_provider_error, pull_request_token_error, no_pull_request_provider, fetch_secret_error,
  missing_secret_key, list_pull_requests_error, list_repositories_error, unknown_clone_protocol,
  list_branches_error, get_repository_error, list_files_error, init_error, fetch_error,
  commit_error, checkout_error, duplicate_key, duplicate_name, missing_project, invalid_destination,
  invalid_spec, fetch_status_error, update_status_error, unable_to_find_server,
  invalid_cluster_secret, missing_cluster, no_such_cluster, name_and_server, same_name_clusters,
  name_mutated, repository_match_error, label_match_error, branch_match_error, empty_template,
  unresolved_tag, api_error,
}
use applicationset.Utils.Text.{itoa}

-- `%v` of a slice of texts, behind its bracket.
join_spaces : List String → String
join_spaces [] = ""
join_spaces (s ∷ []) = s
join_spaces (s ∷ t ∷ rest) = s ++ " " ++ join_spaces (t ∷ rest)

unfoldable pub error_text : Error → String
unfolding join_spaces itoa
error_text empty_app_set_generator = "ApplicationSet is empty"
error_text more_than_two_generators = "found more than two generators, Matrix support only two"
error_text less_than_two_generators = "found less than two generators, Matrix support only two"
error_text more_then_one_inner_generators = "found more than one generator in matrix.Generators"
error_text less_than_two_generators_in_merge =
    "found less than two generators, Merge requires two or more"
error_text no_merge_keys = "no merge keys were specified, Merge requires at least one"
error_text (non_unique_param_sets key) =
    "the parameters from a generator were not unique by the given mergeKeys, Merge requires all param sets to be unique"
    ++ ". Duplicate key was " ++ key
error_text (child_generator_error e) =
    "child generator returned an error on parameter generation: " ++ error_text e
error_text no_child_parameters = "child generator generated no parameters"
error_text (list_element_error e) = "error unmarshling list element " ++ error_text e
error_text list_values_error = "error parsing values map"
error_text list_value_error = "error parsing value as string <nil>"
error_text (file_error path e) = "unable to process file '" ++ path ++ "': " ++ error_text e
error_text (parse_file_error e) = "unable to parse file: " ++ error_text e
error_text no_gvk = "There is a problem with the apiVersion, kind or resourceName provided"
error_text bad_definition =
    "There is a problem with the definition of the ClusterDecisionResource generator"
error_text no_cluster_decision_resources = "no clusterDecisionResources found"
error_text (token_error provider e) = "error fetching " ++ provider ++ " token: " ++ error_text e
error_text (service_error provider e) =
    "error initializing " ++ provider ++ " service: " ++ error_text e
error_text (list_repos_error e) = "error listing repos: " ++ error_text e
error_text no_scm_provider = "no SCM provider implementation configured"
error_text (select_provider_error e) =
    "failed to select pull request service provider: " ++ error_text e
error_text (pull_request_token_error e) = "error fetching Secret token: " ++ error_text e
error_text no_pull_request_provider = "no Pull Request provider implementation configured"
error_text (fetch_secret_error namespace name e) =
    "error fetching secret " ++ namespace ++ "/" ++ name ++ ": " ++ error_text e
error_text (missing_secret_key key namespace name) =
    "key \"" ++ key ++ "\" in secret " ++ namespace ++ "/" ++ name ++ " not found"
error_text (list_pull_requests_error owner repo e) =
    "error listing pull requests for " ++ owner ++ "/" ++ repo ++ ": " ++ error_text e
error_text (list_repositories_error provider organization e) =
    "error listing " ++ provider ++ " for " ++ organization ++ ": " ++ error_text e
error_text (unknown_clone_protocol provider protocol) =
    "unknown clone protocol for " ++ provider ++ " " ++ protocol
error_text (list_branches_error organization name e) =
    "error listing branches for " ++ organization ++ "/" ++ name ++ ": " ++ error_text e
error_text (get_repository_error e) = "Error in GetRepository: " ++ error_text e
error_text (list_files_error e) = "Error during listing files of local repo: " ++ error_text e
error_text (init_error e) = "Error during initializing repo: " ++ error_text e
error_text (fetch_error e) = "Error during fetching repo: " ++ error_text e
error_text (commit_error e) = "Error during fetching commitSHA: " ++ error_text e
error_text (checkout_error e) = "Error during repo checkout: " ++ error_text e
error_text (duplicate_key k a b) =
    "found duplicate key " ++ k ++ " with different value, a: " ++ a ++ " ,b: " ++ b
error_text (duplicate_name app_set name) =
    "ApplicationSet " ++ app_set ++ " contains applications with duplicate name: " ++ name
error_text (missing_project p) = "application references project " ++ p ++ " which does not exist"
error_text (invalid_destination e) = "application destination spec is invalid: " ++ error_text e
error_text (invalid_spec conditions) = "application spec is invalid: " ++ conditions
error_text (fetch_status_error e) = "error fetching updated application set: " ++ error_text e
error_text (update_status_error e) = "unable to set application set condition: " ++ error_text e
error_text (unable_to_find_server e) = "unable to find destination server: " ++ error_text e
error_text (invalid_cluster_secret name e) =
    "unable to convert cluster secret to cluster object '" ++ name ++ "': " ++ error_text e
error_text (missing_cluster name) =
    "application references destination cluster " ++ name ++ " which does not exist"
error_text (no_such_cluster name) = "there are no clusters with this name: " ++ name
error_text (name_and_server name server) =
    "application destination can't have both name and server defined: " ++ name ++ " " ++ server
error_text (same_name_clusters servers) =
    "there are "
    ++ itoa (length servers)
    ++ " clusters with the same name: ["
    ++ join_spaces servers
    ++ "]"
error_text (repository_match_error text e) =
    "error compiling RepositoryMatch regexp \"" ++ text ++ "\": " ++ error_text e
error_text (label_match_error text e) =
    "error compiling LabelMatch regexp \"" ++ text ++ "\": " ++ error_text e
error_text (branch_match_error text e) =
    "error compiling BranchMatch regexp \"" ++ text ++ "\": " ++ error_text e
error_text (unresolved_tag t) = "failed to resolve {{" ++ t ++ "}}"
error_text name_mutated = "MutateFn cannot mutate object name and/or object namespace"
error_text empty_template = "application template is empty "
error_text (api_error not_found text) = text
