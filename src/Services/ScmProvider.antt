-- ===== src/Services/ScmProvider.antt =====
-- pkg/services/scm_provider/utils.go and types.go: the repositories of a provider that pass the
-- filters of a generator.
pub mod Laws
pub mod CloneUrl
pub mod Github
pub mod Gitlab
use applicationset.Prelude.{
  String, Bool, true, false, not, List, [], ◌∷◌, Option, none, some, any, if◌then◌else◌,
}
use applicationset.Errors.{
  Error, Result, ok, err, panic, ◌>>=◌, repository_match_error, label_match_error,
  branch_match_error,
}
use applicationset.Api.Generator.{ScmProviderGeneratorFilter}
use applicationset.Utils.Regexp.{Regexp, Compile}

pub record Repository : Type 0 where
  pub organization : String
  pub repository : String
  pub url : String
  pub branch : String
  pub sha : String
  pub labels : List String

-- `SCMProviderService`; what it answers is fixed while it is asked.
pub record ScmProviderService : Type 0 where
  pub list_repos : String → Result (List Repository)
  pub repo_has_path : Repository → String → Result Bool

pub record Filter : Type 0 where
  pub repository_match : Option Regexp
  pub paths_exist : List String
  pub label_match : Option Regexp
  pub branch_match : Option Regexp

module _ (compile : Compile) where
  -- One expression of a filter, with what is returned if it does not compile.
  unfoldable pub compile_match :
      Option String → (String → Error → Result (Option Regexp)) → Result (Option Regexp)
  compile_match none failed = ok none
  compile_match (some text) failed = elim (compile text) [
    | ok r ↦ ok (some r)
    | err e ↦ failed text e
    | panic ↦ panic
  ]

  -- The message for `BranchMatch` prints the text of `LabelMatch`, whose pointer may be nil.
  unfoldable pub branch_failed : Option String → String → Error → Result (Option Regexp)
  branch_failed none text e = panic
  branch_failed (some label) text e = err (branch_match_error label e)

  unfoldable pub compile_filter : ScmProviderGeneratorFilter → Result Filter
  unfolding compile_match branch_failed
  compile_filter filter = do
    repository ← compile_match filter.repository_match (λ t e. err (repository_match_error t e))
    label ← compile_match filter.label_match (λ t e. err (label_match_error t e))
    branch ← compile_match filter.branch_match (branch_failed filter.label_match)
    ok (record {
      repository_match = repository;
      paths_exist = filter.paths_exist;
      label_match = label;
      branch_match = branch;
    })

  -- `compileFilters`
  unfoldable pub compile_filters : List ScmProviderGeneratorFilter → Result (List Filter)
  compile_filters [] = ok []
  compile_filters (filter ∷ filters) = do
    out ← compile_filter filter
    rest ← compile_filters filters
    ok (out ∷ rest)

-- An expression that is there and does not match ends `matchFilter`.
unfoldable pub refuses : Option Regexp → String → Bool
refuses none text = false
refuses (some r) text = not (r text)

unfoldable pub refuses_labels : Option Regexp → List String → Bool
refuses_labels none labels = false
refuses_labels (some r) labels = not (any r labels)

module _ (provider : ScmProviderService) where
  -- The loop over `PathsExist`.
  unfoldable pub has_paths : Repository → List String → Result Bool
  has_paths repo [] = ok true
  has_paths repo (path ∷ paths) = elim (provider.repo_has_path repo path) [
    | err e ↦ err e
    | panic ↦ panic
    | ok true ↦ has_paths repo paths
    | ok false ↦ ok false
  ]

  -- `matchFilter`
  unfoldable pub match_filter : Repository → Filter → Result Bool
  unfolding has_paths refuses refuses_labels
  match_filter repo filter =
      if refuses filter.repository_match repo.repository
      then ok false
      else if refuses filter.branch_match repo.branch
      then ok false
      else if refuses_labels filter.label_match repo.labels
      then ok false
      else has_paths repo filter.paths_exist

  -- The inner loop of `ListRepos`: the first filter that matches ends it.
  unfoldable pub match_any : Repository → List Filter → Result Bool
  match_any repo [] = ok false
  match_any repo (filter ∷ filters) = elim (match_filter repo filter) [
    | err e ↦ err e
    | panic ↦ panic
    | ok true ↦ ok true
    | ok false ↦ match_any repo filters
  ]

  -- The outer loop of `ListRepos`.
  unfoldable pub filter_repos : List Filter → List Repository → Result (List Repository)
  filter_repos filters [] = ok []
  filter_repos filters (repo ∷ repos) = do
    matches ← match_any repo filters
    rest ← filter_repos filters repos
    ok (if matches then repo ∷ rest else rest)

  -- With no filters everything is allowed.
  unfoldable pub apply_filters : List Filter → List Repository → Result (List Repository)
  apply_filters [] repos = ok repos
  apply_filters (f ∷ fs) repos = filter_repos (f ∷ fs) repos

  -- `ListRepos`
  unfoldable pub list_repos :
      Compile → List ScmProviderGeneratorFilter → String → Result (List Repository)
  list_repos compile filters clone_protocol = do
    compiled ← compile_filters compile filters
    repos ← provider.list_repos clone_protocol
    apply_filters compiled repos
