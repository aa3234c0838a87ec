-- ===== src/Generators/PullRequests.antt =====
-- pkg/generators/pull_request.go: a set of parameters for each pull request of a repository.
pub mod Laws
use applicationset.Prelude.{String, List, [], ◌∷◌, map, Option, none, some}
use applicationset.Errors.{
  Error, Result, ok, err, panic, ◌>>=◌, wrap, empty_app_set_generator, pull_request_token_error,
  select_provider_error, list_repos_error, no_pull_request_provider,
}
use applicationset.Api.Template.{ApplicationSetTemplate}
use applicationset.Api.Generator.{ApplicationSetGenerator, PullRequestGenerator}
use applicationset.Api.ApplicationSet.{ApplicationSet}
use applicationset.Utils.Combine.{Params}
use applicationset.Utils.Text.{itoa}
use applicationset.Services.PullRequest.{PullRequest}
use applicationset.Generators.Interface.{Generator, Duration}
use applicationset.Generators.RequeueAfter.{
  requeue_after_or, default_pull_request_requeue_after_seconds,
}
use applicationset.Generators.SecretRef.{GetSecret, get_secret_ref}

-- The parameters of a pull request.
unfoldable pub pull_params : PullRequest → Params
unfolding itoa
pull_params pull =
    ("number", itoa pull.number) ∷ ("branch", pull.branch) ∷ ("head_sha", pull.head_sha) ∷ []

-- `PullRequestService`: what its `List` returns.
abbrev pub PullRequestService : Type 0
PullRequestService = Result (List PullRequest)

-- `NewGithubService` of a token, an API, an owner, a repository and labels.
abbrev pub NewGithubService : Type 0
NewGithubService = String → String → String → String → List String → Result PullRequestService

module _ (get_secret : GetSecret) (new_github_service : NewGithubService) where
  -- `selectServiceProvider`
  unfoldable pub select_service_provider : PullRequestGenerator → String → Result PullRequestService
  unfolding get_secret_ref
  select_service_provider config namespace = elim config.github [
    | none ↦ err no_pull_request_provider
    | some github ↦ do
      token ← wrap pull_request_token_error (get_secret_ref get_secret github.token_ref namespace)
      new_github_service token github.api github.owner github.repo github.labels
  ]

  -- `GenerateParams`
  unfoldable pub generate_params : ApplicationSetGenerator → ApplicationSet → Result (List Params)
  unfolding select_service_provider pull_params
  generate_params g app_set = elim g.pull_request [
    | none ↦ err empty_app_set_generator
    | some config ↦ do
      svc ← wrap select_provider_error (select_service_provider config app_set.namespace)
      pulls ← wrap list_repos_error svc
      ok (map pull_params pulls)
  ]

  -- `GetRequeueAfter`
  unfoldable pub get_requeue_after : ApplicationSetGenerator → Result Duration
  unfolding requeue_after_or
  get_requeue_after g = elim g.pull_request [
    | none ↦ panic
    | some config ↦
        ok
          (requeue_after_or default_pull_request_requeue_after_seconds config.requeue_after_seconds)
  ]

  -- `GetTemplate`
  unfoldable pub get_template : ApplicationSetGenerator → Result ApplicationSetTemplate
  get_template g = elim g.pull_request [ none ↦ panic | some config ↦ ok config.template ]

  -- `NewPullRequestGenerator`
  unfoldable pub new_pull_request_generator : Generator
  unfolding generate_params get_requeue_after get_template
  new_pull_request_generator = record {
    generate_params = generate_params;
    get_requeue_after = get_requeue_after;
    get_template = get_template;
  }
