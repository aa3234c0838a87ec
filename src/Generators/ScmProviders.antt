-- ===== src/Generators/ScmProviders.antt =====
-- pkg/generators/scm_provider.go: a set of parameters for each repository and branch of a provider.
use Prim.Native.String.{◌++◌ as ◌+++◌}
use applicationset.Prelude.{String, Bool, List, [], ◌∷◌, map, Option, none, some}
use applicationset.Errors.{
  Result, ok, err, panic, ◌>>=◌, wrap, empty_app_set_generator, token_error, service_error,
  list_repos_error, no_scm_provider,
}
use applicationset.Api.Template.{ApplicationSetTemplate}
use applicationset.Api.Generator.{ApplicationSetGenerator, ScmProviderGenerator}
use applicationset.Api.ApplicationSet.{ApplicationSet}
use applicationset.Utils.Combine.{Params}
use applicationset.Utils.Regexp.{Compile}
use applicationset.Services.ScmProvider.{Repository, ScmProviderService, list_repos}
use applicationset.Generators.Interface.{Generator, Duration}
use applicationset.Generators.RequeueAfter.{
  requeue_after_or, default_scm_provider_requeue_after_seconds,
}
use applicationset.Generators.SecretRef.{GetSecret, get_secret_ref}

-- `strings.Join(labels, ",")`
unfoldable pub join_labels : List String → String
join_labels [] = ""
join_labels (l ∷ []) = l
join_labels (l ∷ m ∷ labels) = l +++ "," +++ join_labels (m ∷ labels)

-- The parameters of a repository.
unfoldable pub repo_params : Repository → Params
unfolding join_labels
repo_params repo =
    ("organization", repo.organization)
    ∷ ("repository", repo.repository)
    ∷ ("url", repo.url)
    ∷ ("branch", repo.branch)
    ∷ ("sha", repo.sha)
    ∷ ("labels", join_labels repo.labels)
    ∷ []

-- What the generator calls: the client for secrets, the two constructors of providers with their
-- organization, token, API and flags, and the provider of tests in `overrideProvider`.
pub record Providers : Type 0 where
  pub get_secret : GetSecret
  pub new_github_provider : String → String → String → Bool → Result ScmProviderService
  pub new_gitlab_provider : String → String → String → Bool → Bool → Result ScmProviderService
  pub override_provider : Option ScmProviderService

module _ (providers : Providers) (compile : Compile) where
  -- The choice of the provider in `GenerateParams`.
  unfoldable pub choose_provider : ScmProviderGenerator → String → Result ScmProviderService
  unfolding get_secret_ref
  choose_provider config namespace = elim providers.override_provider [
    | some provider ↦ ok provider
    | none ↦ elim config.github [
      | some github ↦ do
        token ←
            wrap (token_error "Github")
              (get_secret_ref providers.get_secret github.token_ref namespace)
        wrap (service_error "Github")
            (providers.new_github_provider github.organization token github.api github.all_branches)
      | none ↦ elim config.gitlab [
        | some gitlab ↦ do
          token ←
              wrap (token_error "Gitlab")
                (get_secret_ref providers.get_secret gitlab.token_ref namespace)
          wrap (service_error "Gitlab") (
              providers.new_gitlab_provider gitlab.group token gitlab.api gitlab.all_branches
                gitlab.include_subgroups)
        | none ↦ err no_scm_provider
      ]
    ]
  ]

  -- `GenerateParams`
  unfoldable pub generate_params : ApplicationSetGenerator → ApplicationSet → Result (List Params)
  unfolding choose_provider list_repos repo_params
  generate_params g app_set = elim g.scm_provider [
    | none ↦ err empty_app_set_generator
    | some config ↦ do
      provider ← choose_provider config app_set.namespace
      repos ←
          wrap list_repos_error (list_repos provider compile config.filters config.clone_protocol)
      ok (map repo_params repos)
  ]

  -- `GetRequeueAfter`
  unfoldable pub get_requeue_after : ApplicationSetGenerator → Result Duration
  unfolding requeue_after_or
  get_requeue_after g = elim g.scm_provider [
    | none ↦ panic
    | some config ↦
        ok
          (requeue_after_or default_scm_provider_requeue_after_seconds config.requeue_after_seconds)
  ]

  -- `GetTemplate`
  unfoldable pub get_template : ApplicationSetGenerator → Result ApplicationSetTemplate
  get_template g = elim g.scm_provider [ none ↦ panic | some config ↦ ok config.template ]

  -- `NewSCMProviderGenerator`
  unfoldable pub new_scm_provider_generator : Generator
  unfolding generate_params get_requeue_after get_template
  new_scm_provider_generator = record {
    generate_params = generate_params;
    get_requeue_after = get_requeue_after;
    get_template = get_template;
  }
