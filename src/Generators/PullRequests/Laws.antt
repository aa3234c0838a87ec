-- ===== src/Generators/PullRequests/Laws.antt =====
-- The sets of pkg/generators/pull_request.go can be read back.
use applicationset.Prelude.{String, List, [], ◌∷◌, map, some, lookup, All2, ◌≡◌, refl}
use applicationset.Errors.{ok}
use applicationset.Api.Generator.{ApplicationSetGenerator, PullRequestGenerator}
use applicationset.Api.ApplicationSet.{ApplicationSet}
use applicationset.Utils.Combine.{Params}
use applicationset.Utils.Text.{itoa}
use applicationset.Utils.Text.Decimal.{value, read-itoa}
use applicationset.Services.PullRequest.{PullRequest}
use applicationset.Generators.SecretRef.{GetSecret}
use applicationset.Generators.PullRequests.{
  NewGithubService, pull_params, select_service_provider, generate_params,
}

-- The set says the pull request: the digits under `number` write its number.
abbrev pub Says : PullRequest → Params → Type 0
Says pull params =
    (n : String) × (lookup "number" params ≡ some n)
    × (value 0 n ≡ pull.number)
    × (lookup "branch" params ≡ some pull.branch)
    × (lookup "head_sha" params ≡ some pull.head_sha)

pull_params-Says : (pull : PullRequest) → Says pull (pull_params pull)
unfolding pull_params lookup
pull_params-Says pull = (itoa pull.number, refl, read-itoa pull.number, refl, refl)

map-Says : (pulls : List PullRequest) → All2 Says pulls (map pull_params pulls)
map-Says [] = tt
map-Says (p ∷ pulls) = (pull_params-Says p, map-Says pulls)

module _ (get_secret : GetSecret) (new_github_service : NewGithubService) where
  -- When the selected provider lists pull requests, GenerateParams returns a set for each of them,
  -- in their order, from which its number, its branch and its commit can be read back.
  pub generate_params-Says :
      (g : ApplicationSetGenerator) (app_set : ApplicationSet) (config : PullRequestGenerator)
      (pulls : List PullRequest)
      → g.pull_request ≡ some config
      → select_service_provider get_secret new_github_service config app_set.namespace
        ≡ ok (ok pulls)
      → (sets : List Params) × (generate_params get_secret new_github_service g app_set ≡ ok sets)
        × All2 Says pulls sets
  unfolding generate_params
  generate_params-Says g app_set config pulls h selected =
      (map pull_params pulls, rw (generate_params, h, selected) refl, map-Says pulls)
