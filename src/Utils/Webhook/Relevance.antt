-- ===== src/Utils/Webhook/Relevance.antt =====
-- What an event says of git and pull request generators (pkg/utils/webhook.go).
use Prim.Native.Char.{code}
use Prim.Native.String.{[], ◌∷◌, ◌++◌}
use applicationset.Prelude.{
  String, Bool, false, ◌&&◌, ◌||◌, Option, none, some, ◌==◌, str_eq, if◌then◌else◌,
}
use applicationset.Errors.{Result, ok, err, panic}
use applicationset.Api.Generator.{GitGenerator, PullRequestGenerator, PullRequestGeneratorGithub}
use applicationset.Utils.Regexp.{Regexp, Compile}
use applicationset.Utils.Text.{is_empty}

-- The payloads of the webhook libraries, with the fields that are read.
pub data Payload : Type 0 where
  -- `github.PushPayload`: the page and the default branch of the repository, and the ref
  github_push : (html_url default_branch ref : String) → Payload
  -- `gitlab.PushEventPayload`: the page and the default branch of the project, and the ref
  gitlab_push : (web_url default_branch ref : String) → Payload
  -- `github.PullRequestPayload`: the action, and URL, name and owner of the repository
  github_pull_request : (action url name owner : String) → Payload
  other_payload : Payload

-- `*url.URL`, as far as it is read, and `url.Parse`
pub record Url : Type 0 where
  pub hostname : String
  pub path : String

abbrev pub ParseUrl : Type 0
ParseUrl = String → Result Url

pub record GitGeneratorInfo : Type 0 where
  pub revision : String
  pub touched_head : Bool
  pub repo_regexp : Regexp

pub record PrGeneratorGithubInfo : Type 0 where
  pub repo : String
  pub owner : String
  pub api_regexp : Regexp

pub record PrGeneratorInfo : Type 0 where
  pub github : Option PrGeneratorGithubInfo

-- What follows the first slash.
unfoldable pub after_slash : String → Option String
after_slash [] = none
after_slash (c ∷ s) = let rest = after_slash s in if code c == b'/' then some s else rest

-- `parseRevision`: the last of at most three parts
unfoldable pub parse_revision : String → String
unfolding after_slash
parse_revision ref = elim (after_slash ref) [
  | none ↦ ref
  | some rest ↦ elim (after_slash rest) [ none ↦ rest | some last ↦ last ]
]

-- The start of both expressions, for a host.
abbrev pub host_regexp : String → String
host_regexp host = "(?i)(http://|https://|\\w+@|ssh://(\\w+@)?)" ++ host ++ "(:[0-9]+|)[:/]"

-- `urlObj.Path[1:]`
unfoldable pub path_tail : String → Result String
path_tail [] = panic
path_tail (c ∷ path) = ok path

module _ (parse : ParseUrl) (compile : Compile) where
  -- The information of a push; the revision is only logged.
  unfoldable pub git_info : Bool → String → Result (Option GitGeneratorInfo)
  unfolding path_tail
  git_info touched_head web_url = elim (parse web_url) [
    | err e ↦ ok none
    | panic ↦ panic
    | ok url ↦ elim (path_tail url.path) [
      | err e ↦ err e
      | panic ↦ panic
      | ok path ↦ elim (compile (host_regexp url.hostname ++ path ++ "(\\.git)?")) [
        | err e ↦ ok none
        | panic ↦ panic
        | ok r ↦ ok (some (record { revision = ""; touched_head = touched_head; repo_regexp = r }))
      ]
    ]
  ]

  -- `getGitGeneratorInfo`
  unfoldable pub get_git_generator_info : Payload → Result (Option GitGeneratorInfo)
  get_git_generator_info (github_push html_url default_branch ref) =
      git_info (str_eq default_branch (parse_revision ref)) html_url
  get_git_generator_info (gitlab_push web_url default_branch ref) =
      git_info (str_eq default_branch (parse_revision ref)) web_url
  get_git_generator_info (github_pull_request action url name owner) = ok none
  get_git_generator_info other_payload = ok none

  -- The information of a pull request of an allowed action.
  unfoldable pub pr_info : String → String → String → Result (Option PrGeneratorInfo)
  pr_info api_url name owner = elim (parse api_url) [
    | err e ↦ ok none
    | panic ↦ panic
    | ok url ↦ elim (compile (host_regexp url.hostname)) [
      | err e ↦ ok none
      | panic ↦ panic
      | ok r ↦
          ok (
            some (record { github = some (record { repo = name; owner = owner; api_regexp = r }) }))
    ]
  ]

  -- `isAllowedPullRequestAction`, with its list
  unfoldable pub is_allowed_pull_request_action : String → Bool
  is_allowed_pull_request_action action =
      str_eq "opened" action
      || (str_eq "closed" action
          || (str_eq "synchronize" action
              || (str_eq "labeled" action
                  || (str_eq "reopened" action || str_eq "unlabeled" action))))

  -- `getPRGeneratorInfo`
  unfoldable pub get_pr_generator_info : Payload → Result (Option PrGeneratorInfo)
  get_pr_generator_info (github_pull_request action url name owner) =
      if is_allowed_pull_request_action action then pr_info url name owner else ok none
  get_pr_generator_info (github_push html_url default_branch ref) = ok none
  get_pr_generator_info (gitlab_push web_url default_branch ref) = ok none
  get_pr_generator_info other_payload = ok none

-- `genRevisionHasChanged`
unfoldable pub gen_revision_has_changed : GitGenerator → String → Bool → Bool
gen_revision_has_changed gen revision touched_head =
    let target = parse_revision gen.revision in
    if str_eq target "HEAD" || is_empty target then touched_head else str_eq target revision

-- `shouldRefreshGitGenerator`, with `gitGeneratorUsesURL`
unfoldable pub should_refresh_git_generator : Option GitGenerator → Option GitGeneratorInfo → Bool
unfolding gen_revision_has_changed
should_refresh_git_generator none info = false
should_refresh_git_generator (some gen) none = false
should_refresh_git_generator (some gen) (some info) =
    if info.repo_regexp gen.repo_url
    then gen_revision_has_changed gen info.revision info.touched_head
    else false

-- The comparison of a GitHub generator with the event.
unfoldable pub same_repository :
    Option PullRequestGeneratorGithub → Option PrGeneratorGithubInfo → Bool
same_repository none info = false
same_repository (some gen) none = false
same_repository (some gen) (some info) =
    str_eq gen.owner info.owner
    && (str_eq gen.repo info.repo
        && info.api_regexp (if is_empty gen.api then "https://api.github.com/" else gen.api))

-- `shouldRefreshPRGenerator`
unfoldable pub should_refresh_pr_generator :
    Option PullRequestGenerator → Option PrGeneratorInfo → Bool
unfolding same_repository
should_refresh_pr_generator none info = false
should_refresh_pr_generator (some gen) none = false
should_refresh_pr_generator (some gen) (some info) = same_repository gen.github info.github
