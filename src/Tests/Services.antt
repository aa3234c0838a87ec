-- ===== src/Tests/Services.antt =====
-- The theorems on Git repositories, pull requests, providers, decisions and rendering, at small
-- inputs.
use mathlib.Core.Path.{subst}
use mathlib.Core.List.{Memᴰ}
use applicationset.Prelude.{
  ℕ, zero, suc, ◌<◌, ◌≤◌, ◌↔◌, ◌≡◌, ◌⊎◌, inl, inr, refl, String, true, false, not, ◌&&◌, List, [],
  ◌∷◌, map, none, some, Map, lookup, has_key, keep_if, All, All2, str_eq, if◌then◌else◌, arith,
  eq_iff, Bool-cases, ◌==◌,
}
use applicationset.Errors.{Result, ok, err, api_error}
use applicationset.Api.Template.{empty_template}
use applicationset.Api.Generator.{
  ApplicationSetGenerator, GitGenerator, GitDirectoryGeneratorItem, PullRequestGenerator,
}
use applicationset.Utils.Json.{text}
use applicationset.Utils.Combine.{Params}
use applicationset.Services.Repos.{Repos, GitClient, checkout_repo, open_repo, get_directories}
use applicationset.Services.Repos.Walk.{
  Entry, Entries, file, directory, no_entries, entry, walk, get_paths,
}
use applicationset.Services.Repos.Laws.{IsVisibleIn, get_directories-IsVisible}
use applicationset.Services.Pages.{done, github_page}
use applicationset.Services.Pages.Laws.{IsComplete}
use applicationset.Services.PullRequest.{
  PullRequest, GithubPullRequest, GithubService, contain_labels, absorb_pulls, list,
}
use applicationset.Services.PullRequest.Laws.{contain_labels_iff, list_ends}
use applicationset.Generators.Git.{generate_params as generate_git}
use applicationset.Generators.Git.Directories.{PathMatch, app_params}
use applicationset.Generators.Git.Files.{FileReader, generate_params_for_git_files}
use applicationset.Generators.Git.Laws.{is_included, is_excluded, generate_params-directories}
use applicationset.Generators.Git.Order.{generate_params_for_git_files_unordered}
use applicationset.Generators.PullRequests.{
  NewGithubService, select_service_provider, generate_params as generate_pulls,
}
use applicationset.Generators.PullRequests.Laws.{Says, generate_params-Says}
use applicationset.Generators.SecretRef.{get_secret_ref}
use applicationset.Tests.Store.{request, guestbook_set}

abbrev leaf : ApplicationSetGenerator
leaf = record request { list = none }

-- ---- a repository with the directories apps, apps/guestbook, apps/.hidden and apps/.hidden/inner

abbrev guestbook_dir : Entry
guestbook_dir = directory "guestbook" (entry (file "kustomization.yaml") no_entries)

abbrev hidden_dir : Entry
hidden_dir = directory ".hidden" (entry (directory "inner" no_entries) no_entries)

abbrev top_entries : Entries
top_entries =
    entry (directory "apps" (entry hidden_dir (entry guestbook_dir no_entries)))
      (entry (file "README.md") no_entries)

abbrev git_client : GitClient String
git_client = record {
  init = λ c. ok c;
  fetch = λ revision c. ok c;
  ls_remote = λ revision c. ok "0123abc";
  checkout = λ sha c. ok c;
  ls_files = λ pattern c. ok ("README.md" ∷ []);
  read_file = λ path c. ok "";
  tree = λ c. directory "repo" top_entries;
}

abbrev clone : String → Result (Result String)
clone repo_url = ok (ok repo_url)

get_directories-IsVisible_example :
    Memᴰ {A = String} "apps/guestbook" ("apps" ∷ "apps/guestbook" ∷ [])
    ↔ IsVisibleIn "apps/guestbook" "" top_entries
unfolding open_repo checkout_repo get_directories get_paths walk
get_directories-IsVisible_example =
    get_directories-IsVisible git_client clone "https://git.example/apps" "main"
      "https://git.example/apps" "repo" top_entries ("apps" ∷ "apps/guestbook" ∷ [])
      "apps/guestbook" refl refl refl refl

-- ---- the Git generator

abbrev all_apps : GitDirectoryGeneratorItem
all_apps = record { path = "apps/*"; exclude = false }

abbrev not_guestbook : GitDirectoryGeneratorItem
not_guestbook = record { path = "apps/guestbook"; exclude = true }

-- A `path.Match` that knows these two patterns.
abbrev path_match : PathMatch
path_match pattern path =
    ok (if str_eq pattern "apps/*" then str_eq path "apps/guestbook" else str_eq pattern path)

abbrev git : GitGenerator
git = record {
  repo_url = "https://git.example/apps";
  directories = some (all_apps ∷ not_guestbook ∷ []);
  files = none;
  revision = "main";
  requeue_after_seconds = none;
  template = empty_template;
}

abbrev reader : FileReader
reader = record {
  unmarshal_objects = λ content. ((("key", text content) ∷ []) ∷ [], none);
  unmarshal_object = λ content. ok [];
  flatten = λ o. ok o;
  print = λ v. "printed";
}

abbrev repos : Repos
repos = record {
  get_files =
      λ repo_url revision pattern. ok (("b/config.json", "2") ∷ ("a/config.json", "1") ∷ []);
  get_directories = λ repo_url revision. ok ("apps" ∷ "apps/guestbook" ∷ []);
}

generate_params-directories_example :
    generate_git path_match reader repos (record leaf { git = some git }) guestbook_set
    ≡ ok (
        map app_params (
          keep_if
            (λ p.
              is_included path_match (all_apps ∷ not_guestbook ∷ []) p
              && not (is_excluded path_match (all_apps ∷ not_guestbook ∷ []) p))
            ("apps" ∷ "apps/guestbook" ∷ [])))
generate_params-directories_example =
    generate_params-directories path_match reader repos (record leaf { git = some git })
      guestbook_set git (all_apps ∷ not_guestbook ∷ []) ("apps" ∷ "apps/guestbook" ∷ []) refl refl
      refl

-- The same files in two orders.
abbrev b_first : Map String
b_first = ("b/config.json", "2") ∷ ("a/config.json", "1") ∷ []

abbrev a_first : Map String
a_first = ("a/config.json", "1") ∷ ("b/config.json", "2") ∷ []

same_files : (k : String) → lookup k b_first ≡ lookup k a_first
unfolding lookup
same_files k = elim (Bool-cases (str_eq "a/config.json" k)) [
  | inl e ↦ subst (λ j. lookup j b_first ≡ lookup j a_first) ((eq_iff "a/config.json" k).0 e) refl
  | inr e ↦ rw e refl
]

generate_params_for_git_files_unordered_example :
    generate_params_for_git_files reader (λ pattern. ok b_first) (record { path = "*.json" } ∷ [])
    ≡ generate_params_for_git_files reader (λ pattern. ok a_first) (record { path = "*.json" } ∷ [])
unfolding has_key lookup
generate_params_for_git_files_unordered_example =
    generate_params_for_git_files_unordered reader (λ pattern. ok b_first) (λ pattern. ok a_first)
      (record { path = "*.json" } ∷ [])
      (λ pattern. ((refl, (refl, tt)), (refl, (refl, tt)), same_files))

-- ---- pull requests

abbrev pull : ℕ → GithubPullRequest
pull n = record {
  number = some n;
  head = some (record { ref = some "feature"; sha = some "0123abc" });
  labels = some "preview" ∷ none ∷ [];
}

contain_labels_iff_example :
    (contain_labels ("preview" ∷ []) (none ∷ some "preview" ∷ []) ≡ true)
    ↔ All (λ (l : String). Memᴰ (some l) (none ∷ some "preview" ∷ [])) ("preview" ∷ [])
contain_labels_iff_example = contain_labels_iff ("preview" ∷ []) (none ∷ some "preview" ∷ [])

-- Two pages: the first one names page 2, every other one is the last.
abbrev next_of : ℕ → ℕ
next_of page = if page == 0 then 2 else 0

abbrev two_pages : GithubService
two_pages = record {
  list_pulls = λ owner repo page. ok (pull page ∷ [], next_of page);
  owner = "argoproj";
  repo = "argo-cd";
  labels = "preview" ∷ [];
}

leads : (page : ℕ) → ((next_of page == 0) ≡ true) ⊎ ((page < next_of page) × (next_of page ≤ 2))
leads zero = inr (omega arith, omega arith)
leads (suc page) = inl (ground arith)

list_ends_example :
    (r : Result (List PullRequest)) × (list 3 two_pages ≡ done r)
    × IsComplete
        (λ page. github_page (two_pages.list_pulls "argoproj" "argo-cd" page))
        (absorb_pulls ("preview" ∷ []))
        r
list_ends_example = list_ends two_pages 2 3 (omega arith) leads

abbrev pull_config : PullRequestGenerator
pull_config = record {
  github = some (record {
    owner = "argoproj";
    repo = "argo-cd";
    api = "";
    token_ref = none;
    labels = "preview" ∷ [];
  });
  requeue_after_seconds = none;
  template = empty_template;
}

abbrev found_pulls : List PullRequest
found_pulls = record { number = 17; branch = "feature"; head_sha = "0123abc" } ∷ []

abbrev new_service : NewGithubService
new_service token api owner repo labels = ok (ok found_pulls)

generate_params-Says_example :
    (sets : List Params) × (generate_pulls
        (λ namespace name. err (api_error true "not found"))
        new_service
        (record leaf { pull_request = some pull_config })
        guestbook_set
      ≡ ok sets)
    × All2 Says found_pulls sets
unfolding select_service_provider get_secret_ref
generate_params-Says_example =
    generate_params-Says (λ namespace name. err (api_error true "not found")) new_service
      (record leaf { pull_request = some pull_config }) guestbook_set pull_config found_pulls refl
      refl
