-- ===== src/Tests/Providers.antt =====
-- The theorems on providers of repositories, on decisions and on levels, at small inputs.
use applicationset.Prelude.{
  ℕ, zero, suc, ◌<◌, ◌≤◌, ◌≡◌, ◌⊎◌, inl, inr, refl, true, false, List, [], ◌∷◌, ◌++◌, none, some,
  insert, lookup, keep_if, All2, if◌then◌else◌, arith, ◌==◌,
}
use applicationset.Errors.{NoPanic, Result, ok, panic}
use applicationset.Api.Template.{empty_template}
use applicationset.Api.Generator.{
  ApplicationSetGenerator, DuckTypeGenerator, ApplicationSetTerminalGenerator,
  ApplicationSetNestedGenerator,
}
use applicationset.Utils.Json.{Value, text, end_fields, field, object}
use applicationset.Utils.Combine.{Params}
use applicationset.Utils.Clusters.{Cluster}
use applicationset.Services.ScmProvider.{Repository}
use applicationset.Services.ScmProvider.Github.{
  GithubClient, GithubProvider, GithubRepo, absorb_repos, repo_page, list_repos as list_github,
}
use applicationset.Services.ScmProvider.Github.Laws.{list_repos_ends}
use applicationset.Services.ScmProvider.Gitlab.{
  GitlabClient, GitlabProvider, Project, absorb_projects, listed_page, list_repos as list_gitlab,
}
use applicationset.Services.ScmProvider.Gitlab.Laws.{list_projects_ends}
use applicationset.Services.Pages.{done}
use applicationset.Services.Pages.Laws.{IsComplete}
use applicationset.Generators.Interface.{Generator}
use applicationset.Generators.DuckType.Decisions.{
  matched_cluster, match_value, find_cluster, decided_params, add_fields, decision_params,
}
use applicationset.Generators.DuckType.Laws.{
  is_decided, IsDecisionSet, decision_params-IsDecisionSet,
}
use applicationset.Generators.Prefixed.{add_prefixed}
use applicationset.Generators.Levels.{Leaves, top_level_generators}
use applicationset.Generators.Levels.Laws.{top_level-NoPanic}
use applicationset.Generators.Transform.{transform}
use applicationset.Tests.Store.{request, guestbook_set}

abbrev leaf : ApplicationSetGenerator
leaf = record request { list = none }

-- ---- GitHub: one page of repositories, and two pages of branches of each

abbrev argo_cd : GithubRepo
argo_cd = record {
  owner = "argoproj";
  name = "argo-cd";
  ssh_url = "git@github.example:argoproj/argo-cd.git";
  clone_url = "https://github.example/argoproj/argo-cd.git";
  default_branch = "master";
  topics = "gitops" ∷ [];
}

abbrev next_of : ℕ → ℕ
next_of page = if page == 0 then 2 else 0

abbrev github_client : GithubClient
github_client = record {
  list_by_org = λ organization page. ok (argo_cd ∷ [], 0);
  get_branch = λ owner name branch. ok (record { name = branch; sha = "0123abc" });
  list_branches =
      λ owner name page. ok (record { name = "master"; sha = "0123abc" } ∷ [], next_of page);
  get_contents = λ owner name path ref. (some 404, none);
}

abbrev github : GithubProvider
github = record { client = github_client; organization = "argoproj"; all_branches = true }

leads : (page : ℕ) → ((next_of page == 0) ≡ true) ⊎ ((page < next_of page) × (next_of page ≤ 2))
leads zero = inr (omega arith, omega arith)
leads (suc page) = inl (ground arith)

list_repos_ends_example :
    (r : Result (List Repository)) × (list_github github 3 "https" ≡ done r)
    × IsComplete (repo_page github) (absorb_repos github 3 "https") r
unfolding repo_page
list_repos_ends_example =
    list_repos_ends github 2 3 "https" (omega arith) (λ repo page. leads page) (λ page. inl refl)

-- ---- GitLab: one page of projects

abbrev project : Project
project = record {
  id = 1;
  name = "argo-cd";
  path = "argo-cd";
  namespace = some "argoproj";
  ssh_url_to_repo = "git@gitlab.example:argoproj/argo-cd.git";
  http_url_to_repo = "https://gitlab.example/argoproj/argo-cd.git";
  default_branch = "master";
  tag_list = [];
}

abbrev gitlab_client : GitlabClient
gitlab_client = record {
  list_group_projects = λ group subgroups page.
      ok (record { items = project ∷ []; current_page = 1; total_pages = 1; next_page = 0 });
  get_branch = λ id branch. ok (record { name = branch; commit = some "0123abc" });
  list_branches = λ id page. ok (record {
    items = record { name = "master"; commit = some "0123abc" } ∷ [];
    current_page = page;
    total_pages = 2;
    next_page = next_of page;
  });
  get_project = λ path. ok 1;
  list_tree = λ id path ref. ok 0;
}

abbrev gitlab : GitlabProvider
gitlab = record {
  client = gitlab_client;
  organization = "argoproj";
  all_branches = true;
  include_subgroups = false;
}

list_projects_ends_example :
    (r : Result (List Repository)) × (list_gitlab gitlab 3 "" ≡ done r)
    × IsComplete (listed_page gitlab) (absorb_projects gitlab 3 "") r
unfolding listed_page
list_projects_ends_example =
    list_projects_ends gitlab 2 3 "" (omega arith) (λ p page. leads page) (λ page. inl refl)

-- ---- decisions

abbrev duck : DuckTypeGenerator
duck = record {
  config_map_ref = "placement";
  name = "placement";
  requeue_after_seconds = none;
  label_selector = record { match_labels = none; match_expressions = none };
  template = empty_template;
  values = [];
}

abbrev known : List Cluster
known = record { name = "production"; server = "https://production.example" } ∷ []

abbrev decided : Value
decided = object (field "clusterName" (text "production") (field "reason" (text "cost") end_fields))

abbrev unknown : Value
unknown = object (field "clusterName" (text "lost") end_fields)

abbrev decided_set : Params
decided_set =
    ("name", "production")
    ∷ ("server", "https://production.example")
    ∷ ("clusterName", "production")
    ∷ ("reason", "cost")
    ∷ []

decision_params-IsDecisionSet_example :
    (new : List Params) × ((decided_set ∷ []) ≡ ([] ++ new))
    × All2
        (IsDecisionSet duck "clusterName" known)
        (keep_if (is_decided duck "clusterName" known) (unknown ∷ decided ∷ []))
        new
unfolding decision_params matched_cluster match_value find_cluster decided_params add_fields
    add_prefixed insert lookup
decision_params-IsDecisionSet_example =
    decision_params-IsDecisionSet duck "clusterName" known (unknown ∷ decided ∷ []) []
      (decided_set ∷ []) refl

-- ---- the levels

abbrev idle : Generator
idle = record {
  generate_params = λ g app_set. ok [];
  get_requeue_after = λ g. panic;
  get_template = λ g. ok empty_template;
}

abbrev leaves : Leaves
leaves = record {
  list = idle;
  clusters = idle;
  git = idle;
  scm_provider = idle;
  cluster_decision_resource = idle;
  pull_request = idle;
}

abbrev nothing : ApplicationSetTerminalGenerator
nothing = record {
  list = none;
  clusters = none;
  git = none;
  scm_provider = none;
  cluster_decision_resource = none;
  pull_request = none;
}

abbrev listed : ApplicationSetTerminalGenerator
listed = record nothing { list = request.list }

-- A matrix of two children, each a nested matrix of two lists.
abbrev nested : ApplicationSetNestedGenerator
nested = record {
  list = none;
  clusters = none;
  git = none;
  scm_provider = none;
  cluster_decision_resource = none;
  pull_request = none;
  matrix = some (record { generators = listed ∷ listed ∷ [] });
  merge = none;
}

abbrev twice_nested : ApplicationSetGenerator
twice_nested = record request {
  list = none;
  matrix = some (record { generators = nested ∷ nested ∷ []; template = empty_template });
}

top_level-NoPanic_example : NoPanic (
    transform
      (λ a b. ok a)
      twice_nested
      (top_level_generators (λ a b. ok a) (λ params. "") (λ params. params) leaves)
      empty_template
      guestbook_set)
top_level-NoPanic_example =
    top_level-NoPanic (λ a b. ok a) (λ a b. tt) (λ params. "") (λ params. params) leaves
      (record {
        list = λ r x e. (tt, λ s. tt);
        clusters = λ r x e. (tt, λ s. tt);
        git = λ r x e. (tt, λ s. tt);
        scm_provider = λ r x e. (tt, λ s. tt);
        cluster_decision_resource = λ r x e. (tt, λ s. tt);
        pull_request = λ r x e. (tt, λ s. tt);
      })
      twice_nested empty_template guestbook_set
