-- ===== src/Services/ScmProvider/Github.antt =====
-- pkg/services/scm_provider/github.go: the repositories of an organization with their branches.
pub mod Laws
use applicationset.Prelude.{
  ℕ, String, Bool, true, false, not, ◌==◌, List, [], ◌∷◌, ◌++◌, map, Option, none, some,
  if◌then◌else◌,
}
use applicationset.Errors.{
  Error, Result, ok, err, panic, wrap, list_repositories_error, list_branches_error,
}
use applicationset.Services.Pages.{Run, done, ◌>>=◌, wrap_run, Page, collect_pages, github_page}
use applicationset.Services.ScmProvider.{Repository}
use applicationset.Services.ScmProvider.CloneUrl.{clone_url}

-- What is read of a repository of GitHub: `GetX` of a nil pointer is the empty text.
pub record GithubRepo : Type 0 where
  pub owner : String
  pub name : String
  pub ssh_url : String
  pub clone_url : String
  pub default_branch : String
  pub topics : List String

pub record Branch : Type 0 where
  pub name : String
  pub sha : String

-- go-github's client: a page of a list comes with `resp.NextPage`, and `GetContents` with the status
-- of the response, if there is one.
pub record GithubClient : Type 0 where
  pub list_by_org : String → ℕ → Result (List GithubRepo × ℕ)
  pub get_branch : String → String → String → Result Branch
  pub list_branches : String → String → ℕ → Result (List Branch × ℕ)
  pub get_contents : String → String → String → String → Option ℕ × Option Error

pub record GithubProvider : Type 0 where
  pub client : GithubClient
  pub organization : String
  pub all_branches : Bool

-- A page of `ListByOrg`, with the text around its error.
unfoldable pub repo_page : GithubProvider → ℕ → Result (Page GithubRepo)
repo_page g page = github_page (
    wrap (list_repositories_error "repositories" g.organization)
      (g.client.list_by_org g.organization page))

module _ (g : GithubProvider) (fuel : ℕ) where
  -- `listBranches`
  unfoldable pub list_branches : GithubRepo → Run (List Branch)
  unfolding collect_pages
  list_branches repo =
      if not g.all_branches
      then (do
        branch ← done (g.client.get_branch repo.owner repo.name repo.default_branch)
        done (ok (branch ∷ [])))
      else collect_pages (λ page. github_page (g.client.list_branches repo.owner repo.name page))
          (λ branches. done (ok branches)) fuel 0 []

  -- The loop over the repositories of a page.
  unfoldable pub absorb_repos : String → List GithubRepo → Run (List Repository)
  unfolding list_branches clone_url
  absorb_repos protocol [] = done (ok [])
  absorb_repos protocol (repo ∷ repos) = do
    url ← done (clone_url "GitHub" protocol repo.ssh_url repo.clone_url)
    branches ← wrap_run (list_branches_error repo.owner repo.name) (list_branches repo)
    rest ← absorb_repos protocol repos
    done (
        ok (
          map
            (λ branch. record {
              organization = repo.owner;
              repository = repo.name;
              url = url;
              branch = branch.name;
              sha = branch.sha;
              labels = repo.topics;
            })
            branches
          ++ rest))

  -- `ListRepos`
  unfoldable pub list_repos : String → Run (List Repository)
  unfolding absorb_repos repo_page
  list_repos protocol = collect_pages (repo_page g) (absorb_repos protocol) fuel 0 []

-- `RepoHasPath`: 404 is no error.
unfoldable pub repo_has_path : GithubProvider → Repository → String → Result Bool
repo_has_path g repo path =
    let (status, failed) =
      g.client.get_contents repo.organization repo.repository path repo.branch in
    let missing : Bool = elim status [ none ↦ false | some code ↦ code == 404 ] in
    if missing then ok false else elim failed [ none ↦ ok true | some e ↦ err e ]
