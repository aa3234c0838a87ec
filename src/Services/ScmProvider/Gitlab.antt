-- ===== src/Services/ScmProvider/Gitlab.antt =====
-- pkg/services/scm_provider/gitlab.go: the projects of a group with their branches.
pub mod Laws
use Prim.Native.String.{◌++◌ as ◌+++◌}
use applicationset.Prelude.{
  ℕ, String, Bool, true, false, not, ◌==◌, leb, List, [], ◌∷◌, ◌++◌, Option, none, some,
  if◌then◌else◌,
}
use applicationset.Errors.{
  Error, Result, ok, err, panic, wrap, list_repositories_error, list_branches_error,
}
use applicationset.Services.Pages.{Run, done, ◌>>=◌, wrap_run, Page, collect_pages}
use applicationset.Services.ScmProvider.{Repository}
use applicationset.Services.ScmProvider.CloneUrl.{clone_url}

-- What is read of a project and of a branch; `namespace` and `commit` are pointers, of which one
-- field is read.
pub record Project : Type 0 where
  pub id : ℕ
  pub name : String
  pub path : String
  pub namespace : Option String
  pub ssh_url_to_repo : String
  pub http_url_to_repo : String
  pub default_branch : String
  pub tag_list : List String

pub record Branch : Type 0 where
  pub name : String
  pub commit : Option String

-- A page with the numbers of the response.
pub record Response {ℓ} (A : Type ℓ) : Type ℓ where
  pub items : List A
  pub current_page : ℕ
  pub total_pages : ℕ
  pub next_page : ℕ

-- go-gitlab's client; the projects of a group with or without those of its subgroups, and the number
-- of the items that a listed tree has in all.
pub record GitlabClient : Type 0 where
  pub list_group_projects : String → Bool → ℕ → Result (Response Project)
  pub get_branch : ℕ → String → Result Branch
  pub list_branches : ℕ → ℕ → Result (Response Branch)
  pub get_project : String → Result ℕ
  pub list_tree : ℕ → String → String → Result ℕ

pub record GitlabProvider : Type 0 where
  pub client : GitlabClient
  pub organization : String
  pub all_branches : Bool
  pub include_subgroups : Bool

-- `if resp.CurrentPage >= resp.TotalPages { break }` for projects
abbrev pub project_page : Result (Response Project) → Result (Page Project)
project_page (ok r) =
    ok (record { items = r.items; is_last = leb r.total_pages r.current_page; next = r.next_page })
project_page (err e) = err e
project_page panic = panic

-- `if resp.NextPage == 0 { break }` for branches
abbrev pub branch_page : Result (Response Branch) → Result (Page Branch)
branch_page (ok r) = ok (record { items = r.items; is_last = r.next_page == 0; next = r.next_page })
branch_page (err e) = err e
branch_page panic = panic

-- The loop over the branches of a project: `Namespace.FullPath` and `Commit.ID` are dereferenced.
unfoldable pub to_repositories : Project → String → List Branch → Result (List Repository)
to_repositories project url [] = ok []
to_repositories project url (branch ∷ branches) =
    let rest = to_repositories project url branches in
    elim project.namespace [
      | none ↦ panic
      | some full_path ↦ elim branch.commit [
        | none ↦ panic
        | some id ↦ elim rest [
          | err e ↦ err e
          | panic ↦ panic
          | ok repos ↦ ok (
              record {
                organization = full_path;
                repository = project.path;
                url = url;
                branch = branch.name;
                sha = id;
                labels = project.tag_list;
              }
              ∷ repos)
        ]
      ]
    ]

-- A page of `ListGroupProjects`, with the text around its error.
unfoldable pub listed_page : GitlabProvider → ℕ → Result (Page Project)
listed_page g page = project_page (
    wrap (list_repositories_error "projects" g.organization)
      (g.client.list_group_projects g.organization g.include_subgroups page))

module _ (g : GitlabProvider) (fuel : ℕ) where
  -- `listBranches`
  unfoldable pub list_branches : Project → Run (List Branch)
  unfolding collect_pages
  list_branches project =
      if not g.all_branches
      then (do
        branch ← done (g.client.get_branch project.id project.default_branch)
        done (ok (branch ∷ [])))
      else collect_pages (λ page. branch_page (g.client.list_branches project.id page))
          (λ branches. done (ok branches)) fuel 0 []

  -- The loop over the projects of a page.
  unfoldable pub absorb_projects : String → List Project → Run (List Repository)
  unfolding list_branches clone_url to_repositories
  absorb_projects protocol [] = done (ok [])
  absorb_projects protocol (project ∷ projects) = do
    url ← done (clone_url "Gitlab" protocol project.ssh_url_to_repo project.http_url_to_repo)
    branches ← wrap_run (list_branches_error g.organization project.name) (list_branches project)
    repos ← done (to_repositories project url branches)
    rest ← absorb_projects protocol projects
    done (ok (repos ++ rest))

  -- `ListRepos`
  unfoldable pub list_repos : String → Run (List Repository)
  unfolding absorb_projects listed_page
  list_repos protocol = collect_pages (listed_page g) (absorb_projects protocol) fuel 0 []

-- `RepoHasPath`
unfoldable pub repo_has_path : GitlabProvider → Repository → String → Result Bool
repo_has_path g repo path =
    elim (g.client.get_project (repo.organization +++ "/" +++ repo.repository)) [
      | err e ↦ err e
      | panic ↦ panic
      | ok id ↦ elim (g.client.list_tree id path repo.branch) [
        | err e ↦ err e
        | panic ↦ panic
        | ok total_items ↦ ok (not (total_items == 0))
      ]
    ]
