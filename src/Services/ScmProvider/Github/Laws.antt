-- ===== src/Services/ScmProvider/Github/Laws.antt =====
-- ListRepos of pkg/services/scm_provider/github.go returns.
use applicationset.Prelude.{ℕ, ◌<◌, ◌≡◌, String, List, [], ◌∷◌, Bool-cases, inl, inr, arith}
use applicationset.Errors.{Result, ok, list_branches_error}
use applicationset.Services.Pages.{done, wrap_run, github_page}
use applicationset.Services.Pages.Laws.{
  IsDone, IsDone-wrap_run, EndsBy, IsComplete, collect_pages-ends, collect_pages-IsDone,
  bind-IsDone,
}
use applicationset.Services.ScmProvider.{Repository}
use applicationset.Services.ScmProvider.CloneUrl.{clone_url}
use applicationset.Services.ScmProvider.Github.{
  GithubProvider, GithubRepo, list_branches, absorb_repos, repo_page, list_repos,
}

module _ (g : GithubProvider) (last fuel : ℕ) where
  -- The pages of the branches of a repository end by `last`.
  abbrev pub BranchesEnd : Type 0
  BranchesEnd =
      (repo : GithubRepo)
      → EndsBy (λ page. github_page (g.client.list_branches repo.owner repo.name page))
          (λ branches. done (ok branches)) last

  list_branches-IsDone :
      (repo : GithubRepo) → last < fuel → BranchesEnd → IsDone (list_branches g fuel repo)
  unfolding list_branches
  list_branches-IsDone repo enough ends = elim (Bool-cases g.all_branches) [
    | inr e ↦
        rw (list_branches, e)
          (bind-IsDone (done (g.client.get_branch repo.owner repo.name repo.default_branch)) _ tt
            λ b h. tt)
    | inl e ↦
        rw (list_branches, e)
          (collect_pages-IsDone
            (λ page. github_page (g.client.list_branches repo.owner repo.name page))
            (λ branches. done (ok branches)) last fuel 0 [] (ends repo) (λ items. tt) (omega arith)
            (omega (arith, enough)))
  ]

  absorb_repos-IsDone :
      (protocol : String) (repos : List GithubRepo)
      → last < fuel
      → BranchesEnd
      → IsDone (absorb_repos g fuel protocol repos)
  unfolding absorb_repos
  absorb_repos-IsDone protocol [] enough ends = tt
  absorb_repos-IsDone protocol (repo ∷ repos) enough ends =
      bind-IsDone (done (clone_url "GitHub" protocol repo.ssh_url repo.clone_url)) _ tt λ url h.
        bind-IsDone
          (wrap_run (list_branches_error repo.owner repo.name) (list_branches g fuel repo)) _
          (IsDone-wrap_run (list_branches_error repo.owner repo.name) (list_branches g fuel repo)
            (list_branches-IsDone repo enough ends))
          λ branches h'.
            bind-IsDone (absorb_repos g fuel protocol repos) _
              (absorb_repos-IsDone protocol repos enough ends) λ rest h''. tt

  -- If the pages of the repositories of the organization, and those of the branches of each, end by
  -- page `last`, then more than `last` turns of each loop are enough for ListRepos: it returns, and if
  -- it returns repositories, they are what the pages give from the first to the last one.
  pub list_repos_ends :
      (protocol : String)
      → last < fuel
      → BranchesEnd
      → EndsBy (repo_page g) (absorb_repos g fuel protocol) last
      → (r : Result (List Repository)) × (list_repos g fuel protocol ≡ done r)
        × IsComplete (repo_page g) (absorb_repos g fuel protocol) r
  unfolding list_repos repo_page
  list_repos_ends protocol enough branches_end ends =
      collect_pages-ends (repo_page g) (absorb_repos g fuel protocol) last fuel enough ends
        (λ repos. absorb_repos-IsDone protocol repos enough branches_end)
