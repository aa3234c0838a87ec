-- ===== src/Services/ScmProvider/Gitlab/Laws.antt =====
-- ListRepos of pkg/services/scm_provider/gitlab.go returns.
use applicationset.Prelude.{ℕ, ◌<◌, ◌≡◌, String, List, [], ◌∷◌, Bool-cases, inl, inr, arith}
use applicationset.Errors.{Result, ok, list_branches_error}
use applicationset.Services.Pages.{done, wrap_run}
use applicationset.Services.Pages.Laws.{
  IsDone, IsDone-wrap_run, EndsBy, IsComplete, collect_pages-ends, collect_pages-IsDone,
  bind-IsDone,
}
use applicationset.Services.ScmProvider.{Repository}
use applicationset.Services.ScmProvider.CloneUrl.{clone_url}
use applicationset.Services.ScmProvider.Gitlab.{
  GitlabProvider, Project, branch_page, to_repositories, list_branches, absorb_projects,
  listed_page, list_repos,
}

module _ (g : GitlabProvider) (last fuel : ℕ) where
  -- The pages of the branches of a repository end by `last`.
  abbrev pub BranchesEnd : Type 0
  BranchesEnd =
      (project : Project)
      → EndsBy (λ page. branch_page (g.client.list_branches project.id page))
          (λ branches. done (ok branches)) last

  list_branches-IsDone :
      (project : Project) → last < fuel → BranchesEnd → IsDone (list_branches g fuel project)
  unfolding list_branches
  list_branches-IsDone project enough ends = elim (Bool-cases g.all_branches) [
    | inr e ↦
        rw (list_branches, e)
          (bind-IsDone (done (g.client.get_branch project.id project.default_branch)) _ tt
            λ b h. tt)
    | inl e ↦
        rw (list_branches, e)
          (collect_pages-IsDone (λ page. branch_page (g.client.list_branches project.id page))
            (λ branches. done (ok branches)) last fuel 0 [] (ends project) (λ items. tt)
            (omega arith) (omega (arith, enough)))
  ]

  absorb_projects-IsDone :
      (protocol : String) (projects : List Project)
      → last < fuel
      → BranchesEnd
      → IsDone (absorb_projects g fuel protocol projects)
  unfolding absorb_projects
  absorb_projects-IsDone protocol [] enough ends = tt
  absorb_projects-IsDone protocol (project ∷ projects) enough ends =
      bind-IsDone
        (done (clone_url "Gitlab" protocol project.ssh_url_to_repo project.http_url_to_repo)) _ tt
        λ url h.
          bind-IsDone
            (wrap_run (list_branches_error g.organization project.name)
              (list_branches g fuel project))
            _
            (IsDone-wrap_run (list_branches_error g.organization project.name)
              (list_branches g fuel project) (list_branches-IsDone project enough ends))
            λ branches h'.
              bind-IsDone (done (to_repositories project url branches)) _ tt λ repos made.
                bind-IsDone (absorb_projects g fuel protocol projects) _
                  (absorb_projects-IsDone protocol projects enough ends) λ rest h''. tt

  -- If the pages of the projects of the group, and those of the branches of each, end by
  -- page `last`, then more than `last` turns of each loop are enough for ListRepos: it returns, and if
  -- it returns repositories, they are what the pages give from the first to the last one.
  pub list_projects_ends :
      (protocol : String)
      → last < fuel
      → BranchesEnd
      → EndsBy (listed_page g) (absorb_projects g fuel protocol) last
      → (r : Result (List Repository)) × (list_repos g fuel protocol ≡ done r)
        × IsComplete (listed_page g) (absorb_projects g fuel protocol) r
  unfolding list_repos listed_page
  list_projects_ends protocol enough branches_end ends =
      collect_pages-ends (listed_page g) (absorb_projects g fuel protocol) last fuel enough ends
        (λ projects. absorb_projects-IsDone protocol projects enough branches_end)
