-- ===== src/Services/PullRequest.antt =====
-- pkg/services/pull_request/github.go: the pull requests of a repository that have all the labels.
pub mod Laws
use applicationset.Prelude.{
  ℕ, suc, String, Bool, true, false, ◌==◌, List, [], ◌∷◌, ◌++◌, Option, none, some, str_eq,
  if◌then◌else◌,
}
use applicationset.Errors.{Error, Result, ok, err, panic, list_pull_requests_error}
use applicationset.Services.Pages.{Run, done, ◌>>=◌, wrap_run, collect_pages, github_page}

-- `PullRequest` of pkg/services/pull_request/interface.go
pub record PullRequest : Type 0 where
  pub number : ℕ
  pub branch : String
  pub head_sha : String

-- GitHub's answer, whose pointers may be nil: a pull request, the branch that it merges, and the
-- names of its labels.
pub record GithubBranch : Type 0 where
  pub ref : Option String
  pub sha : Option String

pub record GithubPullRequest : Type 0 where
  pub number : Option ℕ
  pub head : Option GithubBranch
  pub labels : List (Option String)

-- The inner loop of `containLabels`: `found`
unfoldable pub label_found : String → List (Option String) → Bool
label_found expected [] = false
label_found expected (name ∷ got) =
    let rest = label_found expected got in
    elim name [ none ↦ rest | some n ↦ if str_eq expected n then true else rest ]

-- `containLabels`
unfoldable pub contain_labels : List String → List (Option String) → Bool
unfolding label_found
contain_labels [] got = true
contain_labels (expected ∷ labels) got =
    let rest = contain_labels labels got in if label_found expected got then rest else false

-- The dereferences `*pull.Number`, `*pull.Head.Ref` and `*pull.Head.SHA`
unfoldable pub to_pull_request : GithubPullRequest → Result PullRequest
to_pull_request pull = elim pull.number [
  | none ↦ panic
  | some number ↦ elim pull.head [
    | none ↦ panic
    | some head ↦ elim head.ref [
      | none ↦ panic
      | some branch ↦ elim head.sha [
        | none ↦ panic
        | some sha ↦ ok (record { number = number; branch = branch; head_sha = sha })
      ]
    ]
  ]
]

-- The loop over the pull requests of a page.
unfoldable pub absorb_pulls : List String → List GithubPullRequest → Run (List PullRequest)
unfolding contain_labels to_pull_request
absorb_pulls labels [] = done (ok [])
absorb_pulls labels (pull ∷ pulls) = elim (contain_labels labels pull.labels) [
  | false ↦ absorb_pulls labels pulls
  | true ↦ do
    p ← done (to_pull_request pull)
    rest ← absorb_pulls labels pulls
    done (ok (p ∷ rest))
]

-- `PullRequests.List` of go-github for an owner and a repository: a page and `resp.NextPage`.
abbrev pub ListPulls : Type 0
ListPulls = String → String → ℕ → Result (List GithubPullRequest × ℕ)

-- `GithubService`
pub record GithubService : Type 0 where
  pub list_pulls : ListPulls
  pub owner : String
  pub repo : String
  pub labels : List String

-- `List`, with at most `fuel` pages; the page 0 that is asked first is the first page.
unfoldable pub list : ℕ → GithubService → Run (List PullRequest)
unfolding collect_pages absorb_pulls
list fuel g = wrap_run (list_pull_requests_error g.owner g.repo) (
    collect_pages (λ page. github_page (g.list_pulls g.owner g.repo page)) (absorb_pulls g.labels)
      fuel 0 [])
