-- ===== src/Services/PullRequest/Laws.antt =====
-- What `List` of pkg/services/pull_request/github.go returns, and that it returns.
use mathlib.Core.List.{Memᴰ}
use mathlib.Core.List.Memᴰ
use mathlib.Core.Bool.{false≢true}
use mathlib.Core.Option.{some-injective}
use applicationset.Prelude.{
  ℕ, ◌<◌, ◌≡◌, refl, ap, String, true, List, [], ◌∷◌, All, All2, keep_if, Option, none, some,
  str_eq, eq_iff, Bool-cases, inl, inr, ◌↔◌,
}
use applicationset.Errors.{Result, ok, list_pull_requests_error}
use applicationset.Errors.Laws.{ok-injective}
use applicationset.Services.Pages.{done, github_page}
use applicationset.Services.Pages.Laws.{
  IsDone, EndsBy, IsComplete, wrapped_pages-ends, bind-IsDone, bind-done, done-ok,
}
use applicationset.Services.PullRequest.{
  PullRequest, GithubPullRequest, GithubService, label_found, contain_labels, to_pull_request,
  absorb_pulls, list,
}

label_found-Mem :
    (expected : String) (got : List (Option String))
    → label_found expected got ≡ true
    → Memᴰ (some expected) got
unfolding label_found
label_found-Mem expected [] h = absurd (false≢true h)
label_found-Mem expected (none ∷ got) h = Memᴰ.tail (label_found-Mem expected got h)
label_found-Mem expected (some n ∷ got) h = elim (Bool-cases (str_eq expected n)) [
  | inl e ↦ Memᴰ.head (ap some ((eq_iff expected n).0 e))
  | inr e ↦ Memᴰ.tail (label_found-Mem expected got (rw e at h))
]

Mem-label_found :
    (expected : String) (got : List (Option String))
    → Memᴰ (some expected) got
    → label_found expected got ≡ true
unfolding label_found
Mem-label_found expected [] h = absurd (Memᴰ.not-nil h)
Mem-label_found expected (none ∷ got) h = elim (Memᴰ.cases_cons h) [
  | inl e ↦ cc
  | inr m ↦ Mem-label_found expected got m
]
Mem-label_found expected (some n ∷ got) h = elim (Bool-cases (str_eq expected n)) [
  | inl e ↦ rw e refl
  | inr e ↦ elim (Memᴰ.cases_cons h) [
    | inl same ↦ cc ((eq_iff expected n).1 (some-injective _ _ same), e)
    | inr m ↦ rw e (Mem-label_found expected got m)
  ]
]

-- `containLabels` is true exactly if each expected label is the name of one of the given labels; labels
-- without a name count for nothing.
pub contain_labels_iff :
    (labels : List String) (got : List (Option String))
    → (contain_labels labels got ≡ true) ↔ All (λ l. Memᴰ (some l) got) labels
unfolding contain_labels
contain_labels_iff [] got = (λ h. tt, λ h. refl)
contain_labels_iff (l ∷ labels) got = (
  λ h. elim (Bool-cases (label_found l got)) [
    | inl e ↦ (label_found-Mem l got e, (contain_labels_iff labels got).0 (rw e at h))
    | inr e ↦ absurd (false≢true (rw e at h))
  ],
  λ (here, rest). rw (Mem-label_found l got here) ((contain_labels_iff labels got).1 rest),
)

absorb_pulls-IsDone :
    (labels : List String) (pulls : List GithubPullRequest) → IsDone (absorb_pulls labels pulls)
unfolding absorb_pulls
absorb_pulls-IsDone labels [] = tt
absorb_pulls-IsDone labels (pull ∷ pulls) = elim (Bool-cases (contain_labels labels pull.labels)) [
  | inr e ↦ rw (absorb_pulls, e) (absorb_pulls-IsDone labels pulls)
  | inl e ↦
      rw (absorb_pulls, e)
        (bind-IsDone (done (to_pull_request pull)) _ tt λ p made.
          bind-IsDone (absorb_pulls labels pulls) _ (absorb_pulls-IsDone labels pulls)
            λ rest absorbed. tt)
]

-- What a page gives, if no pointer that is read is nil, is its pull requests with all the labels,
-- converted, in their order.
pub absorb_pulls-selected :
    (labels : List String) (pulls : List GithubPullRequest) (out : List PullRequest)
    → absorb_pulls labels pulls ≡ done (ok out)
    → All2
        (λ pull p. to_pull_request pull ≡ ok p)
        (keep_if (λ pull. contain_labels labels pull.labels) pulls)
        out
unfolding absorb_pulls
absorb_pulls-selected labels [] out h = rw (← ok-injective (done-ok h)) tt
absorb_pulls-selected labels (pull ∷ pulls) out h =
    elim (Bool-cases (contain_labels labels pull.labels)) [
      | inr e ↦ rw e (absorb_pulls-selected labels pulls out (rw (absorb_pulls, e) at h))
      | inl e ↦
          let (p, made, h') = bind-done (done (to_pull_request pull)) (rw (absorb_pulls, e) at h) in
          let (rest, absorbed, h'') = bind-done (absorb_pulls labels pulls) h' in
          rw (e, ← ok-injective (done-ok h''))
            (done-ok made, absorb_pulls-selected labels pulls rest absorbed)
    ]

-- If each answer of the server without a next page is the end and the others name a later page, up
-- to the page `last`, then more than `last` turns are enough for List: it returns, and if it returns
-- pull requests, they are what the pages give, from the first page to the one that names no next
-- page.
pub list_ends :
    (g : GithubService) (last fuel : ℕ)
    → last < fuel
    → EndsBy (λ page. github_page (g.list_pulls g.owner g.repo page)) (absorb_pulls g.labels) last
    → (r : Result (List PullRequest)) × (list fuel g ≡ done r)
      × IsComplete
          (λ page. github_page (g.list_pulls g.owner g.repo page))
          (absorb_pulls g.labels)
          r
unfolding list
list_ends g last fuel enough ends =
    wrapped_pages-ends (λ page. github_page (g.list_pulls g.owner g.repo page))
      (absorb_pulls g.labels) (list_pull_requests_error g.owner g.repo) last fuel enough ends
      (absorb_pulls-IsDone g.labels)
