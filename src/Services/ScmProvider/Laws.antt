-- ===== src/Services/ScmProvider/Laws.antt =====
-- Which repositories `ListRepos` returns.
use applicationset.Prelude.{
  String, ◌≡◌, refl, Bool, true, not, ◌&&◌, List, [], ◌∷◌, Option, none, some, any, arith, inl, inr,
  keep_if, Bool-cases,
}
use applicationset.Errors.{ok}
use applicationset.Api.Generator.{ScmProviderGeneratorFilter}
use applicationset.Utils.Regexp.{Regexp, Compile}
use applicationset.Services.ScmProvider.{
  Repository, ScmProviderService, Filter, compile_filters, refuses, refuses_labels, has_paths,
  match_filter, match_any, filter_repos, apply_filters, list_repos,
}

-- A text against an expression, if there is one.
abbrev pub accepts : Option Regexp → String → Bool
accepts none text = true
accepts (some r) text = r text

abbrev pub accepts_labels : Option Regexp → List String → Bool
accepts_labels none labels = true
accepts_labels (some r) labels = any r labels

abbrev pub every : (String → Bool) → List String → Bool
every p [] = true
every p (x ∷ xs) = p x && every p xs

-- The conditions of a filter, all together.
abbrev pub passes : (Repository → String → Bool) → Repository → Filter → Bool
passes has_path repo filter =
    accepts filter.repository_match repo.repository
    && (accepts filter.branch_match repo.branch
        && (accepts_labels filter.label_match repo.labels
            && every (has_path repo) filter.paths_exist))

-- No filter at all, or one that passes.
abbrev pub selected : (Repository → String → Bool) → List Filter → Repository → Bool
selected has_path [] repo = true
selected has_path (f ∷ fs) repo = any (passes has_path repo) (f ∷ fs)

refuses-accepts : (r : Option Regexp) (text : String) → refuses r text ≡ not (accepts r text)
unfolding refuses
refuses-accepts none text = refl
refuses-accepts (some r) text = refl

refuses_labels-accepts_labels :
    (r : Option Regexp) (labels : List String)
    → refuses_labels r labels ≡ not (accepts_labels r labels)
unfolding refuses_labels
refuses_labels-accepts_labels none labels = refl
refuses_labels-accepts_labels (some r) labels = refl

keep_all : {A : Type 0} (xs : List A) → xs ≡ keep_if (λ x. true) xs
keep_all [] = refl
keep_all (x ∷ xs) = ground (arith, keep_all xs)

module _ (provider : ScmProviderService) (has_path : Repository → String → Bool)
    (answers : (r : Repository) (p : String) → provider.repo_has_path r p ≡ ok (has_path r p)) where
  has_paths-every :
      (r : Repository) (ps : List String) → has_paths provider r ps ≡ ok (every (has_path r) ps)
  unfolding has_paths
  has_paths-every r [] = refl
  has_paths-every r (p ∷ ps) = elim (Bool-cases (has_path r p)) [
    | inl e ↦ rw (answers r p, e, has_paths) (has_paths-every r ps)
    | inr e ↦ rw (answers r p, e, has_paths)
  ]

  match_filter-passes :
      (r : Repository) (f : Filter) → match_filter provider r f ≡ ok (passes has_path r f)
  unfolding match_filter
  match_filter-passes r f =
      rw
        (
          refuses-accepts f.repository_match r.repository,
          refuses-accepts f.branch_match r.branch,
          refuses_labels-accepts_labels,
          has_paths-every,
        )
        (ground arith)

  match_any-any :
      (r : Repository) (fs : List Filter)
      → match_any provider r fs ≡ ok (any (passes has_path r) fs)
  unfolding match_any
  match_any-any r [] = refl
  match_any-any r (f ∷ fs) = elim (Bool-cases (passes has_path r f)) [
    | inl e ↦ rw (match_filter-passes r f, e, match_any)
    | inr e ↦ rw (match_filter-passes r f, e, match_any) (match_any-any r fs)
  ]

  filter_repos-keep_if :
      (fs : List Filter) (rs : List Repository)
      → filter_repos provider fs rs ≡ ok (keep_if (λ r. any (passes has_path r) fs) rs)
  unfolding filter_repos
  filter_repos-keep_if fs [] = refl
  filter_repos-keep_if fs (r ∷ rs) = rw (match_any-any r fs, filter_repos-keep_if fs rs)

  apply_filters-selected :
      (fs : List Filter) (rs : List Repository)
      → apply_filters provider fs rs ≡ ok (keep_if (selected has_path fs) rs)
  unfolding apply_filters
  apply_filters-selected [] rs = rw (← keep_all rs)
  apply_filters-selected (f ∷ fs) rs = filter_repos-keep_if (f ∷ fs) rs

  -- If the filters compile, and the provider lists its repositories and answers for their paths,
  -- `ListRepos` returns, in the provider's order, exactly the repositories for which all conditions
  -- of at least one filter hold, or all of them if there is no filter.
  pub list_repos-selected :
      (compile : Compile) (filters : List ScmProviderGeneratorFilter) (clone_protocol : String)
      (compiled : List Filter) (repos : List Repository)
      → compile_filters compile filters ≡ ok compiled
      → provider.list_repos clone_protocol ≡ ok repos
      → list_repos provider compile filters clone_protocol
        ≡ ok (keep_if (selected has_path compiled) repos)
  unfolding list_repos
  list_repos-selected compile filters clone_protocol compiled repos c l =
      rw (c, l) (apply_filters-selected compiled repos)
