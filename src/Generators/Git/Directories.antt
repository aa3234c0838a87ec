-- ===== src/Generators/Git/Directories.antt =====
-- The directories that pkg/generators/git.go selects, and their parameters.
use applicationset.Prelude.{
  String, Bool, true, false, not, ◌&&◌, List, [], ◌∷◌, ◌++◌, map, if◌then◌else◌,
}
use applicationset.Errors.{Result, ok, err, panic}
use applicationset.Api.Generator.{GitDirectoryGeneratorItem}
use applicationset.Utils.Combine.{Params}
use applicationset.Generators.Git.Segments.{add_path}

-- `path.Match` of a pattern and a path; an error is a malformed pattern.
abbrev pub PathMatch : Type 0
PathMatch = String → String → Result Bool

module _ (path_match : PathMatch) where
  -- One turn of the inner loop of `filterApps`: the flags `appInclude` and `appExclude`.
  unfoldable pub match_item : String → GitDirectoryGeneratorItem → Bool × Bool → Bool × Bool
  match_item app_path item (include, exclude) = elim (path_match item.path app_path) [
    | err e ↦ (include, exclude)
    | panic ↦ (include, exclude)
    | ok matches ↦ (
      if matches && not item.exclude then true else include,
      if matches && item.exclude then true else exclude,
    )
  ]

  unfoldable pub match_items : String → List GitDirectoryGeneratorItem → Bool × Bool → Bool × Bool
  unfolding match_item
  match_items app_path [] flags = flags
  match_items app_path (item ∷ items) flags =
      match_items app_path items (match_item app_path item flags)

  -- `filterApps`
  unfoldable pub filter_apps :
      List GitDirectoryGeneratorItem → List String → List String → List String
  unfolding match_items
  filter_apps items [] res = res
  filter_apps items (app_path ∷ paths) res =
      let (include, exclude) = match_items app_path items (false, false) in
      filter_apps items paths (if include && not exclude then res ++ app_path ∷ [] else res)

-- The parameters of one directory in `generateParamsFromApps`.
unfoldable pub app_params : String → Params
unfolding add_path
app_params app_path = add_path app_path []

-- `generateParamsFromApps`
abbrev pub generate_params_from_apps : List String → List Params
generate_params_from_apps = map app_params
