-- ===== src/Generators/Git/Laws.antt =====
-- Which directories the Git generator (pkg/generators/git.go) selects.
use applicationset.Prelude.{
  ◌≡◌, refl, sym, String, Bool, true, false, not, ◌&&◌, List, [], ◌∷◌, ◌++◌, map, any, keep_if,
  some, if◌then◌else◌, Bool-cases, inl, inr, ap,
}
use mathlib.Core.List.{append-nil, append_assoc}
use applicationset.Errors.{ok, err, panic, Result-Cases, is_ok, is_err, is_panic}
use applicationset.Api.Generator.{ApplicationSetGenerator, GitGenerator, GitDirectoryGeneratorItem}
use applicationset.Api.ApplicationSet.{ApplicationSet}
use applicationset.Services.Repos.{Repos}
use applicationset.Generators.Git.{generate_params}
use applicationset.Generators.Git.Files.{FileReader}
use applicationset.Generators.Git.Directories.{
  PathMatch, match_item, match_items, filter_apps, app_params,
}

-- `a || b` as the conditional that the loops write.
either_assoc :
    (a b c : Bool)
    → (if (if a then true else b) then true else c) ≡ (if a then true else (if b then true else c))
either_assoc true b c = refl
either_assoc false b c = refl

set_flag : (hit a : Bool) → (if hit then true else a) ≡ (if a then true else hit)
set_flag true true = refl
set_flag true false = refl
set_flag false true = refl
set_flag false false = refl

module _ (path_match : PathMatch) where
  -- The pattern of the item matches; one that is malformed does not.
  abbrev pub matches : String → GitDirectoryGeneratorItem → Bool
  matches path item = elim (path_match item.path path) [ ok b ↦ b | err e ↦ false | panic ↦ false ]

  abbrev pub is_included : List GitDirectoryGeneratorItem → String → Bool
  is_included items path = any (λ item. matches path item && not item.exclude) items

  abbrev pub is_excluded : List GitDirectoryGeneratorItem → String → Bool
  is_excluded items path = any (λ item. matches path item && item.exclude) items

  match_item_lem :
      (path : String) (item : GitDirectoryGeneratorItem) (i e : Bool)
      → match_item path_match path item (i, e) ≡ (
        if i then true else (matches path item && not item.exclude),
        if e then true else (matches path item && item.exclude),
      )
  unfolding match_item
  match_item_lem path item i e = elim (Result-Cases (path_match item.path path)) [
    | is_ok b h ↦
        rw (match_item, matches, h)
          (λ j. (set_flag (b && not item.exclude) i j, set_flag (b && item.exclude) e j))
    | is_err x h ↦ rw (match_item, matches, h) (λ j. (set_flag false i j, set_flag false e j))
    | is_panic h ↦ rw (match_item, matches, h) (λ j. (set_flag false i j, set_flag false e j))
  ]

  match_items_lem :
      (path : String) (items : List GitDirectoryGeneratorItem) (i e : Bool)
      → match_items path_match path items (i, e)
        ≡ (if i then true else is_included items path, if e then true else is_excluded items path)
  unfolding match_items match_item
  match_items_lem path [] i e = λ j. (set_flag false i j, set_flag false e j)
  match_items_lem path (item ∷ items) i e =
      rw
        (
          match_item_lem path item i e,
          match_items_lem path items (if i then true else (matches path item && not item.exclude))
              (if e then true else (matches path item && item.exclude)),
        )
        (λ j. (
          either_assoc i (matches path item && not item.exclude) (is_included items path) j,
          either_assoc e (matches path item && item.exclude) (is_excluded items path) j,
        ))

  filter_apps_lem :
      (items : List GitDirectoryGeneratorItem) (paths res : List String)
      → filter_apps path_match items paths res
        ≡ res ++ keep_if (λ p. is_included items p && not (is_excluded items p)) paths
  unfolding filter_apps
  filter_apps_lem items [] res = sym (append-nil res)
  filter_apps_lem items (p ∷ paths) res =
      elim (Bool-cases (is_included items p && not (is_excluded items p))) [
        | inl e ↦
            rw (match_items_lem p items false false, e, filter_apps_lem items paths (res ++ p ∷ []))
              (append_assoc res (p ∷ []) _)
        | inr e ↦ rw (match_items_lem p items false false, e) (filter_apps_lem items paths res)
      ]

module _ (path_match : PathMatch) (reader : FileReader) (repos : Repos) where
  -- With a list of directories in its spec, GenerateParams returns a set for each directory of the
  -- repository, in their order, that some entry without `exclude` matches and no entry with it does;
  -- a malformed pattern matches nothing.
  pub generate_params-directories :
      (g : ApplicationSetGenerator) (app_set : ApplicationSet) (git : GitGenerator)
      (items : List GitDirectoryGeneratorItem) (paths : List String)
      → g.git ≡ some git
      → git.directories ≡ some items
      → repos.get_directories git.repo_url git.revision ≡ ok paths
      → generate_params path_match reader repos g app_set
        ≡ ok (
            map app_params (
              keep_if
                (λ p. is_included path_match items p && not (is_excluded path_match items p))
                paths))
  unfolding generate_params
  generate_params-directories g app_set git items paths has_git has_items found =
      rw (generate_params, has_git, has_items, found)
        (ap (λ apps. ok (map app_params apps)) (filter_apps_lem path_match items paths []))
