-- ===== src/Services/Repos.antt =====
-- pkg/services/repo_service.go: the files and the directories of a Git repository.
pub mod Walk
pub mod Laws
use applicationset.Prelude.{String, List, [], ◌∷◌, Map, insert}
use applicationset.Errors.{
  Result, ok, ◌>>=◌, wrap, get_repository_error, list_files_error, init_error, fetch_error,
  commit_error, checkout_error,
}
use applicationset.Services.Repos.Walk.{Entry, get_paths}

-- `Repos`; what a repository has is fixed while it is asked.
pub record Repos : Type 0 where
  pub get_files : String → String → String → Result (Map String)
  pub get_directories : String → String → Result (List String)

-- Argo CD's `git.Client`, over the state `C` of a local clone. `read_file` is `os.ReadFile` below the
-- root, and `tree` what `filepath.Walk` finds at the root.
pub record GitClient {ℓ} (C : Type ℓ) : Type ℓ where
  pub init : C → Result C
  pub fetch : String → C → Result C
  pub ls_remote : String → C → Result String
  pub checkout : String → C → Result C
  pub ls_files : String → C → Result (List String)
  pub read_file : String → C → Result String
  pub tree : C → Entry

module _ {ℓ} {C : Type ℓ} (client : GitClient C) where
  -- `checkoutRepo`, with the clone that it leaves
  unfoldable pub checkout_repo : String → C → Result C
  checkout_repo revision c = do
    c ← wrap init_error (client.init c)
    c ← wrap fetch_error (client.fetch revision c)
    sha ← wrap commit_error (client.ls_remote revision c)
    wrap checkout_error (client.checkout sha c)

  -- The loop over the listed paths.
  unfoldable pub read_files : C → List String → Map String → Result (Map String)
  unfolding insert
  read_files c [] res = ok res
  read_files c (path ∷ paths) res = do
    bytes ← client.read_file path c
    read_files c paths (insert path bytes res)

  -- `GetRepository` with `git.NewClient`: a clone for an address, with the two ways to fail.
  module _ (get_repository : String → Result (Result C)) where
    unfoldable pub open_repo : String → String → Result C
    unfolding checkout_repo
    open_repo repo_url revision = do
      made ← wrap get_repository_error (get_repository repo_url)
      c ← made
      checkout_repo revision c

    -- `GetFiles`
    unfoldable pub get_files : String → String → String → Result (Map String)
    unfolding open_repo read_files
    get_files repo_url revision pattern = do
      c ← open_repo repo_url revision
      paths ← wrap list_files_error (client.ls_files pattern c)
      read_files c paths []

    -- `GetDirectories`
    unfoldable pub get_directories : String → String → Result (List String)
    unfolding open_repo get_paths
    get_directories repo_url revision = do
      c ← open_repo repo_url revision
      get_paths (client.tree c)

    -- `NewArgoCDService`
    unfoldable pub new_argo_cd_service : Repos
    unfolding get_files get_directories
    new_argo_cd_service = record { get_files = get_files; get_directories = get_directories }
