-- ===== src/Generators/Git.antt =====
-- pkg/generators/git.go: a set of parameters for each selected directory, or for each object of the
-- selected files.
pub mod Segments
pub mod Directories
pub mod Files
pub mod Laws
pub mod Order
pub mod Describes
use applicationset.Prelude.{String, List, [], Option, none, some}
use applicationset.Errors.{Error, Result, ok, err, panic, ◌>>=◌, empty_app_set_generator}
use applicationset.Api.Template.{ApplicationSetTemplate}
use applicationset.Api.Generator.{
  ApplicationSetGenerator, GitGenerator, GitDirectoryGeneratorItem, GitFileGeneratorItem,
}
use applicationset.Api.ApplicationSet.{ApplicationSet}
use applicationset.Utils.Combine.{Params}
use applicationset.Generators.Interface.{Generator, Duration, default_requeue_after_seconds}
use applicationset.Generators.RequeueAfter.{requeue_after_or}
use applicationset.Generators.Git.Directories.{PathMatch, filter_apps, generate_params_from_apps}
use applicationset.Generators.Git.Files.{FileReader, generate_params_for_git_files}
use applicationset.Services.Repos.{Repos}

module _ (path_match : PathMatch) (reader : FileReader) (repos : Repos) where
  -- `generateParamsForGitDirectories`
  unfoldable pub generate_params_for_git_directories :
      GitGenerator → List GitDirectoryGeneratorItem → Result (List Params)
  unfolding filter_apps
  generate_params_for_git_directories git directories = do
    all_paths ← repos.get_directories git.repo_url git.revision
    ok (generate_params_from_apps (filter_apps path_match directories all_paths []))

  -- `GenerateParams`
  unfoldable pub generate_params : ApplicationSetGenerator → ApplicationSet → Result (List Params)
  unfolding generate_params_for_git_directories generate_params_for_git_files
  generate_params g app_set = elim g.git [
    | none ↦ err empty_app_set_generator
    | some git ↦ elim git.directories [
      | some directories ↦ generate_params_for_git_directories git directories
      | none ↦ elim git.files [
        | some files ↦
            generate_params_for_git_files reader (repos.get_files git.repo_url git.revision) files
        | none ↦ err empty_app_set_generator
      ]
    ]
  ]

  -- `GetRequeueAfter`
  unfoldable pub get_requeue_after : ApplicationSetGenerator → Result Duration
  unfolding requeue_after_or
  get_requeue_after g = elim g.git [
    | none ↦ panic
    | some git ↦ ok (requeue_after_or default_requeue_after_seconds git.requeue_after_seconds)
  ]

  -- `GetTemplate`
  unfoldable pub get_template : ApplicationSetGenerator → Result ApplicationSetTemplate
  get_template g = elim g.git [ none ↦ panic | some git ↦ ok git.template ]

  -- `NewGitGenerator`
  unfoldable pub new_git_generator : Generator
  unfolding generate_params get_requeue_after get_template
  new_git_generator = record {
    generate_params = generate_params;
    get_requeue_after = get_requeue_after;
    get_template = get_template;
  }
