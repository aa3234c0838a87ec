-- ===== src/Generators/Git/Files.antt =====
-- The files that pkg/generators/git.go reads, and the parameters of the objects in them.
use applicationset.Prelude.{
  String, List, [], ◌∷◌, ◌++◌, Option, none, some, Map, insert, insert_all, lookup,
}
use applicationset.Errors.{Error, Result, ok, ◌>>=◌, wrap, file_error, parse_file_error}
use applicationset.Api.Generator.{GitFileGeneratorItem}
use applicationset.Utils.Combine.{Params}
use applicationset.Utils.Json.{Value}
use applicationset.Utils.Paths.{dir}
use applicationset.Utils.SortTexts.{sort_strings}
use applicationset.Generators.Git.Segments.{add_path}

-- What the libraries do with the text of a file: `yaml.Unmarshal` to a slice of objects, which may
-- fill the slice before it fails, and to one object; `flatten.Flatten` with the dot style; and `%v`.
pub record FileReader : Type 0 where
  pub unmarshal_objects : String → List (Map Value) × Option Error
  pub unmarshal_object : String → Result (Map Value)
  pub flatten : Map Value → Result (Map Value)
  pub print : Value → String

-- The keys of a map, `for path := range allFiles`
abbrev pub keys {ℓ} : {V : Type ℓ} → Map V → List String
keys [] = []
keys ((k, v) ∷ m) = k ∷ keys m

-- `allFiles[path]`, which is empty if it is missing
unfoldable pub content_of : String → Map String → String
unfolding lookup
content_of path files = elim (lookup path files) [ none ↦ "" | some content ↦ content ]

-- The loop over the requested paths; `get_files` has the repository and the revision.
unfoldable pub all_files :
    (String → Result (Map String)) → List GitFileGeneratorItem → Map String → Result (Map String)
unfolding insert_all
all_files get_files [] found = ok found
all_files get_files (item ∷ items) found = do
  files ← get_files item.path
  all_files get_files items (insert_all files found)

module _ (reader : FileReader) where
  -- The texts of the flat object.
  unfoldable pub print_values : Map Value → Params → Params
  unfolding insert
  print_values [] params = params
  print_values ((k, v) ∷ flat) params = print_values flat (insert k (reader.print v) params)

  -- The parameters of one object of the file.
  unfoldable pub object_params : String → Map Value → Result Params
  unfolding print_values add_path dir
  object_params file_path object = do
    flat ← reader.flatten object
    ok (add_path (dir file_path) (print_values flat []))

  unfoldable pub all_object_params : String → List (Map Value) → Result (List Params)
  unfolding object_params
  all_object_params file_path [] = ok []
  all_object_params file_path (object ∷ objects) = do
    params ← object_params file_path object
    rest ← all_object_params file_path objects
    ok (params ∷ rest)

  -- `objectsFound`: a text that is no slice is read as one object.
  unfoldable pub objects_found : String → Result (List (Map Value))
  objects_found content =
      let (objects, failed) = reader.unmarshal_objects content in
      elim failed [
        | none ↦ ok objects
        | some _ ↦ do
          object ← wrap parse_file_error (reader.unmarshal_object content)
          ok (objects ++ object ∷ [])
      ]

  -- `generateParamsFromGitFile`
  unfoldable pub generate_params_from_git_file : String → String → Result (List Params)
  unfolding objects_found all_object_params
  generate_params_from_git_file file_path content = do
    objects ← objects_found content
    all_object_params file_path objects

  -- The loop over the sorted paths.
  unfoldable pub params_of_files : Map String → List String → List Params → Result (List Params)
  unfolding generate_params_from_git_file content_of
  params_of_files files [] res = ok res
  params_of_files files (path ∷ paths) res = do
    params ← wrap (file_error path) (generate_params_from_git_file path (content_of path files))
    params_of_files files paths (res ++ params)

  -- `generateParamsForGitFiles`
  unfoldable pub generate_params_for_git_files :
      (String → Result (Map String)) → List GitFileGeneratorItem → Result (List Params)
  unfolding all_files params_of_files sort_strings
  generate_params_for_git_files get_files items = do
    files ← all_files get_files items []
    params_of_files files (sort_strings (keys files)) []
