-- ===== src/Services/Repos/Walk.antt =====
-- The walk of `GetDirectories` (pkg/services/repo_service.go) through the files of a repository.
use Prim.Native.Char.{code}
use Prim.Native.String.{String, ◌++◌ as ◌+++◌}
use applicationset.Prelude.{Bool, false, ◌==◌, List, [], ◌∷◌, ◌++◌, if◌then◌else◌}
use applicationset.Errors.{Error, Result, ok, err, ◌>>=◌}

-- What `filepath.Walk` meets: an entry with its name and whether it is a directory, or the error of
-- an entry that cannot be read, which it passes to the function. The children of a directory come
-- in the order of their names.
mutual
  pub data Entry : Type 0 where
    file : String → Entry
    directory : String → Entries → Entry
    unreadable : Error → Entry

  pub data Entries : Type 0 where
    no_entries : Entries
    entry : Entry → Entries → Entries

-- `strings.HasPrefix(fname, ".")`
abbrev pub is_hidden : String → Bool
is_hidden String.[] = false
is_hidden (String.◌∷◌ c s) = code c == b'.'

-- `filepath.Rel` of an entry, given that of the directory it is in
abbrev pub below : String → String → String
below parent name = elim parent [
  | String.[] ↦ name
  | String.◌∷◌ c s ↦ String.◌∷◌ c s +++ "/" +++ name
]

-- The function that is called for each entry, and what `filepath.Walk` does with its answer: a
-- hidden directory is skipped with all that it has, and an error ends the walk. `filtered` is
-- `filteredPaths`.
unfoldable mutual
  pub walk : String → Entry → List String → Result (List String)
  walk parent (file name) filtered = ok filtered
  walk parent (unreadable e) filtered = err e
  walk parent (directory name children) filtered =
      let rest = walk_all (below parent name) children (filtered ++ below parent name ∷ []) in
      if is_hidden name then ok filtered else rest

  pub walk_all : String → Entries → List String → Result (List String)
  walk_all path no_entries filtered = ok filtered
  walk_all path (entry e es) filtered = do
    filtered' ← walk path e filtered
    walk_all path es filtered'

-- The walk from the root, whose own path `.` is left out. A root that is hidden is skipped as well.
unfoldable pub get_paths : Entry → Result (List String)
unfolding walk walk_all
get_paths (file name) = ok []
get_paths (unreadable e) = err e
get_paths (directory name children) = if is_hidden name then ok [] else walk_all "" children []
