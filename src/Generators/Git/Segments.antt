-- ===== src/Generators/Git/Segments.antt =====
-- The parameters `path`, `path.basename`, `path.basenameNormalized` and `path[i]`, which
-- pkg/generators/git.go sets in the same way for directories and for files.
pub mod Indices
use Prim.Native.String.{◌++◌ as ◌+++◌}
use applicationset.Prelude.{ℕ, suc, String, List, [], ◌∷◌, insert, if◌then◌else◌}
use applicationset.Utils.Combine.{Params}
use applicationset.Utils.Text.{is_empty, itoa}
use applicationset.Utils.Paths.{split_slash, trim_suffix, base}
use applicationset.Generators.Cluster.SanitizeName.{sanitize_name}

-- `"path["+strconv.Itoa(k)+"]"`
unfoldable pub segment_key : ℕ → String
unfolding itoa
segment_key k = "path[" +++ itoa k +++ "]"

-- The loop over the parts of the path; `k` is the index of the next one.
unfoldable pub add_segments : ℕ → List String → Params → Params
unfolding segment_key insert
add_segments k [] params = params
add_segments k (v ∷ vs) params =
    add_segments (suc k) vs (if is_empty v then params else insert (segment_key k) v params)

-- The directories above the last element of the path.
unfoldable pub parents : String → List String
unfolding split_slash trim_suffix base
parents path = split_slash (trim_suffix path (base path))

unfoldable pub add_path : String → Params → Params
unfolding add_segments insert sanitize_name base parents
add_path path params = add_segments 0 (parents path) (
    insert "path.basenameNormalized" (sanitize_name (base path))
      (insert "path.basename" (base path) (insert "path" path params)))
