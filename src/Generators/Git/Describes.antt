-- ===== src/Generators/Git/Describes.antt =====
-- What the parameters of a path say (pkg/generators/git.go).
use Prim.Native.String.{◌++◌ as ◌+++◌}
use applicationset.Prelude.{◌++◌, ℕ, ◌≡◌, String, List, some, insert, lookup, get_elem?, or_else}
use applicationset.Utils.Combine.{Params}
use applicationset.Utils.Paths.{base}
use applicationset.Utils.Paths.Parts.{above}
use applicationset.Generators.Cluster.SanitizeName.{sanitize_name, IsDnsName}
use applicationset.Generators.Git.Segments.{segment_key}
use applicationset.Generators.Git.Segments.Indices.{filled}

-- What a set says of the path with the directories and the last element, on top of the parameters
-- `before`.
pub record DescribesPath (dirs : List String) (name : String) (before params : Params)
    : Type 0 where
  pub whole : lookup "path" params ≡ some (above dirs +++ name)
  pub basename : lookup "path.basename" params ≡ some name
  pub normalized : lookup "path.basenameNormalized" params ≡ some (sanitize_name name)
  pub fits_dns : IsDnsName (sanitize_name name)
  pub segment :
      (i : ℕ)
      → lookup (segment_key i) params
        ≡ or_else (filled (get_elem? dirs i)) (lookup (segment_key i) before)

-- The three parameters in front of the parts.
three : String → Params → Params
unfolding insert
three path before =
    insert "path.basenameNormalized" (sanitize_name (base path))
      (insert "path.basename" (base path) (insert "path" path before))
