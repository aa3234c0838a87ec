-- ===== src/Generators/SecretRef.antt =====
-- `getSecretRef`, which pkg/generators/scm_provider.go and pull_request.go write in the same way.
use applicationset.Prelude.{String, Option, none, some, lookup}
use applicationset.Errors.{Result, ok, err, ◌>>=◌, wrap, fetch_secret_error, missing_secret_key}
use applicationset.Api.Generator.{SecretRef}
use applicationset.Utils.Clusters.{Secret}

-- `client.Get` of a secret by its namespace and name
abbrev pub GetSecret : Type 0
GetSecret = String → String → Result Secret

unfoldable pub get_secret_ref : GetSecret → Option SecretRef → String → Result String
unfolding lookup
get_secret_ref get none namespace = ok ""
get_secret_ref get (some ref) namespace = do
  secret ← wrap (fetch_secret_error namespace ref.secret_name) (get namespace ref.secret_name)
  elim (lookup ref.key secret.secret_data) [
    | none ↦ err (missing_secret_key ref.key namespace ref.secret_name)
    | some token ↦ ok token
  ]
