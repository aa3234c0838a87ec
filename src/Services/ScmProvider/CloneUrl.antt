-- ===== src/Services/ScmProvider/CloneUrl.antt =====
-- The choice of the address of a repository by the clone protocol, which
-- pkg/services/scm_provider/github.go and gitlab.go write in the same way.
use applicationset.Prelude.{String, str_eq, if◌then◌else◌}
use applicationset.Errors.{Result, ok, err, unknown_clone_protocol}

unfoldable pub clone_url : String → String → String → String → Result String
clone_url provider protocol ssh https =
    if str_eq protocol ""
    then ok ssh
    else if str_eq protocol "ssh"
    then ok ssh
    else if str_eq protocol "https"
    then ok https
    else err (unknown_clone_protocol provider protocol)
