-- ===== src/Utils/Regexp.antt =====
-- Go's `regexp` as the code uses it.
use applicationset.Prelude.{String, Bool}
use applicationset.Errors.{Result}

-- `*regexp.Regexp`, by its `MatchString`
abbrev pub Regexp : Type 0
Regexp = String → Bool

-- `regexp.Compile`
abbrev pub Compile : Type 0
Compile = String → Result Regexp
