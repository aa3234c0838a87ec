-- ===== src/Generators/Interface.antt =====
-- pkg/generators/interface.go: what the controller asks of a generator, and the durations.
use applicationset.Prelude.{ℕ, ℤ, pos, List, Map, ◌*◌, ◌-◌, ◌^◌}
use applicationset.Errors.{Result}
use applicationset.Api.Template.{ApplicationSetTemplate}
use applicationset.Api.Generator.{ApplicationSetGenerator}
use applicationset.Api.ApplicationSet.{ApplicationSet}
use applicationset.Utils.Combine.{Params}

-- The interface `Generator`. What an implementation reads from outside is fixed while it runs.
-- `panic` is a dereference of the nil pointer of a generator that the request does not have.
pub record Generator : Type 0 where
  pub generate_params : ApplicationSetGenerator → ApplicationSet → Result (List Params)
  pub get_requeue_after : ApplicationSetGenerator → Result ℤ
  pub get_template : ApplicationSetGenerator → Result ApplicationSetTemplate

-- `time.Duration`, an `int64` of nanoseconds
abbrev pub Duration : Type 0
Duration = ℤ

abbrev pub no_requeue_after : Duration
no_requeue_after = pos 0

abbrev pub second : ℕ
second = 1_000_000_000

-- 3 minutes
abbrev pub default_requeue_after_seconds : Duration
default_requeue_after_seconds = pos (180 * second)

abbrev pub max_duration : Duration
max_duration = pos (2 ^ 63 - 1)

-- `generators[name]` of a Go map from names to interface values: a missing name is a nil interface.
abbrev pub Generators : Type 0
Generators = Map Generator
