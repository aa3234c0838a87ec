-- ===== src/Utils/CreateOrUpdate.antt =====
-- pkg/utils/createOrUpdate.go, for Applications: the store is asked for the object, the object is
-- changed, and what changed is written. `W` is the state of the outside world.
use applicationset.Prelude.{String, Bool, ◌&&◌, Option, none, some, str_eq, if◌then◌else◌}
use applicationset.Errors.{Error, is_not_found, Result, ok, err, panic, ◌>>=◌, name_mutated}
use applicationset.Api.Template.{Application, Destination}

-- The calls of the Kubernetes client for Applications. A write returns its error and the world
-- that it leaves.
pub record AppClient (W : Type 0) : Type 0 where
  pub get_app : String → String → W → Result Application
  pub create_app : Application → W → Option Error × W
  pub update_app : Application → W → Option Error × W
  pub delete_app : Application → W → Option Error × W

-- The comparison that the code adds to the library's for `ApplicationDestination`.
unfoldable pub equal_destinations : Destination → Destination → Bool
equal_destinations a b =
    str_eq a.namespace b.namespace && str_eq a.name b.name && str_eq a.server b.server

-- `Equalities.DeepEqual` of the library, by the code's comparison of destinations.
abbrev pub DeepEqual : Type 0
DeepEqual = (Destination → Destination → Bool) → Application → Application → Bool

pub data OperationResult : Type 0 where
  result_none result_created result_updated : OperationResult

abbrev pub MutateFn : Type 0
MutateFn = Application → Result Application

-- `mutate`: after the callback, the object has the key that was asked for.
unfoldable pub mutate : MutateFn → (namespace name : String) → Application → Result Application
mutate f namespace name obj = do
  new ← f obj
  if str_eq namespace new.namespace && str_eq name new.name then ok new else err name_mutated

-- The result of a write.
abbrev pub written : {W : Type 0} → OperationResult → Option Error × W → Result OperationResult × W
written action (none, w) = (ok action, w)
written action (some e, w) = (err e, w)

module _ {W : Type 0} (client : AppClient W) (deep_equal : DeepEqual) where
  -- The branch for an object that is not there: `obj` as the caller made it.
  unfoldable pub create_new : Result Application → W → Result OperationResult × W
  create_new (ok new) w = written result_created (client.create_app new w)
  create_new (err e) w = (err e, w)
  create_new panic w = (panic, w)

  -- The branch for an object that is there.
  unfoldable pub update_existing : Application → Result Application → W → Result OperationResult × W
  unfolding equal_destinations
  update_existing existing (ok new) w =
      if deep_equal equal_destinations existing new
      then (ok result_none, w)
      else written result_updated (client.update_app new w)
  update_existing existing (err e) w = (err e, w)
  update_existing existing panic w = (panic, w)

  -- What was read decides the branch. The key is that of the object before it was read.
  unfoldable pub after_get :
      MutateFn → Application → Result Application → W → Result OperationResult × W
  unfolding create_new update_existing mutate
  after_get f obj (ok existing) w =
      update_existing existing (mutate f obj.namespace obj.name existing) w
  after_get f obj (err e) w =
      if is_not_found e then create_new (mutate f obj.namespace obj.name obj) w else (err e, w)
  after_get f obj panic w = (panic, w)

  -- `CreateOrUpdate`
  unfoldable pub create_or_update : MutateFn → Application → W → Result OperationResult × W
  unfolding after_get
  create_or_update f obj w = after_get f obj (client.get_app obj.namespace obj.name w) w
