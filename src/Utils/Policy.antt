-- ===== src/Utils/Policy.antt =====
-- pkg/utils/policy.go: which changes the controller may make.
use applicationset.Prelude.{Bool, true, false, Map, []}
use applicationset.Prelude.{◌∷◌}

pub data Policy : Type 0 where
  sync_policy create_update_policy create_only_policy : Policy

-- The methods `Update`
unfoldable pub allows_update : Policy → Bool
allows_update sync_policy = true
allows_update create_update_policy = true
allows_update create_only_policy = false

-- The methods `Delete`
unfoldable pub allows_delete : Policy → Bool
allows_delete sync_policy = true
allows_delete create_update_policy = false
allows_delete create_only_policy = false

-- `Policies`
abbrev pub policies : Map Policy
policies =
    ("sync", sync_policy)
    ∷ ("create-only", create_only_policy)
    ∷ ("create-update", create_update_policy)
    ∷ []
