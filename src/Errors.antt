-- ===== src/Errors.antt =====
-- Go's `error` values and the result of a function that may fail or panic.
pub mod Message
pub mod Laws
use applicationset.Prelude.{String, Bool, false, List, ◌≡◌, refl}

-- The errors that the code makes, by the place that makes them, and those that it gets from outside.
pub data Error : Type 0 where
  -- pkg/generators
  empty_app_set_generator : Error
  more_than_two_generators less_than_two_generators more_then_one_inner_generators : Error
  less_than_two_generators_in_merge no_merge_keys : Error
  non_unique_param_sets : String → Error
  child_generator_error : Error → Error
  no_child_parameters : Error
  list_element_error : Error → Error
  list_values_error list_value_error : Error
  file_error : String → Error → Error
  parse_file_error : Error → Error
  no_gvk bad_definition no_cluster_decision_resources : Error
  token_error service_error : String → Error → Error
  list_repos_error : Error → Error
  no_scm_provider : Error
  select_provider_error pull_request_token_error : Error → Error
  no_pull_request_provider : Error
  fetch_secret_error : String → String → Error → Error
  missing_secret_key : String → String → String → Error
  -- pkg/services
  list_pull_requests_error : String → String → Error → Error
  list_repositories_error : String → String → Error → Error
  unknown_clone_protocol : String → String → Error
  list_branches_error : String → String → Error → Error
  get_repository_error list_files_error : Error → Error
  init_error fetch_error commit_error checkout_error : Error → Error
  -- pkg/utils/map.go
  duplicate_key : String → String → String → Error
  -- pkg/controllers
  duplicate_name : String → String → Error
  missing_project : String → Error
  invalid_destination : Error → Error
  invalid_spec : String → Error
  fetch_status_error update_status_error : Error → Error
  -- pkg/utils
  unable_to_find_server : Error → Error
  invalid_cluster_secret : String → Error → Error
  missing_cluster no_such_cluster : String → Error
  name_and_server : String → String → Error
  same_name_clusters : List String → Error
  name_mutated : Error
  empty_template : Error
  unresolved_tag : String → Error
  -- pkg/services/scm_provider
  repository_match_error label_match_error branch_match_error : String → Error → Error
  -- an API error, with whether its reason is NotFound
  api_error : Bool → String → Error

-- `apierr.IsNotFound(err)`
abbrev pub is_not_found : Error → Bool
is_not_found (api_error not_found text) = not_found
is_not_found _ = false

pub data Result {ℓ} (A : Type ℓ) : Type ℓ where
  ok : A → Result A
  err : Error → Result A
  panic : Result A

infixl 5 ◌>>=◌ ◌>>◌
abbrev pub ◌>>=◌ {ℓ κ} : {A : Type ℓ} {B : Type κ} → Result A → (A → Result B) → Result B
ok a >>= f = f a
err e >>= f = err e
panic >>= f = panic

abbrev pub ◌>>◌ {ℓ κ} : {A : Type ℓ} {B : Type κ} → Result A → Result B → Result B
m >> k = m >>= λ _. k

-- `errors.Wrap(err, text)` and `fmt.Errorf("…: %v", err)`
abbrev pub wrap {ℓ} : {A : Type ℓ} → (Error → Error) → Result A → Result A
wrap text (ok a) = ok a
wrap text (err e) = err (text e)
wrap text panic = panic

-- To split on a computed result and keep the equation.
pub data Cases {ℓ} {A : Type ℓ} (r : Result A) : Type ℓ where
  is_ok : (a : A) → r ≡ ok a → Cases r
  is_err : (e : Error) → r ≡ err e → Cases r
  is_panic : r ≡ panic → Cases r

pub Result-Cases {ℓ} : {A : Type ℓ} (r : Result A) → Cases r
Result-Cases (ok a) = is_ok a refl
Result-Cases (err e) = is_err e refl
Result-Cases panic = is_panic refl

abbrev pub NoPanic {ℓ} : {A : Type ℓ} → Result A → Type 0
NoPanic (ok a) = Unit
NoPanic (err e) = Unit
NoPanic panic = ⊥
