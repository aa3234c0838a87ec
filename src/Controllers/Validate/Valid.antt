-- ===== src/Controllers/Validate/Valid.antt =====
-- The Applications that pass the validation of the controller.
use mathlib.Core.Path.{subst}
use applicationset.Prelude.{
  String, ◌≡◌, inl, inr, false, List, [], ◌∷◌, Option, none, some, All, any, str_eq, arith,
  Bool-cases,
}
use applicationset.Errors.{
  Error, Result, ok, err, panic, ◌>>=◌, Result-Cases, is_ok, is_err, is_panic,
}
use applicationset.Api.Template.{Application}
use applicationset.Utils.Clusters.{KubeClient}
use applicationset.Controllers.Client.{Libraries}
use applicationset.Controllers.Validate.{
  check_app, validate_loop, validate_generated_applications, valid_apps,
}

-- No two of the Applications have the same name.
abbrev pub DistinctNames : List Application → Type 0
DistinctNames [] = Unit
DistinctNames (a ∷ apps) = All (λ b. str_eq b.name a.name ≡ false) apps × DistinctNames apps

-- The name of `a` is none of the names.
abbrev IsFresh : List String → Application → Type 0
IsFresh names a = any (str_eq a.name) names ≡ false

All-IsFresh :
    (name : String) (names : List String) (apps : List Application)
    → All (IsFresh (name ∷ names)) apps
    → All (λ b. str_eq b.name name ≡ false) apps × All (IsFresh names) apps
All-IsFresh name names [] h = (tt, tt)
All-IsFresh name names (a ∷ apps) h =
    let (apart, fresh) = All-IsFresh name names apps h.1 in
    let here = h.0 in
    let this : str_eq a.name name ≡ false = ground (arith, here) in
    let that : any (str_eq a.name) names ≡ false = ground (arith, here) in
    ((this, apart), (that, fresh))

module _ (libraries : Libraries) (kube : KubeClient) (namespace : String) where
  -- The project is there, and the destination and the permissions are in order.
  abbrev pub PassesChecks : Application → Type 0
  PassesChecks a = check_app libraries kube namespace a ≡ ok none

  abbrev pub AreValid : List Application → Type 0
  AreValid apps = DistinctNames apps × All PassesChecks apps

  abbrev ValidResult : List String → List Application → Result (List (Option Error)) → Type 0
  ValidResult names apps (ok errors) =
      AreValid (valid_apps apps errors) × All (IsFresh names) (valid_apps apps errors)
  ValidResult names apps (err e) = Unit
  ValidResult names apps panic = Unit

  ValidResult-duplicate :
      (names : List String) (app : Application) (apps : List Application) (x : Error)
      (r : Result (List (Option Error)))
      → ValidResult names apps r
      → ValidResult names (app ∷ apps) (r >>= λ errors. ok (some x ∷ errors))
  unfolding valid_apps
  ValidResult-duplicate names app apps x (ok errors) h = h
  ValidResult-duplicate names app apps x (err e) h = tt
  ValidResult-duplicate names app apps x panic h = tt

  ValidResult-new :
      (names : List String) (app : Application) (apps : List Application) (checked : Option Error)
      (r : Result (List (Option Error)))
      → check_app libraries kube namespace app ≡ ok checked
      → IsFresh names app
      → ValidResult (app.name ∷ names) apps r
      → ValidResult names (app ∷ apps) (r >>= λ errors. ok (checked ∷ errors))
  unfolding valid_apps
  ValidResult-new names app apps none (ok errors) passes fresh (valid, new) =
      let (apart, fresh_rest) = All-IsFresh app.name names _ new in
      (((apart, valid.0), (passes, valid.1)), (fresh, fresh_rest))
  ValidResult-new names app apps (some x) (ok errors) passes fresh (valid, new) =
      (valid, (All-IsFresh app.name names _ new).1)
  ValidResult-new names app apps checked (err e) passes fresh h = tt
  ValidResult-new names app apps checked panic passes fresh h = tt

  validate_loop-ValidResult :
      (app_set_name : String) (names : List String) (apps : List Application)
      → ValidResult names apps (validate_loop libraries kube namespace app_set_name names apps)
  unfolding validate_loop valid_apps
  validate_loop-ValidResult s names [] = ((tt, tt), tt)
  validate_loop-ValidResult s names (app ∷ apps) = elim (Bool-cases (any (str_eq app.name) names)) [
    | inl seen ↦
        rw (seen, validate_loop)
          (ValidResult-duplicate names app apps _ _ (validate_loop-ValidResult s names apps))
    | inr fresh ↦
        rw (fresh, validate_loop)
          (elim (Result-Cases (check_app libraries kube namespace app)) [
            | is_ok checked e ↦
                rw (e, validate_loop)
                  (ValidResult-new names app apps checked _ e fresh
                    (validate_loop-ValidResult s (app.name ∷ names) apps))
            | is_err x e ↦ rw (e, validate_loop) tt
            | is_panic e ↦ rw (e, validate_loop) tt
          ])
  ]

  -- Of the generated Applications those without a validation error have different names, and each
  -- of them passes the checks of its project, its destination and its permissions.
  pub valid_apps-AreValid :
      (app_set_name : String) (apps : List Application) (by_index : List (Option Error))
      → validate_generated_applications libraries kube namespace app_set_name apps ≡ ok by_index
      → AreValid (valid_apps apps by_index)
  unfolding validate_generated_applications
  valid_apps-AreValid app_set_name apps by_index e =
      (subst (ValidResult [] apps) e (validate_loop-ValidResult app_set_name [] apps)).0
