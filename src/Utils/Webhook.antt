-- ===== src/Utils/Webhook.antt =====
-- pkg/utils/webhook.go: which ApplicationSets an event of GitHub or GitLab refreshes, and how.
pub mod Relevance
pub mod Laws
pub mod Push
use applicationset.Prelude.{
  String, Bool, true, false, ◌||◌, List, [], ◌∷◌, Option, none, some, insert, any, str_eq,
  if◌then◌else◌,
}
use applicationset.Errors.{Error, Result, ok, err, panic}
use applicationset.Api.Generator.{ApplicationSetGenerator}
use applicationset.Api.ApplicationSet.{ApplicationSet, annotation_application_set_refresh}
use applicationset.Utils.Regexp.{Compile}
use applicationset.Utils.Text.{is_empty}
use Relevance.{
  Payload, ParseUrl, GitGeneratorInfo, PrGeneratorInfo, get_git_generator_info,
  get_pr_generator_info, should_refresh_git_generator, should_refresh_pr_generator,
}

-- The value of a call that returns a nil error.
abbrev pub Done : Type 0
Done = Unit

-- What the handler calls outside the repository, over a state `W` of the world. `ok tt` is a nil
-- error. `retry_on_conflict` is `RetryOnConflict` with the default backoff.
pub record WebhookClient (W : Type 0) : Type 0 where
  pub list_app_sets : W → Result (List ApplicationSet)
  pub get_app_set : String → String → W → Result ApplicationSet
  pub patch_app_set : ApplicationSet → W → Result Done × W
  pub retry_on_conflict : (W → Result Done × W) → W → Result Done × W

-- The loop over the generators of an ApplicationSet, which ends at the first that is relevant.
unfoldable pub should_refresh :
    Option GitGeneratorInfo → Option PrGeneratorInfo → ApplicationSet → Bool
should_refresh git pr app_set =
    any
      (λ gen.
        should_refresh_git_generator gen.git git || should_refresh_pr_generator gen.pull_request pr)
      app_set.spec.generators

-- The fetched ApplicationSet with the annotation.
abbrev pub with_refresh : ApplicationSet → ApplicationSet
with_refresh s = record s {
  annotations = insert annotation_application_set_refresh "true" s.annotations;
}

module _ {W : Type 0} (client : WebhookClient W) where
  -- One attempt of `refreshApplicationSet`.
  unfoldable pub refresh_attempt : ApplicationSet → W → Result Done × W
  refresh_attempt app_set w = elim (client.get_app_set app_set.namespace app_set.name w) [
    | err e ↦ (err e, w)
    | panic ↦ (panic, w)
    | ok fetched ↦ client.patch_app_set (with_refresh fetched) w
  ]

  -- `refreshApplicationSet`. Each attempt reads the object again, by the same key.
  unfoldable pub refresh_application_set : ApplicationSet → W → Result Done × W
  refresh_application_set app_set = client.retry_on_conflict (refresh_attempt app_set)

  -- The loop over the ApplicationSets: a failure is logged, and the loop goes on.
  unfoldable pub refresh_loop :
      Option GitGeneratorInfo → Option PrGeneratorInfo → List ApplicationSet → W → Result Done × W
  refresh_loop git pr [] w = (ok tt, w)
  refresh_loop git pr (s ∷ sets) w = elim (should_refresh git pr s) [
    | false ↦ refresh_loop git pr sets w
    | true ↦
        let (r, w') = refresh_application_set s w in
        elim r [
          | ok done ↦ refresh_loop git pr sets w'
          | err e ↦ refresh_loop git pr sets w'
          | panic ↦ (panic, w')
        ]
  ]

  -- The ApplicationSets are listed, and refreshed.
  unfoldable pub refresh_listed :
      Option GitGeneratorInfo → Option PrGeneratorInfo → W → Result Done × W
  refresh_listed git pr w = elim (client.list_app_sets w) [
    | err e ↦ (ok tt, w)
    | panic ↦ (panic, w)
    | ok sets ↦ refresh_loop git pr sets w
  ]

  -- The end of `HandleEvent`, once the payload has been read.
  unfoldable pub refresh_related :
      Option GitGeneratorInfo → Option PrGeneratorInfo → W → Result Done × W
  refresh_related none none w = (ok tt, w)
  refresh_related none (some pr) w = refresh_listed none (some pr) w
  refresh_related (some git) pr w = refresh_listed (some git) pr w

  -- `HandleEvent`
  unfoldable pub handle_event : ParseUrl → Compile → Payload → W → Result Done × W
  handle_event parse compile payload w = elim (get_git_generator_info parse compile payload) [
    | err e ↦ (err e, w)
    | panic ↦ (panic, w)
    | ok git ↦ elim (get_pr_generator_info parse compile payload) [
      | err e ↦ (err e, w)
      | panic ↦ (panic, w)
      | ok pr ↦ refresh_related git pr w
    ]
  ]

-- The request as `Handler` reads it: two headers, the method, and what the webhook libraries make
-- of the body.
pub record HttpRequest : Type 0 where
  pub github_event : String
  pub gitlab_event : String
  pub method : String
  pub parse_github : Result Payload
  pub parse_gitlab : Result Payload

pub data HttpStatus : Type 0 where
  status_ok status_bad_request status_method_not_allowed : HttpStatus

module _ {W : Type 0} (client : WebhookClient W) (parse : ParseUrl) (compile : Compile) where
  -- What follows the parse of the body.
  unfoldable pub handle_parsed : HttpRequest → Result Payload → W → Result HttpStatus × W
  handle_parsed request panic w = (panic, w)
  handle_parsed request (err e) w = (
    ok (if str_eq request.method "POST" then status_bad_request else status_method_not_allowed),
    w,
  )
  handle_parsed request (ok payload) w =
      let (r, w') = handle_event client parse compile payload w in
      elim r [ ok done ↦ (ok status_ok, w') | err e ↦ (err e, w') | panic ↦ (panic, w') ]

  -- `Handler`
  unfoldable pub handler : HttpRequest → W → Result HttpStatus × W
  handler request w =
      if is_empty request.github_event
      then (if is_empty request.gitlab_event
          then (ok status_bad_request, w)
          else handle_parsed request request.parse_gitlab w)
      else handle_parsed request request.parse_github w
