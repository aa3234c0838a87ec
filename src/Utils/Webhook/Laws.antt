-- ===== src/Utils/Webhook/Laws.antt =====
-- Which ApplicationSets an event refreshes.
use Prim.Native.String.{[], ◌∷◌}
use applicationset.Prelude.{
  ℕ, suc, ◌≡◌, refl, inl, inr, true, List, [], ◌∷◌, Option, none, some, get_elem?, Bool-cases,
}
use applicationset.Errors.{Result, ok, Result-Cases, is_ok, is_err, is_panic}
use applicationset.Api.ApplicationSet.{ApplicationSet}
use applicationset.Utils.Regexp.{Compile}
use applicationset.Utils.Webhook.{
  Done, WebhookClient, with_refresh, should_refresh, refresh_attempt, refresh_application_set,
  refresh_loop, refresh_listed, refresh_related, handle_event,
}
use applicationset.Utils.Webhook.Relevance.{
  Payload, ParseUrl, GitGeneratorInfo, PrGeneratorInfo, get_git_generator_info,
  get_pr_generator_info,
}

-- `a` is a listed ApplicationSet that the event concerns, as read again by its key, with the
-- annotation.
abbrev pub IsRefresh :
    {W : Type 0}
    → WebhookClient W
    → Option GitGeneratorInfo
    → Option PrGeneratorInfo
    → List ApplicationSet
    → ApplicationSet
    → Type 0
IsRefresh {W} client git pr sets a =
    (i : ℕ) × (s fetched : ApplicationSet) × (w : W) × (get_elem? sets i ≡ some s)
    × (should_refresh git pr s ≡ true)
    × (client.get_app_set s.namespace s.name w ≡ ok fetched)
    × (a ≡ with_refresh fetched)

module _ {W : Type 0} (client : WebhookClient W) (I : W → Type 0) (P : ApplicationSet → Type 0)
    (patches : (a : ApplicationSet) (w : W) → P a → I w → I (client.patch_app_set a w).1)
    (retries : (f : W → Result Done × W)
      → ((w : W) → I w → I (f w).1)
      → (w : W) → I w
      → I (client.retry_on_conflict f w).1) where
  refresh_attempt-I :
      (s : ApplicationSet)
      → ((fetched : ApplicationSet) (w : W)
          → client.get_app_set s.namespace s.name w ≡ ok fetched
          → P (with_refresh fetched))
      → (w : W) → I w
      → I (refresh_attempt client s w).1
  unfolding refresh_attempt
  refresh_attempt-I s may w h = elim (Result-Cases (client.get_app_set s.namespace s.name w)) [
    | is_ok fetched e ↦ rw (e, refresh_attempt) (patches _ w (may fetched w e) h)
    | is_err x e ↦ rw (e, refresh_attempt) h
    | is_panic e ↦ rw (e, refresh_attempt) h
  ]

  refresh_application_set-I :
      (s : ApplicationSet)
      → ((fetched : ApplicationSet) (w : W)
          → client.get_app_set s.namespace s.name w ≡ ok fetched
          → P (with_refresh fetched))
      → (w : W) → I w
      → I (refresh_application_set client s w).1
  unfolding refresh_application_set
  refresh_application_set-I s may = retries (refresh_attempt client s) (refresh_attempt-I s may)

  module _ (git : Option GitGeneratorInfo) (pr : Option PrGeneratorInfo) where
    refresh_loop-I :
        (sets : List ApplicationSet) (w : W)
        → ((a : ApplicationSet) → IsRefresh client git pr sets a → P a)
        → I w
        → I (refresh_loop client git pr sets w).1
    unfolding refresh_loop
    refresh_loop-I [] w may h = h
    refresh_loop-I (s ∷ sets) w may h =
        let rest = λ (a : ApplicationSet) (t : IsRefresh client git pr sets a).
          may a (suc t.0, t.1, t.2, t.3, t.4, t.5, t.6, t.7) in
        elim (Bool-cases (should_refresh git pr s)) [
          | inr apart ↦ rw (apart, refresh_loop) (refresh_loop-I sets w rest h)
          | inl concerned ↦
              let one = refresh_application_set client s w in
              let kept =
                refresh_application_set-I s
                  (λ fetched w' e. may _ (0, s, fetched, w', refl, concerned, e, refl)) w h in
              rw (concerned, refresh_loop)
                (elim (Result-Cases one.0) [
                  | is_ok done e ↦ rw (e, refresh_loop) (refresh_loop-I sets one.1 rest kept)
                  | is_err x e ↦ rw (e, refresh_loop) (refresh_loop-I sets one.1 rest kept)
                  | is_panic e ↦ rw (e, refresh_loop) kept
                ])
        ]

    refresh_listed-I :
        (w : W)
        → ((sets : List ApplicationSet)
            → client.list_app_sets w ≡ ok sets
            → (a : ApplicationSet) → IsRefresh client git pr sets a
            → P a)
        → I w
        → I (refresh_listed client git pr w).1
    unfolding refresh_listed
    refresh_listed-I w may h = elim (Result-Cases (client.list_app_sets w)) [
      | is_ok sets e ↦ rw (e, refresh_listed) (refresh_loop-I sets w (may sets e) h)
      | is_err x e ↦ rw (e, refresh_listed) h
      | is_panic e ↦ rw (e, refresh_listed) h
    ]

  refresh_related-I :
      (git : Option GitGeneratorInfo) (pr : Option PrGeneratorInfo) (w : W)
      → ((sets : List ApplicationSet)
          → client.list_app_sets w ≡ ok sets
          → (a : ApplicationSet) → IsRefresh client git pr sets a
          → P a)
      → I w
      → I (refresh_related client git pr w).1
  unfolding refresh_related
  refresh_related-I none none w may h = h
  refresh_related-I none (some pr) w may h = refresh_listed-I none (some pr) w may h
  refresh_related-I (some git) pr w may h = refresh_listed-I (some git) pr w may h

  -- An event patches only ApplicationSets that are listed and concerned by it, each as it is read
  -- again, with the refresh annotation, and patches none if it cannot be read: what these patches
  -- keep is kept, if `RetryOnConflict` keeps what an attempt keeps.
  pub handle_event-I :
      (parse : ParseUrl) (compile : Compile) (payload : Payload) (w : W)
      → ((git : Option GitGeneratorInfo) (pr : Option PrGeneratorInfo) (sets : List ApplicationSet)
          → get_git_generator_info parse compile payload ≡ ok git
          → get_pr_generator_info parse compile payload ≡ ok pr
          → client.list_app_sets w ≡ ok sets
          → (a : ApplicationSet) → IsRefresh client git pr sets a
          → P a)
      → I w
      → I (handle_event client parse compile payload w).1
  unfolding handle_event
  handle_event-I parse compile payload w may h =
      elim (Result-Cases (get_git_generator_info parse compile payload)) [
        | is_err x e ↦ rw (e, handle_event) h
        | is_panic e ↦ rw (e, handle_event) h
        | is_ok git e ↦
            rw (e, handle_event)
              (elim (Result-Cases (get_pr_generator_info parse compile payload)) [
                | is_err x f ↦ rw (f, handle_event) h
                | is_panic f ↦ rw (f, handle_event) h
                | is_ok pr f ↦
                    rw (f, handle_event)
                      (refresh_related-I git pr w (λ sets g. may git pr sets e f g) h)
              ])
      ]
