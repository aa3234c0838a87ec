-- ===== src/Controllers/Reconcile/Blocks.antt =====
-- What the last blocks of `Reconcile` may write.
use applicationset.Prelude.{
  ℕ, String, ◌≡◌, ◌∙◌, ◌⊎◌, inl, inr, Bool, true, List, [], ◌∷◌, Option, none, some, get_elem?,
  Bool-cases, Option-cases,
}
use applicationset.Errors.{Error, Result, ok, err, panic, Result-Cases, is_ok, is_err, is_panic}
use applicationset.Api.Template.{Application}
use applicationset.Api.Condition.{ApplicationSetCondition}
use applicationset.Api.ApplicationSet.{ApplicationSet, refresh_required}
use applicationset.Utils.Policy.{allows_update, allows_delete}
use applicationset.Controllers.Client.{Client, Libraries, Reconciler}
use applicationset.Controllers.Frame.{Quiet, CreateKeeps, UpdateKeeps, DeleteKeeps}
use applicationset.Controllers.Status.{
  set_application_set_status_condition, write_status, need_to_update, new_conditions,
}
use applicationset.Controllers.Reconcile.{
  fail_with, finish_status, finish, after_refresh, refresh, after_delete, remove_apps, after_apply,
  apply_apps, report_errors,
}
use applicationset.Generators.Interface.{Duration}
use applicationset.Api.Condition.{resources_up_to_date, status_true}
use applicationset.Controllers.Generate.{get_min_requeue_after}
use applicationset.Controllers.Status.{condition, up_to_date_reason}
use applicationset.Controllers.Delete.{delete_in_cluster}
use applicationset.Controllers.Delete.Frame.{Touches, delete_in_cluster-I}
use applicationset.Controllers.Apply.Frame.{
  SetsOwnerOnly, IsWritten, IsNew, create_or_update_in_cluster-I, create_in_cluster-I,
}

-- `Get` returns an ApplicationSet of the key that it is asked for.
abbrev pub GetsSetByKey : {W : Type 0} → Client W → Type 0
GetsSetByKey {W} client =
    (namespace name : String) (w : W) (s : ApplicationSet)
    → client.get_app_set namespace name w ≡ ok s
    → (s.namespace ≡ namespace) × (s.name ≡ name)

-- A status update answers with the ApplicationSet that was sent, by its key.
abbrev pub AnswersByKey : {W : Type 0} → Client W → Type 0
AnswersByKey {W} client =
    (s : ApplicationSet) (w : W)
    → ((client.update_status s w).1.namespace ≡ s.namespace)
      × ((client.update_status s w).1.name ≡ s.name)

abbrev pub HasKey : String → String → ApplicationSet → Type 0
HasKey namespace name s = (s.namespace ≡ namespace) × (s.name ≡ name)

module _ {W : Type 0} (client : Client W) (libraries : Libraries) (I : W → Type 0)
    (quiet : Quiet client I) where
  -- `setApplicationSetStatusCondition` writes a status and no Application.
  pub set_status-I :
      (s : ApplicationSet) (c : ApplicationSetCondition) (generated : Bool) (w : W)
      → I w
      → I (set_application_set_status_condition client libraries s c generated w).world
  unfolding set_application_set_status_condition write_status
  set_status-I s c generated w h =
      elim (Bool-cases (need_to_update (new_conditions c generated) s.status.conditions)) [
        | inr same ↦ rw (same, set_application_set_status_condition) h
        | inl changed ↦
            rw (changed, set_application_set_status_condition)
              (elim (Result-Cases (client.get_app_set s.namespace s.name w)) [
                | is_ok fresh e ↦
                    rw (e, set_application_set_status_condition) (quiet.on_status _ w h)
                | is_err x e ↦ rw (e, set_application_set_status_condition) h
                | is_panic e ↦ rw (e, set_application_set_status_condition) h
              ])
      ]

  -- The ApplicationSet that it leaves has the key of the one that it was given.
  pub set_status-HasKey :
      (gets : GetsSetByKey client) (answers : AnswersByKey client) (namespace name : String)
      (s : ApplicationSet) (c : ApplicationSetCondition) (generated : Bool) (w : W)
      → HasKey namespace name s
      → HasKey namespace name
          (set_application_set_status_condition client libraries s c generated w).app_set
  unfolding set_application_set_status_condition write_status
  set_status-HasKey gets answers namespace name s c generated w k =
      elim (Bool-cases (need_to_update (new_conditions c generated) s.status.conditions)) [
        | inr same ↦ rw (same, set_application_set_status_condition) k
        | inl changed ↦
            rw (changed, set_application_set_status_condition)
              (elim (Result-Cases (client.get_app_set s.namespace s.name w)) [
                | is_ok fresh e ↦
                    let (ns, n) = gets s.namespace s.name w fresh e in
                    let (ans, an) = answers _ w in
                    rw (e, set_application_set_status_condition) (ans ∙ ns ∙ k.0, an ∙ n ∙ k.1)
                | is_err x e ↦ rw (e, set_application_set_status_condition) k
                | is_panic e ↦ rw (e, set_application_set_status_condition) k
              ])
      ]

module _ {W : Type 0} (r : Reconciler W) where
  -- What the deletions may touch, for the ApplicationSet of the name.
  abbrev pub Removes : String → List Application → Application → Type 0
  Removes name desired a =
      (w : W) × (current : List Application) × (allows_delete r.policy ≡ true)
      × (r.client.list_apps name w ≡ ok current)
      × Touches desired current a

  -- The policy lets the generated Application be written over, or its name is new.
  abbrev pub MayWrite : String → Application → Type 0
  MayWrite name g =
      (allows_update r.policy ≡ true)
      ⊎ ((w : W) × (current : List Application) × (r.client.list_apps name w ≡ ok current)
          × IsNew current g)

  -- What the creations and the updates may write, for the ApplicationSet of the key.
  abbrev pub Applies : String → String → List Application → Application → Type 0
  Applies namespace name valid a =
      (j : ℕ) × (g : Application) × (get_elem? valid j ≡ some g)
      × IsWritten namespace g a
      × MayWrite name g

module _ {W : Type 0} (r : Reconciler W) (I : W → Type 0) (quiet : Quiet r.client I) where
  fail_with-I :
      (e : Error) (s : ApplicationSet) (c : ApplicationSetCondition) (w : W)
      → I w
      → I (fail_with r e s c w).1
  unfolding fail_with
  fail_with-I e s c w h = set_status-I r.client r.libraries I quiet s c true w h

  finish_status-I :
      (s : ApplicationSet) (after : Duration) (errors : List Error) (w : W)
      → I w
      → I (finish_status r s after errors w).1
  unfolding finish_status
  finish_status-I s after (e ∷ es) w h = h
  finish_status-I s after [] w h =
      let c =
        condition resources_up_to_date "All applications have been generated successfully"
          up_to_date_reason status_true in
      let update = set_application_set_status_condition r.client r.libraries s c true w in
      let kept = set_status-I r.client r.libraries I quiet s c true w h in
      elim (Option-cases update.error) [
        | inl e ↦ rw (e, finish_status) kept
        | inr (x, e) ↦ rw (e, finish_status) kept
      ]

  finish-I : (s : ApplicationSet) (errors : List Error) (w : W) → I w → I (finish r s errors w).1
  unfolding finish
  finish-I s errors w h = elim (Result-Cases (get_min_requeue_after (r.generators w) s)) [
    | is_err x e ↦ rw (e, finish) h
    | is_panic e ↦ rw (e, finish) h
    | is_ok after e ↦ rw (e, finish) (finish_status-I s after errors w h)
  ]

  after_refresh-I :
      (errors : List Error) (t : Option Error × ApplicationSet × W)
      → I t.2
      → I (after_refresh r errors t).1
  unfolding after_refresh
  after_refresh-I errors (none, s, w) h = finish-I s errors w h
  after_refresh-I errors (some e, s, w) h = fail_with-I e s _ w h

  refresh-I : (s : ApplicationSet) (errors : List Error) (w : W) → I w → I (refresh r s errors w).1
  unfolding refresh
  refresh-I s errors w h = elim (Bool-cases (refresh_required s)) [
    | inl asked ↦
        rw (asked, refresh)
          (after_refresh-I errors (r.client.update_app_set _ w) (quiet.on_app_set _ w h))
    | inr other ↦ rw (other, refresh) (finish-I s errors w h)
  ]

  after_delete-I :
      (s : ApplicationSet) (errors : List Error) (t : Result (Option Error) × W)
      → I t.1
      → I (after_delete r s errors t).1
  unfolding after_delete
  after_delete-I s errors (ok none, w) h = refresh-I s errors w h
  after_delete-I s errors (ok (some e), w) h = fail_with-I e s _ w h
  after_delete-I s errors (err e, w) h = h
  after_delete-I s errors (panic, w) h = h

  module _ (P Q : Application → Type 0) (creates : CreateKeeps r.client I P)
      (updates : UpdateKeeps r.client I (λ a. P a ⊎ Q a)) (deletes : DeleteKeeps r.client I Q)
      (owner : SetsOwnerOnly r.libraries) where
    remove_apps-I :
        (s : ApplicationSet) (desired : List Application) (errors : List Error) (w : W)
        → ((a : Application) → Removes r s.name desired a → Q a)
        → I w
        → I (remove_apps r s desired errors w).1
    unfolding remove_apps
    remove_apps-I s desired errors w removes h = elim (Bool-cases (allows_delete r.policy)) [
      | inr kept ↦ rw (kept, remove_apps) (refresh-I s errors w h)
      | inl allowed ↦
          rw (allowed, remove_apps)
            (after_delete-I s errors (delete_in_cluster r.client (r.kube w) s desired w) (
              delete_in_cluster-I r.client (r.kube w) s I Q quiet.on_event
                (λ a v q. updates a v (inr q)) deletes desired w
                (λ current e a t. removes a (w, current, allowed, e, t)) h))
    ]

    after_apply-I :
        (reason : String) (s : ApplicationSet) (desired : List Application) (errors : List Error)
        (t : Result (Option Error) × W)
        → ((a : Application) → Removes r s.name desired a → Q a)
        → I t.1
        → I (after_apply r reason s desired errors t).1
    unfolding after_apply
    after_apply-I reason s desired errors (ok none, w) removes h =
        remove_apps-I s desired errors w removes h
    after_apply-I reason s desired errors (ok (some e), w) removes h = fail_with-I e s _ w h
    after_apply-I reason s desired errors (err e, w) removes h = h
    after_apply-I reason s desired errors (panic, w) removes h = h

    pub apply_apps-I :
        (s : ApplicationSet) (desired valid : List Application) (errors : List Error) (w : W)
        → ((a : Application) → Applies r s.namespace s.name valid a → P a)
        → ((a : Application) → Removes r s.name desired a → Q a)
        → I w
        → I (apply_apps r s desired valid errors w).1
    unfolding apply_apps
    apply_apps-I s desired valid errors w applies removes h =
        elim (Bool-cases (allows_update r.policy)) [
          | inl allowed ↦
              rw (allowed, apply_apps)
                (after_apply-I _ s desired errors _ removes (
                  create_or_update_in_cluster-I r.client r.libraries s owner I P quiet.on_event
                    creates (λ a v p. updates a v (inl p)) valid w
                    (λ a t. applies a (t.0, t.1, t.2, t.3, inl allowed)) h))
          | inr only_new ↦
              rw (only_new, apply_apps)
                (after_apply-I _ s desired errors _ removes (
                  create_in_cluster-I r.client r.libraries s owner I P quiet.on_event creates
                    (λ a v p. updates a v (inl p)) valid w
                    (λ current e j g a at new is.
                      applies a (j, g, at, is, inr (w, current, e, new)))
                    h))
        ]

  pub report_errors-I :
      (s : ApplicationSet) (errors : List Error) (w : W) → I w → I (report_errors r s errors w).1
  unfolding report_errors
  report_errors-I s [] w h = h
  report_errors-I s (e ∷ es) w h = set_status-I r.client r.libraries I quiet s _ true w h

  pub report_errors-HasKey :
      (gets : GetsSetByKey r.client) (answers : AnswersByKey r.client) (namespace name : String)
      (s : ApplicationSet) (errors : List Error) (w : W)
      → HasKey namespace name s
      → HasKey namespace name (report_errors r s errors w).0
  unfolding report_errors
  report_errors-HasKey gets answers namespace name s [] w k = k
  report_errors-HasKey gets answers namespace name s (e ∷ es) w k =
      set_status-HasKey r.client r.libraries I quiet gets answers namespace name s _ true w k
