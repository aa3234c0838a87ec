-- ===== src/Controllers/Reconcile/Frame.antt =====
-- Which Applications a `Reconcile` may write.
use mathlib.Core.Path.{subst, subst₂}
use applicationset.Prelude.{
  String, ◌≡◌, ◌⊎◌, inl, inr, true, false, List, Option, none, Option-cases,
}
use applicationset.Errors.{Error, ok, Result-Cases, is_ok, is_err, is_panic}
use applicationset.Api.Template.{Application}
use applicationset.Api.ApplicationSet.{ApplicationSet}
use applicationset.Controllers.Client.{Reconciler}
use applicationset.Controllers.Frame.{Quiet, CreateKeeps, UpdateKeeps, DeleteKeeps}
use applicationset.Controllers.Generate.{Generated, generate_applications}
use applicationset.Controllers.Validate.{
  validate_generated_applications, valid_apps, validation_errors,
}
use applicationset.Controllers.Apply.Frame.{SetsOwnerOnly}
use applicationset.Controllers.Reconcile.{
  after_validation, report_errors, validate_and_apply, generate_and_apply, reconcile,
}
use applicationset.Controllers.Reconcile.Blocks.{
  GetsSetByKey, AnswersByKey, Removes, Applies, set_status-I, apply_apps-I, report_errors-I,
  report_errors-HasKey,
}

module _ {W : Type 0} (r : Reconciler W) (namespace name : String) (w : W) where
  -- The reconcile gets as far as writing Applications: the ApplicationSet is there and not being
  -- deleted, and its generators and the validation end with no error.
  pub record Proceeds : Type 0 where
    pub app_set : ApplicationSet
    pub generated : Generated
    pub by_index : List (Option Error)
    pub fetched : r.client.get_app_set namespace name w ≡ ok app_set
    pub stays : app_set.deletion_timestamp ≡ none
    pub generates :
        generate_applications r.libraries.merge_templates (r.generators w) r.render app_set
        ≡ ok generated
    pub no_error : generated.first_error ≡ none
    pub validates :
        validate_generated_applications r.libraries (r.kube w) namespace app_set.name generated.apps
        ≡ ok by_index

  -- A write of a valid generated Application that the policy allows.
  abbrev pub MayApply : Application → Type 0
  MayApply a = (p : Proceeds) × Applies r namespace name (valid_apps p.generated.apps p.by_index) a

  -- A listed Application whose name no generated Application has, valid or not, under a policy
  -- that deletes.
  abbrev pub MayRemove : Application → Type 0
  MayRemove a = (p : Proceeds) × Removes r name p.generated.apps a

module _ {W : Type 0} (r : Reconciler W) (namespace name : String) (w : W)
    (owner : SetsOwnerOnly r.libraries) (gets_set : GetsSetByKey r.client)
    (answers : AnswersByKey r.client) (I : W → Type 0) (quiet : Quiet r.client I)
    (creates : CreateKeeps r.client I (MayApply r namespace name w))
    (updates : UpdateKeeps r.client I
      (λ a. MayApply r namespace name w a ⊎ MayRemove r namespace name w a))
    (deletes : DeleteKeeps r.client I (MayRemove r namespace name w)) where
  after_validation-I :
      (p : Proceeds r namespace name w)
      → I w
      → I (after_validation r p.app_set p.generated.apps p.by_index w).1
  unfolding after_validation
  after_validation-I p h =
      let errors = validation_errors p.by_index in
      let key =
        report_errors-HasKey r I quiet gets_set answers namespace name p.app_set errors w
          (gets_set namespace name w p.app_set p.fetched) in
      let s = (report_errors r p.app_set errors w).0 in
      apply_apps-I r I quiet (MayApply r namespace name w) (MayRemove r namespace name w) creates
        updates deletes owner s p.generated.apps (valid_apps p.generated.apps p.by_index) errors _
        (λ a t. (
          p,
          subst₂ (λ ns n. Applies r ns n (valid_apps p.generated.apps p.by_index) a) key.0 key.1 t,
        ))
        (λ a t. (p, subst (λ n. Removes r n p.generated.apps a) key.1 t))
        (report_errors-I r I quiet p.app_set errors w h)

  validate_and_apply-I :
      (s : ApplicationSet) (g : Generated)
      → r.client.get_app_set namespace name w ≡ ok s
      → s.deletion_timestamp ≡ none
      → generate_applications r.libraries.merge_templates (r.generators w) r.render s ≡ ok g
      → g.first_error ≡ none
      → I w
      → I (validate_and_apply r namespace s g.apps w).1
  unfolding validate_and_apply
  validate_and_apply-I s g fetched stays generates no_error h =
      elim (Result-Cases
        (validate_generated_applications r.libraries (r.kube w) namespace s.name g.apps)) [
          | is_panic e ↦ rw (e, validate_and_apply) h
          | is_err x e ↦
              rw (e, validate_and_apply) (set_status-I r.client r.libraries I quiet s _ true w h)
          | is_ok by_index e ↦
              rw (e, validate_and_apply)
                (after_validation-I
                  (record {
                    app_set = s;
                    generated = g;
                    by_index = by_index;
                    fetched = fetched;
                    stays = stays;
                    generates = generates;
                    no_error = no_error;
                    validates = e;
                  })
                  h)
        ]

  generate_and_apply-I :
      (s : ApplicationSet)
      → r.client.get_app_set namespace name w ≡ ok s
      → s.deletion_timestamp ≡ none
      → I w
      → I (generate_and_apply r namespace s w).1
  unfolding generate_and_apply
  generate_and_apply-I s fetched stays h =
      elim (Result-Cases
        (generate_applications r.libraries.merge_templates (r.generators w) r.render s)) [
          | is_panic e ↦ rw (e, generate_and_apply) h
          | is_err x e ↦ rw (e, generate_and_apply) h
          | is_ok g e ↦
              rw (e, generate_and_apply)
                (elim (Option-cases g.first_error) [
                  | inl none_yet ↦
                      rw (none_yet, generate_and_apply)
                        (validate_and_apply-I s g fetched stays e none_yet h)
                  | inr (x, f) ↦
                      rw (f, generate_and_apply)
                        (set_status-I r.client r.libraries I quiet s _ false w h)
                ])
        ]

  -- Let `Get` and the status update return ApplicationSets of the key that they are asked for, and
  -- `SetControllerReference` set the owner only. Whatever it meets, a `Reconcile` creates and updates only what `MayApply` says,
  -- updates and deletes beside that only what `MayRemove` says, and so writes no Application at all
  -- unless it `Proceeds`: what these writes, the events and the writes of the ApplicationSet keep is
  -- kept.
  pub reconcile-I : I w → I (reconcile r namespace name w).1
  unfolding reconcile
  reconcile-I h = elim (Result-Cases (r.client.get_app_set namespace name w)) [
    | is_err x e ↦ rw (e, reconcile) h
    | is_panic e ↦ rw (e, reconcile) h
    | is_ok s e ↦
        rw (e, reconcile)
          (elim (Option-cases s.deletion_timestamp) [
            | inl stays ↦ rw (stays, reconcile) (generate_and_apply-I s e stays h)
            | inr (t, f) ↦ rw (f, reconcile) h
          ])
  ]
