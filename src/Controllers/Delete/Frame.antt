-- ===== src/Controllers/Delete/Frame.antt =====
-- What `deleteInCluster` may touch, and which errors it reports.
use applicationset.Prelude.{
  ℕ, suc, ◌≡◌, refl, inl, inr, Bool, true, false, List, [], ◌∷◌, Option, none, some, any, get_elem?,
  length, ◌==◌, str_eq, if◌then◌else◌, Bool-cases, Option-cases,
}
use mathlib.Core.Path.{subst}
use applicationset.Errors.{Error, Result, ok, err, panic, Result-Cases, is_ok, is_err, is_panic}
use applicationset.Api.Template.{Application, Destination}
use applicationset.Api.ApplicationSet.{ApplicationSet}
use applicationset.Utils.Clusters.{KubeClient, Cluster, list_clusters, validate_destination}
use applicationset.Controllers.Client.{Client}
use applicationset.Controllers.Frame.{EventsKeep, UpdateKeeps, DeleteKeeps}
use applicationset.Controllers.Delete.{
  check_target, without_resources_finalizer, drop_finalizer,
  remove_finalizer_on_invalid_destination, after_finalizer, delete_one, delete_loop,
  delete_in_cluster,
}

-- `a` has the name and the namespace of `c`.
abbrev pub SameKey : Application → Application → Type 0
SameKey c a = (a.name ≡ c.name) × (a.namespace ≡ c.namespace)

-- No desired Application has the name of `c`.
abbrev pub IsUndesired : List Application → Application → Type 0
IsUndesired desired c = any (λ d. str_eq d.name c.name) desired ≡ false

-- `a` is, by its key, an Application of the list which is not desired.
abbrev pub Touches : List Application → List Application → Application → Type 0
Touches desired current a =
    (i : ℕ) × (c : Application) × (get_elem? current i ≡ some c)
    × IsUndesired desired c
    × SameKey c a

module _ {W : Type 0} (client : Client W) (kube : KubeClient) (app_set : ApplicationSet)
    (I : W → Type 0) (P : Application → Type 0) (events : EventsKeep client I)
    (updates : UpdateKeeps client I P) (deletes : DeleteKeeps client I P) where
  module _ (clusters : Option (List Cluster)) (c : Application)
      (touched : (a : Application) → SameKey c a → P a) where
    -- The world has `I`, and a returned Application still has the key of `c`.
    abbrev Kept : Result Application × W → Type 0
    Kept (ok a, w) = SameKey c a × I w
    Kept (err e, w) = I w
    Kept (panic, w) = I w

    updated-I :
        (a a' : Application) (w : W)
        → SameKey c a
        → SameKey c a'
        → I w
        → I (client.update_app a' (client.event "Updated" a.name w)).1
    updated-I a a' w k k' h =
        updates a' (client.event "Updated" a.name w) (touched a' k') (events "Updated" a.name w h)

    drop_finalizer-Kept :
        (a : Application) (w : W)
        → SameKey c a
        → I w
        → Kept (drop_finalizer client kube app_set clusters a w)
    unfolding drop_finalizer
    drop_finalizer-Kept a w k h =
        let new = without_resources_finalizer a.finalizers in
        let a' = record a { finalizers = new } in
        let result = client.update_app a' (client.event "Updated" a.name w) in
        let kept = updated-I a a' w k k h in
        elim (Bool-cases (length new == length a.finalizers)) [
          | inl same ↦ rw same (k, h)
          | inr shorter ↦
              rw shorter
                (elim (Option-cases result.0) [ inl e ↦ rw e (k, kept) | inr (x, e) ↦ rw e kept ])
        ]

    abbrev TargetKept : Result (Application × Bool) → Type 0
    TargetKept (ok (a, valid)) = SameKey c a
    TargetKept _ = Unit

    check_target-TargetKept :
        (a : Application) (r : Result Destination)
        → SameKey c a
        → TargetKept (check_target clusters a r)
    unfolding check_target
    check_target-TargetKept a (err e) k = k
    check_target-TargetKept a panic k = tt
    check_target-TargetKept a (ok dest) k = elim (Option-cases clusters) [
      | inl e ↦ rw (e, check_target) tt
      | inr (cs, e) ↦ rw (e, check_target) k
    ]

    remove_finalizer-Kept :
        (a : Application) (w : W)
        → SameKey c a
        → I w
        → Kept (remove_finalizer_on_invalid_destination client kube app_set clusters a w)
    unfolding remove_finalizer_on_invalid_destination
    remove_finalizer-Kept a w k h =
        let target =
          check_target clusters a
            (validate_destination kube a.spec.destination app_set.namespace) in
        let kept =
          check_target-TargetKept a (validate_destination kube a.spec.destination app_set.namespace)
            k in
        elim (Bool-cases (length a.finalizers == 0)) [
          | inl none_left ↦ rw none_left (k, h)
          | inr some_left ↦ rw some_left (elim (Result-Cases target) [
            | is_err x e ↦ rw e h
            | is_panic e ↦ rw e h
            | is_ok (a', valid) e ↦
                rw e
                  (elim valid
                    as (λ v. Kept (
                      if v then (ok a', w) else drop_finalizer client kube app_set clusters a' w)) [
                        | true ↦ (subst TargetKept e kept, h)
                        | false ↦ drop_finalizer-Kept a' w (subst TargetKept e kept) h
                      ])
          ])
        ]

    after_finalizer-I :
        (s : Result Application × W) → Kept s → I (after_finalizer client kube app_set clusters s).1
    unfolding after_finalizer
    after_finalizer-I (err e, w) h = h
    after_finalizer-I (panic, w) h = h
    after_finalizer-I (ok a, w) (k, h) =
        let result = client.delete_app a w in
        let kept = deletes a w (touched a k) h in
        elim (Option-cases result.0) [
          | inl e ↦ rw (e, after_finalizer) (events "Deleted" a.name result.1 kept)
          | inr (x, e) ↦ rw (e, after_finalizer) kept
        ]

    delete_one-I :
        (a : Application) (w : W)
        → SameKey c a
        → I w
        → I (delete_one client kube app_set clusters a w).1
    unfolding delete_one
    delete_one-I a w k h =
        after_finalizer-I (remove_finalizer_on_invalid_destination client kube app_set clusters a w)
          (remove_finalizer-Kept a w k h)

  module _ (clusters : Option (List Cluster)) (desired : List Application) where
    delete_loop-I :
        (apps : List Application) (first : Option Error) (w : W)
        → ((a : Application) → Touches desired apps a → P a)
        → I w
        → I (delete_loop client kube app_set clusters desired apps first w).1
    unfolding delete_loop
    delete_loop-I [] first w touched h = h
    delete_loop-I (c ∷ apps) first w touched h =
        let rest = λ (a : Application) (t : Touches desired apps a).
          touched a (suc t.0, t.1, t.2, t.3, t.4) in
        elim (Bool-cases (any (λ d. str_eq d.name c.name) desired)) [
          | inl wanted ↦ rw (wanted, delete_loop) (delete_loop-I apps first w rest h)
          | inr undesired ↦
              let one = delete_one client kube app_set clusters c w in
              let kept =
                delete_one-I clusters c (λ a k. touched a (0, c, refl, undesired, k)) c w
                  (refl, refl) h in
              rw (undesired, delete_loop)
                (elim (Result-Cases one.0) [
                  | is_ok a e ↦ rw (e, delete_loop) (delete_loop-I apps first one.1 rest kept)
                  | is_err x e ↦ rw (e, delete_loop) (delete_loop-I apps _ one.1 rest kept)
                  | is_panic e ↦ rw (e, delete_loop) kept
                ])
        ]

  -- `deleteInCluster` writes only to Applications that the cluster lists for the ApplicationSet
  -- and whose name no desired Application has: what such updates and deletions (`P`) and the
  -- events keep is kept.
  pub delete_in_cluster-I :
      (desired : List Application) (w : W)
      → ((current : List Application)
          → client.list_apps app_set.name w ≡ ok current
          → (a : Application) → Touches desired current a
          → P a)
      → I w
      → I (delete_in_cluster client kube app_set desired w).1
  unfolding delete_in_cluster
  delete_in_cluster-I desired w touched h =
      elim (Result-Cases (list_clusters kube app_set.namespace)) [
        | is_err x e ↦ rw (e, delete_in_cluster) h
        | is_panic e ↦ rw (e, delete_in_cluster) h
        | is_ok clusters e ↦
            rw (e, delete_in_cluster)
              (elim (Result-Cases (client.list_apps app_set.name w)) [
                | is_err x f ↦ rw (f, delete_in_cluster) h
                | is_panic f ↦ rw (f, delete_in_cluster) h
                | is_ok current f ↦
                    rw (f, delete_in_cluster)
                      (delete_loop-I clusters desired current none w (touched current f) h)
              ])
      ]
