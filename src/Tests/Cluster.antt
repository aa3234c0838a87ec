-- ===== src/Tests/Cluster.antt =====
-- Runs of the controller on the small cluster.
use applicationset.Prelude.{◌≡◌, refl, ◌⊎◌, inl, inr, false, zero, suc, List, [], ◌∷◌, All}
use applicationset.Errors.{ok, err, api_error}
use applicationset.Api.Template.{Application}
use applicationset.Utils.Clusters.{list_clusters}
use applicationset.Utils.Policy.{allows_delete}
use applicationset.Controllers.Client.{Client}
use applicationset.Controllers.Apply.{create_in_cluster, create_or_update_in_cluster}
use applicationset.Controllers.Apply.Frame.{create_in_cluster-I, create_or_update_in_cluster-I}
use applicationset.Controllers.Delete.{delete_in_cluster}
use applicationset.Controllers.Delete.Frame.{Touches, delete_in_cluster-I}
use applicationset.Controllers.Delete.Errors.{delete_in_cluster_error}
use applicationset.Controllers.Reconcile.{reconcile}
use applicationset.Controllers.Reconcile.Frame.{reconcile-I}
use applicationset.Tests.Store.{
  World, world, app, guestbook_set, client, libraries, kube, reconciler, client-AnswersByKey,
  client-GetsSetByKey, libraries-SetsOwnerOnly,
}

-- Everything written is in the namespace of Argo CD.
abbrev InArgocd : World → Type 0
InArgocd w = All (λ a. a.namespace ≡ "argocd") w.written

abbrev ToArgocd : Application → Type 0
ToArgocd a = a.namespace ≡ "argocd"

create_or_update_in_cluster-I_example :
    InArgocd
      (create_or_update_in_cluster client libraries guestbook_set
        (app "guestbook-staging" ∷ app "guestbook-production" ∷ [])
        world).1
create_or_update_in_cluster-I_example =
    create_or_update_in_cluster-I client libraries guestbook_set libraries-SetsOwnerOnly InArgocd
      ToArgocd (λ action name w h. h) (λ a w p h. (p, h)) (λ a w p h. (p, h))
      (app "guestbook-staging" ∷ app "guestbook-production" ∷ []) world (λ a t. t.3.namespace) tt

create_in_cluster-I_example :
    InArgocd
      (create_in_cluster client libraries guestbook_set
        (app "guestbook-staging" ∷ app "guestbook-production" ∷ [])
        world).1
create_in_cluster-I_example =
    create_in_cluster-I client libraries guestbook_set libraries-SetsOwnerOnly InArgocd ToArgocd
      (λ action name w h. h) (λ a w p h. (p, h)) (λ a w p h. (p, h))
      (app "guestbook-staging" ∷ app "guestbook-production" ∷ []) world
      (λ current e j g a at new is. is.namespace) tt

abbrev OnlyProduction : World → Type 0
OnlyProduction w = All (λ a. a.name ≡ "guestbook-production") w.deleted

abbrev IsProduction : Application → Type 0
IsProduction a = a.name ≡ "guestbook-production"

-- The list of the small cluster has the one Application.
list_apps-IsProduction :
    (desired current : List Application)
    → client.list_apps "guestbook" world ≡ ok current
    → (a : Application) → Touches desired current a
    → IsProduction a
list_apps-IsProduction desired [] e a t = cc
list_apps-IsProduction desired (c ∷ current) e a (zero, d, at, undesired, key) = cc
list_apps-IsProduction desired (c ∷ []) e a (suc i, d, at, undesired, key) = cc
list_apps-IsProduction desired (c ∷ c' ∷ current) e a (suc i, d, at, undesired, key) = cc

delete_in_cluster-I_example :
    OnlyProduction
      (delete_in_cluster client kube guestbook_set (app "guestbook-staging" ∷ []) world).1
delete_in_cluster-I_example =
    delete_in_cluster-I client kube guestbook_set OnlyProduction IsProduction (λ action name w h. h)
      (λ a w p h. h) (λ a w p h. (p, h)) (app "guestbook-staging" ∷ []) world
      (list_apps-IsProduction (app "guestbook-staging" ∷ [])) tt

-- A cluster that does not list its Applications.
abbrev silent : Client World
silent = record client { list_apps = λ name w. err (api_error false "timeout") }

delete_in_cluster_error_example :
    (list_clusters kube "argocd" ≡ err (api_error false "timeout"))
    ⊎ (silent.list_apps "guestbook" world ≡ err (api_error false "timeout"))
unfolding delete_in_cluster list_clusters
delete_in_cluster_error_example = delete_in_cluster_error silent kube guestbook_set [] world refl

-- Everything written is in the namespace of Argo CD, and nothing is deleted.
abbrev CreatesOnly : World → Type 0
CreatesOnly w = InArgocd w × (w.deleted ≡ [])

reconcile-I_example : CreatesOnly (reconcile reconciler "argocd" "guestbook" world).1
unfolding allows_delete
reconcile-I_example =
    reconcile-I reconciler "argocd" "guestbook" world libraries-SetsOwnerOnly client-GetsSetByKey
      client-AnswersByKey CreatesOnly
      (record { on_event = λ action name w h. h; on_status = λ a w h. h; on_app_set = λ a w h. h })
      (λ a w p h. ((p.1.3.namespace, h.0), h.1))
      (λ a w p h. elim p [ inl applies ↦ ((applies.1.3.namespace, h.0), h.1) | inr removes ↦ cc ])
      (λ a w p h. cc) (tt, refl)
