-- ===== src/Controllers/Delete/Errors.antt =====
-- The error that `deleteInCluster` returns.
use applicationset.Prelude.{
  ◌≡◌, refl, ◌∙◌, ◌⊎◌, inl, inr, List, [], ◌∷◌, Option, none, some, any, str_eq, Bool-cases,
}
use applicationset.Errors.{Error, ok, err, panic, Result-Cases, is_ok, is_err, is_panic}
use applicationset.Api.Template.{Application}
use applicationset.Api.ApplicationSet.{ApplicationSet}
use applicationset.Utils.Clusters.{KubeClient, Cluster, list_clusters}
use applicationset.Controllers.Client.{Client}
use applicationset.Controllers.Delete.{delete_one, delete_loop, delete_in_cluster}

module _ {W : Type 0} (client : Client W) (kube : KubeClient) (app_set : ApplicationSet) where
  -- No failure of the loop is returned, since the first error is only replaced, never set.
  delete_loop-silent :
      (clusters : Option (List Cluster)) (desired apps : List Application) (w : W)
      → let r = (delete_loop client kube app_set clusters desired apps none w).0 in
        (r ≡ ok none) ⊎ (r ≡ panic)
  unfolding delete_loop
  delete_loop-silent clusters desired [] w = inl refl
  delete_loop-silent clusters desired (c ∷ apps) w =
      elim (Bool-cases (any (λ d. str_eq d.name c.name) desired)) [
        | inl wanted ↦ rw (wanted, delete_loop) (delete_loop-silent clusters desired apps w)
        | inr undesired ↦
            let one = delete_one client kube app_set clusters c w in
            rw (undesired, delete_loop)
              (elim (Result-Cases one.0) [
                | is_ok a e ↦ rw (e, delete_loop) (delete_loop-silent clusters desired apps one.1)
                | is_err x e ↦ rw (e, delete_loop) (delete_loop-silent clusters desired apps one.1)
                | is_panic e ↦ rw (e, delete_loop) (inr refl)
              ])
      ]

  -- An error that `deleteInCluster` returns comes from listing the clusters or the Applications:
  -- no failure to update or to delete an Application is ever returned.
  pub delete_in_cluster_error :
      (desired : List Application) (w : W) {e : Error}
      → (delete_in_cluster client kube app_set desired w).0 ≡ ok (some e)
      → (list_clusters kube app_set.namespace ≡ err e) ⊎ (client.list_apps app_set.name w ≡ err e)
  unfolding delete_in_cluster
  delete_in_cluster_error desired w h = elim (Result-Cases (list_clusters kube app_set.namespace)) [
    | is_err x e ↦ inl (e ∙ cc (rw (e, delete_in_cluster) at h))
    | is_panic e ↦ cc (rw (e, delete_in_cluster) at h)
    | is_ok clusters e ↦
        let h' = rw (e, delete_in_cluster) at h in
        elim (Result-Cases (client.list_apps app_set.name w)) [
          | is_err x f ↦ inr (f ∙ cc (rw (f, delete_in_cluster) at h'))
          | is_panic f ↦ cc (rw (f, delete_in_cluster) at h')
          | is_ok current f ↦
              let h'' = rw (f, delete_in_cluster) at h' in
              elim (delete_loop-silent clusters desired current w) [
                | inl silent ↦ cc (h'', silent)
                | inr panics ↦ cc (h'', panics)
              ]
        ]
  ]
