-- ===== src/Controllers/Apply/Frame.antt =====
-- What `createOrUpdateInCluster` and `createInCluster` may write.
use applicationset.Prelude.{
  ℕ, suc, String, ◌≡◌, ◌≢◌, refl, sym, ap, ◌∙◌, inl, inr, true, false, not, List, [], ◌∷◌, Option,
  none, some, any, get_elem?, get_elem?-keep_if, str_eq, eq_iff, if◌then◌else◌, lookup,
  lookup-insert, Map, arith, Option-cases,
}
use applicationset.Errors.{
  Error, is_not_found, Result, ok, err, panic, Result-Cases, is_ok, is_err, is_panic,
}
use applicationset.Errors.Laws.{bind-ok}
use applicationset.Api.Template.{Application}
use applicationset.Api.ApplicationSet.{ApplicationSet}
use applicationset.Utils.CreateOrUpdate.{
  MutateFn, OperationResult, result_none, mutate, written, create_new, update_existing, after_get,
  equal_destinations, create_or_update, result_created, result_updated,
}
use applicationset.Controllers.Client.{Client, Libraries}
use applicationset.Controllers.Frame.{EventsKeep, CreateKeeps, UpdateKeeps}
use applicationset.Controllers.Apply.{
  notified_annotation_key, preserve_notified, mutate_found, found_application, action_text,
  apply_one, apply_loop, create_or_update_in_cluster, new_apps, create_in_cluster,
}

-- `a` is what the controller writes for the generated Application `g`: only the owner, and the
-- annotation of the notifications, come from elsewhere.
pub record IsWritten (app_namespace : String) (g a : Application) : Type 0 where
  pub name : a.name ≡ g.name
  pub namespace : a.namespace ≡ app_namespace
  pub spec : a.spec ≡ g.spec
  pub labels : a.labels ≡ g.labels
  pub finalizers : a.finalizers ≡ g.finalizers
  pub annotations :
      (k : String) → k ≢ notified_annotation_key → lookup k a.annotations ≡ lookup k g.annotations

-- What the libraries document: `SetControllerReference` sets the owner only.
abbrev pub SetsOwnerOnly : Libraries → Type 0
SetsOwnerOnly libraries =
    (s : ApplicationSet) (a b : Application)
    → libraries.set_controller_reference s a ≡ ok b
    → b ≡ record a { controller = b.controller }

pub lookup-preserve_notified :
    (found generated : Map String) (k : String)
    → k ≢ notified_annotation_key
    → lookup k (preserve_notified found generated) ≡ lookup k generated
unfolding preserve_notified
lookup-preserve_notified found generated k other =
    elim (Option-cases (lookup notified_annotation_key found)) [
      | inl e ↦ rw (e, preserve_notified)
      | inr (state, e) ↦
          rw (e, preserve_notified)
            (ground (
              arith,
              lookup-insert notified_annotation_key k state generated,
              eq_iff notified_annotation_key k,
            ))
    ]

mutate-ok :
    (f : MutateFn) (namespace name : String) (obj new : Application)
    → mutate f namespace name obj ≡ ok new
    → (f obj ≡ ok new) × (new.namespace ≡ namespace) × (new.name ≡ name)
unfolding mutate
mutate-ok f namespace name obj new h =
    let (got, called, h') = bind-ok (f obj) h in
    ground (arith, eq_iff namespace got.namespace, eq_iff name got.name)

module _ (libraries : Libraries) (app_set : ApplicationSet) (owner : SetsOwnerOnly libraries)
    (g : Application) where
  mutate_found-IsWritten :
      (found a : Application)
      → mutate (mutate_found libraries app_set g) app_set.namespace g.name found ≡ ok a
      → IsWritten app_set.namespace g a
  unfolding mutate_found
  mutate_found-IsWritten found a h =
      let (called, ns, n) = mutate-ok _ app_set.namespace g.name found a h in
      let e = owner app_set _ a called in
      rw e (record {
        name = sym (ap (λ x. x.name) e) ∙ n;
        namespace = sym (ap (λ x. x.namespace) e) ∙ ns;
        spec = refl;
        labels = refl;
        finalizers = refl;
        annotations = lookup-preserve_notified found.annotations g.annotations;
      })

  module _ {W : Type 0} (client : Client W) (I : W → Type 0) (events : EventsKeep client I)
      (creates : CreateKeeps client I (IsWritten app_set.namespace g))
      (updates : UpdateKeeps client I (IsWritten app_set.namespace g)) where
    written-I : (action : OperationResult) (s : Option Error × W) → I s.1 → I (written action s).1
    written-I action (none, w) h = h
    written-I action (some e, w) h = h

    create_new-I :
        (found : Application) (r : Result Application) (w : W)
        → ((a : Application) → r ≡ ok a → IsWritten app_set.namespace g a)
        → I w
        → I (create_new client.apps libraries.deep_equal r w).1
    unfolding create_new
    create_new-I found (ok a) w is h = written-I result_created _ (creates a w (is a refl) h)
    create_new-I found (err e) w is h = h
    create_new-I found panic w is h = h

    update_existing-I :
        (existing : Application) (r : Result Application) (w : W)
        → ((a : Application) → r ≡ ok a → IsWritten app_set.namespace g a)
        → I w
        → I (update_existing client.apps libraries.deep_equal existing r w).1
    unfolding update_existing
    update_existing-I existing (ok a) w is h =
        elim (libraries.deep_equal equal_destinations existing a)
          as (λ same.
            I
              (if same
                then (ok result_none, w)
                else written result_updated (client.update_app a w)).1) [
                  | true ↦ h
                  | false ↦ written-I result_updated _ (updates a w (is a refl) h)
                ]
    update_existing-I existing (err e) w is h = h
    update_existing-I existing panic w is h = h

    apply_one-I : (w : W) → I w → I (apply_one client libraries app_set g w).1
    unfolding apply_one create_or_update after_get found_application
    apply_one-I w h =
        let f = mutate_found libraries app_set g in
        let obj = found_application g.name app_set.namespace in
        elim (Result-Cases (client.get_app app_set.namespace g.name w)) [
          | is_ok existing e ↦
              rw (e, after_get)
                (update_existing-I existing (mutate f app_set.namespace g.name existing) w
                  (mutate_found-IsWritten existing) h)
          | is_panic e ↦ rw (e, after_get) h
          | is_err x e ↦
              rw (e, after_get)
                (elim (is_not_found x)
                  as (λ missing.
                    I
                      (if missing
                        then create_new client.apps libraries.deep_equal
                            (mutate f app_set.namespace g.name obj) w
                        else (err x, w)).1) [
                          | true ↦
                              create_new-I obj (mutate f app_set.namespace g.name obj) w
                                (mutate_found-IsWritten obj) h
                          | false ↦ h
                        ])
        ]

-- `a` is what the controller writes for one of the generated Applications.
abbrev pub Writes : String → List Application → Application → Type 0
Writes namespace apps a =
    (i : ℕ) × (g : Application) × (get_elem? apps i ≡ some g) × IsWritten namespace g a

-- No Application of the list has the name of `g`.
abbrev pub IsNew : List Application → Application → Type 0
IsNew current g = any (λ c. str_eq c.name g.name) current ≡ false

module _ {W : Type 0} (client : Client W) (libraries : Libraries) (app_set : ApplicationSet)
    (owner : SetsOwnerOnly libraries) (I : W → Type 0) (P : Application → Type 0)
    (events : EventsKeep client I) (creates : CreateKeeps client I P)
    (updates : UpdateKeeps client I P) where
  apply_loop-I :
      (apps : List Application) (first : Option Error) (w : W)
      → ((a : Application) → Writes app_set.namespace apps a → P a)
      → I w
      → I (apply_loop client libraries app_set apps first w).1
  unfolding apply_loop
  apply_loop-I [] first w writes h = h
  apply_loop-I (g ∷ apps) first w writes h =
      let here =
        λ (a : Application) (is : IsWritten app_set.namespace g a). writes a (0, g, refl, is) in
      let rest = λ (a : Application) (t : Writes app_set.namespace apps a).
        writes a (suc t.0, t.1, t.2, t.3) in
      let one = apply_one client libraries app_set g w in
      let kept =
        apply_one-I libraries app_set owner g client I events (λ a w' is. creates a w' (here a is))
          (λ a w' is. updates a w' (here a is)) w h in
      elim (Result-Cases one.0) [
        | is_ok action e ↦
            rw (e, apply_loop)
              (apply_loop-I apps first _ rest (events (action_text action) g.name one.1 kept))
        | is_err x e ↦ rw (e, apply_loop) (apply_loop-I apps _ one.1 rest kept)
        | is_panic e ↦ rw (e, apply_loop) kept
      ]

  -- If `SetControllerReference` sets the owner only, `createOrUpdateInCluster` creates and updates only what `IsWritten` says of one of
  -- the given Applications: what such writes (`P`) and the events keep is kept.
  pub create_or_update_in_cluster-I :
      (apps : List Application) (w : W)
      → ((a : Application) → Writes app_set.namespace apps a → P a)
      → I w
      → I (create_or_update_in_cluster client libraries app_set apps w).1
  unfolding create_or_update_in_cluster
  create_or_update_in_cluster-I apps w writes h = apply_loop-I apps none w writes h

  new_apps-IsNew :
      (current desired : List Application) (i : ℕ) (g : Application)
      → get_elem? (new_apps client libraries app_set current desired) i ≡ some g
      → IsNew current g × ((j : ℕ) × (get_elem? desired j ≡ some g))
  unfolding new_apps
  new_apps-IsNew current desired i g e =
      let (kept, at) =
        get_elem?-keep_if (λ app. not (any (λ c. str_eq c.name app.name) current)) desired i e in
      (ground arith, at)

  -- If `SetControllerReference` sets the owner only, `createInCluster` writes, of the given
  -- Applications, only those whose name is not among those that the cluster lists for the
  -- ApplicationSet, and each as `IsWritten` says: what such writes (`P`) and the events keep is kept.
  pub create_in_cluster-I :
      (desired : List Application) (w : W)
      → ((current : List Application)
          → client.list_apps app_set.name w ≡ ok current
          → (j : ℕ) (g a : Application) → get_elem? desired j ≡ some g
          → IsNew current g
          → IsWritten app_set.namespace g a
          → P a)
      → I w
      → I (create_in_cluster client libraries app_set desired w).1
  unfolding create_in_cluster
  create_in_cluster-I desired w writes h = elim (Result-Cases (client.list_apps app_set.name w)) [
    | is_err x e ↦ rw (e, create_in_cluster) h
    | is_panic e ↦ rw (e, create_in_cluster) h
    | is_ok current e ↦
        rw (e, create_in_cluster)
          (create_or_update_in_cluster-I (new_apps client libraries app_set current desired) w
            (λ a t.
              let (new, (j, at)) = new_apps-IsNew current desired t.0 t.1 t.2 in
              writes current e j t.1 a at new t.3)
            h)
  ]
