-- ===== src/Utils/Render/Finalizers.antt =====
-- What a rendered Application is, and which finalizers it has (pkg/utils/util.go).
use applicationset.Prelude.{
  ◌↔◌, ◌≡◌, ◌≢◌, refl, sym, ◌∙◌, ap, String, true, false, List, [], ◌∷◌, Option, none, some,
  Option-cases, Bool-cases, inl, inr, ◌⊎◌,
}
use mathlib.Core.Path.{subst}
use applicationset.Errors.{ok}
use applicationset.Errors.Laws.{ok-injective, bind-ok}
use applicationset.Api.Template.{Application}
use applicationset.Api.ApplicationSet.{ApplicationSetSyncPolicy}
use applicationset.Utils.Combine.{Params}
use applicationset.Utils.Render.{
  Segment, Codec, replace, deletes_resources, finalizers_for, add_finalizer, render_params,
  render_template_params,
}
use applicationset.Utils.Render.Laws.{substituted, replace-substituted}

-- The finalizers `out` of an Application that was decoded with the first ones: its own if it has
-- any; else the one of Argo CD, unless there is a policy that preserves resources on deletion.
abbrev pub FinalizersOf : Option ApplicationSetSyncPolicy → List String → List String → Type 0
FinalizersOf policy (f ∷ fs) out = out ≡ f ∷ fs
FinalizersOf none [] out = out ≡ "resources-finalizer.argocd.argoproj.io" ∷ []
FinalizersOf (some p) [] out =
    ((p.preserve_resources_on_deletion ≡ true) × (out ≡ []))
    ⊎ ((p.preserve_resources_on_deletion ≡ false)
        × (out ≡ "resources-finalizer.argocd.argoproj.io" ∷ []))

-- `app` is decoded from the text of the template with its tags substituted, but for its finalizers.
abbrev pub IsRendered :
    Codec → Application → Option ApplicationSetSyncPolicy → Params → Application → Type 0
IsRendered codec tmpl policy params app =
    (bytes : String) × (segments : List Segment) × (decoded : Application) × (codec.marshal tmpl
      ≡ ok bytes)
    × (codec.parse bytes ≡ some segments)
    × (codec.unmarshal (substituted codec.quote params segments) ≡ ok decoded)
    × (app ≡ record decoded { finalizers = app.finalizers })
    × FinalizersOf policy decoded.finalizers app.finalizers

finalizers_for-FinalizersOf :
    (policy : Option ApplicationSetSyncPolicy) (fs : List String)
    → FinalizersOf policy fs (finalizers_for (deletes_resources policy) fs)
unfolding finalizers_for
finalizers_for-FinalizersOf policy (f ∷ fs) = refl
finalizers_for-FinalizersOf none [] = refl
finalizers_for-FinalizersOf (some p) [] = elim (Bool-cases p.preserve_resources_on_deletion) [
  | inl e ↦ inl (e, rw e refl)
  | inr e ↦ inr (e, rw e refl)
]

FinalizersOf-finalizers_for :
    (policy : Option ApplicationSetSyncPolicy) (fs out : List String)
    → FinalizersOf policy fs out
    → out ≡ finalizers_for (deletes_resources policy) fs
unfolding finalizers_for
FinalizersOf-finalizers_for policy (f ∷ fs) out h = h
FinalizersOf-finalizers_for none [] out h = h
FinalizersOf-finalizers_for (some p) [] out (inl (e, h)) = rw e h
FinalizersOf-finalizers_for (some p) [] out (inr (e, h)) = rw e h

render_params-IsRendered :
    (codec : Codec) (tmpl app : Application) (policy : Option ApplicationSetSyncPolicy)
    (params : Params)
    → render_params codec tmpl policy params ≡ ok app
    → IsRendered codec tmpl policy params app
unfolding render_params add_finalizer
render_params-IsRendered codec tmpl app policy params r =
    let (bytes, marshalled, r1) = bind-ok (codec.marshal tmpl) r in
    elim (Option-cases (codec.parse bytes)) [
      | inl e ↦ cc (rw e at r1)
      | inr (segments, e) ↦
          let (text, replaced, r2) =
            bind-ok (replace codec.quote params true segments) (rw e at r1) in
          let (decoded, unmarshalled, r3) = bind-ok (codec.unmarshal text) r2 in
          let same =
            ok-injective (sym (replace-substituted codec.quote params segments) ∙ replaced) in
          subst (IsRendered codec tmpl policy params) (ok-injective r3) (
            bytes,
            segments,
            decoded,
            marshalled,
            e,
            ap codec.unmarshal same ∙ unmarshalled,
            refl,
            finalizers_for-FinalizersOf policy decoded.finalizers,
          )
    ]

IsRendered-render_params :
    (codec : Codec) (tmpl app : Application) (policy : Option ApplicationSetSyncPolicy)
    (params : Params)
    → IsRendered codec tmpl policy params app
    → render_params codec tmpl policy params ≡ ok app
unfolding render_params add_finalizer
IsRendered-render_params codec tmpl app policy params
      (bytes, segments, decoded, marshalled, parsed, unmarshalled, same, fin) =
    let unique = FinalizersOf-finalizers_for policy decoded.finalizers app.finalizers fin in
    rw
      (
        render_params,
        marshalled,
        parsed,
        replace-substituted codec.quote params segments,
        unmarshalled,
      )
      (ap ok (ap (λ fs. record decoded { finalizers = fs }) (sym unique) ∙ sym same))

-- Rendering a template with parameters returns an Application exactly if it is what the template
-- decodes to once its tags are substituted, with its own finalizers if it has any; if it has none,
-- with the finalizer `resources-finalizer.argocd.argoproj.io` if there is no policy or the policy
-- does not preserve resources on deletion, and without finalizers if the policy preserves them.
pub render_template_params-IsRendered :
    (codec : Codec) (tmpl app : Application) (policy : Option ApplicationSetSyncPolicy)
    (params : Params)
    → params ≢ []
    → (render_template_params codec (some tmpl) policy params ≡ ok app)
      ↔ IsRendered codec tmpl policy params app
unfolding render_template_params
render_template_params-IsRendered codec tmpl app policy [] h = absurd (h refl)
render_template_params-IsRendered codec tmpl app policy (p ∷ params) h = (
  render_params-IsRendered codec tmpl app policy (p ∷ params),
  IsRendered-render_params codec tmpl app policy (p ∷ params),
)
