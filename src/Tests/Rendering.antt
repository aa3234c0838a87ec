-- ===== src/Tests/Rendering.antt =====
-- The theorems on the rendering of templates, at small inputs.
use mathlib.Core.List.{cons≢nil}
use applicationset.Prelude.{◌↔◌, ◌≡◌, refl, String, true, false, [], ◌∷◌, some, All}
use applicationset.Errors.{ok}
use applicationset.Utils.Render.{
  Codec, literal, tag, resolve, replace, add_finalizer, render_template_params,
}
use applicationset.Utils.Render.Laws.{Resolves, source_of, replace-source_of, replace-strict}
use applicationset.Utils.Render.Finalizers.{IsRendered, render_template_params-IsRendered}
use applicationset.Api.ApplicationSet.{ApplicationSetSyncPolicy}
use applicationset.Tests.Store.{app}

replace-source_of_example :
    replace (λ s. s) (("name", "guestbook") ∷ []) true (literal "a-" ∷ tag " cluster" ∷ [])
    ≡ ok (source_of (literal "a-" ∷ tag " cluster" ∷ []))
unfolding resolve
replace-source_of_example =
    replace-source_of (λ s. s) (("name", "guestbook") ∷ []) (literal "a-" ∷ tag " cluster" ∷ [])
      (tt, (refl, tt))

replace-strict_example :
    ((t : String) × (replace (λ s. s) (("name", "guestbook") ∷ []) false (tag " name " ∷ [])
        ≡ ok t))
    ↔ All (Resolves (("name", "guestbook") ∷ [])) (tag " name " ∷ [])
replace-strict_example = replace-strict (λ s. s) (("name", "guestbook") ∷ []) (tag " name " ∷ [])

abbrev codec : Codec
codec = record {
  marshal = λ a. ok a.name;
  unmarshal = λ t. ok (app t);
  parse = λ t. some (tag "name" ∷ []);
  quote = λ s. s;
}

abbrev deleting : ApplicationSetSyncPolicy
deleting = record { preserve_resources_on_deletion = false }

render_template_params-IsRendered_example :
    (render_template_params codec
        (some (app "{{name}}"))
        (some deleting)
        (("name", "guestbook") ∷ [])
      ≡ ok (add_finalizer (some deleting) (app "guestbook")))
    ↔ IsRendered codec
        (app "{{name}}")
        (some deleting)
        (("name", "guestbook") ∷ [])
        (add_finalizer (some deleting) (app "guestbook"))
render_template_params-IsRendered_example =
    render_template_params-IsRendered codec (app "{{name}}")
      (add_finalizer (some deleting) (app "guestbook")) (some deleting) (("name", "guestbook") ∷ [])
      cons≢nil
