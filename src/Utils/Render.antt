-- ===== src/Utils/Render.antt =====
-- pkg/utils/util.go: the rendering of a template.
pub mod Laws
pub mod Finalizers
use Prim.Native.Char.{Char, code}
use Prim.Native.String.{◌++◌ as ◌+++◌}
use applicationset.Prelude.{
  String, Bool, true, false, not, ◌&&◌, ◌||◌, leb, ◌==◌, List, [], ◌∷◌, Option, none, some, Map,
  lookup, or_else, if◌then◌else◌,
}
use applicationset.Errors.{Error, Result, ok, err, panic, ◌>>=◌, empty_template, unresolved_tag}
use applicationset.Api.Template.{Application}
use applicationset.Api.ApplicationSet.{ApplicationSetSyncPolicy}
use applicationset.Utils.Chars.{trim_chars}
use applicationset.Utils.Combine.{Params}
use applicationset.Utils.Text.{is_empty}

-- A part of a parsed template: text, or what stands between `{{` and `}}`.
pub data Segment : Type 0 where
  literal : String → Segment
  tag : String → Segment

-- What the code calls: `json.Marshal` and `json.Unmarshal` of an Application; `fasttemplate.New`, with
-- `none` where it panics since a `{{` has no `}}`; and `strconv.Quote` less the quotes around it.
pub record Codec : Type 0 where
  pub marshal : Application → Result String
  pub unmarshal : String → Result Application
  pub parse : String → Option (List Segment)
  pub quote : String → String

-- `unicode.IsSpace`
unfoldable pub is_space : Char → Bool
is_space c =
    (leb 0x9 (code c) && leb (code c) 0xd)
    || (code c == 0x20
        || (code c == 0x85
            || (code c == 0xa0
                || (code c == 0x1680
                    || ((leb 0x2000 (code c) && leb (code c) 0x200a)
                        || (code c == 0x2028
                            || (code c == 0x2029
                                || (code c == 0x202f
                                    || (code c == 0x205f || code c == 0x3000)))))))))

-- `replaceMap[trimmedTag]`, unless the trimmed tag is empty
unfoldable pub resolve : Map String → String → Option String
unfolding trim_chars lookup is_space
resolve replace_map t =
    let trimmed = trim_chars is_space t in
    if is_empty trimmed then none else lookup trimmed replace_map

-- The end of `replace`.
abbrev pub finish_replace : String × Option Error → Result String
finish_replace (text, none) = ok text
finish_replace (text, some e) = err e

module _ (quote : String → String) (replace_map : Map String) (allow_unresolved : Bool) where
  -- What is written for a tag, and `unresolvedErr`.
  unfoldable pub replace_tag : String → String × Option Error
  unfolding resolve
  replace_tag t = elim (resolve replace_map t) [
    | some replacement ↦ (quote replacement, none)
    | none ↦ if allow_unresolved then ("{{" +++ t +++ "}}", none) else ("", some (unresolved_tag t))
  ]

  -- The execution of the template; a later error replaces an earlier one.
  unfoldable pub execute : List Segment → String × Option Error
  unfolding replace_tag
  execute [] = ("", none)
  execute (literal s ∷ segments) = let (text, failed) = execute segments in (s +++ text, failed)
  execute (tag t ∷ segments) =
      let (written, error) = replace_tag t in
      let (text, failed) = execute segments in (written +++ text, or_else failed error)

  -- `replace`
  unfoldable pub replace : List Segment → Result String
  unfolding execute
  replace segments = finish_replace (execute segments)

-- `syncPolicy == nil || !syncPolicy.PreserveResourcesOnDeletion`
abbrev pub deletes_resources : Option ApplicationSetSyncPolicy → Bool
deletes_resources none = true
deletes_resources (some policy) = not policy.preserve_resources_on_deletion

abbrev pub resources_finalizer : String
resources_finalizer = "resources-finalizer.argocd.argoproj.io"

-- The finalizers of a rendered Application: its own, or that of Argo CD if it has none.
unfoldable pub finalizers_for : Bool → List String → List String
finalizers_for deletes (f ∷ fs) = f ∷ fs
finalizers_for deletes [] = if deletes then resources_finalizer ∷ [] else []

unfoldable pub add_finalizer : Option ApplicationSetSyncPolicy → Application → Application
unfolding finalizers_for
add_finalizer policy app = record app {
  finalizers = finalizers_for (deletes_resources policy) app.finalizers;
}

module _ (codec : Codec) where
  -- `RenderTemplateParams` of a template and parameters that are not empty.
  unfoldable pub render_params :
      Application → Option ApplicationSetSyncPolicy → Params → Result Application
  unfolding replace add_finalizer
  render_params tmpl policy params = do
    bytes ← codec.marshal tmpl
    elim (codec.parse bytes) [
      | none ↦ panic
      | some segments ↦ do
        replaced ← replace codec.quote params true segments
        app ← codec.unmarshal replaced
        ok (add_finalizer policy app)
    ]

  -- `RenderTemplateParams`
  unfoldable pub render_template_params :
      Option Application → Option ApplicationSetSyncPolicy → Params → Result Application
  unfolding render_params
  render_template_params none policy params = err empty_template
  render_template_params (some tmpl) policy [] = ok tmpl
  render_template_params (some tmpl) policy (p ∷ params) = render_params tmpl policy (p ∷ params)
