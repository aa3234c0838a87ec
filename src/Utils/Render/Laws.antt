-- ===== src/Utils/Render/Laws.antt =====
-- What rendering keeps and what it replaces (pkg/utils/util.go).
use Prim.Native.String.{◌++◌ as ◌+++◌}
use applicationset.Prelude.{
  ◌≡◌, refl, ◌∙◌, ap, ◌↔◌, String, true, false, List, [], ◌∷◌, All, none, some, Map, Option-cases,
  inl, inr,
}
use applicationset.Errors.{ok}
use applicationset.Utils.Render.{
  Segment, literal, tag, finish_replace, resolve, replace_tag, execute, replace,
}

-- The text of a segment in the source of the template.
abbrev pub source_of : List Segment → String
source_of [] = ""
source_of (literal s ∷ segments) = s +++ source_of segments
source_of (tag t ∷ segments) = ("{{" +++ t +++ "}}") +++ source_of segments

-- What each segment becomes: a tag that resolves its quoted value, another one itself.
abbrev pub substituted : (String → String) → Map String → List Segment → String
substituted quote m [] = ""
substituted quote m (literal s ∷ segments) = s +++ substituted quote m segments
substituted quote m (tag t ∷ segments) =
    let rest = substituted quote m segments in
    elim (resolve m t) [ some v ↦ quote v +++ rest | none ↦ ("{{" +++ t +++ "}}") +++ rest ]

abbrev pub Resolves : Map String → Segment → Type 0
Resolves m (literal s) = Unit
Resolves m (tag t) = (v : String) × (resolve m t ≡ some v)

abbrev pub IsUnresolved : Map String → Segment → Type 0
IsUnresolved m (literal s) = Unit
IsUnresolved m (tag t) = resolve m t ≡ none

module _ (quote : String → String) (m : Map String) where
  execute-substituted :
      (segments : List Segment)
      → execute quote m true segments ≡ (substituted quote m segments, none)
  unfolding execute
  execute-substituted [] = refl
  execute-substituted (literal s ∷ segments) = rw (execute-substituted segments) refl
  execute-substituted (tag t ∷ segments) = elim (Option-cases (resolve m t)) [
    | inl e ↦ rw (execute, replace_tag, substituted, e, execute-substituted segments) refl
    | inr (v, e) ↦ rw (execute, replace_tag, substituted, e, execute-substituted segments) refl
  ]

  substituted-source_of :
      (segments : List Segment)
      → All (IsUnresolved m) segments
      → substituted quote m segments ≡ source_of segments
  substituted-source_of [] h = refl
  substituted-source_of (literal s ∷ segments) h =
      ap (λ rest. s +++ rest) (substituted-source_of segments h.1)
  substituted-source_of (tag t ∷ segments) h =
      rw (substituted, h.0)
        (ap (λ rest. ("{{" +++ t +++ "}}") +++ rest) (substituted-source_of segments h.1))

  -- Where unresolved tags are allowed, replace returns the text with each tag that resolves replaced
  -- by its quoted value, and with the other tags as they are written.
  pub replace-substituted :
      (segments : List Segment) → replace quote m true segments ≡ ok (substituted quote m segments)
  unfolding replace
  replace-substituted segments = ap finish_replace (execute-substituted segments)

  -- A template none of whose tags resolves comes back from replace as it was written, where
  -- unresolved tags are allowed.
  pub replace-source_of :
      (segments : List Segment)
      → All (IsUnresolved m) segments
      → replace quote m true segments ≡ ok (source_of segments)
  replace-source_of segments h =
      replace-substituted segments ∙ ap ok (substituted-source_of segments h)

  resolved-execute :
      (segments : List Segment)
      → All (Resolves m) segments
      → (execute quote m false segments).1 ≡ none
  unfolding execute
  resolved-execute [] h = refl
  resolved-execute (literal s ∷ segments) h = resolved-execute segments h.1
  resolved-execute (tag t ∷ segments) h =
      rw (execute, replace_tag, h.0.1, resolved-execute segments h.1) refl

  execute-resolved :
      (segments : List Segment)
      → (execute quote m false segments).1 ≡ none
      → All (Resolves m) segments
  unfolding execute
  execute-resolved [] h = tt
  execute-resolved (literal s ∷ segments) h = (tt, execute-resolved segments h)
  execute-resolved (tag t ∷ segments) h = elim (Option-cases (execute quote m false segments).1) [
    | inr (e, later) ↦ cc (rw (execute, later) at h)
    | inl none_later ↦ elim (Option-cases (resolve m t)) [
      | inr (v, e) ↦ ((v, e), execute-resolved segments none_later)
      | inl e ↦ cc (rw (execute, replace_tag, none_later, e) at h)
    ]
  ]

  -- Where unresolved tags are not allowed, replace succeeds exactly if each tag resolves.
  pub replace-strict :
      (segments : List Segment)
      → ((text : String) × (replace quote m false segments ≡ ok text)) ↔ All (Resolves m) segments
  unfolding replace
  replace-strict segments = (
    λ (text, h). elim (Option-cases (execute quote m false segments).1) [
      | inl e ↦ execute-resolved segments e
      | inr (x, e) ↦ cc (rw (replace, finish_replace, e) at h)
    ],
    λ h. (
      (execute quote m false segments).0,
      rw (replace, finish_replace, resolved-execute segments h) refl,
    ),
  )
