-- ===== src/Utils/SortTexts.antt =====
-- `sort.Strings`: Go compares texts byte by byte, which for UTF-8 is character by character.
pub mod Laws
use Prim.Native.Char.{code}
use Prim.Native.String.{String}
use applicationset.Prelude.{
  ◌≡◌, refl, sym, ap, Bool, true, false, ltb, ◌==◌, List, [], ◌∷◌, if◌then◌else◌, arith, inl, inr,
  Bool-cases, str_eq, All, eq_iff, eq_refl, ◌∙◌,
}
use mathlib.Core.Path.{subst}
use text.Mathlib.TextEquality.{Char-path}

unfoldable pub text_le : String → String → Bool
text_le String.[] t = true
text_le (String.◌∷◌ c s) String.[] = false
text_le (String.◌∷◌ c s) (String.◌∷◌ d t) =
    let rest = text_le s t in
    if ltb (code c) (code d) then true else if code c == code d then rest else false

unfoldable pub insert_text : String → List String → List String
unfolding text_le
insert_text s [] = s ∷ []
insert_text s (t ∷ ts) = let rest = insert_text s ts in if text_le s t then s ∷ t ∷ ts else t ∷ rest

unfoldable pub sort_strings : List String → List String
unfolding insert_text
sort_strings [] = []
sort_strings (s ∷ ss) = insert_text s (sort_strings ss)
