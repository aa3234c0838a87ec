-- ===== src/Utils/Paths/Parts.antt =====
-- A path taken apart into its directories and its last element (Go's `path` and `strings`).
use Prim.Native.Char.{Char, code}
use Prim.Native.String.append
use Prim.Native.String.{String, [], ◌∷◌}
use Prim.Native.String.{◌++◌ as ◌+++◌}
use applicationset.Prelude.{
  ◌+◌, ◌==◌, ◌≡◌, refl, ◌∙◌, ap, false, List, [], ◌∷◌, ◌++◌, All, str_eq, eq_iff, eq_refl, arith,
  Bool-cases, inl, inr,
}
use applicationset.Utils.Text.{is_empty, trim_right}
use applicationset.Utils.Chars.{char_count}
use applicationset.Utils.Paths.{split_slash, trim_suffix, last_or, base}

-- The text has no slash.
abbrev pub IsPart : String → Type 0
IsPart [] = Unit
IsPart (c ∷ s) = ((code c == b'/') ≡ false) × IsPart s

-- The directories of a path, each with a slash behind it.
abbrev pub above : List String → String
above [] = ""
above (d ∷ dirs) = d +++ ("/" +++ above dirs)

append_assoc : (p q r : String) → (p +++ q) +++ r ≡ p +++ (q +++ r)
append_assoc [] q r = rw (append.nil q, append.nil (q +++ r)) refl
append_assoc (c ∷ p) q r =
    rw (append.cons c p q, append.cons c (p +++ q) r, append.cons c p (q +++ r))
      (ap (λ s. String.◌∷◌ c s) (append_assoc p q r))

slash_cons : (r : String) → "/" +++ r ≡ String.◌∷◌ "/" r
slash_cons r = append.cons "/" "" r ∙ ap (λ s. String.◌∷◌ "/" s) (append.nil r)

split_slash-part : (s : String) → IsPart s → split_slash s ≡ s ∷ []
unfolding split_slash
split_slash-part [] h = refl
split_slash-part (c ∷ s) h = rw (split_slash, h.0, split_slash-part s h.1) refl

split_slash-below : (d r : String) → IsPart d → split_slash (d +++ ("/" +++ r)) ≡ d ∷ split_slash r
unfolding split_slash
split_slash-below [] r h = rw (append.nil ("/" +++ r), slash_cons r) refl
split_slash-below (c ∷ d) r h =
    rw (append.cons c d ("/" +++ r), split_slash, h.0, split_slash-below d r h.1) refl

split_slash-above :
    (dirs : List String) → All IsPart dirs → split_slash (above dirs) ≡ dirs ++ "" ∷ []
unfolding split_slash
split_slash-above [] h = refl
split_slash-above (d ∷ dirs) h =
    split_slash-below d (above dirs) h.0 ∙ ap (λ ss. d ∷ ss) (split_slash-above dirs h.1)

above_append :
    (d : String) (dirs : List String) (name : String)
    → above (d ∷ dirs) +++ name ≡ d +++ ("/" +++ (above dirs +++ name))
above_append d dirs name =
    append_assoc d ("/" +++ above dirs) name
    ∙ ap (λ s. d +++ s) (append_assoc "/" (above dirs) name)

split_slash-path :
    (dirs : List String) (name : String)
    → All IsPart dirs
    → IsPart name
    → split_slash (above dirs +++ name) ≡ dirs ++ name ∷ []
split_slash-path [] name h k = rw (append.nil name) (split_slash-part name k)
split_slash-path (d ∷ dirs) name h k =
    ap split_slash (above_append d dirs name)
    ∙ split_slash-below d (above dirs +++ name) h.0
    ∙ ap (λ ss. d ∷ ss) (split_slash-path dirs name h.1 k)

is_empty-append : (p s : String) → is_empty s ≡ false → is_empty (p +++ s) ≡ false
is_empty-append [] s h = rw (append.nil s) h
is_empty-append (c ∷ p) s h = rw (append.cons c p s) refl

trim_right-part : (s : String) → IsPart s → trim_right b'/' s ≡ s
unfolding trim_right
trim_right-part [] h = refl
trim_right-part (c ∷ s) h = rw (trim_right, trim_right-part s h.1, h.0) (ground arith)

trim_right-path :
    (p s : String) → IsPart s → is_empty s ≡ false → trim_right b'/' (p +++ s) ≡ p +++ s
unfolding trim_right
trim_right-path [] s h e = rw (append.nil s) (trim_right-part s h)
trim_right-path (c ∷ p) s h e =
    rw (append.cons c p s, trim_right, trim_right-path p s h e, is_empty-append p s e) refl

last_or-end : (d : String) (ss : List String) (s : String) → last_or d (ss ++ s ∷ []) ≡ s
unfolding last_or
last_or-end d [] s = refl
last_or-end d (t ∷ ss) s = last_or-end t ss s

-- The last element of a path is its base.
pub base-path :
    (dirs : List String) (name : String)
    → All IsPart dirs
    → IsPart name
    → is_empty name ≡ false
    → base (above dirs +++ name) ≡ name
unfolding base
base-path dirs name h k e =
    rw
      (
        base,
        is_empty-append (above dirs) name e,
        trim_right-path (above dirs) name k e,
        split_slash-path dirs name h k,
        last_or-end "" dirs name,
        e,
      )
      refl

char_count-append : (p s : String) → char_count (p +++ s) ≡ char_count p + char_count s
char_count-append [] s = rw (append.nil s) (omega arith)
char_count-append (c ∷ p) s = rw (append.cons c p s) (omega (arith, char_count-append p s))

longer : (c : Char) (p s : String) → str_eq (String.◌∷◌ c (p +++ s)) s ≡ false
longer c p s = elim (Bool-cases (str_eq (String.◌∷◌ c (p +++ s)) s)) [
  | inr e ↦ e
  | inl e ↦
      let same = ap char_count ((eq_iff (String.◌∷◌ c (p +++ s)) s).0 e) in
      absurd (omega (arith, same, char_count-append p s))
]

-- A suffix that is not empty is taken off.
pub trim_suffix-append : (p s : String) → is_empty s ≡ false → trim_suffix (p +++ s) s ≡ p
unfolding trim_suffix
trim_suffix-append [] [] h = cc
trim_suffix-append [] (c ∷ s) h =
    rw (append.nil (String.◌∷◌ c s), trim_suffix, eq_refl (String.◌∷◌ c s)) refl
trim_suffix-append (c ∷ p) s h =
    rw (append.cons c p s, trim_suffix, longer c p s, trim_suffix-append p s h) refl

-- What is before the last element splits into the directories and an empty text.
pub split_slash-directories :
    (dirs : List String) (name : String)
    → All IsPart dirs
    → IsPart name
    → is_empty name ≡ false
    → split_slash (trim_suffix (above dirs +++ name) (base (above dirs +++ name))) ≡ dirs ++ "" ∷ []
split_slash-directories dirs name h k e =
    rw (base-path dirs name h k e, trim_suffix-append (above dirs) name e)
      (split_slash-above dirs h)
