-- ===== src/Utils/SortTexts/Laws.antt =====
-- Sorting distinct texts: the order in which they come does not show.
use Prim.Native.Char.{code}
use Prim.Native.String.{String}
use applicationset.Prelude.{
  ◌≡◌, refl, sym, ap, Bool, true, false, List, [], ◌∷◌, if◌then◌else◌, arith, inl, inr, Bool-cases,
  str_eq, All, eq_iff, eq_refl, ◌∙◌,
}
use mathlib.Core.Path.{subst}
use text.Mathlib.TextEquality.{Char-path}
use applicationset.Utils.SortTexts.{text_le, insert_text, sort_strings}

text_le_total : (s t : String) → text_le s t ≡ false → text_le t s ≡ true
unfolding text_le
text_le_total String.[] t h = cc
text_le_total (String.◌∷◌ c s) String.[] h = refl
text_le_total (String.◌∷◌ c s) (String.◌∷◌ d t) h = ground (arith, text_le_total s t)

text_le_refl : (s : String) → text_le s s ≡ true
text_le_refl s = ground (arith, text_le_total s s)

text_le_trans : (r s t : String) → text_le r s ≡ true → text_le s t ≡ true → text_le r t ≡ true
unfolding text_le
text_le_trans String.[] s t h k = refl
text_le_trans (String.◌∷◌ b r) String.[] t h k = cc
text_le_trans (String.◌∷◌ b r) (String.◌∷◌ c s) String.[] h k = cc
text_le_trans (String.◌∷◌ b r) (String.◌∷◌ c s) (String.◌∷◌ d t) h k =
    ground (arith, text_le_trans r s t)

text_le_antisym : (s t : String) → text_le s t ≡ true → text_le t s ≡ true → s ≡ t
unfolding text_le
text_le_antisym String.[] String.[] h k = refl
text_le_antisym String.[] (String.◌∷◌ d t) h k = cc
text_le_antisym (String.◌∷◌ c s) String.[] h k = cc
text_le_antisym (String.◌∷◌ c s) (String.◌∷◌ d t) h k =
    let e : code c ≡ code d = ground arith in
    let tails = text_le_antisym s t (ground arith) (ground arith) in
    λ i. String.◌∷◌ (Char-path c d e i) (tails i)

-- Whether the text stands in the list.
unfoldable pub contains : String → List String → Bool
contains k [] = false
contains k (s ∷ ss) = let rest = contains k ss in if str_eq s k then true else rest

-- Each text is below all that follow.
abbrev pub IsAscending : List String → Type 0
IsAscending [] = Unit
IsAscending (s ∷ ss) = All (λ t. text_le t s ≡ false) ss × IsAscending ss

contains-insert_text :
    (k s : String) (ts : List String)
    → contains k (insert_text s ts) ≡ (if str_eq s k then true else contains k ts)
unfolding insert_text contains
contains-insert_text k s [] = refl
contains-insert_text k s (t ∷ ts) = ground (arith, contains-insert_text k s ts)

All-insert_text :
    (b s : String) (ts : List String)
    → text_le s b ≡ false
    → All (λ t. text_le t b ≡ false) ts
    → All (λ t. text_le t b ≡ false) (insert_text s ts)
unfolding insert_text
All-insert_text b s [] h hs = (h, tt)
All-insert_text b s (t ∷ ts) h hs = elim (Bool-cases (text_le s t)) [
  | inl e ↦ rw e (h, hs)
  | inr e ↦ rw e (hs.0, All-insert_text b s ts h hs.1)
]

above : (s t u : String) → text_le t s ≡ false → text_le u t ≡ false → text_le u s ≡ false
above s t u h k = ground (arith, text_le_total t s h, text_le_trans u s t)

All-above :
    (s t : String) (ts : List String)
    → text_le t s ≡ false
    → All (λ u. text_le u t ≡ false) ts
    → All (λ u. text_le u s ≡ false) ts
All-above s t [] h hs = tt
All-above s t (u ∷ ts) h hs = (above s t u h hs.0, All-above s t ts h hs.1)

insert_text-IsAscending :
    (s : String) (ts : List String)
    → contains s ts ≡ false
    → IsAscending ts
    → IsAscending (insert_text s ts)
unfolding insert_text contains
insert_text-IsAscending s [] h a = (tt, tt)
insert_text-IsAscending s (t ∷ ts) h a = elim (Bool-cases (text_le s t)) [
  | inl e ↦
      let strict : text_le t s ≡ false = ground (arith, text_le_antisym s t e, eq_iff t s) in
      rw e ((strict, All-above s t ts strict a.0), a)
  | inr e ↦ rw e (All-insert_text t s ts e a.0, insert_text-IsAscending s ts (ground arith) a.1)
]

contains-above :
    (b k : String) (ts : List String)
    → All (λ t. text_le t b ≡ false) ts
    → contains k ts ≡ true
    → text_le k b ≡ false
unfolding contains
contains-above b k [] hs h = cc
contains-above b k (t ∷ ts) hs h = elim (Bool-cases (str_eq t k)) [
  | inl e ↦ rw (← (eq_iff t k).0 e) hs.0
  | inr e ↦ contains-above b k ts hs.1 (rw e at h)
]

head_absent : (s : String) (ss : List String) → IsAscending (s ∷ ss) → contains s ss ≡ false
head_absent s ss a = elim (Bool-cases (contains s ss)) [
  | inl e ↦ cc (text_le_total s s (contains-above s s ss a.0 e), contains-above s s ss a.0 e)
  | inr e ↦ e
]

-- The least text of one list is not above the least text of the other one that has it.
head_le :
    (s t : String) (ss ts : List String)
    → IsAscending (t ∷ ts)
    → contains s (t ∷ ts) ≡ true
    → text_le t s ≡ true
unfolding contains
head_le s t ss ts b h = elim (Bool-cases (str_eq t s)) [
  | inl e ↦ rw (← (eq_iff t s).0 e) (text_le_refl t)
  | inr e ↦ text_le_total s t (contains-above t s ts b.0 (rw e at h))
]

contains_head : (s : String) (ss : List String) → contains s (s ∷ ss) ≡ true
unfolding contains
contains_head s ss = rw (eq_refl s) refl

-- Below the same head the lists have the same texts.
same_tail :
    (s k : String) (ss ts : List String)
    → IsAscending (s ∷ ss)
    → IsAscending (s ∷ ts)
    → contains k (s ∷ ss) ≡ contains k (s ∷ ts)
    → contains k ss ≡ contains k ts
unfolding contains
same_tail s k ss ts a b same = elim (Bool-cases (str_eq s k)) [
  | inl e ↦
      let same_key = (eq_iff s k).0 e in
      rw (← same_key) (head_absent s ss a ∙ sym (head_absent s ts b))
  | inr e ↦ rw e at same
]

-- Two ascending lists of the same texts are one list.
pub IsAscending-unique :
    (ss ts : List String)
    → IsAscending ss
    → IsAscending ts
    → ((k : String) → contains k ss ≡ contains k ts)
    → ss ≡ ts
unfolding contains
IsAscending-unique [] [] a b same = refl
IsAscending-unique [] (t ∷ ts) a b same = cc (same t, contains_head t ts)
IsAscending-unique (s ∷ ss) [] a b same = cc (same s, contains_head s ss)
IsAscending-unique (s ∷ ss) (t ∷ ts) a b same =
    let e : s ≡ t =
      text_le_antisym s t (head_le t s ts ss a (same t ∙ contains_head t ts))
        (head_le s t ss ts b (sym (same s) ∙ contains_head s ss)) in
    let b' : IsAscending (s ∷ ts) = subst (λ x. IsAscending (x ∷ ts)) (sym e) b in
    let same' : (k : String) → contains k (s ∷ ss) ≡ contains k (s ∷ ts) =
      λ k. same k ∙ ap (λ x. contains k (x ∷ ts)) (sym e) in
    λ i. e i ∷ IsAscending-unique ss ts a.1 b.1 (λ k. same_tail s k ss ts a b' (same' k)) i

contains-sort_strings :
    (k : String) (ss : List String) → contains k (sort_strings ss) ≡ contains k ss
unfolding sort_strings contains
contains-sort_strings k [] = refl
contains-sort_strings k (s ∷ ss) =
    rw (contains-insert_text k s (sort_strings ss), contains-sort_strings k ss) refl

-- No text stands twice.
abbrev pub AreDistinct : List String → Type 0
AreDistinct [] = Unit
AreDistinct (s ∷ ss) = (contains s ss ≡ false) × AreDistinct ss

pub sort_strings-IsAscending : (ss : List String) → AreDistinct ss → IsAscending (sort_strings ss)
unfolding sort_strings
sort_strings-IsAscending [] d = tt
sort_strings-IsAscending (s ∷ ss) d =
    insert_text-IsAscending s (sort_strings ss) (contains-sort_strings s ss ∙ d.0)
      (sort_strings-IsAscending ss d.1)

-- The order of distinct texts does not show in the sorted list.
pub sort_strings_unique :
    (ss ts : List String)
    → AreDistinct ss
    → AreDistinct ts
    → ((k : String) → contains k ss ≡ contains k ts)
    → sort_strings ss ≡ sort_strings ts
sort_strings_unique ss ts ds dt same =
    IsAscending-unique (sort_strings ss) (sort_strings ts) (sort_strings-IsAscending ss ds)
      (sort_strings-IsAscending ts dt)
      (λ k. contains-sort_strings k ss ∙ same k ∙ sym (contains-sort_strings k ts))
