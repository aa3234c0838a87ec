-- ===== src/Utils/Chars.antt =====
-- Texts read character by character: what Go's `strings` and `regexp` do to the names of clusters
-- and directories.
use Prim.Native.Char.{Char, code}
use Prim.Native.String.{String, [], ◌∷◌, char_at}
use applicationset.Prelude.{
  ℕ, zero, suc, ◌-◌, ◌≤◌, ◌≡◌, Bool, true, false, ◌&&◌, leb, ◌==◌, if◌then◌else◌, arith, inl, inr,
  Bool-cases,
}

-- `unicode.ToLower` as far as its result is ASCII: of the other letters only the two last have an
-- ASCII letter as their lower case.
unfoldable pub lower_char : Char → Char
lower_char c =
    if leb b'A' (code c) && leb (code c) b'Z'
    then char_at "abcdefghijklmnopqrstuvwxyz" (code c - b'A')
    else if code c == 0x130
    then "i"
    else if code c == 0x212a
    then "k"
    else c

module _ (f : Char → Char) where
  unfoldable pub map_chars : String → String
  map_chars [] = []
  map_chars (c ∷ s) = f c ∷ map_chars s

-- `len` of a text of one-byte characters
abbrev pub char_count : String → ℕ
char_count [] = 0
char_count (c ∷ s) = suc (char_count s)

-- `s[:n]` of a text of at least `n` one-byte characters
unfoldable pub take_chars : ℕ → String → String
take_chars zero s = []
take_chars (suc n) [] = []
take_chars (suc n) (c ∷ s) = c ∷ take_chars n s

module _ (cut : Char → Bool) where
  -- `strings.TrimLeft` and `strings.TrimRight` for a set of characters
  unfoldable pub trim_left_chars : String → String
  trim_left_chars [] = []
  trim_left_chars (c ∷ s) = let rest = trim_left_chars s in if cut c then rest else c ∷ s

  abbrev put_back : Char → String → String
  put_back c [] = if cut c then [] else c ∷ []
  put_back c (d ∷ s) = c ∷ d ∷ s

  unfoldable pub trim_right_chars : String → String
  trim_right_chars [] = []
  trim_right_chars (c ∷ s) = put_back c (trim_right_chars s)

  -- `strings.Trim`
  unfoldable pub trim_chars : String → String
  unfolding trim_left_chars trim_right_chars
  trim_chars s = trim_right_chars (trim_left_chars s)

-- Every character passes.
abbrev pub AllChars : (Char → Bool) → String → Type 0
AllChars p [] = Unit
AllChars p (c ∷ s) = (p c ≡ true) × AllChars p s

-- The first character, if there is one, is not cut.
abbrev pub StartsKept : (Char → Bool) → String → Type 0
StartsKept cut [] = Unit
StartsKept cut (c ∷ s) = cut c ≡ false

-- The last character, if there is one, is not cut.
abbrev pub EndsKept : (Char → Bool) → String → Type 0
EndsKept cut [] = Unit
EndsKept cut (c ∷ []) = cut c ≡ false
EndsKept cut (c ∷ d ∷ s) = EndsKept cut (d ∷ s)

pub AllChars-map_chars :
    (p : Char → Bool) (f : Char → Char) (s : String)
    → ((c : Char) → p (f c) ≡ true)
    → AllChars p (map_chars f s)
unfolding map_chars
AllChars-map_chars p f [] h = tt
AllChars-map_chars p f (c ∷ s) h = (h c, AllChars-map_chars p f s h)

pub AllChars-take_chars :
    (p : Char → Bool) (n : ℕ) (s : String) → AllChars p s → AllChars p (take_chars n s)
unfolding take_chars
AllChars-take_chars p zero s h = tt
AllChars-take_chars p (suc n) [] h = tt
AllChars-take_chars p (suc n) (c ∷ s) h = (h.0, AllChars-take_chars p n s h.1)

pub char_count-take_chars : (n : ℕ) (s : String) → char_count (take_chars n s) ≤ n
unfolding take_chars
char_count-take_chars zero s = omega arith
char_count-take_chars (suc n) [] = omega arith
char_count-take_chars (suc n) (c ∷ s) = omega (arith, char_count-take_chars n s)

module _ (cut : Char → Bool) where
  pub AllChars-trim_left_chars :
      (p : Char → Bool) (s : String) → AllChars p s → AllChars p (trim_left_chars cut s)
  unfolding trim_left_chars
  AllChars-trim_left_chars p [] h = tt
  AllChars-trim_left_chars p (c ∷ s) h = elim (Bool-cases (cut c)) [
    | inl e ↦ rw e (AllChars-trim_left_chars p s h.1)
    | inr e ↦ rw e h
  ]

  put_back-AllChars :
      (p : Char → Bool) (c : Char) (s : String)
      → p c ≡ true
      → AllChars p s
      → AllChars p (put_back cut c s)
  put_back-AllChars p c [] e h = elim (Bool-cases (cut c)) [
    | inl f ↦ rw f tt
    | inr f ↦ rw f (e, tt)
  ]
  put_back-AllChars p c (d ∷ s) e h = (e, h)

  pub AllChars-trim_right_chars :
      (p : Char → Bool) (s : String) → AllChars p s → AllChars p (trim_right_chars cut s)
  unfolding trim_right_chars
  AllChars-trim_right_chars p [] h = tt
  AllChars-trim_right_chars p (c ∷ s) h =
      put_back-AllChars p c (trim_right_chars cut s) h.0 (AllChars-trim_right_chars p s h.1)

  pub char_count-trim_left_chars : (s : String) → char_count (trim_left_chars cut s) ≤ char_count s
  unfolding trim_left_chars
  char_count-trim_left_chars [] = omega arith
  char_count-trim_left_chars (c ∷ s) = ground (arith, char_count-trim_left_chars s)

  char_count-put_back : (c : Char) (s : String) → char_count (put_back cut c s) ≤ suc (char_count s)
  char_count-put_back c [] = elim (Bool-cases (cut c)) [
    | inl e ↦ rw e (omega arith)
    | inr e ↦ rw e (omega arith)
  ]
  char_count-put_back c (d ∷ s) = omega arith

  pub char_count-trim_right_chars :
      (s : String) → char_count (trim_right_chars cut s) ≤ char_count s
  unfolding trim_right_chars
  char_count-trim_right_chars [] = omega arith
  char_count-trim_right_chars (c ∷ s) =
      omega (arith, char_count-put_back c (trim_right_chars cut s), char_count-trim_right_chars s)

  pub trim_left_chars-StartsKept : (s : String) → StartsKept cut (trim_left_chars cut s)
  unfolding trim_left_chars
  trim_left_chars-StartsKept [] = tt
  trim_left_chars-StartsKept (c ∷ s) = elim (Bool-cases (cut c)) [
    | inl e ↦ rw e (trim_left_chars-StartsKept s)
    | inr e ↦ rw e e
  ]

  put_back-EndsKept : (c : Char) (s : String) → EndsKept cut s → EndsKept cut (put_back cut c s)
  put_back-EndsKept c [] h = elim (Bool-cases (cut c)) [ inl f ↦ rw f tt | inr f ↦ rw f f ]
  put_back-EndsKept c (d ∷ s) h = h

  pub trim_right_chars-EndsKept : (s : String) → EndsKept cut (trim_right_chars cut s)
  unfolding trim_right_chars
  trim_right_chars-EndsKept [] = tt
  trim_right_chars-EndsKept (c ∷ s) =
      put_back-EndsKept c (trim_right_chars cut s) (trim_right_chars-EndsKept s)

  put_back-StartsKept : (c : Char) (s : String) → cut c ≡ false → StartsKept cut (put_back cut c s)
  put_back-StartsKept c [] e = rw e e
  put_back-StartsKept c (d ∷ s) e = e

  -- What is cut at the end leaves a start that is not cut.
  pub trim_right_chars-StartsKept :
      (s : String) → StartsKept cut s → StartsKept cut (trim_right_chars cut s)
  unfolding trim_right_chars
  trim_right_chars-StartsKept [] h = tt
  trim_right_chars-StartsKept (c ∷ s) h = put_back-StartsKept c (trim_right_chars cut s) h
