-- ===== src/Utils/Text.antt =====
-- The operations of Go's `strings` and `strconv` that the code uses, over native texts.
pub mod Decimal
use Prim.Native.Char.{code}
use Prim.Native.String.{String, [], ◌∷◌, ◌++◌}
use applicationset.Prelude.{
  ℕ, zero, suc, ◌/◌, ◌%◌, ◌≡◌, refl, Bool, true, false, ◌==◌, ltb, if◌then◌else◌, ◌&&◌,
}

abbrev pub is_empty : String → Bool
is_empty [] = true
is_empty (c ∷ s) = false

-- `strings.TrimRight(s, c)` for one character, given by its code.
unfoldable pub trim_right : ℕ → String → String
trim_right c [] = []
trim_right c (d ∷ s) =
    let rest = trim_right c s in if is_empty rest && code d == c then [] else d ∷ rest

unfoldable pub digit : ℕ → String
digit n =
    if n == 0
    then "0"
    else if n == 1
    then "1"
    else if n == 2
    then "2"
    else if n == 3
    then "3"
    else if n == 4
    then "4"
    else if n == 5
    then "5"
    else if n == 6
    then "6"
    else if n == 7
    then "7"
    else if n == 8
    then "8"
    else "9"

-- The digits of `n`, of which there are at most `fuel`.
unfoldable pub digits : ℕ → ℕ → String
unfolding digit
digits zero n = []
digits (suc fuel) n =
    let rest = digits fuel (n / 10) in if ltb n 10 then digit n else rest ++ digit (n % 10)

-- `strconv.Itoa` of a number that is not negative
unfoldable pub itoa : ℕ → String
unfolding digits
itoa n = digits (suc n) n

itoa_runs : itoa 1203 ≡ "1203"
unfolding itoa
itoa_runs = refl

trim_right_runs : trim_right b'/' "https://a/b//" ≡ "https://a/b"
unfolding trim_right
trim_right_runs = refl
