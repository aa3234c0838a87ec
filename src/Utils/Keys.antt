-- ===== src/Utils/Keys.antt =====
-- Keys made of a fixed prefix and a name, as `fmt.Sprintf("values.%s", key)` makes them.
use Prim.Native.Nat.{compare as compare_numbers, Ordering}
use Prim.Native.Char.{Char, code}
use Prim.Native.String.append
use Prim.Native.String.compare
use Prim.Native.String.{String, [], ◌∷◌, ◌++◌, compare, then as first_unequal}
use text.Mathlib.Text.{is_eq}
use applicationset.Prelude.{
  ◌≡◌, refl, Bool, true, false, ◌==◌, str_eq, if◌then◌else◌, arith, eq_iff, Bool-cases, inl, inr,
}

-- Whether some text that begins with the first one may be the second one.
unfoldable pub may_be : String → String → Bool
may_be [] s = true
may_be (c ∷ p) [] = false
may_be (c ∷ p) (d ∷ s) = let rest = may_be p s in if code c == code d then rest else false

is_eq-first_unequal :
    (o r : Ordering)
    → is_eq (first_unequal o r)
      ≡ (if (elim o [ Ordering.eq ↦ true | _ ↦ false ]) then is_eq r else false)
is_eq-first_unequal Ordering.lt r = refl
is_eq-first_unequal Ordering.eq r = refl
is_eq-first_unequal Ordering.gt r = refl

str_eq-cons :
    (c d : Char) (s t : String)
    → str_eq (c ∷ s) (d ∷ t) ≡ (if code c == code d then str_eq s t else false)
str_eq-cons c d s t =
    rw (compare.cons-cons c d s t)
      (is_eq-first_unequal (compare_numbers (code c) (code d)) (compare s t))

pub may_be-str_eq : (p s k : String) → may_be p s ≡ false → str_eq (p ++ k) s ≡ false
unfolding may_be
may_be-str_eq [] s k h = cc
may_be-str_eq (c ∷ p) [] k h = rw (append.cons, compare.cons-nil) refl
may_be-str_eq (c ∷ p) (d ∷ s) k h = elim (Bool-cases (code c == code d)) [
  | inl e ↦ rw (append.cons, str_eq-cons c d (p ++ k) s, e) (may_be-str_eq p s k (rw e at h))
  | inr e ↦ rw (append.cons, str_eq-cons c d (p ++ k) s, e) refl
]

self : (c : Char) → (code c == code c) ≡ true
self c = ground arith

pub str_eq-prefix : (p a b : String) → str_eq (p ++ a) (p ++ b) ≡ str_eq a b
str_eq-prefix [] a b = rw (append.nil a, append.nil b) refl
str_eq-prefix (c ∷ p) a b =
    rw (append.cons c p a, append.cons c p b, str_eq-cons c c (p ++ a) (p ++ b), self c)
      (str_eq-prefix p a b)

pub may_be-str_eq_sym : (p s k : String) → may_be p s ≡ false → str_eq s (p ++ k) ≡ false
may_be-str_eq_sym p s k h =
    ground (arith, may_be-str_eq p s k h, eq_iff s (p ++ k), eq_iff (p ++ k) s)

-- Whether the texts differ in a place that both have.
abbrev pub differ : String → String → Bool
differ (c ∷ p) (d ∷ s) = let rest = differ p s in if code c == code d then rest else true
differ _ _ = false

pub may_be-append : (p q k : String) → differ p q ≡ true → may_be p (q ++ k) ≡ false
unfolding may_be
may_be-append (c ∷ p) (d ∷ q) k h = elim (Bool-cases (code c == code d)) [
  | inl e ↦ rw (append.cons, e) (may_be-append p q k (rw e at h))
  | inr e ↦ rw (append.cons, e) refl
]
may_be-append [] q k h = cc
may_be-append (c ∷ p) [] k h = cc
