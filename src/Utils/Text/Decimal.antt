-- ===== src/Utils/Text/Decimal.antt =====
-- Reading back what `strconv.Itoa` writes.
use Prim.Native.Char.{Char, code}
use Prim.Native.String.append
use Prim.Native.String.{String, [], ◌∷◌, ◌++◌}
use applicationset.Prelude.{
  ℕ, zero, suc, ◌+◌, ◌-◌, ◌*◌, ◌/◌, ◌%◌, ◌<◌, ◌≡◌, refl, sym, ◌∙◌, ap, true, ◌&&◌, leb, ltb,
  if◌then◌else◌, arith, Bool-cases, inl, inr, ltb→lt,
}
use applicationset.Utils.Text.{digit, digits, itoa}

-- The number that the digits in front of a text write, behind the digits of `acc`.
unfoldable pub value : ℕ → String → ℕ
value acc [] = acc
value acc (c ∷ s) =
    let rest = value (acc * 10 + (code c - 48)) s in
    if leb 48 (code c) && leb (code c) 57 then rest else acc

value-one :
    (acc : ℕ) (c : Char) (t : String)
    → (leb 48 (code c) && leb (code c) 57) ≡ true
    → value acc ((c ∷ []) ++ t) ≡ value (acc * 10 + (code c - 48)) t
unfolding value
value-one acc c t h = rw (append.cons, append.nil, h) refl

value-digit : (acc d : ℕ) (t : String) → d < 10 → value acc (digit d ++ t) ≡ value (acc * 10 + d) t
unfolding digit
value-digit acc zero t h = value-one acc "0" t refl
value-digit acc (suc zero) t h = value-one acc "1" t refl
value-digit acc (suc (suc zero)) t h = value-one acc "2" t refl
value-digit acc (suc (suc (suc zero))) t h = value-one acc "3" t refl
value-digit acc (suc (suc (suc (suc zero)))) t h = value-one acc "4" t refl
value-digit acc (suc (suc (suc (suc (suc zero))))) t h = value-one acc "5" t refl
value-digit acc (suc (suc (suc (suc (suc (suc zero)))))) t h = value-one acc "6" t refl
value-digit acc (suc (suc (suc (suc (suc (suc (suc zero))))))) t h = value-one acc "7" t refl
value-digit acc (suc (suc (suc (suc (suc (suc (suc (suc zero)))))))) t h = value-one acc "8" t refl
value-digit acc (suc (suc (suc (suc (suc (suc (suc (suc (suc zero))))))))) t h =
    value-one acc "9" t refl
value-digit acc (suc (suc (suc (suc (suc (suc (suc (suc (suc (suc d)))))))))) t h =
    absurd (omega (arith, h))

append_assoc : (r s t : String) → (r ++ s) ++ t ≡ r ++ (s ++ t)
append_assoc [] s t = rw (append.nil s, append.nil (s ++ t)) refl
append_assoc (c ∷ r) s t =
    rw (append.cons c r s, append.cons c (r ++ s) t, append.cons c r (s ++ t), append_assoc r s t)
      refl

value-digits : (fuel n : ℕ) (t : String) → n < fuel → value 0 (digits fuel n ++ t) ≡ value n t
unfolding digits
value-digits zero n t h = absurd (omega (arith, h))
value-digits (suc fuel) n t h = elim (Bool-cases (ltb n 10)) [
  | inl e ↦ rw e (value-digit 0 n t (ltb→lt n 10 e) ∙ ap (λ m. value m t) (omega arith))
  | inr e ↦
      rw (e, append_assoc (digits fuel (n / 10)) (digit (n % 10)) t)
        (value-digits fuel (n / 10) (digit (n % 10) ++ t) (ground (arith, h, e))
          ∙ value-digit (n / 10) (n % 10) t (omega arith)
          ∙ ap (λ m. value m t) (omega arith))
]

-- What is written of a number, with any text behind it, begins with the number.
pub value-itoa : (n : ℕ) (t : String) → value 0 (itoa n ++ t) ≡ value n t
unfolding itoa
value-itoa n t = value-digits (suc n) n t (omega arith)

append_nil : (s : String) → s ++ [] ≡ s
append_nil [] = append.nil []
append_nil (c ∷ s) = append.cons c s [] ∙ ap (λ r. c ∷ r) (append_nil s)

-- The digits of a number write the number.
pub read-itoa : (n : ℕ) → value 0 (itoa n) ≡ n
unfolding value
read-itoa n = ap (value 0) (sym (append_nil (itoa n))) ∙ value-itoa n []
