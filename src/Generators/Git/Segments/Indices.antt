-- ===== src/Generators/Git/Segments/Indices.antt =====
-- What stands under `path[i]` (pkg/generators/git.go).
use Prim.Native.String.{◌++◌ as ◌+++◌}
use applicationset.Prelude.{
  ℕ, zero, suc, ◌+◌, ◌<◌, ◌≢◌, ◌≡◌, refl, sym, ◌∙◌, ap, String, true, false, List, [], ◌∷◌, Option,
  none, some, insert, lookup, get_elem?, str_eq, or_else, if◌then◌else◌, lookup-insert, eq_iff,
  eq_refl, arith, Bool-cases, inl, inr,
}
use applicationset.Utils.Combine.{Params}
use applicationset.Utils.Text.{is_empty, itoa}
use applicationset.Utils.Text.Decimal.{value, value-itoa}
use applicationset.Utils.Keys.{may_be, may_be-str_eq, str_eq-prefix}
use applicationset.Generators.Git.Segments.{segment_key, add_segments}

read : (i j : ℕ) → itoa i +++ "]" ≡ itoa j +++ "]" → i ≡ j
unfolding value
read i j e = sym (value-itoa i "]") ∙ ap (value 0) e ∙ value-itoa j "]"

-- Different indices have different keys.
segment_key_unique : (i j : ℕ) → str_eq (segment_key i) (segment_key j) ≡ true → i ≡ j
unfolding segment_key
segment_key_unique i j h = read i j (
    (eq_iff (itoa i +++ "]") (itoa j +++ "]")).0
      (sym (str_eq-prefix "path[" (itoa i +++ "]") (itoa j +++ "]")) ∙ h))

-- A key that is not that of the part that is stored is kept.
stored :
    (i k : ℕ) (v : String) (params : Params)
    → i ≢ k
    → lookup (segment_key i) (if is_empty v then params else insert (segment_key k) v params)
      ≡ lookup (segment_key i) params
stored i k v params h = elim (Bool-cases (is_empty v)) [
  | inl e ↦ rw e refl
  | inr e ↦ elim (Bool-cases (str_eq (segment_key k) (segment_key i))) [
    | inl same ↦ absurd (h (sym (segment_key_unique k i same)))
    | inr other ↦ rw (e, lookup-insert (segment_key k) (segment_key i) v params, other) refl
  ]
]

-- A part of a path that is not empty.
abbrev pub filled : Option String → Option String
filled none = none
filled (some s) = if is_empty s then none else some s

-- Earlier indices are kept.
add_segments-earlier :
    (i k : ℕ) (vs : List String) (params : Params)
    → i < k
    → lookup (segment_key i) (add_segments k vs params) ≡ lookup (segment_key i) params
unfolding add_segments
add_segments-earlier i k [] params h = refl
add_segments-earlier i k (v ∷ vs) params h =
    add_segments-earlier i (suc k) vs
      (if is_empty v then params else insert (segment_key k) v params) (omega (arith, h))
    ∙ stored i k v params (λ e. omega (arith, h, e))

stored_here :
    (k : ℕ) (v : String) (params : Params)
    → lookup (segment_key k) (if is_empty v then params else insert (segment_key k) v params)
      ≡ or_else (filled (some v)) (lookup (segment_key k) params)
stored_here k v params = elim (Bool-cases (is_empty v)) [
  | inl e ↦ rw e refl
  | inr e ↦
      rw (e, lookup-insert (segment_key k) (segment_key k) v params, eq_refl (segment_key k)) refl
]

pub add_segments-at :
    (k i : ℕ) (vs : List String) (params : Params)
    → lookup (segment_key (k + i)) (add_segments k vs params)
      ≡ or_else (filled (get_elem? vs i)) (lookup (segment_key (k + i)) params)
unfolding add_segments
add_segments-at k i [] params = refl
add_segments-at k zero (v ∷ vs) params =
    let here : k + zero ≡ k = omega arith in
    rw here (
      add_segments-earlier k (suc k) vs
        (if is_empty v then params else insert (segment_key k) v params) (omega arith)
      ∙ stored_here k v params)
add_segments-at k (suc i) (v ∷ vs) params =
    let same : k + suc i ≡ suc k + i = omega arith in
    rw same (
      add_segments-at (suc k) i vs (if is_empty v then params else insert (segment_key k) v params)
      ∙ ap (or_else (filled (get_elem? vs i)))
          (stored (suc k + i) k v params (λ e. omega (arith, e))))

-- Keys that do not begin with `path[` are kept.
pub add_segments-other :
    (j : String) (k : ℕ) (vs : List String) (params : Params)
    → may_be "path[" j ≡ false
    → lookup j (add_segments k vs params) ≡ lookup j params
unfolding add_segments segment_key
add_segments-other j k [] params h = refl
add_segments-other j k (v ∷ vs) params h =
    add_segments-other j (suc k) vs (if is_empty v then params else insert (segment_key k) v params)
      h
    ∙ elim (Bool-cases (is_empty v)) [
      | inl e ↦ rw e refl
      | inr e ↦
          rw
            (
              e,
              lookup-insert (segment_key k) j v params,
              may_be-str_eq "path[" j (itoa k +++ "]") h,
            )
            refl
    ]
