-- ===== src/Utils/Combine/Laws.antt =====
-- What the two joins of pkg/utils/map.go compute.
use applicationset.Prelude.{
  String, ◌≡◌, refl, sym, ap, ◌∙◌, inl, inr, [], ◌∷◌, none, some, str_eq, eq_iff, eq_refl,
  DistinctKeys, or_else, lookup, insert, insert_all, lookup-insert, lookup-insert_all,
  absent-lookup, arith, Bool-cases, Option-cases,
}
use applicationset.Errors.{Error, duplicate_key, Result, ok, err, panic}
use applicationset.Utils.Combine.{
  Params, add_params, combine_string_maps, combine_string_maps_allow_duplicates,
}

-- The two maps agree wherever both have a value.
abbrev pub Compatible : Params → Params → Type 0
Compatible a b = (k v w : String) → lookup k a ≡ some v → lookup k b ≡ some w → v ≡ w

-- `c` has the values of `b`, and those of `a` at the keys that `b` lacks.
abbrev pub IsUnion : Params → Params → Params → Type 0
IsUnion a b c = (k : String) → lookup k c ≡ or_else (lookup k b) (lookup k a)

-- An error of the loop names a key at which the maps differ.
abbrev pub Clash : Params → Params → Error → Type 0
Clash a b e =
    (k v w : String) × (lookup k a ≡ some v)
    × (lookup k b ≡ some w)
    × (v ≡ w → ⊥)
    × (e ≡ duplicate_key k v w)

abbrev pub Joins : Params → Params → Result Params → Type 0
Joins a b (ok c) = Compatible a b × IsUnion a b c
Joins a b (err e) = Clash a b e
Joins a b panic = ⊥

-- One round of the loop: `k` is new, or has the same value.
Joins-step :
    (k v : String) (b res : Params) (r : Result Params)
    → lookup k b ≡ none
    → or_else (lookup k res) (some v) ≡ some v
    → Joins (insert k v res) b r
    → Joins res ((k, v) ∷ b) r
unfolding lookup
Joins-step k v b res (ok c) new same (agree, union) = (
  λ j x w p q. ground (arith, eq_iff k j, lookup-insert k j v res, agree j x w),
  λ j. ground (arith, union j, eq_iff k j, lookup-insert k j v res),
)
Joins-step k v b res (err e) new same (j, x, w, p, q, ne, eq) = (
  j,
  x,
  w,
  ground (arith, eq_iff k j, lookup-insert k j v res),
  ground (arith, eq_iff k j),
  ne,
  eq,
)
Joins-step k v b res panic new same h = h

add_params-Joins : (b res : Params) → DistinctKeys b → Joins res b (add_params b res)
unfolding add_params lookup
add_params-Joins [] res d = (λ k v w p q. cc, λ k. refl)
add_params-Joins ((k, v) ∷ b) res d =
    let new = absent-lookup k b d.0 in
    let ih = add_params-Joins b (insert k v res) d.1 in
    elim (Option-cases (lookup k res)) [
      | inl e ↦ rw (e, add_params) (Joins-step k v b res _ new (rw e) ih)
      | inr (current, e) ↦ elim (Bool-cases (str_eq current v)) [
        | inl same ↦
            rw (e, same, add_params)
              (Joins-step k v b res _ new (rw e (ap some ((eq_iff current v).0 same))) ih)
        | inr differ ↦
            rw (e, differ, add_params)
              (
                k,
                current,
                v,
                e,
                ground (arith, eq_refl k),
                λ q. ground (arith, eq_iff current v),
                refl,
              )
      ]
    ]

-- `Joins` reads its first map through `lookup` alone.
Joins-same :
    (a a' b : Params) (r : Result Params)
    → ((k : String) → lookup k a' ≡ lookup k a)
    → Joins a' b r
    → Joins a b r
Joins-same a a' b (ok c) same (agree, union) =
    (λ k v w p q. agree k v w (same k ∙ p) q, λ k. rw (← same k) (union k))
Joins-same a a' b (err e) same (k, v, w, p, q, ne, eq) = (k, v, w, sym (same k) ∙ p, q, ne, eq)
Joins-same a a' b panic same h = h

pub lookup-copy :
    (a : Params) (k : String) → DistinctKeys a → lookup k (insert_all a []) ≡ lookup k a
unfolding lookup
lookup-copy a k d = ground (arith, lookup-insert_all k a [] d)

-- `CombineStringMaps` of two Go maps returns their union if they agree wherever both have a value,
-- and otherwise an error that names a key, and its two values, at which they differ.
pub combine_string_maps-Joins :
    (a b : Params) → DistinctKeys a → DistinctKeys b → Joins a b (combine_string_maps a b)
unfolding combine_string_maps
combine_string_maps-Joins a b da db =
    Joins-same a (insert_all a []) b _ (λ k. lookup-copy a k da) (add_params-Joins b _ db)

-- Of two Go maps `CombineStringMapsAllowDuplicates` returns the union, in which the second map wins.
pub combine_string_maps_allow_duplicates-IsUnion :
    (a b : Params)
    → DistinctKeys a
    → DistinctKeys b
    → (c : Params) × (combine_string_maps_allow_duplicates a b ≡ ok c) × IsUnion a b c
unfolding combine_string_maps_allow_duplicates
combine_string_maps_allow_duplicates-IsUnion a b da db = (
  insert_all b (insert_all a []),
  refl,
  λ k. lookup-insert_all k b (insert_all a []) db ∙ ap (or_else (lookup k b)) (lookup-copy a k da),
)
