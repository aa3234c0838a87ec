-- ===== src/Generators/Matrix/Product.antt =====
-- The nested loop of the matrix generator (pkg/generators/matrix.go).
use applicationset.Prelude.{
  length-append, get_elem?-append_left, get_elem?-append_right, ℕ, zero, suc, ◌+◌, ◌*◌, ◌≡◌, refl,
  ap, ◌∙◌, length, get_elem?, All, DistinctKeys, some, arith, List, [], ◌∷◌, ◌++◌,
}
use applicationset.Errors.{Result, ok, err, panic, ◌>>=◌}
use applicationset.Utils.Combine.Laws.{Compatible, IsUnion, Clash, Joins, combine_string_maps-Joins}
use applicationset.Utils.Combine.{Params, combine_string_maps}

-- The inner loop, over the second generator's sets.
unfoldable pub row : Params → List Params → Result (List Params)
row a [] = ok []
row a (b ∷ bs) = do val ← combine_string_maps a b; rest ← row a bs; ok (val ∷ rest)

-- The outer loop, over the first generator's sets.
unfoldable pub product : List Params → List Params → Result (List Params)
unfolding row
product [] g1 = ok []
product (a ∷ rows) g1 = do first ← row a g1; rest ← product rows g1; ok (first ++ rest)

-- `r` is the row of `a`: a set for each set of the second generator, or the clash that ended it.
abbrev RowOf : Params → List Params → Result (List Params) → Type 0
RowOf a bs (ok cs) =
    (length cs ≡ length bs)
    × ((j : ℕ) (b : Params)
        → get_elem? bs j ≡ some b
        → Compatible a b × ((c : Params) × (get_elem? cs j ≡ some c) × IsUnion a b c))
RowOf a bs (err e) = (j : ℕ) × (b : Params) × (get_elem? bs j ≡ some b) × Clash a b e
RowOf a bs panic = ⊥

-- The product of two lists of sets: the set of `a` and `b` stands where the loops put it, and a
-- clash of one pair is the error.
abbrev pub ProductOf : List Params → List Params → Result (List Params) → Type 0
ProductOf g0 g1 (ok res) =
    (length res ≡ length g0 * length g1)
    × ((i j : ℕ) (a b : Params)
        → get_elem? g0 i ≡ some a
        → get_elem? g1 j ≡ some b
        → Compatible a b
          × ((c : Params) × (get_elem? res (i * length g1 + j) ≡ some c) × IsUnion a b c))
ProductOf g0 g1 (err e) =
    (i j : ℕ) × (a b : Params) × (get_elem? g0 i ≡ some a) × (get_elem? g1 j ≡ some b) × Clash a b e
ProductOf g0 g1 panic = ⊥

RowOf-cons :
    (a b : Params) (bs : List Params) (r : Result Params) (rs : Result (List Params))
    → Joins a b r
    → RowOf a bs rs
    → RowOf a (b ∷ bs) (r >>= λ val. rs >>= λ rest. ok (val ∷ rest))
RowOf-cons a b bs (ok c) (ok cs) (agree, union) (len, at) = (ap suc len, at_cons)
  where
    at_cons :
        (j : ℕ) (x : Params)
        → get_elem? (b ∷ bs) j ≡ some x
        → Compatible a x × ((y : Params) × (get_elem? (c ∷ cs) j ≡ some y) × IsUnion a x y)
    at_cons zero x h = let e : b ≡ x = cc in rw (← e) (agree, (c, refl, union))
    at_cons (suc j) x h = at j x h
RowOf-cons a b bs (ok c) (err e) h (j, x, at, clash) = (suc j, x, at, clash)
RowOf-cons a b bs (ok c) panic h k = k
RowOf-cons a b bs (err e) rs h k = (0, b, refl, h)
RowOf-cons a b bs panic rs h k = absurd h

row-RowOf :
    (a : Params) (bs : List Params) → DistinctKeys a → All DistinctKeys bs → RowOf a bs (row a bs)
unfolding row
row-RowOf a [] da db = (refl, λ j b h. cc)
row-RowOf a (b ∷ bs) da db =
    RowOf-cons a b bs _ _ (combine_string_maps-Joins a b da db.0) (row-RowOf a bs da db.1)

ProductOf-cons :
    (a : Params) (rows g1 : List Params) (r rs : Result (List Params))
    → RowOf a g1 r
    → ProductOf rows g1 rs
    → ProductOf (a ∷ rows) g1 (r >>= λ first. rs >>= λ rest. ok (first ++ rest))
ProductOf-cons a rows g1 (ok cs) (ok res) (len, at) (size, cell) =
    (omega (arith, length-append cs res), at_cons)
  where
    at_cons :
        (i j : ℕ) (x b : Params)
        → get_elem? (a ∷ rows) i ≡ some x
        → get_elem? g1 j ≡ some b
        → Compatible x b
          × ((c : Params) × (get_elem? (cs ++ res) (i * length g1 + j) ≡ some c) × IsUnion x b c)
    at_cons zero j x b h k =
        let (agree, (c, here, union)) = at j b k in
        let e : a ≡ x = cc in
        let shift : 0 * length g1 + j ≡ j = omega arith in
        rw (← e) (agree, (c, rw shift (get_elem?-append_left cs res j here), union))
    at_cons (suc i) j x b h k =
        let (agree, (c, here, union)) = cell i j x b h k in
        let shift : suc i * length g1 + j ≡ length cs + (i * length g1 + j) = omega arith in
        (agree, (c, rw shift (get_elem?-append_right cs res (i * length g1 + j) ∙ here), union))
ProductOf-cons a rows g1 (ok cs) (err e) h (i, j, x, b, p, q, clash) = (suc i, j, x, b, p, q, clash)
ProductOf-cons a rows g1 (ok cs) panic h k = k
ProductOf-cons a rows g1 (err e) rs (j, b, q, clash) k = (0, j, a, b, refl, q, clash)
ProductOf-cons a rows g1 panic rs h k = absurd h

-- Of two lists of Go maps the nested loop returns the cartesian product: one set for each pair, in
-- the order of the loops, with the values of both; it fails exactly with a clash of some pair.
pub product-ProductOf :
    (g0 g1 : List Params)
    → All DistinctKeys g0
    → All DistinctKeys g1
    → ProductOf g0 g1 (product g0 g1)
unfolding product
product-ProductOf [] g1 d0 d1 = (omega arith, λ i j a b h k. cc)
product-ProductOf (a ∷ rows) g1 d0 d1 =
    ProductOf-cons a rows g1 _ _ (row-RowOf a g1 d0.0 d1) (product-ProductOf rows g1 d0.1 d1)
