-- ===== src/Prelude/Maps.antt =====
-- Go's `map[string]V` as an association list: a map is read through `lookup`, and the order of the
-- list is the order in which a `range` loop meets the keys (any order, since it is an argument).
use Prim.Native.String.{String}
use mathlib.Core.Path.{◌≡◌, refl}
use mathlib.Core.Bool.{Bool, true, false}
use mathlib.Core.List.{List, [], ◌∷◌, ◌++◌}
use mathlib.Core.Option.{Option, none, some}
use native.Mathlib.Omega.{arith}
use text.Mathlib.Text.{◌==◌ as str_eq}
use text.Mathlib.TextEquality.{eq_iff}
use applicationset.Prelude.Tests.{if◌then◌else◌}

abbrev pub Map {ℓ} : Type ℓ → Type ℓ
Map V = List (String × V)

-- The first value if there is one, otherwise the second.
abbrev pub or_else {ℓ} : {V : Type ℓ} → Option V → Option V → Option V
or_else none o = o
or_else (some v) o = some v

module _ {ℓ} {V : Type ℓ} where
  -- `v, ok := m[k]`
  unfoldable pub lookup : String → Map V → Option V
  lookup k [] = none
  lookup k ((key, v) ∷ rest) = if str_eq key k then some v else lookup k rest

  -- `m[k] = v`
  unfoldable pub insert : String → V → Map V → Map V
  insert k v [] = (k, v) ∷ []
  insert k v ((key, old) ∷ rest) =
      if str_eq key k then (k, v) ∷ rest else (key, old) ∷ insert k v rest

  -- `_, ok := m[k]`
  unfoldable pub has_key : String → Map V → Bool
  unfolding lookup
  has_key k m = elim (lookup k m) [ none ↦ false | some v ↦ true ]

  -- `for k, v := range from { to[k] = v }`
  unfoldable pub insert_all : Map V → Map V → Map V
  insert_all [] to = to
  insert_all ((k, v) ∷ from) to = insert_all from (insert k v to)

  -- No key stands twice, as in every Go map.
  abbrev pub DistinctKeys : Map V → Type 0
  DistinctKeys [] = Unit
  DistinctKeys ((k, v) ∷ m) = (has_key k m ≡ false) × DistinctKeys m

  pub absent-lookup : (k : String) (m : Map V) → has_key k m ≡ false → lookup k m ≡ none
  unfolding has_key
  absent-lookup k m h = ground arith

  pub lookup-insert :
      (k asked : String) (v : V) (to : Map V)
      → lookup asked (insert k v to) ≡ (if str_eq k asked then some v else lookup asked to)
  unfolding lookup insert
  lookup-insert k asked v [] = refl
  lookup-insert k asked v ((key, old) ∷ to) =
      ground (lookup-insert k asked v to, eq_iff key k, eq_iff key asked, eq_iff k asked, arith)

  pub has_key-insert :
      (k j : String) (v : V) (m : Map V)
      → has_key j (insert k v m) ≡ (if str_eq k j then true else has_key j m)
  unfolding has_key
  has_key-insert k j v m = ground (arith, lookup-insert k j v m)

  pub insert-DistinctKeys :
      (k : String) (v : V) (m : Map V) → DistinctKeys m → DistinctKeys (insert k v m)
  unfolding insert
  insert-DistinctKeys k v [] d = (unfold has_key in refl, tt)
  insert-DistinctKeys k v ((i, w) ∷ m) d =
      ground (arith, eq_iff i k, has_key-insert k i v m, insert-DistinctKeys k v m d.1, eq_iff k i)

  -- A new key goes to the end.
  pub insert-new :
      (k : String) (v : V) (m : Map V) → has_key k m ≡ false → insert k v m ≡ m ++ (k, v) ∷ []
  unfolding insert has_key lookup
  insert-new k v [] h = refl
  insert-new k v ((j, w) ∷ m) h = ground (arith, insert-new k v m)

  pub lookup-append :
      (k : String) (m r : Map V) → lookup k (m ++ r) ≡ or_else (lookup k m) (lookup k r)
  unfolding lookup
  lookup-append k [] r = refl
  lookup-append k ((j, v) ∷ m) r = ground (arith, lookup-append k m r)

  pub DistinctKeys-middle :
      (k : String) (v : V) (m r : Map V) → DistinctKeys (m ++ (k, v) ∷ r) → has_key k m ≡ false
  unfolding has_key lookup
  DistinctKeys-middle k v [] r d = refl
  DistinctKeys-middle k v ((j, w) ∷ m) r d = ground (
    arith,
    lookup-append j m ((k, v) ∷ r),
    DistinctKeys-middle k v m r d.1,
    d.0,
    eq_iff j k,
    eq_iff k j,
  )

  -- The later map wins; `from` has each key once.
  pub lookup-insert_all :
      (j : String) (from to : Map V)
      → DistinctKeys from
      → lookup j (insert_all from to) ≡ or_else (lookup j from) (lookup j to)
  unfolding insert_all lookup
  lookup-insert_all j [] to d = refl
  lookup-insert_all j ((k, v) ∷ from) to d = ground (
    arith,
    lookup-insert_all j from (insert k v to) d.1,
    lookup-insert k j v to,
    absent-lookup k from d.0,
    eq_iff k j,
  )

  pub insert_all-DistinctKeys :
      (from to : Map V) → DistinctKeys to → DistinctKeys (insert_all from to)
  unfolding insert_all
  insert_all-DistinctKeys [] to d = d
  insert_all-DistinctKeys ((k, v) ∷ from) to d =
      insert_all-DistinctKeys from (insert k v to) (insert-DistinctKeys k v to d)
