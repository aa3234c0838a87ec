-- ===== src/Generators/DuckType/Found.antt =====
-- The cluster that `find_cluster` of pkg/generators/duck_type.go finds.
use applicationset.Prelude.{
  Option, any, String, Bool, true, false, List, [], ◌∷◌, ◌++◌, none, some, str_eq, ◌≡◌, refl, sym,
  ◌∙◌, ap, Bool-cases, inl, inr, eq_iff,
}
use mathlib.Core.Option.{some-injective}
use applicationset.Utils.Clusters.{Cluster}
use applicationset.Generators.DuckType.Decisions.{find_cluster}

-- No cluster of the list has the name.
abbrev pub IsUnnamed : String → List Cluster → Type 0
IsUnnamed name cs = any (λ c. str_eq c.name name) cs ≡ false

-- `c` is the first cluster of its name in the list.
abbrev pub IsFirstNamed : Cluster → List Cluster → Type 0
IsFirstNamed c cs =
    (before after : List Cluster) × (cs ≡ before ++ c ∷ after) × IsUnnamed c.name before

pub find_cluster-IsFirstNamed :
    (name : String) (cs : List Cluster) (c : Cluster)
    → find_cluster name cs ≡ some c
    → IsFirstNamed c cs × (c.name ≡ name)
unfolding find_cluster
find_cluster-IsFirstNamed name [] c h = cc
find_cluster-IsFirstNamed name (d ∷ cs) c h = elim (Bool-cases (str_eq d.name name)) [
  | inl e ↦
      let same = some-injective _ _ (rw e at h) in
      (
        ([], cs, ap (λ x. x ∷ cs) same, refl),
        ap (λ x. x.name) (sym same) ∙ (eq_iff d.name name).0 e,
      )
  | inr e ↦
      let ((before, after, same, apart), named) = find_cluster-IsFirstNamed name cs c (rw e at h) in
      let other : str_eq d.name c.name ≡ false = ap (str_eq d.name) named ∙ e in
      ((d ∷ before, after, ap (λ xs. d ∷ xs) same, rw other apart), named)
]

abbrev pub found_one : Option Cluster → Bool
found_one none = false
found_one (some c) = true

pub find_cluster-any :
    (name : String) (cs : List Cluster) (o : Option Cluster)
    → find_cluster name cs ≡ o
    → any (λ c. str_eq c.name name) cs ≡ found_one o
unfolding find_cluster
find_cluster-any name [] o h = rw (sym h) refl
find_cluster-any name (d ∷ cs) o h = elim (Bool-cases (str_eq d.name name)) [
  | inl e ↦ rw (e, sym h, find_cluster, e) refl
  | inr e ↦ rw e (find_cluster-any name cs o (rw (find_cluster, e) at h))
]
