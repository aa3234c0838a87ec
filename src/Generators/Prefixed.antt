-- ===== src/Generators/Prefixed.antt =====
-- The loops `for key, value := range m { params[fmt.Sprintf("p.%s", key)] = value }` of the
-- generators (pkg/generators/cluster.go, duck_type.go).
use Prim.Native.String.{◌++◌ as ◌+++◌}
use applicationset.Prelude.{
  String, [], ◌∷◌, false, Map, insert, lookup, ◌≡◌, refl, or_else, DistinctKeys, lookup-insert,
  absent-lookup, arith, eq_iff,
}
use applicationset.Utils.Combine.{Params}
use applicationset.Utils.Keys.{may_be, may_be-str_eq, str_eq-prefix}

-- `prefix` ends with its dot.
unfoldable pub add_prefixed : String → Map String → Params → Params
unfolding insert
add_prefixed prefix [] params = params
add_prefixed prefix ((k, v) ∷ m) params = add_prefixed prefix m (insert (prefix +++ k) v params)

-- Keys that do not begin with the prefix are kept.
pub lookup-add_prefixed_other :
    (prefix j : String) (m : Map String) (params : Params)
    → may_be prefix j ≡ false
    → lookup j (add_prefixed prefix m params) ≡ lookup j params
unfolding add_prefixed
lookup-add_prefixed_other prefix j [] params apart = refl
lookup-add_prefixed_other prefix j ((k, v) ∷ m) params apart =
    rw
      (
        lookup-add_prefixed_other prefix j m (insert (prefix +++ k) v params) apart,
        lookup-insert (prefix +++ k) j v params,
        may_be-str_eq prefix j k apart,
      )
      refl

-- Under a key that begins with the prefix stands the value of the rest of the key.
pub lookup-add_prefixed :
    (prefix j : String) (m : Map String) (params : Params)
    → DistinctKeys m
    → lookup (prefix +++ j) (add_prefixed prefix m params)
      ≡ or_else (lookup j m) (lookup (prefix +++ j) params)
unfolding add_prefixed lookup
lookup-add_prefixed prefix j [] params d = refl
lookup-add_prefixed prefix j ((k, v) ∷ m) params d = ground (
  arith,
  lookup-add_prefixed prefix j m (insert (prefix +++ k) v params) d.1,
  lookup-insert (prefix +++ k) (prefix +++ j) v params,
  str_eq-prefix prefix k j,
  absent-lookup k m d.0,
  eq_iff k j,
)
