-- ===== src/Generators/Cluster/Describes.antt =====
-- What the parameters of a cluster's secret say (pkg/generators/cluster.go).
use Prim.Native.String.{◌++◌ as ◌+++◌}
use applicationset.Prelude.{
  String, false, [], Option, none, some, Map, insert, lookup, ◌≡◌, refl, ◌∙◌, DistinctKeys, or_else,
}
use applicationset.Api.Generator.{ClusterGenerator}
use applicationset.Utils.Combine.{Params}
use applicationset.Utils.Clusters.{Secret, data_at}
use applicationset.Utils.Keys.{may_be, may_be-str_eq_sym, may_be-append}
use applicationset.Generators.Prefixed.{
  add_prefixed, lookup-add_prefixed, lookup-add_prefixed_other,
}
use applicationset.Generators.Cluster.{secret_params}
use applicationset.Generators.Cluster.SanitizeName.{
  sanitize_name, IsDnsName, sanitize_name-IsDnsName,
}

or_else-none : (o : Option String) → or_else o none ≡ o
or_else-none none = refl
or_else-none (some v) = refl

-- What a set says of a cluster's secret.
pub record Describes (g : ClusterGenerator) (s : Secret) (params : Params) : Type 0 where
  pub name : lookup "name" params ≡ some (data_at "name" s.secret_data)
  pub server : lookup "server" params ≡ some (data_at "server" s.secret_data)
  pub normalized : (n : String) × (lookup "nameNormalized" params ≡ some n) × IsDnsName n
  pub annotation :
      (k : String) → lookup ("metadata.annotations." +++ k) params ≡ lookup k s.annotations
  pub label : (k : String) → lookup ("metadata.labels." +++ k) params ≡ lookup k s.labels
  pub value : (k : String) → lookup ("values." +++ k) params ≡ lookup k g.values

-- Three families of keys on top of a base.
module _ (values labels annotations : Map String) (base : Params) where
  families : Params
  families = add_prefixed "values." values (
      add_prefixed "metadata.labels." labels
        (add_prefixed "metadata.annotations." annotations base))

  families-fixed :
      (j : String)
      → may_be "values." j ≡ false
      → may_be "metadata.labels." j ≡ false
      → may_be "metadata.annotations." j ≡ false
      → lookup j families ≡ lookup j base
  unfolding families
  families-fixed j v l a =
      lookup-add_prefixed_other "values." j values _ v
      ∙ lookup-add_prefixed_other "metadata.labels." j labels _ l
      ∙ lookup-add_prefixed_other "metadata.annotations." j annotations base a

  families-annotation :
      (k : String)
      → DistinctKeys annotations
      → lookup ("metadata.annotations." +++ k) base ≡ none
      → lookup ("metadata.annotations." +++ k) families ≡ lookup k annotations
  unfolding families
  families-annotation k d absent =
      lookup-add_prefixed_other "values." ("metadata.annotations." +++ k) values _
        (may_be-append "values." "metadata.annotations." k refl)
      ∙ lookup-add_prefixed_other "metadata.labels." ("metadata.annotations." +++ k) labels _
          (may_be-append "metadata.labels." "metadata.annotations." k refl)
      ∙ lookup-add_prefixed "metadata.annotations." k annotations base d
      ∙ rw absent (or_else-none (lookup k annotations))

  families-label :
      (k : String)
      → DistinctKeys labels
      → lookup ("metadata.labels." +++ k) base ≡ none
      → lookup ("metadata.labels." +++ k) families ≡ lookup k labels
  unfolding families
  families-label k d absent =
      lookup-add_prefixed_other "values." ("metadata.labels." +++ k) values _
        (may_be-append "values." "metadata.labels." k refl)
      ∙ lookup-add_prefixed "metadata.labels." k labels _ d
      ∙ rw
          (
            lookup-add_prefixed_other "metadata.annotations." ("metadata.labels." +++ k) annotations
                base (may_be-append "metadata.annotations." "metadata.labels." k refl),
            absent,
          )
          (or_else-none (lookup k labels))

  families-value :
      (k : String)
      → DistinctKeys values
      → lookup ("values." +++ k) base ≡ none
      → lookup ("values." +++ k) families ≡ lookup k values
  unfolding families
  families-value k d absent =
      lookup-add_prefixed "values." k values _ d
      ∙ rw
          (
            lookup-add_prefixed_other "metadata.labels." ("values." +++ k) labels
                (add_prefixed "metadata.annotations." annotations base)
                (may_be-append "metadata.labels." "values." k refl),
            lookup-add_prefixed_other "metadata.annotations." ("values." +++ k) annotations base
                (may_be-append "metadata.annotations." "values." k refl),
            absent,
          )
          (or_else-none (lookup k values))

base_params : String → String → String → Params
unfolding insert
base_params name normalized server =
    insert "server" server (insert "nameNormalized" normalized (insert "name" name []))

-- No key of the base begins with a prefix.
base_params-absent :
    (name normalized server prefix k : String)
    → may_be prefix "name" ≡ false
    → may_be prefix "nameNormalized" ≡ false
    → may_be prefix "server" ≡ false
    → lookup (prefix +++ k) (base_params name normalized server) ≡ none
unfolding base_params lookup
base_params-absent name normalized server prefix k a b c =
    rw
      (
        may_be-str_eq_sym prefix "name" k a,
        may_be-str_eq_sym prefix "nameNormalized" k b,
        may_be-str_eq_sym prefix "server" k c,
      )
      refl

-- The parameters of a secret are the name and the server of the cluster, a name fit for DNS, and
-- behind their prefixes exactly the annotations and the labels of the secret and the values of the
-- spec, if these maps have no key twice; no family hides another.
pub secret_params-Describes :
    (g : ClusterGenerator) (s : Secret)
    → DistinctKeys s.annotations
    → DistinctKeys s.labels
    → DistinctKeys g.values
    → Describes g s (secret_params g s)
unfolding secret_params lookup may_be families base_params
secret_params-Describes g s da dl dv =
    let name = data_at "name" s.secret_data in
    let server = data_at "server" s.secret_data in
    let base = base_params name (sanitize_name name) server in
    let fixed = families-fixed g.values s.labels s.annotations base in
    let absent = base_params-absent name (sanitize_name name) server in
    record {
      name = fixed "name" refl refl refl;
      server = fixed "server" refl refl refl;
      normalized =
          (sanitize_name name, fixed "nameNormalized" refl refl refl, sanitize_name-IsDnsName name);
      annotation = λ k.
          families-annotation g.values s.labels s.annotations base k da
            (absent "metadata.annotations." k refl refl refl);
      label = λ k.
          families-label g.values s.labels s.annotations base k dl
            (absent "metadata.labels." k refl refl refl);
      value = λ k.
          families-value g.values s.labels s.annotations base k dv
            (absent "values." k refl refl refl);
    }
