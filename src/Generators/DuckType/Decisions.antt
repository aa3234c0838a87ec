-- ===== src/Generators/DuckType/Decisions.antt =====
-- The decisions of the resources, and their parameters (pkg/generators/duck_type.go).
use Prim.Native.String.{String}
use applicationset.Prelude.{
  List, [], ◌∷◌, ◌++◌, Option, none, some, Map, insert, lookup, str_eq, if◌then◌else◌,
}
use applicationset.Errors.{Result, ok, panic, ◌>>=◌}
use applicationset.Api.Generator.{DuckTypeGenerator}
use applicationset.Utils.Combine.{Params}
use applicationset.Utils.Clusters.{Cluster}
use applicationset.Utils.Json.{Value, null, text, object, to_map, as_text, as_object, as_array}
use applicationset.Utils.Text.{is_empty}
use applicationset.Generators.Prefixed.{add_prefixed}

abbrev status_or_nil : Value → Result (Map Value)
status_or_nil null = ok []
status_or_nil (object fields) = ok (to_map fields)
status_or_nil _ = panic

-- `Object["status"]`, where nil and an empty map have nothing to read; another type is a failed
-- assertion.
unfoldable pub status_of : Map Value → Result (Map Value)
unfolding lookup
status_of resource = elim (lookup "status" resource) [ none ↦ ok [] | some v ↦ status_or_nil v ]

-- `status[statusListKey].([]interface{})`
unfoldable pub decision_list : String → Map Value → Result (List Value)
unfolding lookup
decision_list status_list_key status = elim (lookup status_list_key status) [
  | none ↦ panic
  | some v ↦ elim (as_array v) [ none ↦ panic | some decisions ↦ ok decisions ]
]

-- The loop over the resources: `clusterDecisions`.
unfoldable pub cluster_decisions : String → List (Map Value) → List Value → Result (List Value)
unfolding status_of decision_list
cluster_decisions key [] decisions = ok decisions
cluster_decisions key (resource ∷ resources) decisions = do
  status ← status_of resource
  elim status [
    | [] ↦ cluster_decisions key resources decisions
    | s ∷ ss ↦ do
      found ← decision_list key (s ∷ ss)
      cluster_decisions key resources (decisions ++ found)
  ]

-- The inner loop over the clusters of Argo CD: the first one of the name.
unfoldable pub find_cluster : String → List Cluster → Option Cluster
find_cluster name [] = none
find_cluster name (c ∷ cs) =
    let rest = find_cluster name cs in if str_eq c.name name then some c else rest

abbrev pub text_or_nil : Value → Result String
text_or_nil null = ok ""
text_or_nil (text s) = ok s
text_or_nil _ = panic

-- The value under the match key: nil and the empty text match nothing.
unfoldable pub match_value : String → Map Value → Result String
unfolding lookup
match_value match_key decision = elim (lookup match_key decision) [
  | none ↦ ok ""
  | some v ↦ text_or_nil v
]

-- The loop over the fields of a decision; a value that is no text is a failed assertion.
unfoldable pub add_fields : Map Value → Params → Result Params
unfolding insert
add_fields [] params = ok params
add_fields ((key, value) ∷ decision) params = elim (as_text value) [
  | none ↦ panic
  | some v ↦ add_fields decision (insert key v params)
]

module _ (duck : DuckTypeGenerator) (match_key : String) (clusters : List Cluster) where
  -- The cluster that a decision names, if it is known.
  unfoldable pub matched_cluster : Map Value → Result (Option Cluster)
  unfolding match_value find_cluster
  matched_cluster decision = do
    name ← match_value match_key decision
    if is_empty name then ok none else ok (find_cluster name clusters)

  -- The parameters of a decision with its cluster.
  unfoldable pub decided_params : Map Value → Cluster → Result Params
  unfolding add_fields add_prefixed insert
  decided_params decision cluster = do
    params ← add_fields decision (insert "server" cluster.server (insert "name" cluster.name []))
    ok (add_prefixed "values." duck.values params)

  -- The loop over the decisions.
  unfoldable pub decision_params : List Value → List Params → Result (List Params)
  unfolding matched_cluster decided_params
  decision_params [] res = ok res
  decision_params (decision ∷ decisions) res = elim (as_object decision) [
    | none ↦ panic
    | some d ↦ do
      matched ← matched_cluster d
      elim matched [
        | none ↦ decision_params decisions res
        | some cluster ↦ do
          params ← decided_params d cluster
          decision_params decisions (res ++ params ∷ [])
      ]
  ]
