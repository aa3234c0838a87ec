-- ===== src/Generators/Elements.antt =====
-- pkg/generators/list.go: the parameters are written in the elements of the spec.
pub mod Laws
use Prim.Native.String.{◌++◌ as ◌+++◌}
use applicationset.Prelude.{
  String, Bool, true, false, List, [], ◌∷◌, Option, none, some, Map, insert, str_eq, if◌then◌else◌,
}
use applicationset.Errors.{
  Error, Result, ok, err, panic, ◌>>=◌, empty_app_set_generator, list_element_error,
  list_values_error, list_value_error,
}
use applicationset.Api.Template.{ApplicationSetTemplate}
use applicationset.Api.Generator.{ApplicationSetGenerator, ListGenerator}
use applicationset.Api.ApplicationSet.{ApplicationSet}
use applicationset.Utils.Combine.{Params}
use applicationset.Utils.Json.{Value, as_text, as_object}
use applicationset.Generators.Interface.{Generator, Duration, no_requeue_after}

-- `json.Unmarshal` of the raw text of an element to a map
abbrev pub UnmarshalObject : Type 0
UnmarshalObject = String → Result (Map Value)

-- `fmt.Sprintf("values.%s", k)`
abbrev pub values_key : String → String
values_key k = "values." +++ k

-- The loop over the map `values`.
unfoldable pub add_values : Map Value → Params → Result Params
unfolding insert
add_values [] params = ok params
add_values ((k, v) ∷ values) params = elim (as_text v) [
  | none ↦ err list_value_error
  | some s ↦ add_values values (insert (values_key k) s params)
]

-- One field of an element.
unfoldable pub add_field : String → Value → Params → Result Params
unfolding add_values
add_field key value params =
    if str_eq key "values"
    then (elim (as_object value) [
      | none ↦ err list_values_error
      | some values ↦ add_values values params
    ])
    else (elim (as_text value) [ none ↦ err list_value_error | some v ↦ ok (insert key v params) ])

-- The loop over the fields of an element.
unfoldable pub add_fields : Map Value → Params → Result Params
add_fields [] params = ok params
add_fields ((key, value) ∷ element) params = do
  params' ← add_field key value params
  add_fields element params'

module _ (unmarshal : UnmarshalObject) where
  unfoldable pub element_params : String → Result Params
  element_params raw = elim (unmarshal raw) [
    | err e ↦ err (list_element_error e)
    | panic ↦ panic
    | ok element ↦ add_fields element []
  ]

  -- The loop over the elements.
  unfoldable pub all_params : List String → Result (List Params)
  all_params [] = ok []
  all_params (raw ∷ elements) = do
    params ← element_params raw
    rest ← all_params elements
    ok (params ∷ rest)

  -- `GenerateParams`
  unfoldable pub generate_params : ApplicationSetGenerator → ApplicationSet → Result (List Params)
  generate_params g app_set = elim g.list [
    | none ↦ err empty_app_set_generator
    | some l ↦ all_params l.elements
  ]

  -- `GetTemplate`
  unfoldable pub get_template : ApplicationSetGenerator → Result ApplicationSetTemplate
  get_template g = elim g.list [ none ↦ panic | some l ↦ ok l.template ]

  -- `NewListGenerator`, with `GetRequeueAfter`
  unfoldable pub new_list_generator : Generator
  unfolding generate_params get_template
  new_list_generator = record {
    generate_params = generate_params;
    get_requeue_after = λ g. ok no_requeue_after;
    get_template = get_template;
  }
