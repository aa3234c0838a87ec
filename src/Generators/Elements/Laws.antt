-- ===== src/Generators/Elements/Laws.antt =====
-- The parameter sets of the list generator (pkg/generators/list.go), described field by field.
use applicationset.Prelude.{
  String, List, [], ◌∷◌, ◌++◌, none, some, Map, insert, insert_all, str_eq, if◌then◌else◌, ◌≡◌,
  refl, sym, All2, Bool-cases, Option-cases, inl, inr,
}
use applicationset.Errors.{
  Result, ok, err, ◌>>=◌, Result-Cases, is_ok, is_err, is_panic, list_value_error,
  list_values_error,
}
use applicationset.Errors.Laws.{ok-injective, bind-ok}
use applicationset.Api.Generator.{ApplicationSetGenerator, ListGenerator}
use applicationset.Api.ApplicationSet.{ApplicationSet}
use applicationset.Utils.Combine.{Params}
use applicationset.Utils.Json.{Value, as_text, as_object}
use applicationset.Generators.Elements.{
  UnmarshalObject, values_key, add_values, add_field, add_fields, element_params, all_params,
  generate_params,
}

-- The parameters that a map `values` stands for: each value has to be a text.
abbrev pub value_pairs : Map Value → Result Params
value_pairs [] = ok []
value_pairs ((k, v) ∷ values) = elim (as_text v) [
  | none ↦ err list_value_error
  | some s ↦ value_pairs values >>= λ pairs. ok ((values_key k, s) ∷ pairs)
]

-- The parameters that a field stands for.
abbrev pub field_pairs : String → Value → Result Params
field_pairs key v =
    if str_eq key "values"
    then (elim (as_object v) [ none ↦ err list_values_error | some values ↦ value_pairs values ])
    else (elim (as_text v) [ none ↦ err list_value_error | some s ↦ ok ((key, s) ∷ []) ])

-- The parameters that an element stands for, in the order of its fields.
abbrev pub element_pairs : Map Value → Result Params
element_pairs [] = ok []
element_pairs ((key, v) ∷ element) = do
  pairs ← field_pairs key v
  rest ← element_pairs element
  ok (pairs ++ rest)

insert_all-append : (a b to : Params) → insert_all (a ++ b) to ≡ insert_all b (insert_all a to)
unfolding insert_all
insert_all-append [] b to = refl
insert_all-append ((k, v) ∷ a) b to = insert_all-append a b (insert k v to)

add_values-pairs :
    (values : Map Value) (params : Params)
    → add_values values params ≡ (value_pairs values >>= λ pairs. ok (insert_all pairs params))
unfolding add_values insert_all
add_values-pairs [] params = refl
add_values-pairs ((k, v) ∷ values) params = elim (Option-cases (as_text v)) [
  | inl e ↦ rw (add_values, value_pairs, e) refl
  | inr (s, e) ↦
      rw (add_values, value_pairs, e)
        (let ih = add_values-pairs values (insert (values_key k) s params) in
          elim (Result-Cases (value_pairs values)) [
            | is_ok a e ↦ rw (ih, e)
            | is_err x e ↦ rw (ih, e)
            | is_panic e ↦ rw (ih, e)
          ])
]

add_field-pairs :
    (key : String) (v : Value) (params : Params)
    → add_field key v params ≡ (field_pairs key v >>= λ pairs. ok (insert_all pairs params))
unfolding add_field insert_all
add_field-pairs key v params = elim (Bool-cases (str_eq key "values")) [
  | inl e ↦ rw e (elim (Option-cases (as_object v)) [
    | inl e' ↦ rw e' refl
    | inr (values, e') ↦ rw e' (add_values-pairs values params)
  ])
  | inr e ↦
      rw e (elim (Option-cases (as_text v)) [ inl e' ↦ rw e' refl | inr (s, e') ↦ rw e' refl ])
]

add_fields-pairs :
    (element : Map Value) (params : Params)
    → add_fields element params ≡ (element_pairs element >>= λ pairs. ok (insert_all pairs params))
unfolding add_fields insert_all
add_fields-pairs [] params = refl
add_fields-pairs ((key, v) ∷ element) params = elim (Result-Cases (field_pairs key v)) [
  | is_err x e ↦ rw (add_field-pairs key v params, e)
  | is_panic e ↦ rw (add_field-pairs key v params, e)
  | is_ok pairs e ↦
      let ih = add_fields-pairs element (insert_all pairs params) in
      elim (Result-Cases (element_pairs element)) [
        | is_ok rest e' ↦
            rw (add_field-pairs key v params, e, ih, e', insert_all-append pairs rest params)
        | is_err x e' ↦ rw (add_field-pairs key v params, e, ih, e')
        | is_panic e' ↦ rw (add_field-pairs key v params, e, ih, e')
      ]
]

-- The raw element decodes to fields whose pairs, stored one after the other in an empty map, are
-- the parameter set.
abbrev pub IsSetOf : UnmarshalObject → String → Params → Type 0
IsSetOf unmarshal raw params =
    (element : Map Value) × (pairs : Params) × (unmarshal raw ≡ ok element)
    × (element_pairs element ≡ ok pairs)
    × (params ≡ insert_all pairs [])

module _ (unmarshal : UnmarshalObject) where
  element_params-IsSetOf :
      (raw : String) (params : Params)
      → element_params unmarshal raw ≡ ok params
      → IsSetOf unmarshal raw params
  unfolding element_params
  element_params-IsSetOf raw params h = elim (Result-Cases (unmarshal raw)) [
    | is_err x e ↦ cc (rw (element_params, e) at h)
    | is_panic e ↦ cc (rw (element_params, e) at h)
    | is_ok element e ↦
        let (pairs, found, stored) =
          bind-ok (element_pairs element)
            (rw (element_params, e, add_fields-pairs element []) at h) in
        (element, pairs, e, found, sym (ok-injective stored))
  ]

  all_params-IsSetOf :
      (raws : List String) (sets : List Params)
      → all_params unmarshal raws ≡ ok sets
      → All2 (IsSetOf unmarshal) raws sets
  unfolding all_params
  all_params-IsSetOf [] sets h = rw (← ok-injective h) tt
  all_params-IsSetOf (raw ∷ raws) sets h =
      let (params, here, h') = bind-ok (element_params unmarshal raw) h in
      let (rest, there, stored) = bind-ok (all_params unmarshal raws) h' in
      rw (← ok-injective stored)
        (element_params-IsSetOf raw params here, all_params-IsSetOf raws rest there)

  -- If GenerateParams succeeds, each element of the spec decodes to an object, and its set is what the
  -- fields stand for, stored one after the other: a field that is a text stands for itself, and the
  -- texts in the object `values` stand for themselves behind the prefix `values.`.
  pub generate_params-IsSetOf :
      (g : ApplicationSetGenerator) (app_set : ApplicationSet) (sets : List Params)
      → generate_params unmarshal g app_set ≡ ok sets
      → (l : ListGenerator) × (g.list ≡ some l) × All2 (IsSetOf unmarshal) l.elements sets
  unfolding generate_params
  generate_params-IsSetOf g app_set sets h = elim (Option-cases g.list) [
    | inl e ↦ cc (rw (generate_params, e) at h)
    | inr (l, e) ↦ (l, e, all_params-IsSetOf l.elements sets (rw (generate_params, e) at h))
  ]
