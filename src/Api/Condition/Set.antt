-- ===== src/Api/Condition/Set.antt =====
-- `SetConditions` (api/v1alpha1/applicationset_types.go).
use Prim.Native.String.{compare, ◌++◌}
use Prim.Native.Nat.{Ordering}
use applicationset.Prelude.{
  ℕ, String, Bool, true, false, ◌&&◌, List, [], ◌∷◌, map, Option, none, some, get_elem?, str_eq,
  if◌then◌else◌, or_else,
}
use applicationset.Api.Condition.{
  ConditionType, error_occurred, parameters_generated, resources_up_to_date, other_type,
  ConditionStatus, status_true, status_false, status_unknown, same_status, ApplicationSetCondition,
  ApplicationSetStatus, find_condition_index,
}

unfoldable pub type_text : ConditionType → String
type_text error_occurred = "ErrorOccurred"
type_text parameters_generated = "ParametersGenerated"
type_text resources_up_to_date = "ResourcesUpToDate"
type_text (other_type s) = s

unfoldable pub status_text : ConditionStatus → String
status_text status_true = "True"
status_text status_false = "False"
status_text status_unknown = "Unknown"

-- `if condition.LastTransitionTime == nil { condition.LastTransitionTime = &now }`
unfoldable pub stamp : ℕ → ApplicationSetCondition → ApplicationSetCondition
stamp now c = record c { last_transition_time = or_else c.last_transition_time (some now) }

-- The stored condition of the type, if there is one.
unfoldable pub existing :
    List ApplicationSetCondition → ConditionType → Option ApplicationSetCondition
unfolding find_condition_index
existing stored t = elim (find_condition_index stored t) [
  | none ↦ none
  | some eci ↦ get_elem? stored eci
]

unfoldable pub same_content : ApplicationSetCondition → ApplicationSetCondition → Bool
unfolding same_status
same_content old new =
    str_eq old.message new.message
    && str_eq old.reason new.reason
    && same_status old.status new.status

-- An incoming condition, or the stored one if that says the same.
unfoldable pub keep_or_replace :
    Option ApplicationSetCondition → ApplicationSetCondition → ApplicationSetCondition
unfolding same_content
keep_or_replace none new = new
keep_or_replace (some old) new = if same_content old new then old else new

unfoldable pub refreshed :
    ℕ → List ApplicationSetCondition → ApplicationSetCondition → ApplicationSetCondition
unfolding stamp existing keep_or_replace
refreshed now stored c = keep_or_replace (existing stored c.type) (stamp now c)

-- The text that the conditions are sorted by; how a time is printed is a parameter.
unfoldable pub sort_text : (Option ℕ → String) → ApplicationSetCondition → String
unfolding type_text status_text
sort_text print_time c =
    type_text c.type
    ++ "/"
    ++ c.message
    ++ "/"
    ++ status_text c.status
    ++ "/"
    ++ c.reason
    ++ "/"
    ++ print_time c.last_transition_time

abbrev pub text_less : String → String → Bool
text_less s t = elim (compare s t) [ Ordering.lt ↦ true | _ ↦ false ]

module _ (print_time : Option ℕ → String) where
  unfoldable pub insert_sorted :
      ApplicationSetCondition → List ApplicationSetCondition → List ApplicationSetCondition
  unfolding sort_text
  insert_sorted c [] = c ∷ []
  insert_sorted c (d ∷ ds) =
      let rest = insert_sorted c ds in
      if text_less (sort_text print_time d) (sort_text print_time c) then d ∷ rest else c ∷ d ∷ ds

  -- `sort.Slice` by the text
  unfoldable pub sort_conditions : List ApplicationSetCondition → List ApplicationSetCondition
  unfolding insert_sorted
  sort_conditions [] = []
  sort_conditions (c ∷ cs) = insert_sorted c (sort_conditions cs)

  -- `SetConditions`; the evaluated types are not looked at.
  unfoldable pub set_conditions :
      ℕ
      → List ApplicationSetCondition
      → List ConditionType
      → ApplicationSetStatus
      → ApplicationSetStatus
  unfolding refreshed sort_conditions
  set_conditions now conditions evaluated_types status = record {
    conditions = sort_conditions (map (refreshed now status.conditions) conditions);
  }
