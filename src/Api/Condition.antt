-- ===== src/Api/Condition.antt =====
-- The status of an ApplicationSet (api/v1alpha1/applicationset_types.go): its conditions, and
-- the lookup by type.
pub mod Set
pub mod Laws
use applicationset.Prelude.{
  ℕ, suc, String, Bool, true, false, ◌&&◌, List, [], ◌∷◌, map, Option, none, some, get_elem?,
  str_eq, if◌then◌else◌, or_else,
}

pub data ConditionType : Type 0 where
  error_occurred parameters_generated resources_up_to_date : ConditionType
  -- any other text that the stored object may hold
  other_type : String → ConditionType

pub data ConditionStatus : Type 0 where
  status_true status_false status_unknown : ConditionStatus

unfoldable pub same_type : ConditionType → ConditionType → Bool
same_type error_occurred error_occurred = true
same_type parameters_generated parameters_generated = true
same_type resources_up_to_date resources_up_to_date = true
same_type (other_type s) (other_type t) = str_eq s t
same_type _ _ = false

unfoldable pub same_status : ConditionStatus → ConditionStatus → Bool
same_status status_true status_true = true
same_status status_false status_false = true
same_status status_unknown status_unknown = true
same_status _ _ = false

-- Times are counted from some origin.
pub record ApplicationSetCondition : Type 0 where
  pub type : ConditionType
  pub message : String
  pub last_transition_time : Option ℕ
  pub status : ConditionStatus
  pub reason : String

pub record ApplicationSetStatus : Type 0 where
  pub conditions : List ApplicationSetCondition

-- `findConditionIndex`; `none` is -1.
unfoldable pub find_condition_index : List ApplicationSetCondition → ConditionType → Option ℕ
find_condition_index [] t = none
find_condition_index (c ∷ cs) t =
    if same_type c.type t
    then some 0
    else elim (find_condition_index cs t) [ none ↦ none | some i ↦ some (suc i) ]
