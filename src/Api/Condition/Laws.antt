-- ===== src/Api/Condition/Laws.antt =====
-- What `SetConditions` leaves in a status.
use mathlib.Core.List.{Perm}
use mathlib.Core.List.Perm
use mathlib.Core.Option.{some-injective}
use applicationset.Prelude.{
  ℕ, String, ◌≡◌, refl, sym, ap, ◌∙◌, inl, inr, true, List, [], ◌∷◌, map, Option, none, some, All2,
  eq_iff, arith, Bool-cases, Option-cases, if◌then◌else◌,
}
use applicationset.Api.Condition.{
  ConditionType, error_occurred, parameters_generated, resources_up_to_date, other_type,
  ConditionStatus, status_true, status_false, status_unknown, same_type, same_status,
  ApplicationSetCondition, ApplicationSetStatus, find_condition_index,
}
use applicationset.Api.Condition.Set.{
  stamp, existing, same_content, keep_or_replace, refreshed, sort_text, text_less, insert_sorted,
  sort_conditions, set_conditions,
}

-- `d` says what `c` says; only its time may differ.
abbrev pub SaysSame : ApplicationSetCondition → ApplicationSetCondition → Type 0
SaysSame c d =
    (d.type ≡ c.type) × (d.message ≡ c.message) × (d.status ≡ c.status) × (d.reason ≡ c.reason)

same_type-eq : (a b : ConditionType) → same_type a b ≡ true → a ≡ b
unfolding same_type
same_type-eq error_occurred error_occurred e = refl
same_type-eq parameters_generated parameters_generated e = refl
same_type-eq resources_up_to_date resources_up_to_date e = refl
same_type-eq error_occurred parameters_generated e = cc
same_type-eq error_occurred resources_up_to_date e = cc
same_type-eq parameters_generated error_occurred e = cc
same_type-eq parameters_generated resources_up_to_date e = cc
same_type-eq resources_up_to_date error_occurred e = cc
same_type-eq resources_up_to_date parameters_generated e = cc
same_type-eq (other_type s) (other_type t) e = ap other_type ((eq_iff s t).0 e)
same_type-eq error_occurred (other_type t) e = cc
same_type-eq parameters_generated (other_type t) e = cc
same_type-eq resources_up_to_date (other_type t) e = cc
same_type-eq (other_type s) error_occurred e = cc
same_type-eq (other_type s) parameters_generated e = cc
same_type-eq (other_type s) resources_up_to_date e = cc

same_status-eq : (a b : ConditionStatus) → same_status a b ≡ true → a ≡ b
unfolding same_status
same_status-eq status_true status_true e = refl
same_status-eq status_false status_false e = refl
same_status-eq status_unknown status_unknown e = refl
same_status-eq status_true status_false e = cc
same_status-eq status_true status_unknown e = cc
same_status-eq status_false status_true e = cc
same_status-eq status_false status_unknown e = cc
same_status-eq status_unknown status_true e = cc
same_status-eq status_unknown status_false e = cc

existing-cons :
    (d : ApplicationSetCondition) (stored : List ApplicationSetCondition) (t : ConditionType)
    → existing (d ∷ stored) t ≡ (if same_type d.type t then some d else existing stored t)
unfolding existing find_condition_index
existing-cons d stored t = elim (Bool-cases (same_type d.type t)) [
  | inl same ↦ rw (same, existing, find_condition_index)
  | inr apart ↦ elim (Option-cases (find_condition_index stored t)) [
    | inl absent ↦ rw (apart, absent, existing, find_condition_index)
    | inr (i, found) ↦ rw (apart, found, existing, find_condition_index)
  ]
]

existing-nil : (t : ConditionType) → existing [] t ≡ none
unfolding existing find_condition_index
existing-nil t = refl

existing-type :
    (stored : List ApplicationSetCondition) (t : ConditionType) (c : ApplicationSetCondition)
    → existing stored t ≡ some c
    → c.type ≡ t
existing-type [] t c e = let absent : existing [] t ≡ none = existing-nil t in cc
existing-type (d ∷ stored) t c e =
    let e' = rw (existing-cons d stored t) at e in
    elim (Bool-cases (same_type d.type t)) [
      | inl same ↦
          ap (λ x. x.type) (sym (some-injective _ _ (rw same at e'))) ∙ same_type-eq d.type t same
      | inr apart ↦ existing-type stored t c (rw apart at e')
    ]

keep_or_replace-SaysSame :
    (o : Option ApplicationSetCondition) (c : ApplicationSetCondition)
    → ((d : ApplicationSetCondition) → o ≡ some d → d.type ≡ c.type)
    → SaysSame c (keep_or_replace o c)
unfolding keep_or_replace same_content
keep_or_replace-SaysSame none c h = (refl, refl, refl, refl)
keep_or_replace-SaysSame (some d) c h = elim (Bool-cases (same_content d c)) [
  | inr apart ↦ rw (apart, keep_or_replace) (refl, refl, refl, refl)
  | inl same ↦
      let m : d.message ≡ c.message = ground (arith, same, eq_iff d.message c.message) in
      let r : d.reason ≡ c.reason = ground (arith, same, eq_iff d.reason c.reason) in
      let s : d.status ≡ c.status = same_status-eq d.status c.status (ground (arith, same)) in
      rw (same, keep_or_replace) (h d refl, m, s, r)
]

refreshed-SaysSame :
    (now : ℕ) (stored : List ApplicationSetCondition) (c : ApplicationSetCondition)
    → SaysSame c (refreshed now stored c)
unfolding refreshed stamp
refreshed-SaysSame now stored c =
    keep_or_replace-SaysSame (existing stored c.type) (stamp now c)
      (λ d e. existing-type stored c.type d e)

refreshed-All2 :
    (now : ℕ) (stored cs : List ApplicationSetCondition)
    → All2 SaysSame cs (map (refreshed now stored) cs)
refreshed-All2 now stored [] = tt
refreshed-All2 now stored (c ∷ cs) = (refreshed-SaysSame now stored c, refreshed-All2 now stored cs)

module _ (print_time : Option ℕ → String) where
  insert_sorted-Perm :
      (c : ApplicationSetCondition) (cs : List ApplicationSetCondition)
      → Perm (insert_sorted print_time c cs) (c ∷ cs)
  unfolding insert_sorted
  insert_sorted-Perm c [] = Perm.refl _
  insert_sorted-Perm c (d ∷ cs) =
      elim (Bool-cases (text_less (sort_text print_time d) (sort_text print_time c))) [
        | inl less ↦
            rw (less, insert_sorted)
              (Perm.trans (Perm.cons d (insert_sorted-Perm c cs)) (Perm.swap c d cs))
        | inr other ↦ rw (other, insert_sorted) (Perm.refl _)
      ]

  sort_conditions-Perm :
      (cs : List ApplicationSetCondition) → Perm (sort_conditions print_time cs) cs
  unfolding sort_conditions
  sort_conditions-Perm [] = Perm.refl _
  sort_conditions-Perm (c ∷ cs) =
      Perm.trans (insert_sorted-Perm c (sort_conditions print_time cs))
        (Perm.cons c (sort_conditions-Perm cs))

  -- `SetConditions` leaves in the status, in some order, one condition for each incoming one, with
  -- its type, message, status and reason, and nothing else: every stored condition whose type does
  -- not come in is dropped, evaluated or not.
  pub set_conditions-SaysSame :
      (now : ℕ) (incoming : List ApplicationSetCondition) (evaluated : List ConditionType)
      (status : ApplicationSetStatus)
      → (out : List ApplicationSetCondition) × Perm
          (set_conditions print_time now incoming evaluated status).conditions
          out
        × All2 SaysSame incoming out
  unfolding set_conditions
  set_conditions-SaysSame now incoming evaluated status = (
    map (refreshed now status.conditions) incoming,
    sort_conditions-Perm _,
    refreshed-All2 now status.conditions incoming,
  )
