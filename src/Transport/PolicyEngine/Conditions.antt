-- ===== src/Transport/PolicyEngine/Conditions.antt =====
-- When the evaluation of a policy condition fails.
use bey.Base.{◌≡◌, refl, Bool, Option, none, some, String, Option-cases, inl, inr}
use bey.Base.Errors.{NetResult, ok, err, panics}
use bey.Transport.PolicyEngine.{
  Library, ConditionOperator, equals, not_equals, greater_than, greater_than_or_equal, less_than,
  less_than_or_equal, contains, not_contains, regex, is_in, not_in, and_all, or_any, negation,
  PolicyCondition, PolicyContext, invalid_regex, compare_values, evaluate_condition, on_regex,
  unwrap_or, get_field_value,
}

module _ (L : Library) where
  -- A result of the operator `op` with an expected value: an error is 6001, and only the operator
  -- `regex` gives it, for a pattern that is no regular expression.
  abbrev pub Outcome : ConditionOperator → L.Value → NetResult Bool → Type 0
  Outcome op b (ok _) = Unit
  Outcome op b (err e) =
      (e ≡ invalid_regex)
      × (op ≡ regex)
      × ((p : String) × (L.as_str b ≡ some p) × (L.new_regex p ≡ none))
  Outcome op b panics = ⊥

  on_regex-Outcome :
      (a b : L.Value) (s t : Option String) → L.as_str b ≡ t → Outcome regex b (on_regex L s t)
  on_regex-Outcome a b (some s) (some p) h = elim (Option-cases (L.new_regex p)) [
    | inl n ↦ rw n (refl, refl, (p, h, n))
    | inr (f, e) ↦ rw e tt
  ]
  on_regex-Outcome a b none t h = tt
  on_regex-Outcome a b (some s) none h = tt

  compare_values-Outcome :
      (op : ConditionOperator) (a b : L.Value) → Outcome op b (compare_values L op a b)
  unfolding compare_values
  compare_values-Outcome regex a b = on_regex-Outcome a b (L.as_str a) (L.as_str b) refl
  compare_values-Outcome equals a b = tt
  compare_values-Outcome not_equals a b = tt
  compare_values-Outcome greater_than a b = tt
  compare_values-Outcome greater_than_or_equal a b = tt
  compare_values-Outcome less_than a b = tt
  compare_values-Outcome less_than_or_equal a b = tt
  compare_values-Outcome contains a b = tt
  compare_values-Outcome not_contains a b = tt
  compare_values-Outcome is_in a b = tt
  compare_values-Outcome not_in a b = tt
  compare_values-Outcome and_all a b = tt
  compare_values-Outcome or_any a b = tt
  compare_values-Outcome negation a b = tt

-- Evaluating a condition gives an answer, whatever the types of the field and of the expected value,
-- save for one error: 6001, for the operator `Regex` with a pattern that is no regular expression.
pub evaluate_condition-Outcome :
    (L : Library) (c : PolicyCondition L) (context : PolicyContext L)
    → Outcome L c.operator c.value (evaluate_condition c context)
unfolding evaluate_condition
evaluate_condition-Outcome L c context =
    compare_values-Outcome L c.operator (unwrap_or L.null (get_field_value context c.field)) c.value
