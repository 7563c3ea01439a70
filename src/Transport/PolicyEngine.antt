-- ===== src/Transport/PolicyEngine.antt =====
-- The policy engine, src/crates/bey-transport/src/policy_engine.rs: actions, operators, conditions
-- and the context that they are evaluated in. JSON values, floating-point numbers and regular
-- expressions are not code of the repository: they are the parameter `Library`.
mod Tests
pub mod Rule
pub mod Set
pub mod Engine
pub mod Conditions
use Prim.Native.String.{String, len, find}
use bey.Base.{
  ℕ, zero, Bool, true, false, not, ◌||◌, if◌then◌else◌, leb, Option, none, some, List, [], ◌∷◌,
  ◌++◌, ◌==◌, string_eq, HashMap, lookup, insert,
}
use bey.Base.Errors.{
  NetResult, ok, err, ErrorInfo, new_error, with_category, with_severity, configuration, error,
}

pub data PolicyAction : Type 0 where
  allow deny require_authentication restrict log require_approval quarantine : PolicyAction

pub data ConditionOperator : Type 0 where
  equals not_equals greater_than greater_than_or_equal less_than less_than_or_equal :
      ConditionOperator
  contains not_contains regex is_in not_in and_all or_any negation : ConditionOperator

-- `serde_json::Value` with the views `as_str`, `as_array` and `as_f64` (`number`: the value is a
-- number), `f64` comparisons, `f32` sums, and `Regex::new` with `is_match`.
pub record Library : Type 1 where
  pub Value : Type 0
  pub null : Value
  pub same : Value → Value → Bool
  pub Number : Type 0
  pub as_number : Value → Option Number
  pub as_str : Value → Option String
  pub as_array : Value → Option (List Value)
  pub F64 : Type 0
  pub zero_f64 : F64
  pub as_f64 : Number → Option F64
  pub gt_f64 : F64 → F64 → Bool
  pub ge_f64 : F64 → F64 → Bool
  pub F32 : Type 0
  pub zero_f32 : F32
  pub one_f32 : F32
  pub add_f32 : F32 → F32 → F32
  pub new_regex : String → Option (String → Bool)

-- `unwrap_or`.
abbrev pub unwrap_or {ℓ} : {A : Type ℓ} → A → Option A → A
unwrap_or a none = a
unwrap_or a (some b) = b

-- `insert` of a `HashSet`.
abbrev has : List String → String → Bool
has [] s = false
has (t ∷ ts) s = t == s || has ts s

abbrev pub insert_tag : String → List String → List String
insert_tag s ts = if has ts s then ts else ts ++ s ∷ []

-- `str::contains`: `find` gives a place in the text, or one beyond its end.
unfoldable pub contains_str : String → String → Bool
contains_str s pattern = leb (find s pattern) (len s)

abbrev pub invalid_regex : ErrorInfo
invalid_regex = with_severity (with_category (new_error 6001) configuration) error

module _ (L : Library) where
  pub record PolicyCondition : Type 0 where
    pub field : String
    pub operator : ConditionOperator
    pub value : L.Value
    pub weight : L.F32
    pub description : String

  pub record PolicyContext : Type 0 where
    pub context_data : HashMap String L.Value
    pub requester_id : Option String
    pub resource : Option String
    pub operation : Option String
    pub timestamp : ℕ
    pub tags : List String

module _ {L : Library} where
  unfoldable pub new_condition : String → ConditionOperator → L.Value → String → PolicyCondition L
  new_condition field operator value description = record {
    field = field;
    operator = operator;
    value = value;
    weight = L.one_f32;
    description = description;
  }

  unfoldable pub with_weight : PolicyCondition L → L.F32 → PolicyCondition L
  with_weight c weight = record c { weight = weight }

  -- `PolicyContext::new`, with the time of the clock.
  unfoldable pub new_context : ℕ → PolicyContext L
  new_context now = record {
    context_data = [];
    requester_id = none;
    resource = none;
    operation = none;
    timestamp = now;
    tags = [];
  }

  unfoldable pub set_field : PolicyContext L → String → L.Value → PolicyContext L
  set_field c field value = record c { context_data = insert field value c.context_data }

  unfoldable pub get_field_value : PolicyContext L → String → Option L.Value
  get_field_value c field = lookup field c.context_data

  unfoldable pub with_requester_id : PolicyContext L → String → PolicyContext L
  with_requester_id c requester_id = record c { requester_id = some requester_id }

  unfoldable pub with_resource : PolicyContext L → String → PolicyContext L
  with_resource c resource = record c { resource = some resource }

  unfoldable pub with_operation : PolicyContext L → String → PolicyContext L
  with_operation c operation = record c { operation = some operation }

  unfoldable pub with_context_tag : PolicyContext L → String → PolicyContext L
  with_context_tag c tag = record c { tags = insert_tag tag c.tags }

module _ (L : Library) where
  -- `expected.contains(actual)`.
  abbrev pub member : L.Value → List L.Value → Bool
  member v [] = false
  member v (w ∷ ws) = L.same w v || member v ws

  -- The arms of `evaluate` on two numbers, two strings, and a value with an array.
  abbrev pub on_numbers : (L.F64 → L.F64 → Bool) → Option L.Number → Option L.Number → Bool
  on_numbers test (some a) (some b) =
      test (unwrap_or L.zero_f64 (L.as_f64 a)) (unwrap_or L.zero_f64 (L.as_f64 b))
  on_numbers test _ _ = false

  abbrev pub on_strings : (String → String → Bool) → Option String → Option String → Bool
  on_strings test (some a) (some b) = test a b
  on_strings test _ _ = false

  abbrev pub on_array : (List L.Value → Bool) → Option (List L.Value) → Bool
  on_array test (some vs) = test vs
  on_array test none = false

  abbrev pub matching : String → Option (String → Bool) → NetResult Bool
  matching s (some is_match) = ok (is_match s)
  matching s none = err invalid_regex

  abbrev pub on_regex : Option String → Option String → NetResult Bool
  on_regex (some a) (some pattern) = matching a (L.new_regex pattern)
  on_regex _ _ = ok false

  -- The match of `evaluate`, on the field's value and the expected one.
  unfoldable pub compare_values : ConditionOperator → L.Value → L.Value → NetResult Bool
  compare_values equals a b = ok (L.same a b)
  compare_values not_equals a b = ok (not (L.same a b))
  compare_values greater_than a b = ok (on_numbers L.gt_f64 (L.as_number a) (L.as_number b))
  compare_values greater_than_or_equal a b =
      ok (on_numbers L.ge_f64 (L.as_number a) (L.as_number b))
  compare_values less_than a b =
      ok (on_numbers (λ x y. L.gt_f64 y x) (L.as_number a) (L.as_number b))
  compare_values less_than_or_equal a b =
      ok (on_numbers (λ x y. L.ge_f64 y x) (L.as_number a) (L.as_number b))
  compare_values contains a b = ok (on_strings contains_str (L.as_str a) (L.as_str b))
  compare_values not_contains a b =
      ok (on_strings (λ x y. not (contains_str x y)) (L.as_str a) (L.as_str b))
  compare_values is_in a b = ok (on_array (member a) (L.as_array b))
  compare_values not_in a b = ok (on_array (λ vs. not (member a vs)) (L.as_array b))
  compare_values regex a b = on_regex (L.as_str a) (L.as_str b)
  compare_values and_all a b = ok false
  compare_values or_any a b = ok false
  compare_values negation a b = ok false

module _ {L : Library} where
  -- `PolicyCondition::evaluate`.
  unfoldable pub evaluate_condition : PolicyCondition L → PolicyContext L → NetResult Bool
  evaluate_condition c context =
      compare_values L c.operator (unwrap_or L.null (get_field_value context c.field)) c.value
