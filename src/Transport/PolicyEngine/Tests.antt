-- ===== src/Transport/PolicyEngine/Tests.antt =====
-- A sample of the library that the policy engine uses, and the theorems about it at concrete inputs.
use Prim.Native.String.{◌++◌ as str_append}
use bey.Base.Integers.{ℤ, pos, negsuc}
use bey.Base.{
  ℕ, ◌+◌, ◌≡◌, refl, Bool, true, false, leb, ltb, eqb, Option, none, some, List, [], ◌∷◌, arith,
  All, String, ◌==◌, string_eq, lookup, if◌then◌else◌, retain,
}
use bey.Base.Errors.{ok}
use bey.Transport.PolicyEngine.{
  Library, PolicyAction, allow, deny, restrict, ConditionOperator, equals, and_all, PolicyCondition,
  PolicyContext, evaluate_condition, get_field_value, compare_values,
}
use bey.Transport.PolicyEngine.Rule.{
  PolicyRule, PolicyEvaluationResult, evaluate_rule, evaluate_conditions, combine,
}
use bey.Transport.PolicyEngine.Set.{PolicySet, evaluate_set, sort_rules_by_priority}
use bey.Transport.PolicyEngine.Set.Sorting.{Descending, has_priority, sort_rules_by_priority-Sorts}
use bey.Transport.PolicyEngine.Set.Decision.{Distinct, Decides, evaluate_set-Decides}
use bey.Transport.PolicyEngine.Engine.{
  CacheKey, PolicyEngineConfig, new_engine, evaluate, set_result,
}
use bey.Transport.PolicyEngine.Engine.Cache.{Call, adds, evaluates, run, Asks, evaluate-uncached}
use mathlib.Core.List.{Permᴰ}

data Sample : Type 0 where
  nothing : Sample
  number : ℕ → Sample
  text : String → Sample

abbrev same_sample : Sample → Sample → Bool
same_sample nothing nothing = true
same_sample (number a) (number b) = eqb a b
same_sample (text a) (text b) = a == b
same_sample _ _ = false

abbrev number_of : Sample → Option ℕ
number_of (number n) = some n
number_of _ = none

abbrev text_of : Sample → Option String
text_of (text s) = some s
text_of _ = none

-- A pattern matches itself alone, and an open bracket is no pattern.
abbrev compile : String → Option (String → Bool)
compile p = if p == "(" then none else some (λ s. s == p)

abbrev samples : Library
samples = record {
  Value = Sample;
  null = nothing;
  same = same_sample;
  Number = ℕ;
  as_number = number_of;
  as_str = text_of;
  as_array = λ _. none;
  F64 = ℕ;
  zero_f64 = 0;
  as_f64 = some;
  gt_f64 = λ a b. ltb b a;
  ge_f64 = λ a b. leb b a;
  F32 = ℕ;
  zero_f32 = 0;
  one_f32 = 1;
  add_f32 = λ a b. a + b;
  new_regex = compile;
}

abbrev condition_of : ConditionOperator → Sample → PolicyCondition samples
condition_of op v = record {
  field = "role";
  operator = op;
  value = v;
  weight = 1;
  description = "";
}

abbrev context_of : String → PolicyContext samples
context_of operation = record {
  context_data = ("role", text "guest") ∷ [];
  requester_id = none;
  resource = none;
  operation = some operation;
  timestamp = 0;
  tags = [];
}

abbrev rule_of : String → ℤ → PolicyAction → PolicyRule samples
rule_of id priority action = record {
  id = id;
  name = id;
  description = "";
  priority = priority;
  conditions = condition_of equals (text "guest") ∷ [];
  condition_combination = and_all;
  action = action;
  enabled = true;
  created_at = 0;
  updated_at = 0;
  tags = [];
  metadata = [];
}

abbrev set_of : List (PolicyRule samples) → PolicySet samples
set_of rules = record {
  id = "s";
  name = "s";
  description = "";
  rules = rules;
  default_action = restrict;
  enabled = true;
  created_at = 0;
  updated_at = 0;
  tags = [];
}

abbrev guests : PolicySet samples
guests = set_of (rule_of "low" (negsuc 4) allow ∷ rule_of "top" (pos 120) deny ∷ [])

abbrev read : PolicyContext samples
read = context_of "read"

sort_rules_by_priority-Sorts_example :
    let sorted = (sort_rules_by_priority guests).rules in
    Descending sorted
    × Permᴰ sorted guests.rules
    × (retain (has_priority (pos 120)) sorted ≡ retain (has_priority (pos 120)) guests.rules)
sort_rules_by_priority-Sorts_example = sort_rules_by_priority-Sorts guests (pos 120)

Distinct-guests : Distinct guests.rules
Distinct-guests = ((refl, tt), (tt, tt))

evaluate_set-Decides_example :
    Decides guests read (evaluate_set (sort_rules_by_priority guests) read)
evaluate_set-Decides_example = evaluate_set-Decides samples guests read Distinct-guests

-- The denial, and after it a rule of a higher priority.
abbrev denial : PolicyRule samples
denial = rule_of "deny" (pos 100) deny

abbrev permit : PolicyRule samples
permit = rule_of "allow" (pos 200) allow

abbrev denied_result : PolicyEvaluationResult samples
denied_result = record {
  rule_id = "deny";
  action = deny;
  matched = true;
  score = 1;
  evaluated_conditions =
      record { condition = condition_of equals (text "guest"); result = true } ∷ [];
}

denial_matches : evaluate_rule denial read ≡ ok denied_result
unfolding evaluate_rule evaluate_conditions evaluate_condition compare_values get_field_value
    combine lookup
denial_matches = refl

abbrev or_empty : Option String → String
or_empty none = ""
or_empty (some s) = s

abbrev key_of : CacheKey samples
key_of id c = str_append id (or_empty c.operation)

abbrev caching : PolicyEngineConfig
caching = record { enable_cache = true; max_cache_entries = 10 }

abbrev calls : List (Call samples)
calls = adds guests ∷ evaluates "s" read 5 ∷ evaluates "s" (context_of "write") 7 ∷ []

no_collision : All (Asks (λ q. key_of q.0 q.1 ≡ key_of "s" read → q ≡ ("s", read))) calls
no_collision = (
  tt,
  (
    (λ h. refl),
    (
      (λ h.
          let e : false ≡ true = (string_eq.matches_iff "swrite" "sread").1 h in
          absurd (ground (arith, e))),
      tt,
    ),
  ),
)

evaluate-uncached_example :
    let e = run key_of calls (new_engine caching) in
    (evaluate key_of e "s" read 3).1 ≡ set_result (lookup "s" e.policy_sets) read
evaluate-uncached_example = evaluate-uncached key_of caching calls "s" read 3 no_collision
