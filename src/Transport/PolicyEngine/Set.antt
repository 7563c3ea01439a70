-- ===== src/Transport/PolicyEngine/Set.antt =====
-- The policy sets, src/crates/bey-transport/src/policy_engine.rs: `PolicySet`, its evaluation and the
-- order of its rules. Summaries and execution times are left out.
pub mod Sorting
pub mod Walking
pub mod Decision
use bey.Base.Integers.{ℤ, pos, leb_int}
use bey.Base.{
  ℕ, zero, Bool, true, false, ◌&&◌, if◌then◌else◌, Option, none, some, List, [], ◌∷◌, ◌++◌, ◌==◌,
  string_eq, String,
}
use bey.Base.Errors.{NetResult, ok, err, panics, ◌>>=◌}
use bey.Transport.PolicyEngine.{
  Library, PolicyAction, allow, deny, require_authentication, restrict, log, require_approval,
  quarantine, PolicyContext, insert_tag,
}
use bey.Transport.PolicyEngine.Rule.{PolicyRule, PolicyEvaluationResult, evaluate_rule}

module _ (L : Library) where
  pub record PolicySet : Type 0 where
    pub id : String
    pub name : String
    pub description : String
    pub rules : List (PolicyRule L)
    pub default_action : PolicyAction
    pub enabled : Bool
    pub created_at : ℕ
    pub updated_at : ℕ
    pub tags : List String

  pub record PolicySetEvaluationResult : Type 0 where
    pub policy_set_id : String
    pub final_action : PolicyAction
    pub matched_rules : List (PolicyEvaluationResult L)

abbrev pub is_deny : PolicyAction → Bool
is_deny deny = true
is_deny _ = false

-- `max_by_key`: of several greatest elements the last.
abbrev pub max_from {ℓ} : {A : Type ℓ} → (A → ℤ) → A → List A → A
max_from key best [] = best
max_from key best (x ∷ xs) = max_from key (if leb_int (key best) (key x) then x else best) xs

abbrev pub max_by_key {ℓ} : {A : Type ℓ} → (A → ℤ) → List A → Option A
max_by_key key [] = none
max_by_key key (x ∷ xs) = some (max_from key x xs)

module _ {L : Library} where
  unfoldable pub new_set : ℕ → String → String → String → PolicyAction → PolicySet L
  new_set now id name description default_action = record {
    id = id;
    name = name;
    description = description;
    rules = [];
    default_action = default_action;
    enabled = true;
    created_at = now;
    updated_at = now;
    tags = [];
  }

  unfoldable pub add_rule : PolicySet L → ℕ → PolicyRule L → PolicySet L
  add_rule s now r = record s { rules = s.rules ++ r ∷ []; updated_at = now }

  -- `sort_by`, which is stable, with the comparison of the priorities reversed.
  unfoldable pub insert_rule : PolicyRule L → List (PolicyRule L) → List (PolicyRule L)
  insert_rule r [] = r ∷ []
  insert_rule r (q ∷ qs) =
      let rest = insert_rule r qs in if leb_int q.priority r.priority then r ∷ q ∷ qs else q ∷ rest

  unfoldable pub sort_rules : List (PolicyRule L) → List (PolicyRule L)
  sort_rules [] = []
  sort_rules (r ∷ rs) = insert_rule r (sort_rules rs)

  unfoldable pub sort_rules_by_priority : PolicySet L → PolicySet L
  sort_rules_by_priority s = record s { rules = sort_rules s.rules }

  -- A denial of priority 100 or more ends the loop over the rules.
  abbrev pub stops : PolicyRule L → Bool
  stops r = is_deny r.action && leb_int (pos 100) r.priority

  unfoldable pub evaluate_rules :
      PolicyContext L → List (PolicyRule L) → NetResult (List (PolicyEvaluationResult L))
  evaluate_rules context [] = ok []
  evaluate_rules context (r ∷ rs) =
      let rest = evaluate_rules context rs in
      let outcome = evaluate_rule r context >>= λ result.
      if result.matched
      then (if stops r then ok (result ∷ []) else (rest >>= λ more. ok (result ∷ more)))
      else rest in
      if r.enabled then outcome else rest

  -- The priority of the first rule with an id, 0 where there is none.
  abbrev pub priority_of : List (PolicyRule L) → String → ℤ
  priority_of [] rule_id = pos 0
  priority_of (r ∷ rs) rule_id =
      let rest = priority_of rs rule_id in if r.id == rule_id then r.priority else rest

  abbrev pub action_or : PolicyAction → Option (PolicyEvaluationResult L) → PolicyAction
  action_or default_action none = default_action
  action_or default_action (some result) = result.action

  abbrev pub choose : PolicySet L → List (PolicyEvaluationResult L) → PolicyAction
  choose s matched =
      action_or s.default_action (max_by_key (λ m. priority_of s.rules m.rule_id) matched)

  abbrev pub set_evaluation :
      PolicySet L → List (PolicyEvaluationResult L) → PolicySetEvaluationResult L
  set_evaluation s matched = record {
    policy_set_id = s.id;
    final_action = choose s matched;
    matched_rules = matched;
  }

  abbrev pub disabled_set : PolicySet L → PolicySetEvaluationResult L
  disabled_set s = record {
    policy_set_id = s.id;
    final_action = s.default_action;
    matched_rules = [];
  }

  -- `PolicySet::evaluate`.
  unfoldable pub evaluate_set :
      PolicySet L → PolicyContext L → NetResult (PolicySetEvaluationResult L)
  evaluate_set s context =
      let outcome = evaluate_rules context s.rules >>= λ matched. ok (set_evaluation s matched) in
      if s.enabled then outcome else ok (disabled_set s)
