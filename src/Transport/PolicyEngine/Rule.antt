-- ===== src/Transport/PolicyEngine/Rule.antt =====
-- The rules of the policy engine, src/crates/bey-transport/src/policy_engine.rs: `PolicyRule` and its
-- evaluation. Reasons and execution times, which no decision reads, are left out.
pub mod Matching
use bey.Base.Integers.{ℤ}
use bey.Base.{
  ℕ, zero, Bool, true, false, ◌&&◌, ◌||◌, if◌then◌else◌, leb, Option, List, [], ◌∷◌, ◌++◌, String,
  string_eq, HashMap, insert,
}
use bey.Base.Errors.{NetResult, ok, err, panics, ◌>>=◌}
use bey.Transport.PolicyEngine.{
  Library, PolicyAction, allow, ConditionOperator, and_all, or_any, PolicyCondition, PolicyContext,
  evaluate_condition, insert_tag,
}

module _ (L : Library) where
  pub record PolicyRule : Type 0 where
    pub id : String
    pub name : String
    pub description : String
    pub priority : ℤ
    pub conditions : List (PolicyCondition L)
    pub condition_combination : ConditionOperator
    pub action : PolicyAction
    pub enabled : Bool
    pub created_at : ℕ
    pub updated_at : ℕ
    pub tags : List String
    pub metadata : HashMap String L.Value

  pub record ConditionEvaluationResult : Type 0 where
    pub condition : PolicyCondition L
    pub result : Bool

  pub record PolicyEvaluationResult : Type 0 where
    pub rule_id : String
    pub action : PolicyAction
    pub matched : Bool
    pub score : L.F32
    pub evaluated_conditions : List ConditionEvaluationResult

  abbrev pub Evaluated : Type 0
  Evaluated = List ConditionEvaluationResult × L.F32

module _ {L : Library} where
  unfoldable pub new_rule : ℕ → String → String → String → ℤ → PolicyAction → PolicyRule L
  new_rule now id name description priority action = record {
    id = id;
    name = name;
    description = description;
    priority = priority;
    conditions = [];
    condition_combination = and_all;
    action = action;
    enabled = true;
    created_at = now;
    updated_at = now;
    tags = [];
    metadata = [];
  }

  unfoldable pub add_condition : PolicyRule L → ℕ → PolicyCondition L → PolicyRule L
  add_condition r now c = record r { conditions = r.conditions ++ c ∷ []; updated_at = now }

  unfoldable pub with_condition_combination : PolicyRule L → ℕ → ConditionOperator → PolicyRule L
  with_condition_combination r now combination = record r {
    condition_combination = combination;
    updated_at = now;
  }

  unfoldable pub with_rule_tag : PolicyRule L → String → PolicyRule L
  with_rule_tag r tag = record r { tags = insert_tag tag r.tags }

  unfoldable pub with_metadata : PolicyRule L → ℕ → String → L.Value → PolicyRule L
  with_metadata r now key value = record r {
    metadata = insert key value r.metadata;
    updated_at = now;
  }

  -- A round of the loop over the conditions, with the results and the score so far.
  abbrev pub add_result : Evaluated L → PolicyCondition L → Bool → Evaluated L
  add_result (done, score) c b = (
    done ++ record { condition = c; result = b } ∷ [],
    if b then L.add_f32 score c.weight else score,
  )

  unfoldable pub evaluate_conditions :
      PolicyContext L → List (PolicyCondition L) → Evaluated L → NetResult (Evaluated L)
  evaluate_conditions context [] done = ok done
  evaluate_conditions context (c ∷ cs) done =
      evaluate_condition c context >>= λ b. evaluate_conditions context cs (add_result done c b)

  abbrev pub all_hold : List (ConditionEvaluationResult L) → Bool
  all_hold [] = true
  all_hold (c ∷ cs) = c.result && all_hold cs

  abbrev pub any_holds : List (ConditionEvaluationResult L) → Bool
  any_holds [] = false
  any_holds (c ∷ cs) = c.result || any_holds cs

  unfoldable pub combine : ConditionOperator → List (ConditionEvaluationResult L) → Bool
  combine and_all results = all_hold results
  combine or_any results = any_holds results
  combine _ results = false

  abbrev pub evaluation : PolicyRule L → Evaluated L → PolicyEvaluationResult L
  evaluation r (done, score) =
      let final_result = combine r.condition_combination done in
      record {
        rule_id = r.id;
        action = if final_result then r.action else allow;
        matched = final_result;
        score = score;
        evaluated_conditions = done;
      }

  abbrev pub disabled_evaluation : PolicyRule L → PolicyEvaluationResult L
  disabled_evaluation r = record {
    rule_id = r.id;
    action = allow;
    matched = false;
    score = L.zero_f32;
    evaluated_conditions = [];
  }

  -- `PolicyRule::evaluate`.
  unfoldable pub evaluate_rule :
      PolicyRule L → PolicyContext L → NetResult (PolicyEvaluationResult L)
  evaluate_rule r context =
      let outcome = evaluate_conditions context r.conditions ([], L.zero_f32) in
      if r.enabled then (outcome >>= λ done. ok (evaluation r done)) else ok (disabled_evaluation r)
