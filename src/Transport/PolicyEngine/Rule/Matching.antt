-- ===== src/Transport/PolicyEngine/Rule/Matching.antt =====
-- When a policy rule matches.
use bey.Base.{
  ◌≡◌, refl, subst, ◌↔◌, Bool, true, false, ◌&&◌, ◌||◌, if◌then◌else◌, inl, inr, ◌⊎◌, List, [], ◌∷◌,
  ◌++◌, All, Any, arith,
}
use bey.Base.Errors.{NetResult, ok, err, panics, NetResult-cases, ◌>>=◌}
use bey.Transport.PolicyEngine.{
  Library, allow, ConditionOperator, equals, not_equals, greater_than, greater_than_or_equal,
  less_than, less_than_or_equal, contains, not_contains, regex, is_in, not_in, and_all, or_any,
  negation, PolicyCondition, PolicyContext, invalid_regex, evaluate_condition,
}
use bey.Transport.PolicyEngine.Conditions.{Outcome, evaluate_condition-Outcome}
use bey.Transport.PolicyEngine.Rule.{
  PolicyRule, PolicyEvaluationResult, ConditionEvaluationResult, Evaluated, add_result,
  evaluate_conditions, evaluate_rule, all_hold, any_holds, combine, evaluation, disabled_evaluation,
}

module _ {L : Library} (context : PolicyContext L) where
  abbrev pub Holds : PolicyCondition L → Type 0
  Holds c = evaluate_condition c context ≡ ok true

  -- The conditions of a rule, combined.
  abbrev pub Combined : ConditionOperator → List (PolicyCondition L) → Type 0
  Combined and_all cs = All Holds cs
  Combined or_any cs = Any Holds cs
  Combined _ cs = ⊥

  abbrev pub Applies : PolicyRule L → Type 0
  Applies r = (r.enabled ≡ true) × Combined r.condition_combination r.conditions

  -- What the loop over the conditions gives, begun with some results.
  abbrev Loops :
      List (PolicyCondition L)
      → List (ConditionEvaluationResult L)
      → NetResult (Evaluated L)
      → Type 0
  Loops cs done (ok (results, score)) =
      ((all_hold results ≡ true) ↔ ((all_hold done ≡ true) × All Holds cs))
      × ((any_holds results ≡ true) ↔ ((any_holds done ≡ true) ⊎ Any Holds cs))
  Loops cs done (err e) = e ≡ invalid_regex
  Loops cs done panics = ⊥

  all_hold-append :
      (xs : List (ConditionEvaluationResult L)) (x : ConditionEvaluationResult L)
      → all_hold (xs ++ x ∷ []) ≡ all_hold xs && x.result
  all_hold-append [] x = ground arith
  all_hold-append (y ∷ ys) x = ground (arith, all_hold-append ys x)

  any_holds-append :
      (xs : List (ConditionEvaluationResult L)) (x : ConditionEvaluationResult L)
      → any_holds (xs ++ x ∷ []) ≡ any_holds xs || x.result
  any_holds-append [] x = ground arith
  any_holds-append (y ∷ ys) x = ground (arith, any_holds-append ys x)

  Loops-step :
      (c : PolicyCondition L) (cs : List (PolicyCondition L)) (done : Evaluated L) (b : Bool)
      (o : NetResult (Evaluated L))
      → evaluate_condition c context ≡ ok b
      → Loops cs (add_result done c b).0 o
      → Loops (c ∷ cs) done.0 o
  Loops-step c cs done true (ok (results, score)) h l = ground (
    arith,
    h,
    l.0,
    l.1,
    all_hold-append done.0 (record { condition = c; result = true }),
    any_holds-append done.0 (record { condition = c; result = true }),
  )
  Loops-step c cs done false (ok (results, score)) h l = ground (
    arith,
    h,
    l.0,
    l.1,
    all_hold-append done.0 (record { condition = c; result = false }),
    any_holds-append done.0 (record { condition = c; result = false }),
  )
  Loops-step c cs done b (err e) h l = l
  Loops-step c cs done b panics h l = l

  evaluate_conditions-Loops :
      (cs : List (PolicyCondition L)) (done : Evaluated L)
      → Loops cs done.0 (evaluate_conditions context cs done)
  unfolding evaluate_conditions
  evaluate_conditions-Loops [] done = ground arith
  evaluate_conditions-Loops (c ∷ cs) done = elim (NetResult-cases (evaluate_condition c context)) [
    | inl (b, h) ↦
        rw (h, evaluate_conditions)
          (Loops-step c cs done b (evaluate_conditions context cs (add_result done c b)) h
            (evaluate_conditions-Loops cs (add_result done c b)))
    | inr (inl (e, h)) ↦
        rw (h, evaluate_conditions)
          (subst (Outcome L c.operator c.value) h (evaluate_condition-Outcome L c context)).0
    | inr (inr h) ↦
        rw (h, evaluate_conditions)
          (subst (Outcome L c.operator c.value) h (evaluate_condition-Outcome L c context))
  ]

  Combined-iff :
      (op : ConditionOperator) (cs : List (PolicyCondition L)) (done : Evaluated L)
      → Loops cs [] (ok done)
      → (combine op done.0 ≡ true) ↔ Combined op cs
  unfolding combine
  Combined-iff and_all cs done l = ground (arith, l.0)
  Combined-iff or_any cs done l = ground (arith, l.1)
  Combined-iff equals cs done l = ground arith
  Combined-iff not_equals cs done l = ground arith
  Combined-iff greater_than cs done l = ground arith
  Combined-iff greater_than_or_equal cs done l = ground arith
  Combined-iff less_than cs done l = ground arith
  Combined-iff less_than_or_equal cs done l = ground arith
  Combined-iff contains cs done l = ground arith
  Combined-iff not_contains cs done l = ground arith
  Combined-iff regex cs done l = ground arith
  Combined-iff is_in cs done l = ground arith
  Combined-iff not_in cs done l = ground arith
  Combined-iff negation cs done l = ground arith

  -- What the evaluation of a rule gives.
  abbrev pub Evaluates : PolicyRule L → NetResult (PolicyEvaluationResult L) → Type 0
  Evaluates r (ok result) =
      (result.rule_id ≡ r.id)
      × ((result.matched ≡ true) ↔ Applies r)
      × (result.action ≡ (if result.matched then r.action else allow))
  Evaluates r (err e) = (e ≡ invalid_regex) × (r.enabled ≡ true)
  Evaluates r panics = ⊥

  finished :
      (r : PolicyRule L) (o : NetResult (Evaluated L))
      → r.enabled ≡ true
      → Loops r.conditions [] o
      → Evaluates r (o >>= λ done. ok (evaluation r done))
  finished r (ok done) on l =
      ground (arith, on, Combined-iff r.condition_combination r.conditions done l)
  finished r (err e) on l = (l, on)
  finished r panics on l = l

  chosen :
      (r : PolicyRule L) (b : Bool) (o : NetResult (Evaluated L))
      → r.enabled ≡ b
      → Loops r.conditions [] o
      → Evaluates r
          (if b then (o >>= λ done. ok (evaluation r done)) else ok (disabled_evaluation r))
  chosen r true o on l = finished r o on l
  chosen r false o off l = ground (arith, off)

-- A rule is evaluated to a match exactly where it is enabled and its conditions hold in the context:
-- all of them with `And`, one of them with `Or`, never with another operator. The result names the
-- rule, and its action is the rule's on a match and `Allow` otherwise. The evaluation fails only
-- with error 6001, and never for a disabled rule.
pub evaluate_rule-Evaluates :
    (L : Library) (context : PolicyContext L) (r : PolicyRule L)
    → Evaluates context r (evaluate_rule r context)
unfolding evaluate_rule
evaluate_rule-Evaluates L context r =
    chosen context r r.enabled (evaluate_conditions context r.conditions ([], L.zero_f32)) refl
      (evaluate_conditions-Loops context r.conditions ([], L.zero_f32))
