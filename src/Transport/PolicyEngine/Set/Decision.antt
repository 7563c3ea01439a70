-- ===== src/Transport/PolicyEngine/Set/Decision.antt =====
-- The action that a policy set decides on.
use bey.Base.Integers.{ℤ, pos, leb_int, leb_int_trans}
use bey.Base.{
  ◌≡◌, refl, subst, Bool, true, false, if◌then◌else◌, Bool-cases, inl, inr, ◌⊎◌, List, [], ◌∷◌, All,
  Any, All-mono, All-zip, Any-mono, All-Any, perm-All, perm-Any, arith, string_eq, ◌==◌, beq_refl,
}
use bey.Base.Errors.{NetResult, ok, err, panics, ◌>>=◌}
use bey.Transport.PolicyEngine.{Library, PolicyAction, deny, PolicyContext, invalid_regex}
use bey.Transport.PolicyEngine.Rule.{PolicyRule, PolicyEvaluationResult, evaluate_rule}
use bey.Transport.PolicyEngine.Rule.Matching.{Applies, Evaluates, evaluate_rule-Evaluates}
use bey.Transport.PolicyEngine.Set.{
  PolicySet, PolicySetEvaluationResult, max_from, evaluate_rules, priority_of, choose,
  set_evaluation, disabled_set, evaluate_set, insert_rule, sort_rules, sort_rules_by_priority,
}
use bey.Transport.PolicyEngine.Set.Sorting.{
  insert_rule-All, sort_rules-All, sort_rules-Perm, sort_rules-Descending,
}
use bey.Transport.PolicyEngine.Set.Walking.{
  Walks, From, Keyed, max_from-Max, max_from-All, evaluate_rules-Walks,
}

module _ {L : Library} (context : PolicyContext L) where
  -- The action of a rule that applies, such that no rule that applies has a higher priority; the
  -- default action where none applies.
  abbrev pub Decision : PolicyAction → List (PolicyRule L) → PolicyAction → Type 0
  Decision default_action rs action =
      Any
        (λ r.
          Applies context r
          × (action ≡ r.action)
          × All (λ q. Applies context q → leb_int q.priority r.priority ≡ true) rs)
        rs
      ⊎ (All (λ q. ¬ Applies context q) rs × (action ≡ default_action))

  chosen :
      (s : PolicySet L) (ms : List (PolicyEvaluationResult L))
      → Walks context (λ m. priority_of s.rules m.rule_id) s.rules (ok ms)
      → Decision s.default_action s.rules (choose s ms)
  chosen s [] w = inr (All-mono _ _ s.rules (λ q h a. absurd (h a)) w.1, refl)
  chosen s (m ∷ ms) w =
      let key : PolicyEvaluationResult L → ℤ = λ x. priority_of s.rules x.rule_id in
      let top = max_from key m ms in
      let tops : All (λ x. leb_int (key x) (key top) ≡ true) (m ∷ ms) = max_from-Max key m ms in
      inl (
        Any-mono _ _ s.rules
          (λ r f. (
            f.0,
            f.1,
            All-mono _ _ s.rules
                (λ q h a.
                  All-Any _ _ _ (m ∷ ms)
                    (λ x b c.
                      subst (λ p. leb_int q.priority p ≡ true) f.2
                        (leb_int_trans q.priority (key x) (key top) c b))
                    tops (h a))
                w.1,
          ))
          (max_from-All (λ x. Any (From context key x) s.rules) key m ms w.0))

module _ {L : Library} where
  -- No two rules have the same id.
  abbrev pub Distinct : List (PolicyRule L) → Type 0
  Distinct [] = Unit
  Distinct (r ∷ rs) = All (λ q. (r.id == q.id) ≡ false) rs × Distinct rs

  insert_rule-Distinct :
      (r : PolicyRule L) (rs : List (PolicyRule L))
      → All (λ q. (r.id == q.id) ≡ false) rs
      → Distinct rs
      → Distinct (insert_rule r rs)
  unfolding insert_rule
  insert_rule-Distinct r [] a d = (tt, tt)
  insert_rule-Distinct r (q ∷ qs) a d = elim (Bool-cases (leb_int q.priority r.priority)) [
    | inl first ↦ rw (first, insert_rule) (a, d)
    | inr later ↦
        rw (later, insert_rule)
          (
            insert_rule-All (λ x. (q.id == x.id) ≡ false) r qs (flip a.0) d.0,
            insert_rule-Distinct r qs a.1 d.1,
          )
  ]
    where
      flip : (r.id == q.id) ≡ false → (q.id == r.id) ≡ false
      flip h = ground (arith, string_eq.matches_iff r.id q.id, string_eq.matches_iff q.id r.id)

  sort_rules-Distinct : (rs : List (PolicyRule L)) → Distinct rs → Distinct (sort_rules rs)
  unfolding sort_rules
  sort_rules-Distinct [] d = tt
  sort_rules-Distinct (r ∷ rs) d =
      insert_rule-Distinct r (sort_rules rs) (sort_rules-All (λ q. (r.id == q.id) ≡ false) rs d.0)
        (sort_rules-Distinct rs d.1)

  Distinct-Keyed :
      (context : PolicyContext L) (rs : List (PolicyRule L))
      → Distinct rs
      → Keyed context (λ m. priority_of rs m.rule_id) rs
  Distinct-Keyed context [] d = tt
  Distinct-Keyed context (r ∷ rs) d = (
    (λ m h. ground (arith, h, beq_refl r.id)),
    All-zip _ _ _ rs
        (λ q other key m h. ground (
          arith,
          h,
          other,
          key m h,
          string_eq.matches_iff r.id m.rule_id,
          string_eq.matches_iff r.id q.id,
        ))
        d.0 (Distinct-Keyed context rs d.1),
  )

  abbrev pub Decides :
      PolicySet L → PolicyContext L → NetResult (PolicySetEvaluationResult L) → Type 0
  Decides s context (ok result) =
      if s.enabled
      then Decision context s.default_action s.rules result.final_action
      else (result.final_action ≡ s.default_action)
  Decides s context (err e) = (s.enabled ≡ true) × (e ≡ invalid_regex)
  Decides s context panics = ⊥

  decided :
      (s : PolicySet L) (context : PolicyContext L) (b : Bool)
      (o : NetResult (List (PolicyEvaluationResult L)))
      → s.enabled ≡ b
      → Walks context (λ m. priority_of (sort_rules s.rules) m.rule_id) (sort_rules s.rules) o
      → Decides s context (
          if b
          then (o >>= λ matched.
              ok (set_evaluation (record s { rules = sort_rules s.rules }) matched))
          else ok (disabled_set (record s { rules = sort_rules s.rules })))
  decided s context true (ok ms) h w =
      rw h (unsorted (chosen context (record s { rules = sort_rules s.rules }) ms w))
    where
      unsorted :
          {action : PolicyAction}
          → Decision context s.default_action (sort_rules s.rules) action
          → Decision context s.default_action s.rules action
      unsorted (inl d) = inl (
          perm-Any _ (sort_rules-Perm s.rules) (
            Any-mono _ _ (sort_rules s.rules)
              (λ r f. (f.0, f.1, perm-All _ (sort_rules-Perm s.rules) f.2)) d))
      unsorted (inr d) = inr (perm-All _ (sort_rules-Perm s.rules) d.0, d.1)
  decided s context true (err e) h w = (h, w)
  decided s context true panics h w = w
  decided s context false o h w = rw h refl

-- The action that a policy set decides on, its rules sorted by priority first: the action of a rule
-- that applies in the context, where no rule that applies has a higher priority; or the default action,
-- where no rule applies. So ending the loop early at a denial loses nothing. A disabled set decides
-- for its default action. The evaluation fails only with error 6001. The ids of the rules differ.
pub evaluate_set-Decides :
    (L : Library) (s : PolicySet L) (context : PolicyContext L)
    → Distinct s.rules
    → Decides s context (evaluate_set (sort_rules_by_priority s) context)
unfolding evaluate_set sort_rules_by_priority
evaluate_set-Decides L s context d =
    decided s context s.enabled (evaluate_rules context (sort_rules s.rules)) refl (
      evaluate_rules-Walks context (λ m. priority_of (sort_rules s.rules) m.rule_id)
        (sort_rules s.rules) (sort_rules-Descending s.rules)
        (Distinct-Keyed context (sort_rules s.rules) (sort_rules-Distinct s.rules d)))

denied :
    {L : Library} (s : PolicySet L) (r : PolicyRule L) (rs : List (PolicyRule L))
    (context : PolicyContext L) (m : PolicyEvaluationResult L)
    → r.enabled ≡ true
    → r.action ≡ deny
    → leb_int (pos 100) r.priority ≡ true
    → evaluate_rule r context ≡ ok m
    → m.matched ≡ true
    → evaluate_rules context (r ∷ rs) ≡ ok (m ∷ [])
unfolding evaluate_rules
denied s r rs context m on denies high h hit = ground (arith, on, denies, high, h, hit)

-- In a set as it stands, sorted or not, an enabled rule that comes first, denies, has priority 100 or
-- more and matches settles the matter: the set, enabled, denies and reports that match alone, whatever
-- the priorities of the rules after it.
pub evaluate_set-denied :
    (L : Library) (s : PolicySet L) (r : PolicyRule L) (rs : List (PolicyRule L))
    (context : PolicyContext L) (m : PolicyEvaluationResult L)
    → s.enabled ≡ true
    → s.rules ≡ r ∷ rs
    → r.enabled ≡ true
    → r.action ≡ deny
    → leb_int (pos 100) r.priority ≡ true
    → evaluate_rule r context ≡ ok m
    → m.matched ≡ true
    → evaluate_set s context
      ≡ ok (record { policy_set_id = s.id; final_action = deny; matched_rules = m ∷ [] })
unfolding evaluate_set
evaluate_set-denied L s r rs context m live first on denies high h hit =
    let v = subst (Evaluates context r) h (evaluate_rule-Evaluates L context r) in
    ground (arith, live, first, denied s r rs context m on denies high h hit, v.2, hit, denies)
