-- ===== src/Transport/PolicyEngine/Set/Walking.antt =====
-- The loop over the rules of a policy set, when the higher priorities come first.
use bey.Base.Integers.{ℤ, leb_int, leb_int_total, leb_int_refl, leb_int_trans}
use bey.Base.{
  ◌≡◌, refl, sym, subst, Bool, true, false, if◌then◌else◌, Bool-cases, inl, inr, List, [], ◌∷◌, All,
  Any, All-mono, arith, string_eq,
}
use bey.Base.Errors.{NetResult, ok, err, panics, ◌>>=◌}
use bey.Transport.PolicyEngine.{Library, PolicyContext, invalid_regex}
use bey.Transport.PolicyEngine.Rule.{PolicyRule, PolicyEvaluationResult, evaluate_rule}
use bey.Transport.PolicyEngine.Rule.Matching.{Applies, Evaluates, evaluate_rule-Evaluates}
use bey.Transport.PolicyEngine.Set.{max_from, stops, evaluate_rules}
use bey.Transport.PolicyEngine.Set.Sorting.{Descending}

-- `max_by_key` gives an element, and none has a greater key.
pub max_from-Max :
    {A : Type 0} (key : A → ℤ) (best : A) (xs : List A)
    → All (λ x. leb_int (key x) (key (max_from key best xs)) ≡ true) (best ∷ xs)
max_from-Max key best [] = (leb_int_refl (key best), tt)
max_from-Max key best (x ∷ xs) =
    let b = if leb_int (key best) (key x) then x else best in
    let m = max_from-Max key b xs in
    let top = key (max_from key b xs) in
    let old : leb_int (key best) (key b) ≡ true = ground (arith, leb_int_refl (key best)) in
    let new : leb_int (key x) (key b) ≡ true =
      ground (arith, leb_int_refl (key x), leb_int_total (key best) (key x)) in
    (leb_int_trans (key best) (key b) top old m.0, (leb_int_trans (key x) (key b) top new m.0, m.1))

pub max_from-All :
    {A : Type 0} (P : A → Type 0) (key : A → ℤ) (best : A) (xs : List A)
    → All P (best ∷ xs)
    → P (max_from key best xs)
max_from-All P key best [] a = a.0
max_from-All P key best (x ∷ xs) a = elim (Bool-cases (leb_int (key best) (key x))) [
  | inl up ↦ rw up (max_from-All P key x xs a.1)
  | inr down ↦ rw down (max_from-All P key best xs (a.0, a.1.1))
]

module _ {L : Library} (context : PolicyContext L) (key : PolicyEvaluationResult L → ℤ) where
  -- A result of a rule that applies, with the rule's action and its priority as the key.
  abbrev pub From : PolicyEvaluationResult L → PolicyRule L → Type 0
  From m r = Applies context r × (m.action ≡ r.action) × (key m ≡ r.priority)

  abbrev pub Bounded : List (PolicyEvaluationResult L) → PolicyRule L → Type 0
  Bounded ms q = Applies context q → Any (λ m. leb_int q.priority (key m) ≡ true) ms

  -- What the loop over rules in descending order gives.
  abbrev pub Walks : List (PolicyRule L) → NetResult (List (PolicyEvaluationResult L)) → Type 0
  Walks rs (ok ms) = All (λ m. Any (From m) rs) ms × All (Bounded ms) rs
  Walks rs (err e) = e ≡ invalid_regex
  Walks rs panics = ⊥

  -- The keys are the priorities of the rules.
  abbrev pub Keyed : List (PolicyRule L) → Type 0
  Keyed = All (λ r. (m : PolicyEvaluationResult L) → m.rule_id ≡ r.id → key m ≡ r.priority)

  skipped :
      (r : PolicyRule L) (rs : List (PolicyRule L))
      (o : NetResult (List (PolicyEvaluationResult L)))
      → ¬ Applies context r
      → Walks rs o
      → Walks (r ∷ rs) o
  skipped r rs (ok ms) n w = (All-mono _ _ ms (λ m h. inr h) w.0, ((λ h. absurd (n h)), w.1))
  skipped r rs (err e) n w = w
  skipped r rs panics n w = w

  added :
      (r : PolicyRule L) (rs : List (PolicyRule L)) (m : PolicyEvaluationResult L)
      (o : NetResult (List (PolicyEvaluationResult L)))
      → From m r
      → Walks rs o
      → Walks (r ∷ rs) (o >>= λ more. ok (m ∷ more))
  added r rs m (ok ms) f w = (
    (inl f, All-mono _ _ ms (λ x h. inr h) w.0),
    (
      (λ a. inl (subst (λ p. leb_int r.priority p ≡ true) (sym f.2) (leb_int_refl r.priority))),
      All-mono _ _ rs (λ q h a. inr (h a)) w.1,
    ),
  )
  added r rs m (err e) f w = w
  added r rs m panics f w = w

  stopped :
      (r : PolicyRule L) (rs : List (PolicyRule L)) (m : PolicyEvaluationResult L)
      → From m r
      → All (λ q. leb_int q.priority r.priority ≡ true) rs
      → Walks (r ∷ rs) (ok (m ∷ []))
  stopped r rs m f d = (
    (inl f, tt),
    (
      (λ a. inl (subst (λ p. leb_int r.priority p ≡ true) (sym f.2) (leb_int_refl r.priority))),
      All-mono _ _ rs (λ q h a. inl (subst (λ p. leb_int q.priority p ≡ true) (sym f.2) h)) d,
    ),
  )

  abbrev pub go_on :
      PolicyEvaluationResult L
      → Bool
      → NetResult (List (PolicyEvaluationResult L))
      → NetResult (List (PolicyEvaluationResult L))
  go_on m c rest = if c then ok (m ∷ []) else (rest >>= λ more. ok (m ∷ more))

  module _ (r : PolicyRule L) (rs : List (PolicyRule L))
      (d : All (λ q. leb_int q.priority r.priority ≡ true) rs)
      (k : (m : PolicyEvaluationResult L) → m.rule_id ≡ r.id → key m ≡ r.priority)
      (rest : NetResult (List (PolicyEvaluationResult L))) (later : Walks rs rest) where
    taken :
        (m : PolicyEvaluationResult L) (b c : Bool)
        → m.matched ≡ b
        → Evaluates context r (ok m)
        → Walks (r ∷ rs) (if b then go_on m c rest else rest)
    taken m true true h v = stopped r rs m ((v.1).0 h, ground (arith, h, v.2), k m v.0) d
    taken m true false h v = added r rs m rest ((v.1).0 h, ground (arith, h, v.2), k m v.0) later
    taken m false c h v = skipped r rs rest (λ a. ground (arith, h, (v.1).1 a)) later

    round :
        (b : Bool) (o : NetResult (PolicyEvaluationResult L))
        → r.enabled ≡ b
        → Evaluates context r o
        → Walks
            (r ∷ rs)
            (if b then (o >>= λ m. if m.matched then go_on m (stops r) rest else rest) else rest)
    round true (ok m) h v = taken m m.matched (stops r) refl v
    round true (err e) h v = v.0
    round true panics h v = absurd v
    round false o h v = skipped r rs rest (λ a. ground (arith, h, a.0)) later

  pub evaluate_rules-Walks :
      (rs : List (PolicyRule L)) → Descending rs → Keyed rs → Walks rs (evaluate_rules context rs)
  unfolding evaluate_rules
  evaluate_rules-Walks [] d k = (tt, tt)
  evaluate_rules-Walks (r ∷ rs) d k =
      round r rs d.0 k.0 (evaluate_rules context rs) (evaluate_rules-Walks rs d.1 k.1) r.enabled
        (evaluate_rule r context) refl (evaluate_rule-Evaluates L context r)
