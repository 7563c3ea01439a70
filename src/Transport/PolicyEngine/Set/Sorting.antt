-- ===== src/Transport/PolicyEngine/Set/Sorting.antt =====
-- The order that `sort_rules_by_priority` puts the rules of a policy set in.
use mathlib.Core.List.{Permᴰ}
use bey.Base.Integers.{ℤ, leb_int, leb_int_trans, leb_int_total}
use bey.Base.{
  ◌≡◌, refl, ap, ◌∙◌, Bool, true, ◌&&◌, if◌then◌else◌, Bool-cases, inl, inr, List, [], ◌∷◌, All,
  All-mono, arith, retain,
}
use bey.Transport.PolicyEngine.{Library}
use bey.Transport.PolicyEngine.Rule.{PolicyRule}
use bey.Transport.PolicyEngine.Set.{PolicySet, insert_rule, sort_rules, sort_rules_by_priority}

module _ {L : Library} where
  -- No rule comes after one of a lower priority.
  abbrev pub Descending : List (PolicyRule L) → Type 0
  Descending [] = Unit
  Descending (r ∷ rs) = All (λ q. leb_int q.priority r.priority ≡ true) rs × Descending rs

  pub insert_rule-All :
      (P : PolicyRule L → Type 0) (r : PolicyRule L) (rs : List (PolicyRule L))
      → P r
      → All P rs
      → All P (insert_rule r rs)
  unfolding insert_rule
  insert_rule-All P r [] p a = (p, tt)
  insert_rule-All P r (q ∷ qs) p a = elim (Bool-cases (leb_int q.priority r.priority)) [
    | inl first ↦ rw (first, insert_rule) (p, a)
    | inr later ↦ rw (later, insert_rule) (a.0, insert_rule-All P r qs p a.1)
  ]

  pub sort_rules-All :
      (P : PolicyRule L → Type 0) (rs : List (PolicyRule L)) → All P rs → All P (sort_rules rs)
  unfolding sort_rules
  sort_rules-All P [] a = tt
  sort_rules-All P (r ∷ rs) a = insert_rule-All P r (sort_rules rs) a.0 (sort_rules-All P rs a.1)

  insert_rule-Descending :
      (r : PolicyRule L) (rs : List (PolicyRule L)) → Descending rs → Descending (insert_rule r rs)
  unfolding insert_rule
  insert_rule-Descending r [] d = (tt, tt)
  insert_rule-Descending r (q ∷ qs) d = elim (Bool-cases (leb_int q.priority r.priority)) [
    | inl first ↦
        rw (first, insert_rule)
          (
            (
              first,
              All-mono _ _ qs (λ x h. leb_int_trans x.priority q.priority r.priority h first) d.0,
            ),
            d,
          )
    | inr later ↦
        rw (later, insert_rule)
          (
            insert_rule-All (λ x. leb_int x.priority q.priority ≡ true) r qs
                (leb_int_total q.priority r.priority later) d.0,
            insert_rule-Descending r qs d.1,
          )
  ]

  pub sort_rules-Descending : (rs : List (PolicyRule L)) → Descending (sort_rules rs)
  unfolding sort_rules
  sort_rules-Descending [] = tt
  sort_rules-Descending (r ∷ rs) =
      insert_rule-Descending r (sort_rules rs) (sort_rules-Descending rs)

  perm_refl : (rs : List (PolicyRule L)) → Permᴰ rs rs
  perm_refl [] = Permᴰ.nil
  perm_refl (r ∷ rs) = Permᴰ.cons refl (perm_refl rs)

  insert_rule-Perm :
      (r : PolicyRule L) (rs : List (PolicyRule L)) → Permᴰ (insert_rule r rs) (r ∷ rs)
  unfolding insert_rule
  insert_rule-Perm r [] = Permᴰ.cons refl Permᴰ.nil
  insert_rule-Perm r (q ∷ qs) = elim (Bool-cases (leb_int q.priority r.priority)) [
    | inl first ↦ rw (first, insert_rule) (perm_refl (r ∷ q ∷ qs))
    | inr later ↦
        rw (later, insert_rule)
          (Permᴰ.trans (Permᴰ.cons refl (insert_rule-Perm r qs)) (Permᴰ.swap refl refl))
  ]

  pub sort_rules-Perm : (rs : List (PolicyRule L)) → Permᴰ (sort_rules rs) rs
  unfolding sort_rules
  sort_rules-Perm [] = Permᴰ.nil
  sort_rules-Perm (r ∷ rs) =
      Permᴰ.trans (insert_rule-Perm r (sort_rules rs)) (Permᴰ.cons refl (sort_rules-Perm rs))

  abbrev pub has_priority : ℤ → PolicyRule L → Bool
  has_priority p r = leb_int r.priority p && leb_int p r.priority

  insert_rule-retain :
      (p : ℤ) (r : PolicyRule L) (rs : List (PolicyRule L))
      → retain (has_priority p) (insert_rule r rs) ≡ retain (has_priority p) (r ∷ rs)
  unfolding insert_rule
  insert_rule-retain p r [] = refl
  insert_rule-retain p r (q ∷ qs) = elim (Bool-cases (leb_int q.priority r.priority)) [
    | inl first ↦ rw (first, insert_rule) refl
    | inr later ↦
        rw (later, insert_rule)
          (ground (arith, later, insert_rule-retain p r qs, leb_int_trans q.priority p r.priority))
  ]

  sort_rules-retain :
      (p : ℤ) (rs : List (PolicyRule L))
      → retain (has_priority p) (sort_rules rs) ≡ retain (has_priority p) rs
  unfolding sort_rules
  sort_rules-retain p [] = refl
  sort_rules-retain p (r ∷ rs) =
      insert_rule-retain p r (sort_rules rs)
      ∙ ap (λ qs. if has_priority p r then r ∷ qs else qs) (sort_rules-retain p rs)

-- Sorting the rules of a set rearranges them, the higher priorities first, and leaves the rules of
-- the same priority in the order in which they were.
pub sort_rules_by_priority-Sorts :
    {L : Library} (s : PolicySet L) (p : ℤ)
    → let sorted = (sort_rules_by_priority s).rules in
      Descending sorted
      × Permᴰ sorted s.rules
      × (retain (has_priority p) sorted ≡ retain (has_priority p) s.rules)
unfolding sort_rules_by_priority
sort_rules_by_priority-Sorts s p =
    (sort_rules-Descending s.rules, sort_rules-Perm s.rules, sort_rules-retain p s.rules)
