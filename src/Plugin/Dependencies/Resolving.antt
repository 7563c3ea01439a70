-- ===== src/Plugin/Dependencies/Resolving.antt =====
-- What resolve_dependencies (src/crates/bey-plugin/src/lib.rs) answers.
use bey.Base.{
  ℕ, suc, ◌≡◌, refl, sym, subst, ◌<◌, ◌∙◌, inl, inr, ◌⊎◌, Bool-cases, true, Option-cases, List, [],
  ◌∷◌, length, All, All-mono, String, string_eq, ◌==◌, lookup, contains, contains-All, All-contains,
  names, contains-names, others, length-others-all, arith,
}
use bey.Base.Errors.{NetResult, ok, err, panics, ◌>>=◌}
use bey.Plugin.Entry.{Registry}
use bey.Plugin.Dependencies.{Search, visit_plugin, visit_all, resolve_dependencies}
use bey.Plugin.Dependencies.Graph.{
  deps_of, Depends, IsKnown, Reaches, direct, onward, Reason, Ordered, Cyclic, Incomplete, IsClosed,
  cons-IsClosed,
}
use bey.Plugin.Dependencies.Searching.{
  IsSound, Extends-refl, Follows, Follows-cons, Follows-next, Ready, visit_plugin-Visits,
}

module _ {P : Type 0} (plugins : Registry P) where
  visit_all-Follows :
      (fuel : ℕ) (entries : Registry P) (s : Search)
      → IsSound plugins s
      → s.stack ≡ []
      → All (IsKnown plugins) (names entries)
      → length plugins < fuel
      → Follows plugins (names entries) s (visit_all fuel plugins entries s)
  unfolding visit_all
  visit_all-Follows fuel [] s i e a h = (i, Extends-refl s, tt)
  visit_all-Follows fuel ((name, entry) ∷ entries) s i e a h =
      elim (Bool-cases (contains name s.visited)) [
        | inl seen ↦ rw seen (
            Follows-cons plugins name (names entries) s s (Extends-refl s) seen _
              (visit_all-Follows fuel entries s i e a.1 h))
        | inr unseen ↦ rw unseen (
            Follows-next plugins name (names entries) s (visit_all fuel plugins entries)
              (λ t j k. visit_all-Follows fuel entries t j (k ∙ e) a.1 h)
              (visit_plugin fuel plugins name s)
              (visit_plugin-Visits plugins fuel name s (ready a.0)))
      ]
    where
      ready : IsKnown plugins name → Ready plugins fuel name s
      ready k = record {
        is_sound = i;
        is_known = k;
        reach = subst (All (λ x. Reaches plugins x name)) (sym e) tt;
        room =
            subst (λ stack. length (others stack plugins) < fuel) (sym e)
              (omega (arith, h, length-others-all plugins));
      }

  Depends-IsKnown : (a b : String) → Depends plugins a b → IsKnown plugins a
  unfolding contains
  Depends-IsKnown a b h = elim (Option-cases (lookup a plugins)) [
    | inl e ↦ ground (arith, e)
    | inr (entry, e) ↦ rw e refl
  ]

  Reaches-IsKnown : (a b : String) → Reaches plugins a b → IsKnown plugins a
  Reaches-IsKnown a b (direct h) = Depends-IsKnown a _ h
  Reaches-IsKnown a b (onward r h) = Reaches-IsKnown a _ r

  closed-Reaches :
      (before : List String)
      → IsClosed plugins before
      → (x : String) → All (λ d. contains d before ≡ true) (deps_of plugins x)
      → (y : String) → Reaches plugins x y
      → contains y before ≡ true
  closed-Reaches before c x a y (direct h) =
      contains-All (λ d. contains d before ≡ true) y (deps_of plugins x) a h
  closed-Reaches before c x a y (onward r h) = c _ y (closed-Reaches before c x a _ r) h

  -- In an order by dependencies nothing reaches itself, and what a name depends on is there.
  Ordered-acyclic :
      (before xs : List String)
      → Ordered plugins before xs
      → IsClosed plugins before
      → (a : String) → contains a xs ≡ true
      → Reaches plugins a a
      → ⊥
  unfolding contains
  Ordered-acyclic before [] o c a h r = cc
  Ordered-acyclic before (x ∷ xs) o c a h r = elim (Bool-cases (x == a)) [
    | inl e ↦
        subst (λ w. Reaches plugins w w → ⊥) ((string_eq.matches_iff x a).0 e)
          (λ q. ground (arith, closed-Reaches before c x o.1 x q, o.0)) r
    | inr e ↦
        Ordered-acyclic (x ∷ before) xs o.2 (cons-IsClosed plugins before x c o.1) a (ground arith)
          r
  ]

  Ordered-complete :
      (before xs : List String)
      → Ordered plugins before xs
      → (a b : String) → contains a xs ≡ true
      → Depends plugins a b
      → (contains b before ≡ true) ⊎ (contains b xs ≡ true)
  unfolding contains
  Ordered-complete before [] o a b h d = cc
  Ordered-complete before (x ∷ xs) o a b h d = elim (Bool-cases (x == a)) [
    | inl e ↦ inl (
        contains-All (λ w. contains w before ≡ true) b (deps_of plugins x) o.1
          (subst (λ w. Depends plugins w b) (sym ((string_eq.matches_iff x a).0 e)) d))
    | inr e ↦ ground (arith, Ordered-complete (x ∷ before) xs o.2 a b (ground arith) d)
  ]

  -- An order by dependencies of all plugins, none of which depends on itself or on one that is not
  -- registered; or an error that says what is wrong.
  abbrev pub Resolves : NetResult (List String) → Type 0
  Resolves (ok order) =
      Ordered plugins [] order
      × All (IsKnown plugins) order
      × All (λ x. contains x order ≡ true) (names plugins)
      × (¬ Cyclic plugins)
      × (¬ Incomplete plugins)
  Resolves (err e) = Reason plugins e
  Resolves panics = ⊥

  sound-Resolves :
      (s : Search)
      → IsSound plugins s
      → All (λ x. contains x s.order ≡ true) (names plugins)
      → Resolves (ok s.order)
  unfolding contains
  sound-Resolves s i a = (
    i.sorted,
    All-contains (IsKnown plugins) s.order i.known,
    a,
    λ loop.
        Ordered-acyclic [] s.order i.sorted (λ x y h d. h) loop.0
          (listed loop.0 (Reaches-IsKnown loop.0 loop.0 loop.1)) loop.1,
    λ lack. ground (
      arith,
      lack.3,
      i.known lack.1,
      Ordered-complete [] s.order i.sorted lack.0 lack.1
          (listed lack.0 (Depends-IsKnown lack.0 lack.1 lack.2)) lack.2,
    ),
  )
    where
      listed : (x : String) → IsKnown plugins x → contains x s.order ≡ true
      listed x k =
          contains-All (λ y. contains y s.order ≡ true) x (names plugins) a
            (contains-names x plugins ∙ k)

  Follows-Resolves :
      (s : Search) (r : NetResult Search)
      → Follows plugins (names plugins) s r
      → Resolves (r >>= λ t. ok t.order)
  Follows-Resolves s (ok t) f =
      sound-Resolves t f.0 (All-mono _ _ (names plugins) (λ x h. sym (f.0.same x) ∙ h) f.2)
  Follows-Resolves s (err e) f = f
  Follows-Resolves s panics f = f

  -- resolve_dependencies always answers. On success the order has every registered plugin once,
  -- and no other, each behind all its dependencies, and no plugin depends on itself, by however
  -- many steps, or on a plugin that is not registered. Its only errors are 8009, where some plugin
  -- depends on itself, and 8010, where one depends on a plugin that is not registered.
  pub resolve_dependencies-Resolves : Resolves (resolve_dependencies plugins)
  unfolding resolve_dependencies contains
  resolve_dependencies-Resolves = Follows-Resolves start _ (
      visit_all-Follows (suc (length plugins)) plugins start
        (record { sorted = tt; same = λ x. refl; known = λ x h. cc }) refl
        (All-contains (IsKnown plugins) (names plugins) (λ x h. sym (contains-names x plugins) ∙ h))
        (omega arith))
    where
      start : Search
      start = record { visited = []; stack = []; order = [] }
