-- ===== src/Plugin/Dependencies/Searching.antt =====
-- The depth-first search of visit_plugin (src/crates/bey-plugin/src/lib.rs): what holds of each
-- call, by induction on the fuel.
use bey.Base.{
  ℕ, zero, suc, ◌≡◌, refl, sym, subst, ◌<◌, ◌∙◌, ap, inl, inr, Bool-cases, true, false, List, [],
  ◌∷◌, length, All, All-mono, String, string_eq, lookup, is_some, contains, contains-append,
  contains-insert_member, contains-All, All-contains, others, length-others-lt, arith, ◌==◌,
  beq_refl,
}
use bey.Base.Errors.{NetResult, ok, err, panics, ◌>>=◌}
use bey.Plugin.Entry.{Registry}
use bey.Plugin.Dependencies.{Search, push, pop_stack, finish, visit_dependencies, visit_plugin}
use bey.Plugin.Dependencies.Graph.{
  deps_of, Depends, IsKnown, Reaches, direct, onward, Reason, Ordered, Ordered-concat,
}

-- What holds between calls.
pub record IsSound {P : Type 0} (plugins : Registry P) (s : Search) : Type 0 where
  pub sorted : Ordered plugins [] s.order
  pub same : (x : String) → contains x s.visited ≡ contains x s.order
  pub known : (x : String) → contains x s.order ≡ true → IsKnown plugins x

-- What a call that succeeds does.
pub record Extends (s t : Search) : Type 0 where
  pub stack_kept : t.stack ≡ s.stack
  pub keeps : (x : String) → contains x s.visited ≡ true → contains x t.visited ≡ true
  pub spares :
      (x : String) → contains x s.stack ≡ true → contains x t.visited ≡ contains x s.visited

pub Extends-refl : (s : Search) → Extends s s
Extends-refl s = record { stack_kept = refl; keeps = λ x h. h; spares = λ x h. refl }

Extends-trans : (s t u : Search) → Extends s t → Extends t u → Extends s u
Extends-trans s t u a b = record {
  stack_kept = b.stack_kept ∙ a.stack_kept;
  keeps = λ x h. b.keeps x (a.keeps x h);
  spares = λ x h. b.spares x (ap (contains x) a.stack_kept ∙ h) ∙ a.spares x h;
}

module _ {P : Type 0} (plugins : Registry P) where
  abbrev pub IsVisited : Search → String → Type 0
  IsVisited s x = contains x s.visited ≡ true

  -- The outcome of a call for a name, and of the loop over dependencies.
  abbrev pub Visits : String → Search → NetResult Search → Type 0
  Visits name s (ok t) = IsSound plugins t × Extends s t × IsVisited t name
  Visits name s (err e) = Reason plugins e
  Visits name s panics = ⊥

  abbrev pub Follows : List String → Search → NetResult Search → Type 0
  Follows deps s (ok t) = IsSound plugins t × Extends s t × All (IsVisited t) deps
  Follows deps s (err e) = Reason plugins e
  Follows deps s panics = ⊥

  abbrev pub AllReach : Search → String → Type 0
  AllReach s name = All (λ x. Reaches plugins x name) s.stack

  -- The search may call `visit_plugin` for the name.
  pub record Ready (fuel : ℕ) (name : String) (s : Search) : Type 0 where
    pub is_sound : IsSound plugins s
    pub is_known : IsKnown plugins name
    pub reach : AllReach s name
    pub room : length (others s.stack plugins) < fuel

  pub Follows-cons :
      (d : String) (ds : List String) (s t : Search)
      → Extends s t
      → IsVisited t d
      → (r : NetResult Search) → Follows ds t r
      → Follows (d ∷ ds) s r
  Follows-cons d ds s t x v (ok u) f = (f.0, Extends-trans s t u x f.1, (f.1.keeps d v, f.2))
  Follows-cons d ds s t x v (err e) f = f
  Follows-cons d ds s t x v panics f = absurd f

  pub Follows-next :
      (d : String) (ds : List String) (s : Search) (rest : Search → NetResult Search)
      → ((t : Search) → IsSound plugins t → t.stack ≡ s.stack → Follows ds t (rest t))
      → (r : NetResult Search) → Visits d s r
      → Follows (d ∷ ds) s (r >>= rest)
  Follows-next d ds s rest f (ok t) v =
      Follows-cons d ds s t v.1 v.2 (rest t) (f t v.0 v.1.stack_kept)
  Follows-next d ds s rest f (err e) v = v
  Follows-next d ds s rest f panics v = absurd v

  visit_dependencies-Follows :
      (fuel : ℕ) (name : String) (visit : String → Search → NetResult Search)
      → ((d : String) (s : Search) → Ready fuel d s → Visits d s (visit d s))
      → (deps : List String) (s : Search) → All (Depends plugins name) deps
      → IsSound plugins s
      → All (λ d. AllReach s d) deps
      → length (others s.stack plugins) < fuel
      → Follows deps s (visit_dependencies visit plugins deps s)
  unfolding visit_dependencies
  visit_dependencies-Follows fuel name visit f [] s deps i a h = (i, Extends-refl s, tt)
  visit_dependencies-Follows fuel name visit f (d ∷ ds) s deps i a h =
      elim (Bool-cases (is_some (lookup d plugins))) [
        | inl e ↦ rw e (
            Follows-next d ds s (visit_dependencies visit plugins ds)
              (λ t j k.
                visit_dependencies-Follows fuel name visit f ds t deps.1 j
                  (subst (λ stack. All (λ x. All (λ y. Reaches plugins y x) stack) ds) (sym k) a.1)
                  (subst (λ stack. length (others stack plugins) < fuel) (sym k) h))
              (visit d s) (f d s (record { is_sound = i; is_known = e; reach = a.0; room = h })))
        | inr e ↦ rw e (inr (refl, (name, d, deps.0, e)))
      ]

  finish-IsSound :
      (name : String) (t : Search)
      → IsSound plugins t
      → IsKnown plugins name
      → contains name t.visited ≡ false
      → All (IsVisited t) (deps_of plugins name)
      → IsSound plugins (finish name t)
  unfolding contains
  finish-IsSound name t i k new a = record {
    sorted =
        Ordered-concat plugins [] t.order name i.sorted refl (sym (i.same name) ∙ new)
          (All-mono _ _ (deps_of plugins name) (λ d h. sym (i.same d) ∙ h) a);
    same = λ x. ground (
      arith,
      i.same x,
      contains-append x t.order (name ∷ []),
      contains-insert_member name x t.visited,
    );
    known = λ x h. elim (Bool-cases (name == x)) [
      | inl e ↦ subst (IsKnown plugins) ((string_eq.matches_iff name x).0 e) k
      | inr e ↦ i.known x (ground (arith, contains-append x t.order (name ∷ [])))
    ];
  }

  finish-Extends :
      (name : String) (s t : Search)
      → contains name s.stack ≡ false
      → Extends (push name s) t
      → Extends s (finish name t)
  unfolding contains
  finish-Extends name s t new x = record {
    stack_kept = ap pop_stack x.stack_kept;
    keeps = λ y h. ground (arith, x.keeps y h, contains-insert_member name y t.visited);
    spares = λ y h.
        ground (
          arith,
          x.spares y,
          string_eq.matches_iff name y,
          contains-insert_member name y t.visited,
        );
  }

  finish-Visits :
      (name : String) (s : Search)
      → IsKnown plugins name
      → contains name s.stack ≡ false
      → contains name s.visited ≡ false
      → (r : NetResult Search) → Follows (deps_of plugins name) (push name s) r
      → Visits name s (r >>= λ t. ok (finish name t))
  unfolding contains
  finish-Visits name s k new unseen (ok t) f = (
    finish-IsSound name t f.0 k (f.1.spares name (ground (arith, beq_refl name)) ∙ unseen) f.2,
    finish-Extends name s t new f.1,
    ground (arith, beq_refl name, contains-insert_member name name t.visited),
  )
  finish-Visits name s k new unseen (err e) f = f
  finish-Visits name s k new unseen panics f = absurd f

  push-IsSound : (name : String) (s : Search) → IsSound plugins s → IsSound plugins (push name s)
  push-IsSound name s i = record { sorted = i.sorted; same = i.same; known = i.known }

  push-AllReach :
      (name d : String) (s : Search)
      → AllReach s name
      → Depends plugins name d
      → AllReach (push name s) d
  push-AllReach name d s a h = (direct h, All-mono _ _ s.stack (λ x r. onward r h) a)

  pub visit_plugin-Visits :
      (fuel : ℕ) (name : String) (s : Search)
      → Ready fuel name s
      → Visits name s (visit_plugin fuel plugins name s)
  unfolding visit_plugin
  visit_plugin-Visits zero name s r = ground (arith, r.room)
  visit_plugin-Visits (suc fuel) name s r = elim (Bool-cases (contains name s.stack)) [
    | inl e ↦
        rw e (inl (refl, (name, contains-All (λ x. Reaches plugins x name) name s.stack r.reach e)))
    | inr e ↦ rw e (elim (Bool-cases (contains name s.visited)) [
      | inl seen ↦ rw seen (r.is_sound, Extends-refl s, seen)
      | inr unseen ↦ rw unseen (
          finish-Visits name s r.is_known e unseen _ (
            visit_dependencies-Follows fuel name (visit_plugin fuel plugins)
              (visit_plugin-Visits fuel) (deps_of plugins name) (push name s)
              (All-contains (Depends plugins name) (deps_of plugins name) (λ d h. h))
              (push-IsSound name s r.is_sound)
              (All-contains _ (deps_of plugins name) (λ d h. push-AllReach name d s r.reach h))
              (omega (arith, r.room, length-others-lt name s.stack plugins e r.is_known))))
    ])
  ]
