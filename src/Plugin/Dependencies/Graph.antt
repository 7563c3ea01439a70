-- ===== src/Plugin/Dependencies/Graph.antt =====
-- The graph of dependencies of the registered plugins (src/crates/bey-plugin/src/lib.rs), and what
-- an order by dependencies is.
use bey.Base.{
  ◌≡◌, ◌⊎◌, Bool-cases, inl, inr, true, false, ◌||◌, List, [], ◌∷◌, ◌++◌, All, All-mono,
  contains-All, subst, sym, ◌==◌, String, string_eq, lookup, is_some, contains, arith,
}
use bey.Base.Errors.{ErrorInfo}
use bey.Plugin.Entry.{Registry}
use bey.Plugin.Dependencies.{dependencies_of, circular, missing_dependency}

module _ {P : Type 0} (plugins : Registry P) where
  abbrev pub deps_of : String → List String
  deps_of a = dependencies_of (lookup a plugins)

  abbrev pub Depends : String → String → Type 0
  Depends a b = contains b (deps_of a) ≡ true

  abbrev pub IsKnown : String → Type 0
  IsKnown a = is_some (lookup a plugins) ≡ true

  -- By one dependency or more.
  pub data Reaches (a : String) : String → Type 0 where
    direct : {b : String} → Depends a b → Reaches a b
    onward : {b c : String} → Reaches a b → Depends b c → Reaches a c

  abbrev pub Cyclic : Type 0
  Cyclic = (a : String) × Reaches a a

  -- Some registered plugin depends on one that is not.
  abbrev pub Incomplete : Type 0
  Incomplete = (a : String) × (b : String) × Depends a b × (is_some (lookup b plugins) ≡ false)

  -- Each name once, behind its dependencies; the names in `before` come first.
  abbrev pub Ordered : List String → List String → Type 0
  Ordered before [] = Unit
  Ordered before (x ∷ xs) =
      (contains x before ≡ false)
      × All (λ d. contains d before ≡ true) (deps_of x)
      × Ordered (x ∷ before) xs

  -- The errors, and what they say.
  abbrev pub Reason : ErrorInfo → Type 0
  Reason e = ((e ≡ circular) × Cyclic) ⊎ ((e ≡ missing_dependency) × Incomplete)

  pub Ordered-concat :
      (before xs : List String) (x : String)
      → Ordered before xs
      → contains x before ≡ false
      → contains x xs ≡ false
      → All (λ d. (contains d before || contains d xs) ≡ true) (deps_of x)
      → Ordered before (xs ++ x ∷ [])
  unfolding contains
  Ordered-concat before [] x o fresh new a =
      (fresh, All-mono _ _ (deps_of x) (λ d h. ground arith) a, tt)
  Ordered-concat before (y ∷ ys) x o fresh new a = (
    o.0,
    o.1,
    Ordered-concat (y ∷ before) ys x o.2 (ground arith) (ground arith)
        (All-mono _ _ (deps_of x) (λ d h. ground arith) a),
  )

  -- What a name of the list depends on is in the list.
  abbrev pub IsClosed : List String → Type 0
  IsClosed before =
      (a b : String) → contains a before ≡ true → Depends a b → contains b before ≡ true

  pub cons-IsClosed :
      (before : List String) (x : String)
      → IsClosed before
      → All (λ d. contains d before ≡ true) (deps_of x)
      → IsClosed (x ∷ before)
  unfolding contains
  cons-IsClosed before x c a y z h d = elim (Bool-cases (x == y)) [
    | inl e ↦ ground (
      arith,
      contains-All (λ w. contains w before ≡ true) z (deps_of x) a
          (subst (λ w. Depends w z) (sym ((string_eq.matches_iff x y).0 e)) d),
    )
    | inr e ↦ ground (arith, c y z (ground arith) d)
  ]
