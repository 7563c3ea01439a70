-- ===== src/Base/Members.antt =====
-- Lists of keys as sets: `Vec::contains`, and `HashSet` as a list.
use Prim.Native.Nat.{◌<◌, ◌≤◌}
use mathlib.Core.Path.{◌≡◌, refl, subst}
use mathlib.Core.Logic.{inl, inr}
use mathlib.Core.Bool.{Bool, true, false, not, ◌||◌}
use mathlib.Core.Option.{Option, none, some}
use mathlib.Core.List.{List, [], ◌∷◌, ◌++◌}
use native.Mathlib.Omega.{arith}
use bey.Base.Tests.{Bool-cases, if◌then◌else◌}
use bey.Base.Lists.{length, retain, All}
use bey.Base.Maps.{HashKey, ◌==◌, HashMap, lookup, beq_refl}

-- `Option::is_some`.
abbrev pub is_some {ℓ} : {A : Type ℓ} → Option A → Bool
is_some none = false
is_some (some a) = true

pub is_some-none {ℓ} : {A : Type ℓ} (o : Option A) → is_some o ≡ false → o ≡ none
is_some-none none h = refl
is_some-none (some a) h = cc

module _ {ℓ} {K : Type ℓ} ⦃e : HashKey K⦄ where
  unfoldable pub contains : K → List K → Bool
  contains k [] = false
  contains k (x ∷ xs) = (x == k) || contains k xs

  -- `HashSet::insert`.
  abbrev pub insert_member : K → List K → List K
  insert_member k xs = if contains k xs then xs else k ∷ xs

  pub contains-append :
      (k : K) (xs ys : List K) → contains k (xs ++ ys) ≡ (contains k xs || contains k ys)
  unfolding contains
  contains-append k [] ys = refl
  contains-append k (x ∷ xs) ys = ground (arith, contains-append k xs ys)

  pub contains-insert_member :
      (j k : K) (xs : List K) → contains k (insert_member j xs) ≡ ((j == k) || contains k xs)
  unfolding contains
  contains-insert_member j k xs = ground (arith, e.matches_iff j k)

  pub contains-All {κ} :
      (P : K → Type κ) (k : K) (xs : List K) → All P xs → contains k xs ≡ true → P k
  unfolding contains
  contains-All P k [] a h = cc
  contains-All P k (x ∷ xs) a h = elim (Bool-cases (x == k)) [
    | inl hit ↦ subst P ((e.matches_iff x k).0 hit) a.0
    | inr miss ↦ contains-All P k xs a.1 (ground arith)
  ]

  pub All-contains {κ} :
      (P : K → Type κ) (xs : List K) → ((x : K) → contains x xs ≡ true → P x) → All P xs
  unfolding contains
  All-contains P [] f = tt
  All-contains P (x ∷ xs) f =
      (f x (ground (arith, beq_refl x)), All-contains P xs (λ y h. f y (ground arith)))

  -- `HashMap::keys`.
  abbrev pub names {κ} : {V : Type κ} → HashMap K V → List K
  names [] = []
  names ((k, v) ∷ m) = k ∷ names m

  pub contains-names {κ} :
      {V : Type κ} (k : K) (m : HashMap K V) → contains k (names m) ≡ is_some (lookup k m)
  unfolding contains lookup
  contains-names k [] = refl
  contains-names k ((j, v) ∷ m) = ground (arith, contains-names k m)

  -- The entries of a map whose keys are not in a list.
  abbrev pub others {κ} : {V : Type κ} → List K → HashMap K V → HashMap K V
  others xs m = retain (λ p. not (contains p.0 xs)) m

  pub length-others-le {κ} :
      {V : Type κ} (k : K) (xs : List K) (m : HashMap K V)
      → length (others (k ∷ xs) m) ≤ length (others xs m)
  unfolding contains
  length-others-le k xs [] = omega arith
  length-others-le k xs ((j, v) ∷ m) = ground (arith, length-others-le k xs m)

  pub length-others-lt {κ} :
      {V : Type κ} (k : K) (xs : List K) (m : HashMap K V)
      → contains k xs ≡ false
      → is_some (lookup k m) ≡ true
      → length (others (k ∷ xs) m) < length (others xs m)
  unfolding contains lookup
  length-others-lt k xs [] h q = cc
  length-others-lt k xs ((j, v) ∷ m) h q = ground (
    arith,
    length-others-lt k xs m,
    length-others-le k xs m,
    e.matches_iff k j,
    e.matches_iff j k,
    beq_refl k,
  )

  pub length-others-all {κ} : {V : Type κ} (m : HashMap K V) → length (others [] m) ≡ length m
  unfolding contains
  length-others-all [] = refl
  length-others-all ((j, v) ∷ m) = omega (arith, length-others-all m)
