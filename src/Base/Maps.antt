-- ===== src/Base/Maps.antt =====
-- Keys with a Boolean equality, and `HashMap` as an association list. Rust leaves the order of
-- iteration open: here it is the order of the list.
use Prim.Native.Nat.{ℕ, suc, ◌≤◌}
use Prim.Native.String.{String}
use mathlib.Core.Path.{◌≡◌, refl, subst}
use mathlib.Core.Logic.{◌↔◌, inl, inr}
use mathlib.Core.Bool.{Bool, true}
use mathlib.Core.Option.{Option, none, some}
use mathlib.Core.List.{List, [], ◌∷◌}
use native.Mathlib.Omega.{arith}
use text.Mathlib.Text.{◌==◌ as str_eq}
use text.Mathlib.TextEquality.{eq_iff}
use bey.Base.Tests.{Bool-cases, if◌then◌else◌, eqb, eqb_iff}
use bey.Base.Lists.{length, retain, All}

-- What a type of keys offers: a test for sameness, right both ways.
pub record HashKey {κ} (K : Type κ) : Type κ where
  pub matches : K → K → Bool
  pub matches_iff : (j k : K) → (matches j k ≡ true) ↔ (j ≡ k)

instance abbrev pub string_eq : HashKey String
string_eq = record { matches = str_eq; matches_iff = eq_iff }

instance abbrev pub nat_eq : HashKey ℕ
nat_eq = record { matches = eqb; matches_iff = eqb_iff }

infix 50 ◌==◌
abbrev pub ◌==◌ {κ} : {K : Type κ} ⦃h : HashKey K⦄ → K → K → Bool
◌==◌ ⦃h⦄ j k = h.matches j k

abbrev pub HashMap {ℓ κ} : Type ℓ → Type κ → Type (ℓ ⊔ κ)
HashMap K V = List (K × V)

pub beq_refl {ℓ} : {K : Type ℓ} ⦃e : HashKey K⦄ (k : K) → (k == k) ≡ true
beq_refl ⦃e⦄ k = (e.matches_iff k k).1 refl

module _ {ℓ κ} {K : Type ℓ} {V : Type κ} ⦃e : HashKey K⦄ where
  -- `HashMap::get`.
  unfoldable pub lookup : K → HashMap K V → Option V
  lookup k [] = none
  lookup k ((j, v) ∷ m) = let rest = lookup k m in if j == k then some v else rest

  -- `HashMap::insert`: the value of a key that is there is replaced.
  unfoldable pub insert : K → V → HashMap K V → HashMap K V
  insert k v ((j, w) ∷ m) = let rest = insert k v m in if j == k then (k, v) ∷ m else (j, w) ∷ rest
  insert k v [] = (k, v) ∷ []

  -- `HashMap::remove`.
  unfoldable pub remove : K → HashMap K V → HashMap K V
  remove k [] = []
  remove k ((j, v) ∷ m) = let rest = remove k m in if j == k then rest else (j, v) ∷ rest

  pub lookup-insert :
      (new k : K) (value : V) (table : HashMap K V)
      → lookup k (insert new value table) ≡ (if new == k then some value else lookup k table)
  unfolding lookup insert
  lookup-insert new k value [] = refl
  lookup-insert new k value ((old, w) ∷ table) = ground (
    arith,
    lookup-insert new k value table,
    e.matches_iff new k,
    e.matches_iff old new,
    e.matches_iff old k,
  )

  pub lookup-remove :
      (k j : K) (m : HashMap K V) → lookup j (remove k m) ≡ (if k == j then none else lookup j m)
  unfolding lookup remove
  lookup-remove k j [] = ground arith
  lookup-remove k j ((i, w) ∷ m) =
      ground (arith, e.matches_iff k j, e.matches_iff i k, e.matches_iff i j, lookup-remove k j m)

module _ {ℓ κ} {K : Type ℓ} {V : Type κ} ⦃e : HashKey K⦄ where
  pub length-insert-le : (k : K) (v : V) (m : HashMap K V) → length (insert k v m) ≤ suc (length m)
  unfolding insert
  length-insert-le k v [] = omega arith
  length-insert-le k v ((j, w) ∷ m) = ground (arith, length-insert-le k v m)

  pub length-insert_new :
      (k : K) (v : V) (m : HashMap K V) → lookup k m ≡ none → length (insert k v m) ≡ suc (length m)
  unfolding insert lookup
  length-insert_new k v [] h = omega arith
  length-insert_new k v ((j, w) ∷ m) h = ground (arith, length-insert_new k v m)

  pub length-remove-le : (k : K) (m : HashMap K V) → length (remove k m) ≤ length m
  unfolding remove
  length-remove-le k [] = omega arith
  length-remove-le k ((j, w) ∷ m) = ground (arith, length-remove-le k m)

  -- No key stands twice, as in every `HashMap`.
  abbrev pub Unique : HashMap K V → Type κ
  Unique [] = Unit
  Unique ((k, v) ∷ m) = (lookup k m ≡ none) × Unique m

  pub remove-absent : (k : K) (m : HashMap K V) → lookup k m ≡ none → remove k m ≡ m
  unfolding lookup remove
  remove-absent k [] h = refl
  remove-absent k ((j, v) ∷ m) h = ground (arith, remove-absent k m)

  pub remove-insert :
      (k : K) (v : V) (m : HashMap K V) → lookup k m ≡ none → remove k (insert k v m) ≡ m
  unfolding lookup insert remove
  remove-insert k v [] h = ground (arith, beq_refl k)
  remove-insert k v ((j, w) ∷ m) h = ground (arith, beq_refl k, remove-insert k v m)

  pub insert-Unique : (k : K) (v : V) (m : HashMap K V) → Unique m → Unique (insert k v m)
  unfolding insert lookup
  insert-Unique k v [] u = ground arith
  insert-Unique k v ((j, w) ∷ m) u =
      ground (
        arith,
        e.matches_iff j k,
        e.matches_iff k j,
        insert-Unique k v m u.1,
        lookup-insert k j v m,
      )

  pub remove-Unique : (k : K) (m : HashMap K V) → Unique m → Unique (remove k m)
  unfolding remove
  remove-Unique k [] u = tt
  remove-Unique k ((j, w) ∷ m) u =
      ground (arith, e.matches_iff j k, remove-Unique k m u.1, lookup-remove k j m)

  pub lookup-retain :
      (p : K × V → Bool) (k : K) (m : HashMap K V)
      → lookup k m ≡ none
      → lookup k (retain p m) ≡ none
  unfolding lookup
  lookup-retain p k [] h = refl
  lookup-retain p k ((j, v) ∷ m) h = ground (arith, lookup-retain p k m)

  pub retain-Unique : (p : K × V → Bool) (m : HashMap K V) → Unique m → Unique (retain p m)
  retain-Unique p [] u = tt
  retain-Unique p ((j, v) ∷ m) u = ground (arith, retain-Unique p m u.1, lookup-retain p j m u.0)

-- What `retain` leaves of an entry.
module _ {ℓ κ} {K : Type ℓ} {V : Type κ} ⦃e : HashKey K⦄ where
  abbrev pub keep_if : (K × V → Bool) → K → Option V → Option V
  keep_if p k none = none
  keep_if p k (some v) = if p (k, v) then some v else none

  pub lookup-keep_if :
      (p : K × V → Bool) (k : K) (m : HashMap K V)
      → Unique m
      → lookup k (retain p m) ≡ keep_if p k (lookup k m)
  unfolding lookup
  lookup-keep_if p k [] u = refl
  lookup-keep_if p k ((j, v) ∷ m) u = elim (Bool-cases (j == k)) [
    | inl hit ↦
        subst (λ x. lookup x (retain p ((j, v) ∷ m)) ≡ keep_if p x (lookup x ((j, v) ∷ m)))
          ((e.matches_iff j k).0 hit) at_head
    | inr miss ↦ ground (arith, miss, lookup-keep_if p k m u.1)
  ]
    where
      at_head : lookup j (retain p ((j, v) ∷ m)) ≡ keep_if p j (lookup j ((j, v) ∷ m))
      at_head = ground (arith, beq_refl j, lookup-retain p j m u.0)

-- A property of all entries through the operations.
module _ {ℓ κ μ} {K : Type ℓ} {V : Type κ} ⦃e : HashKey K⦄ (P : K × V → Type μ) where
  pub insert-All : (k : K) (v : V) (m : HashMap K V) → P (k, v) → All P m → All P (insert k v m)
  unfolding insert
  insert-All k v [] p a = (p, tt)
  insert-All k v ((j, w) ∷ m) p a = elim (Bool-cases (j == k)) [
    | inl hit ↦ rw hit (p, a.1)
    | inr miss ↦ rw miss (a.0, insert-All k v m p a.1)
  ]

  pub remove-All : (k : K) (m : HashMap K V) → All P m → All P (remove k m)
  unfolding remove
  remove-All k [] a = tt
  remove-All k ((j, w) ∷ m) a = elim (Bool-cases (j == k)) [
    | inl hit ↦ rw hit (remove-All k m a.1)
    | inr miss ↦ rw miss (a.0, remove-All k m a.1)
  ]

  pub lookup-All :
      (k : K) (v : V) (m : HashMap K V) → All P m → lookup k m ≡ some v → (j : K) × P (j, v)
  unfolding lookup
  lookup-All k v [] a h = cc
  lookup-All k v ((j, w) ∷ m) a h = elim (Bool-cases (j == k)) [
    | inl hit ↦ (j, subst (λ x. P (j, x)) (found hit) a.0)
    | inr miss ↦ lookup-All k v m a.1 (ground arith)
  ]
    where
      found : (j == k) ≡ true → w ≡ v
      found hit = ground arith

  pub lookup-All_at : (k : K) (v : V) (m : HashMap K V) → All P m → lookup k m ≡ some v → P (k, v)
  unfolding lookup
  lookup-All_at k v [] a h = cc
  lookup-All_at k v ((j, w) ∷ m) a h = elim (Bool-cases (j == k)) [
    | inl hit ↦
        subst (λ x. P (x, v)) (((e.matches_iff j k).0) hit) (subst (λ x. P (j, x)) (found hit) a.0)
    | inr miss ↦ lookup-All_at k v m a.1 (ground arith)
  ]
    where
      found : (j == k) ≡ true → w ≡ v
      found hit = ground arith
