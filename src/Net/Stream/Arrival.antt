-- ===== src/Net/Stream/Arrival.antt =====
-- The chunks of a stream as they arrive: the table of received chunks does not depend on their order.
use mathlib.Core.List.{Permᴰ, append-nil, append_assoc}
use bey.Base.{
  inl, inr, Option-cases, ℕ, zero, suc, ◌<◌, ◌≡◌, ◌≢◌, refl, sym, ◌∙◌, List, [], ◌∷◌, ◌++◌, length,
  arith, HashMap, lookup, insert, lookup-insert, nat_eq, All, String, subst,
}
use bey.Net.Stream.{StreamChunk, data_chunk, data_chunks, collect}
use bey.Base.Errors.{ok}
use bey.Net.Stream.Chunks.{concat}

-- The table of received chunks after the chunks `ds` have been added.
abbrev pub store : List StreamChunk → HashMap ℕ (List ℕ) → HashMap ℕ (List ℕ)
store [] m = m
store (d ∷ ds) m = store ds (insert d.chunk_index d.content m)

-- No two chunks have the same index.
abbrev pub Distinct : List StreamChunk → Type 0
Distinct [] = Unit {0}
Distinct (d ∷ ds) = All (λ e. d.chunk_index ≢ e.chunk_index) ds × Distinct ds

pub All-perm {κ} :
    {ds es : List StreamChunk} (P : StreamChunk → Type κ) → Permᴰ ds es → All P ds → All P es
All-perm P Permᴰ.nil a = tt
All-perm P (Permᴰ.cons e p) a = (subst P e a.0, All-perm P p a.1)
All-perm P (Permᴰ.swap e f) a = (subst P f a.1.0, (subst P e a.0, a.1.1))
All-perm P (Permᴰ.trans p q) a = All-perm P q (All-perm P p a)

-- Two tables that answer alike.
abbrev pub SameTable : HashMap ℕ (List ℕ) → HashMap ℕ (List ℕ) → Type 0
SameTable m n = (j : ℕ) → lookup j m ≡ lookup j n

insert-SameTable :
    (k : ℕ) (v : List ℕ) (m n : HashMap ℕ (List ℕ))
    → SameTable m n
    → SameTable (insert k v m) (insert k v n)
insert-SameTable k v m n h j = ground (arith, lookup-insert k j v m, lookup-insert k j v n, h j)

insert_comm :
    (k l : ℕ) (v w : List ℕ) (m n : HashMap ℕ (List ℕ))
    → k ≢ l
    → SameTable m n
    → SameTable (insert l w (insert k v m)) (insert k v (insert l w n))
insert_comm k l v w m n d h j = ground (
  arith,
  lookup-insert l j w (insert k v m),
  lookup-insert k j v m,
  lookup-insert k j v (insert l w n),
  lookup-insert l j w n,
  h j,
)

store-SameTable :
    (ds : List StreamChunk) (m n : HashMap ℕ (List ℕ))
    → SameTable m n
    → SameTable (store ds m) (store ds n)
store-SameTable [] m n h = h
store-SameTable (d ∷ ds) m n h =
    store-SameTable ds (insert d.chunk_index d.content m) (insert d.chunk_index d.content n)
      (insert-SameTable d.chunk_index d.content m n h)

Distinct-perm : {ds es : List StreamChunk} → Permᴰ ds es → Distinct ds → Distinct es
Distinct-perm Permᴰ.nil d = tt
Distinct-perm (Permᴰ.cons {a = a} {b = b} {l₂ = l} e p) d = (
  subst (λ x. All (λ y. x.chunk_index ≢ y.chunk_index) l) e
      (All-perm (λ y. a.chunk_index ≢ y.chunk_index) p d.0),
  Distinct-perm p d.1,
)
Distinct-perm (Permᴰ.swap {a = a} {b = b} {b' = c} {l = l} e f) d =
    subst (λ x. Distinct (x ∷ c ∷ l)) f
      (subst (λ x. Distinct (b ∷ x ∷ l)) e ((λ h. d.0.0 (sym h), d.1.0), (d.0.1, d.1.1)))
Distinct-perm (Permᴰ.trans p q) d = Distinct-perm q (Distinct-perm p d)

-- Chunks with different indices make the same table in any order.
pub store-perm :
    {ds es : List StreamChunk}
    → Permᴰ ds es
    → Distinct ds
    → (m n : HashMap ℕ (List ℕ)) → SameTable m n
    → SameTable (store ds m) (store es n)
store-perm Permᴰ.nil d m n h = h
store-perm (Permᴰ.cons {a = a} {l₁ = k} {l₂ = l} e p) d m n h =
    subst (λ x. SameTable (store (a ∷ k) m) (store (x ∷ l) n)) e
      (store-perm p d.1 _ _ (insert-SameTable a.chunk_index a.content m n h))
store-perm (Permᴰ.swap {a = a} {b = b} {b' = c} {l = l} e f) d m n h =
    subst (λ x. SameTable (store (a ∷ b ∷ l) m) (store (x ∷ c ∷ l) n)) f
      (subst (λ x. SameTable (store (a ∷ b ∷ l) m) (store (b ∷ x ∷ l) n)) e
        (store-SameTable l _ _
          (insert_comm a.chunk_index b.chunk_index a.content b.content m n d.0.0 h)))
store-perm (Permᴰ.trans p q) d m n h =
    λ j. store-perm p d m m (λ i. refl) j ∙ store-perm q (Distinct-perm p d) m n h j

-- The loop of `get_data` reads the table only.
pub collect-SameTable :
    (m n : HashMap ℕ (List ℕ)) (i k : ℕ) (acc : List ℕ)
    → SameTable m n
    → collect m i k acc ≡ collect n i k acc
unfolding collect
collect-SameTable m n i zero acc h = refl
collect-SameTable m n i (suc k) acc h = elim (Option-cases (lookup i m)) [
  | inl e ↦ ground (arith, e, h i)
  | inr (v, e) ↦ ground (arith, e, h i, collect-SameTable m n (suc i) k (acc ++ v) h)
]

store-below :
    (id : String) (i j : ℕ) (cs : List (List ℕ)) (m : HashMap ℕ (List ℕ))
    → j < i
    → lookup j (store (data_chunks id i cs) m) ≡ lookup j m
unfolding data_chunks data_chunk
store-below id i j [] m h = refl
store-below id i j (c ∷ cs) m h =
    ground (arith, lookup-insert i j c m, store-below id (suc i) j cs (insert i c m))

-- The chunks that were sent, stored in order, are read back in order.
pub collect-store :
    (id : String) (i : ℕ) (cs : List (List ℕ)) (m : HashMap ℕ (List ℕ)) (acc : List ℕ)
    → collect (store (data_chunks id i cs) m) i (length cs) acc ≡ ok (acc ++ concat cs)
unfolding data_chunks data_chunk collect
collect-store id i [] m acc = rw (append-nil acc)
collect-store id i (c ∷ cs) m acc = ground (
  arith,
  store-below id (suc i) i cs (insert i c m),
  lookup-insert i i c m,
  collect-store id (suc i) cs (insert i c m) (acc ++ c),
  append_assoc acc c (concat cs),
)

data_chunks-above :
    (id : String) (i j : ℕ) (cs : List (List ℕ))
    → i < j
    → All (λ e. i ≢ e.chunk_index) (data_chunks id j cs)
unfolding data_chunks data_chunk
data_chunks-above id i j [] h = tt
data_chunks-above id i j (c ∷ cs) h = (omega arith, data_chunks-above id i (suc j) cs (omega arith))

pub data_chunks-Distinct :
    (id : String) (i : ℕ) (cs : List (List ℕ)) → Distinct (data_chunks id i cs)
unfolding data_chunks data_chunk
data_chunks-Distinct id i [] = tt
data_chunks-Distinct id i (c ∷ cs) =
    (data_chunks-above id i (suc i) cs (omega arith), data_chunks-Distinct id (suc i) cs)
