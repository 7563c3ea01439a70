-- ===== src/Transport/PolicyEngine/Engine/Cache.antt =====
-- The cache of the policy engine against an engine without one.
use bey.Base.{
  ℕ, ◌≡◌, refl, subst, sym, Bool, true, false, if◌then◌else◌, leb, Bool-cases, Option-cases, inl,
  inr, Option, none, some, List, [], ◌∷◌, length, String, string_eq, HashMap, lookup, All,
  insert-All, remove-All, lookup-All_at, arith,
}
use bey.Base.Errors.{NetResult, ok, err, panics}
use bey.Transport.PolicyEngine.{Library, PolicyContext}
use bey.Transport.PolicyEngine.Set.{PolicySet, PolicySetEvaluationResult}
use bey.Transport.PolicyEngine.Engine.{
  CompletePolicyEngine, CacheKey, PolicyEngineConfig, new_engine, add_policy_set, remove_policy_set,
  set_policy_set_enabled, reset_stats, evict, cache_result, set_result, finish, miss,
  get_cached_result, answer, evaluate,
}

module _ (L : Library) where
  -- The calls of an engine.
  pub data Call : Type 0 where
    adds : PolicySet L → Call
    removes : String → Call
    enables : String → Bool → Call
    resets : Call
    evaluates : String → PolicyContext L → ℕ → Call

module _ {L : Library} (cache_key : CacheKey L) where
  unfoldable pub call : Call L → CompletePolicyEngine L → CompletePolicyEngine L
  call (adds s) e = (add_policy_set e s).0
  call (removes id) e = (remove_policy_set e id).0
  call (enables id b) e = (set_policy_set_enabled e id b).0
  call resets e = reset_stats e
  call (evaluates id context elapsed) e = (evaluate cache_key e id context elapsed).0

  unfoldable pub run : List (Call L) → CompletePolicyEngine L → CompletePolicyEngine L
  run [] e = e
  run (c ∷ cs) e = run cs (call c e)

-- A predicate on the requests that a call evaluates.
abbrev pub Asks : {L : Library} → (String × PolicyContext L → Type 0) → Call L → Type 0
Asks P (evaluates id context elapsed) = P (id, context)
Asks P _ = Unit

module _ {L : Library} (cache_key : CacheKey L) (P : String × PolicyContext L → Type 0) where
  -- An entry of the cache: what the set of a request that satisfies `P` evaluates to.
  pub record Entry (sets : HashMap String (PolicySet L)) (k : String)
      (r : PolicySetEvaluationResult L) : Type 0 where
    pub id : String
    pub context : PolicyContext L
    pub asked : P (id, context)
    pub key : cache_key id context ≡ k
    pub evaluated : set_result (lookup id sets) context ≡ ok r

  abbrev pub Coherent : CompletePolicyEngine L → Type 0
  Coherent e = All (λ kr. Entry e.policy_sets kr.0 kr.1) e.evaluation_cache

  evict-All :
      (Q : String × PolicySetEvaluationResult L → Type 0)
      (cache : HashMap String (PolicySetEvaluationResult L))
      → All Q cache
      → All Q (evict cache)
  evict-All Q [] a = tt
  evict-All Q ((k, r) ∷ cache) a = remove-All Q k ((k, r) ∷ cache) a

  cache_result-Coherent :
      (e : CompletePolicyEngine L) (k : String) (r : PolicySetEvaluationResult L)
      → Coherent e
      → Entry e.policy_sets k r
      → Coherent (cache_result e k r)
  unfolding cache_result
  cache_result-Coherent e k r a h =
      insert-All (λ kr. Entry e.policy_sets kr.0 kr.1) k r _ h
        (room (leb e.config.max_cache_entries (length e.evaluation_cache)))
    where
      room :
          (b : Bool)
          → All
              (λ kr. Entry e.policy_sets kr.0 kr.1)
              (if b then evict e.evaluation_cache else e.evaluation_cache)
      room true = evict-All (λ kr. Entry e.policy_sets kr.0 kr.1) e.evaluation_cache a
      room false = a

  finish-Coherent :
      (e : CompletePolicyEngine L) (k : String) (elapsed : ℕ)
      (o : NetResult (PolicySetEvaluationResult L))
      → Coherent e
      → ((r : PolicySetEvaluationResult L) → o ≡ ok r → Entry e.policy_sets k r)
      → Coherent (finish e k elapsed o).0
  unfolding cache_result
  finish-Coherent e k elapsed (ok r) a h = elim (Bool-cases e.config.enable_cache) [
    | inl on ↦ rw on (cache_result-Coherent e k r a (h r refl))
    | inr off ↦ rw off a
  ]
  finish-Coherent e k elapsed (err x) a h = a
  finish-Coherent e k elapsed panics a h = a

  answer-Coherent :
      (e : CompletePolicyEngine L) (id : String) (context : PolicyContext L) (elapsed : ℕ)
      (o : Option (PolicySetEvaluationResult L))
      → P (id, context)
      → Coherent e
      → Coherent (answer e (cache_key id context) id context elapsed o).0
  answer-Coherent e id context elapsed (some r) p a = a
  answer-Coherent e id context elapsed none p a =
      finish-Coherent (miss e) (cache_key id context) elapsed
        (set_result (lookup id e.policy_sets) context) a
        (λ r h. record { id = id; context = context; asked = p; key = refl; evaluated = h })

  new-Coherent : (config : PolicyEngineConfig) → Coherent (new_engine config)
  unfolding new_engine
  new-Coherent config = tt

  call-Coherent :
      (c : Call L) (e : CompletePolicyEngine L)
      → Asks P c
      → Coherent e
      → Coherent (call cache_key c e)
  unfolding call add_policy_set remove_policy_set set_policy_set_enabled reset_stats evaluate
  call-Coherent (adds s) e p a = tt
  call-Coherent (removes id) e p a = elim (Option-cases (lookup id e.policy_sets)) [
    | inl n ↦ rw (n, call, remove_policy_set) a
    | inr (s, h) ↦ rw (h, call, remove_policy_set) tt
  ]
  call-Coherent (enables id b) e p a = elim (Option-cases (lookup id e.policy_sets)) [
    | inl n ↦ rw (n, call, set_policy_set_enabled) a
    | inr (s, h) ↦ rw (h, call, set_policy_set_enabled) tt
  ]
  call-Coherent resets e p a = a
  call-Coherent (evaluates id context elapsed) e p a =
      answer-Coherent e id context elapsed (get_cached_result e (cache_key id context)) p a

  run-Coherent :
      (cs : List (Call L)) (e : CompletePolicyEngine L)
      → All (Asks P) cs
      → Coherent e
      → Coherent (run cache_key cs e)
  unfolding run
  run-Coherent [] e p a = a
  run-Coherent (c ∷ cs) e p a = run-Coherent cs (call cache_key c e) p.1 (call-Coherent c e p.0 a)

  -- An answer on a coherent engine, where no other request has this one's key.
  answer-uncached :
      (e : CompletePolicyEngine L) (id : String) (context : PolicyContext L) (elapsed : ℕ)
      (o : Option (PolicySetEvaluationResult L))
      → get_cached_result e (cache_key id context) ≡ o
      → ((q : String × PolicyContext L)
          → P q
          → cache_key q.0 q.1 ≡ cache_key id context
          → q ≡ (id, context))
      → Coherent e
      → (answer e (cache_key id context) id context elapsed o).1
        ≡ set_result (lookup id e.policy_sets) context
  answer-uncached e id context elapsed none h d a =
      finished (set_result (lookup id e.policy_sets) context)
    where
      finished :
          (o : NetResult (PolicySetEvaluationResult L))
          → (finish (miss e) (cache_key id context) elapsed o).1 ≡ o
      finished (ok r) = refl
      finished (err x) = refl
      finished panics = refl
  answer-uncached e id context elapsed (some r) h d a = elim (Bool-cases e.config.enable_cache) [
    | inl on ↦
        let entry =
          lookup-All_at (λ kr. Entry e.policy_sets kr.0 kr.1) (cache_key id context) r
            e.evaluation_cache a (ground (arith, on, h)) in
        sym (
          subst (λ q. set_result (lookup q.0 e.policy_sets) q.1 ≡ ok r)
            (d (entry.id, entry.context) entry.asked entry.key) entry.evaluated)
    | inr off ↦ ground (arith, off, h)
  ]

-- The cache never changes an answer: after any calls of a new engine, `evaluate` returns what the set
-- with the id, as it is then, evaluates to in the context, or error 6003 where there is no such set.
-- No request evaluated before has the key of this one, unless it is the same request.
pub evaluate-uncached :
    {L : Library} (cache_key : CacheKey L) (config : PolicyEngineConfig) (calls : List (Call L))
    (id : String) (context : PolicyContext L) (elapsed : ℕ)
    → All (Asks (λ q. cache_key q.0 q.1 ≡ cache_key id context → q ≡ (id, context))) calls
    → let e = run cache_key calls (new_engine config) in
      (evaluate cache_key e id context elapsed).1 ≡ set_result (lookup id e.policy_sets) context
unfolding evaluate
evaluate-uncached {L = L} cache_key config calls id context elapsed distinct =
    let P : String × PolicyContext L → Type 0 =
      λ q. cache_key q.0 q.1 ≡ cache_key id context → q ≡ (id, context) in
    let e = run cache_key calls (new_engine config) in
    answer-uncached cache_key P e id context elapsed (get_cached_result e (cache_key id context))
      refl (λ q p. p)
      (run-Coherent cache_key P calls (new_engine config) distinct
        (new-Coherent cache_key P config))
