-- ===== src/Transport/PolicyEngine/Engine/Size.antt =====
-- The size of the policy engine's cache.
use bey.Base.{
  ℕ, suc, ◌≤◌, max, ◌≡◌, refl, Bool, true, false, if◌then◌else◌, Option, none, some, List, [], ◌∷◌,
  length, String, string_eq, HashMap, lookup, remove, length-insert-le, length-remove-le, arith,
  beq_refl,
}
use bey.Base.Errors.{NetResult, ok, err, panics}
use bey.Transport.PolicyEngine.{Library, PolicyContext}
use bey.Transport.PolicyEngine.Set.{PolicySetEvaluationResult}
use bey.Transport.PolicyEngine.Engine.{
  CompletePolicyEngine, CacheKey, PolicyEngineConfig, new_engine, add_policy_set, remove_policy_set,
  set_policy_set_enabled, reset_stats, evict, cache_result, set_result, finish, get_cached_result,
  answer, evaluate,
}
use bey.Transport.PolicyEngine.Engine.Cache.{
  Call, adds, removes, enables, resets, evaluates, call, run,
}

length-evict :
    {L : Library} (cache : HashMap String (PolicySetEvaluationResult L))
    → suc (length (evict cache)) ≤ max (length cache) 1
unfolding remove
length-evict [] = omega arith
length-evict ((k, r) ∷ cache) = ground (arith, beq_refl k, length-remove-le k cache)

module _ {L : Library} (config : PolicyEngineConfig) where
  abbrev pub Fits : CompletePolicyEngine L → Type 0
  Fits e = (e.config ≡ config) × (length e.evaluation_cache ≤ max config.max_cache_entries 1)

  cache_result-Fits :
      (e : CompletePolicyEngine L) (k : String) (r : PolicySetEvaluationResult L)
      → Fits e
      → Fits (cache_result e k r)
  unfolding cache_result
  cache_result-Fits e k r f = ground (
    arith,
    f.0,
    f.1,
    length-evict e.evaluation_cache,
    length-insert-le k r e.evaluation_cache,
    length-insert-le k r (evict e.evaluation_cache),
  )

  finish-Fits :
      (e : CompletePolicyEngine L) (k : String) (elapsed : ℕ)
      (o : NetResult (PolicySetEvaluationResult L))
      → Fits e
      → Fits (finish e k elapsed o).0
  finish-Fits e k elapsed (ok r) f =
      picked (cache_result e k r) e e.config.enable_cache (cache_result-Fits e k r f) f
    where
      picked :
          (x y : CompletePolicyEngine L) (b : Bool) → Fits x → Fits y → Fits (if b then x else y)
      picked x y true p q = p
      picked x y false p q = q
  finish-Fits e k elapsed (err x) f = f
  finish-Fits e k elapsed panics f = f

  answer-Fits :
      (e : CompletePolicyEngine L) (k id : String) (context : PolicyContext L) (elapsed : ℕ)
      (o : Option (PolicySetEvaluationResult L))
      → Fits e
      → Fits (answer e k id context elapsed o).0
  answer-Fits e k id context elapsed (some r) f = f
  answer-Fits e k id context elapsed none f =
      finish-Fits _ k elapsed (set_result (lookup id e.policy_sets) context) f

  call-Fits :
      (cache_key : CacheKey L) (c : Call L) (e : CompletePolicyEngine L)
      → Fits e
      → Fits (call cache_key c e)
  unfolding call add_policy_set remove_policy_set set_policy_set_enabled reset_stats evaluate
  call-Fits cache_key (adds s) e f = ground arith
  call-Fits cache_key (removes id) e f = ground arith
  call-Fits cache_key (enables id b) e f = ground arith
  call-Fits cache_key resets e f = f
  call-Fits cache_key (evaluates id context elapsed) e f =
      answer-Fits e (cache_key id context) id context elapsed
        (get_cached_result e (cache_key id context)) f

  run-Fits :
      (cache_key : CacheKey L) (cs : List (Call L)) (e : CompletePolicyEngine L)
      → Fits e
      → Fits (run cache_key cs e)
  unfolding run
  run-Fits cache_key [] e f = f
  run-Fits cache_key (c ∷ cs) e f =
      run-Fits cache_key cs (call cache_key c e) (call-Fits cache_key c e f)

-- Whatever the calls of a new engine, its cache never holds more entries than `max_cache_entries`,
-- or one where that is 0.
pub cache-bounded :
    {L : Library} (cache_key : CacheKey L) (config : PolicyEngineConfig) (calls : List (Call L))
    → length (run cache_key calls (new_engine config)).evaluation_cache
      ≤ max config.max_cache_entries 1
unfolding new_engine
cache-bounded cache_key config calls =
    (run-Fits config cache_key calls (new_engine config) (refl, omega arith)).1
