-- ===== src/Transport/PolicyEngine/Engine.antt =====
-- The engine, src/crates/bey-transport/src/policy_engine.rs: `CompletePolicyEngine`, its policy sets,
-- the cache of evaluations and the statistics. The cache key, a hash of the set's id and of the
-- context's JSON text, is a parameter; times in microseconds are arguments. Counters are unbounded.
pub mod Cache
pub mod Size
use bey.Base.{
  ℕ, zero, suc, ◌+◌, ◌-◌, ◌*◌, ◌/◌, Bool, true, false, ◌||◌, if◌then◌else◌, ltb, leb, eqb, Option,
  none, some, List, [], ◌∷◌, retain, length, map, String, string_eq, HashMap, lookup, insert,
  remove,
}
use bey.Base.Errors.{
  NetResult, ok, err, panics, ErrorInfo, new_error, with_category, with_severity, configuration,
  warning, error,
}
use bey.Transport.PolicyEngine.{Library, PolicyContext}
use bey.Transport.PolicyEngine.Rule.{PolicyRule}
use bey.Transport.PolicyEngine.Set.{PolicySet, PolicySetEvaluationResult, evaluate_set}

pub record PolicyEngineStats : Type 0 where
  pub total_evaluations : ℕ
  pub cache_hits : ℕ
  pub cache_misses : ℕ
  pub average_evaluation_time_us : ℕ
  pub slowest_evaluation_time_us : ℕ
  pub fastest_evaluation_time_us : ℕ
  pub policy_sets_count : ℕ
  pub total_rules_count : ℕ
  pub enabled_rules_count : ℕ

abbrev pub no_stats : PolicyEngineStats
no_stats = record {
  total_evaluations = 0;
  cache_hits = 0;
  cache_misses = 0;
  average_evaluation_time_us = 0;
  slowest_evaluation_time_us = 0;
  fastest_evaluation_time_us = 0;
  policy_sets_count = 0;
  total_rules_count = 0;
  enabled_rules_count = 0;
}

-- The fields of the configuration that an operation reads.
pub record PolicyEngineConfig : Type 0 where
  pub enable_cache : Bool
  pub max_cache_entries : ℕ

abbrev pub sum : List ℕ → ℕ
sum [] = 0
sum (n ∷ ns) = n + sum ns

module _ (L : Library) where
  pub record CompletePolicyEngine : Type 0 where
    pub policy_sets : HashMap String (PolicySet L)
    pub evaluation_cache : HashMap String (PolicySetEvaluationResult L)
    pub stats : PolicyEngineStats
    pub config : PolicyEngineConfig

  abbrev pub CacheKey : Type 0
  CacheKey = String → PolicyContext L → String

abbrev pub not_found : ℕ → ErrorInfo
not_found code = with_severity (with_category (new_error code) configuration) warning

abbrev pub unknown_set : ErrorInfo
unknown_set = with_severity (with_category (new_error 6003) configuration) error

-- The statistics after an evaluation of `elapsed` microseconds.
unfoldable pub record_evaluation : PolicyEngineStats → ℕ → PolicyEngineStats
record_evaluation s elapsed =
    let total = suc s.total_evaluations in
    record s {
      total_evaluations = total;
      average_evaluation_time_us = (s.average_evaluation_time_us * (total - 1) + elapsed) / total;
      slowest_evaluation_time_us =
          if ltb s.slowest_evaluation_time_us elapsed
          then elapsed
          else s.slowest_evaluation_time_us;
      fastest_evaluation_time_us =
          if eqb s.fastest_evaluation_time_us 0 || ltb elapsed s.fastest_evaluation_time_us
          then elapsed
          else s.fastest_evaluation_time_us;
    }

module _ {L : Library} where
  unfoldable pub new_engine : PolicyEngineConfig → CompletePolicyEngine L
  new_engine config = record {
    policy_sets = [];
    evaluation_cache = [];
    stats = no_stats;
    config = config;
  }

  unfoldable pub count_sets : HashMap String (PolicySet L) → PolicyEngineStats → PolicyEngineStats
  count_sets sets s = record s {
    policy_sets_count = length sets;
    total_rules_count = sum (map (λ p. length p.1.rules) sets);
    enabled_rules_count = sum (map (λ p. length (retain (λ r. r.enabled) p.1.rules)) sets);
  }

  -- The sets replaced, the cache cleared and the sets counted again.
  abbrev pub with_sets :
      CompletePolicyEngine L → HashMap String (PolicySet L) → CompletePolicyEngine L
  with_sets e sets = record e {
    policy_sets = sets;
    evaluation_cache = [];
    stats = count_sets sets e.stats;
  }

  unfoldable pub add_policy_set :
      CompletePolicyEngine L → PolicySet L → CompletePolicyEngine L × NetResult (Unit {0})
  add_policy_set e s = (with_sets e (insert s.id s e.policy_sets), ok tt)

  unfoldable pub remove_policy_set :
      CompletePolicyEngine L → String → CompletePolicyEngine L × NetResult (Unit {0})
  remove_policy_set e id = elim (lookup id e.policy_sets) [
    | some s ↦ (with_sets e (remove id e.policy_sets), ok tt)
    | none ↦ (e, err (not_found 6002))
  ]

  unfoldable pub set_policy_set_enabled :
      CompletePolicyEngine L → String → Bool → CompletePolicyEngine L × NetResult (Unit {0})
  set_policy_set_enabled e id enabled = elim (lookup id e.policy_sets) [
    | some s ↦ (
      record e {
        policy_sets = insert id (record s { enabled = enabled }) e.policy_sets;
        evaluation_cache = [];
      },
      ok tt,
    )
    | none ↦ (e, err (not_found 6004))
  ]

  unfoldable pub reset_stats : CompletePolicyEngine L → CompletePolicyEngine L
  reset_stats e = record e {
    stats = record no_stats {
      policy_sets_count = e.stats.policy_sets_count;
      total_rules_count = e.stats.total_rules_count;
      enabled_rules_count = e.stats.enabled_rules_count;
    };
  }

  -- The first key of the cache is removed when the cache is full.
  abbrev pub evict :
      HashMap String (PolicySetEvaluationResult L) → HashMap String (PolicySetEvaluationResult L)
  evict [] = []
  evict ((k, r) ∷ cache) = remove k ((k, r) ∷ cache)

  unfoldable pub cache_result :
      CompletePolicyEngine L → String → PolicySetEvaluationResult L → CompletePolicyEngine L
  cache_result e key result =
      let cache = e.evaluation_cache in
      let room = if leb e.config.max_cache_entries (length cache) then evict cache else cache in
      record e { evaluation_cache = insert key result room }

  -- What an evaluation without the cache gives.
  abbrev pub set_result :
      Option (PolicySet L) → PolicyContext L → NetResult (PolicySetEvaluationResult L)
  set_result none context = err unknown_set
  set_result (some s) context = evaluate_set s context

  -- The end of `evaluate`: a result is cached and counted, an error returned.
  abbrev pub finish :
      CompletePolicyEngine L
      → String
      → ℕ
      → NetResult (PolicySetEvaluationResult L)
      → CompletePolicyEngine L × NetResult (PolicySetEvaluationResult L)
  finish e key elapsed (ok result) =
      let cached = if e.config.enable_cache then cache_result e key result else e in
      (record cached { stats = record_evaluation cached.stats elapsed }, ok result)
  finish e key elapsed (err x) = (e, err x)
  finish e key elapsed panics = (e, panics)

  abbrev pub miss : CompletePolicyEngine L → CompletePolicyEngine L
  miss e = record e { stats = record e.stats { cache_misses = suc e.stats.cache_misses } }

  abbrev pub hit : CompletePolicyEngine L → CompletePolicyEngine L
  hit e = record e { stats = record e.stats { cache_hits = suc e.stats.cache_hits } }

  abbrev pub get_cached_result :
      CompletePolicyEngine L → String → Option (PolicySetEvaluationResult L)
  get_cached_result e key = if e.config.enable_cache then lookup key e.evaluation_cache else none

  -- `evaluate` after the cache was asked.
  abbrev pub answer :
      CompletePolicyEngine L
      → String
      → String
      → PolicyContext L
      → ℕ
      → Option (PolicySetEvaluationResult L)
      → CompletePolicyEngine L × NetResult (PolicySetEvaluationResult L)
  answer e key id context elapsed (some result) = (hit e, ok result)
  answer e key id context elapsed none =
      finish (miss e) key elapsed (set_result (lookup id e.policy_sets) context)

  -- `CompletePolicyEngine::evaluate`, which takes `elapsed` microseconds.
  unfoldable pub evaluate :
      CacheKey L
      → CompletePolicyEngine L
      → String
      → PolicyContext L
      → ℕ
      → CompletePolicyEngine L × NetResult (PolicySetEvaluationResult L)
  evaluate cache_key e id context elapsed =
      let key = cache_key id context in answer e key id context elapsed (get_cached_result e key)
