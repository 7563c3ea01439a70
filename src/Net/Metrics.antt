-- ===== src/Net/Metrics.antt =====
-- The metrics, src/crates/bey-net/src/metrics.rs. Times are milliseconds and readings of the clock
-- arguments. The two rates and the mean round-trip time, which are f64, are left out; so the rank
-- that `get_percentile` computes in f64 is its argument. Counters are unbounded.
pub mod Percentiles
mod Tests
use bey.Base.{
  ℕ, suc, ◌+◌, ◌-◌, ◌/◌, min, max, leb, ltb, eqb, ◌&&◌, if◌then◌else◌, Option, none, some, List, [],
  ◌∷◌, String, string_eq, nat_eq, HashMap, HashKey, lookup, insert,
}

pub record Metrics : Type 0 where
  pub bytes_sent : ℕ
  pub bytes_received : ℕ
  pub tokens_sent : ℕ
  pub tokens_received : ℕ
  pub min_rtt_ms : ℕ
  pub max_rtt_ms : ℕ
  pub error_count : ℕ
  pub retransmit_count : ℕ
  pub timeout_count : ℕ
  pub active_connections : ℕ
  pub active_streams : ℕ
  pub queue_size : ℕ
  pub start_time : ℕ
  pub uptime_secs : ℕ

-- `Metrics::default`, at a reading of the clock.
abbrev pub default_metrics : ℕ → Metrics
default_metrics now = record {
  bytes_sent = 0;
  bytes_received = 0;
  tokens_sent = 0;
  tokens_received = 0;
  min_rtt_ms = 18446744073709551615;
  max_rtt_ms = 0;
  error_count = 0;
  retransmit_count = 0;
  timeout_count = 0;
  active_connections = 0;
  active_streams = 0;
  queue_size = 0;
  start_time = now;
  uptime_secs = 0;
}

-- The seven buckets of the array.
pub record LatencyHistogram : Type 0 where
  pub to_1 : ℕ
  pub to_10 : ℕ
  pub to_50 : ℕ
  pub to_100 : ℕ
  pub to_500 : ℕ
  pub to_1000 : ℕ
  pub above : ℕ

unfoldable pub new_histogram : LatencyHistogram
new_histogram = record {
  to_1 = 0;
  to_10 = 0;
  to_50 = 0;
  to_100 = 0;
  to_500 = 0;
  to_1000 = 0;
  above = 0;
}

-- `LatencyHistogram::record`.
unfoldable pub record_latency : LatencyHistogram → ℕ → LatencyHistogram
record_latency h latency_ms =
    if leb latency_ms 1
    then record h { to_1 = suc h.to_1 }
    else (if leb latency_ms 10
        then record h { to_10 = suc h.to_10 }
        else (if leb latency_ms 50
            then record h { to_50 = suc h.to_50 }
            else (if leb latency_ms 100
                then record h { to_100 = suc h.to_100 }
                else (if leb latency_ms 500
                    then record h { to_500 = suc h.to_500 }
                    else (if leb latency_ms 1000
                        then record h { to_1000 = suc h.to_1000 }
                        else record h { above = suc h.above })))))

abbrev pub total : LatencyHistogram → ℕ
total h = h.to_1 + h.to_10 + h.to_50 + h.to_100 + h.to_500 + h.to_1000 + h.above

-- Each bucket with the answer for it.
abbrev pub answers : LatencyHistogram → List (ℕ × ℕ)
answers h =
    (h.to_1, 1)
    ∷ (h.to_10, 10)
    ∷ (h.to_50, 50)
    ∷ (h.to_100, 100)
    ∷ (h.to_500, 500)
    ∷ (h.to_1000, 1000)
    ∷ (h.above, 2000)
    ∷ []

-- The loop over the buckets.
unfoldable pub reach : ℕ → ℕ → List (ℕ × ℕ) → ℕ
reach target cumulative [] = 2000
reach target cumulative ((count, answer) ∷ rest) =
    let later = reach target (cumulative + count) rest in
    if leb target (cumulative + count) then answer else later

-- `get_percentile`, where `target` is the total times the percentile, cut to a whole number.
unfoldable pub get_percentile : LatencyHistogram → ℕ → ℕ
unfolding reach
get_percentile h target = if eqb (total h) 0 then 0 else reach target 0 (answers h)

pub record ErrorStats : Type 0 where
  pub by_code : HashMap ℕ ℕ
  pub by_category : HashMap String ℕ

pub record MetricsCollector : Type 0 where
  pub metrics : Metrics
  pub latency_histogram : LatencyHistogram
  pub error_stats : ErrorStats
  pub last_update : ℕ

unfoldable pub new : ℕ → MetricsCollector
new now = record {
  metrics = default_metrics now;
  latency_histogram = new_histogram;
  error_stats = record { by_code = []; by_category = [] };
  last_update = now;
}

unfoldable pub record_send : MetricsCollector → ℕ → MetricsCollector
record_send c bytes = record c {
  metrics = record c.metrics {
    bytes_sent = c.metrics.bytes_sent + bytes;
    tokens_sent = suc c.metrics.tokens_sent;
  };
}

unfoldable pub record_receive : MetricsCollector → ℕ → MetricsCollector
record_receive c bytes = record c {
  metrics = record c.metrics {
    bytes_received = c.metrics.bytes_received + bytes;
    tokens_received = suc c.metrics.tokens_received;
  };
}

unfoldable pub record_rtt : MetricsCollector → ℕ → MetricsCollector
unfolding record_latency
record_rtt c rtt_ms = record c {
  metrics = record c.metrics {
    min_rtt_ms = min c.metrics.min_rtt_ms rtt_ms;
    max_rtt_ms = max c.metrics.max_rtt_ms rtt_ms;
  };
  latency_histogram = record_latency c.latency_histogram rtt_ms;
}

abbrev pub or_zero : Option ℕ → ℕ
or_zero none = 0
or_zero (some n) = n

-- `*map.entry(key).or_insert(0) += 1`.
module _ {K : Type 0} ⦃e : HashKey K⦄ where
  abbrev pub count_key : K → HashMap K ℕ → HashMap K ℕ
  count_key k m = insert k (suc (or_zero (lookup k m))) m

unfoldable pub record_error : MetricsCollector → ℕ → String → MetricsCollector
record_error c error_code category = record c {
  metrics = record c.metrics { error_count = suc c.metrics.error_count };
  error_stats = record {
    by_code = count_key error_code c.error_stats.by_code;
    by_category = count_key category c.error_stats.by_category;
  };
}

unfoldable pub record_retransmit : MetricsCollector → MetricsCollector
record_retransmit c = record c {
  metrics = record c.metrics { retransmit_count = suc c.metrics.retransmit_count };
}

unfoldable pub record_timeout : MetricsCollector → MetricsCollector
record_timeout c = record c {
  metrics = record c.metrics { timeout_count = suc c.metrics.timeout_count };
}

unfoldable pub update_connections : MetricsCollector → ℕ → MetricsCollector
update_connections c count = record c { metrics = record c.metrics { active_connections = count } }

unfoldable pub update_streams : MetricsCollector → ℕ → MetricsCollector
update_streams c count = record c { metrics = record c.metrics { active_streams = count } }

unfoldable pub update_queue_size : MetricsCollector → ℕ → MetricsCollector
update_queue_size c size = record c { metrics = record c.metrics { queue_size = size } }

-- The time since the start, where the clock has not gone back.
abbrev pub uptime : Metrics → ℕ → ℕ
uptime m now = if leb m.start_time now then (now - m.start_time) / 1000 else m.uptime_secs

-- `update_rates`, but for the rates: nothing happens within a second of the last time.
unfoldable pub update_rates : MetricsCollector → ℕ → MetricsCollector
update_rates c now =
    if leb c.last_update now && ltb 0 ((now - c.last_update) / 1000)
    then record c {
      metrics = record c.metrics { uptime_secs = uptime c.metrics now };
      last_update = now;
    }
    else c

-- `get_metrics`, which updates the rates first.
abbrev pub get_metrics : MetricsCollector → ℕ → MetricsCollector × Metrics
get_metrics c now = (update_rates c now, (update_rates c now).metrics)

-- `reset` keeps the time of the last update.
unfoldable pub reset : MetricsCollector → ℕ → MetricsCollector
reset c now = record c {
  metrics = default_metrics now;
  latency_histogram = new_histogram;
  error_stats = record { by_code = []; by_category = [] };
}
