-- ===== src/Net/Metrics/Tests.antt =====
-- The theorems about the metrics at concrete inputs.
use bey.Base.{ℕ, ◌≡◌, refl, List, [], ◌∷◌}
use bey.Net.Metrics.{new_histogram, record_latency, reach, get_percentile}
use bey.Net.Metrics.Percentiles.{histogram, IsPercentile, get_percentile-IsPercentile}

abbrev latencies : List ℕ
latencies = 3 ∷ 800 ∷ 40 ∷ 7 ∷ []

half : get_percentile (histogram latencies) 2 ≡ 10
unfolding get_percentile reach record_latency new_histogram
half = refl

-- The 99th percentile of a single latency: 0.99 is cut to the rank 0.
of_one : get_percentile (histogram (800 ∷ [])) 0 ≡ 1
unfolding get_percentile reach record_latency new_histogram
of_one = refl

get_percentile-IsPercentile_example :
    IsPercentile latencies 2 (get_percentile (histogram latencies) 2)
get_percentile-IsPercentile_example = get_percentile-IsPercentile 3 (800 ∷ 40 ∷ 7 ∷ []) 2
