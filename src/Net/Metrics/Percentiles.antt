-- ===== src/Net/Metrics/Percentiles.antt =====
-- What the percentiles of the metrics (src/crates/bey-net/src/metrics.rs) say of the latencies.
use bey.Base.{
  ℕ, suc, ◌+◌, ◌≤◌, ◌<◌, ◌≡◌, refl, ◌⊎◌, leb, eqb, if◌then◌else◌, if_false, List, [], ◌∷◌, All,
  length, arith,
}
use bey.Net.Metrics.{
  LatencyHistogram, total, new_histogram, record_latency, reach, answers, get_percentile,
}

-- The histogram of some latencies, the first recorded last.
abbrev pub histogram : List ℕ → LatencyHistogram
histogram [] = new_histogram
histogram (x ∷ xs) = record_latency (histogram xs) x

abbrev pub count_le : ℕ → List ℕ → ℕ
count_le b [] = 0
count_le b (x ∷ xs) = if leb x b then suc (count_le b xs) else count_le b xs

record Counts (xs : List ℕ) (h : LatencyHistogram) : Type 0 where
  le_1 : count_le 1 xs ≡ h.to_1
  le_10 : count_le 10 xs ≡ h.to_1 + h.to_10
  le_50 : count_le 50 xs ≡ h.to_1 + h.to_10 + h.to_50
  le_100 : count_le 100 xs ≡ h.to_1 + h.to_10 + h.to_50 + h.to_100
  le_500 : count_le 500 xs ≡ h.to_1 + h.to_10 + h.to_50 + h.to_100 + h.to_500
  le_1000 : count_le 1000 xs ≡ h.to_1 + h.to_10 + h.to_50 + h.to_100 + h.to_500 + h.to_1000
  all : length xs ≡ total h

record_latency-Counts :
    (x : ℕ) (xs : List ℕ) (h : LatencyHistogram)
    → Counts xs h
    → Counts (x ∷ xs) (record_latency h x)
unfolding record_latency
record_latency-Counts x xs h c = record {
  le_1 = ground (arith, c.le_1);
  le_10 = ground (arith, c.le_10);
  le_50 = ground (arith, c.le_50);
  le_100 = ground (arith, c.le_100);
  le_500 = ground (arith, c.le_500);
  le_1000 = ground (arith, c.le_1000);
  all = ground (arith, c.all);
}

histogram-Counts : (xs : List ℕ) → Counts xs (histogram xs)
unfolding new_histogram
histogram-Counts [] = record {
  le_1 = refl;
  le_10 = refl;
  le_50 = refl;
  le_100 = refl;
  le_500 = refl;
  le_1000 = refl;
  all = refl;
}
histogram-Counts (x ∷ xs) = record_latency-Counts x xs (histogram xs) (histogram-Counts xs)

-- The limits of the buckets.
abbrev pub limits : List ℕ
limits = 1 ∷ 10 ∷ 50 ∷ 100 ∷ 500 ∷ 1000 ∷ []

-- At least that many latencies are at most the answer, unless it is 2000, and fewer than that are
-- at most any limit below it.
abbrev pub IsPercentile : List ℕ → ℕ → ℕ → Type 0
IsPercentile xs target b =
    ((target ≤ count_le b xs) ⊎ (b ≡ 2000)) × All (λ c. (b ≤ c) ⊎ (count_le c xs < target)) limits

reach-IsPercentile :
    (xs : List ℕ) (target : ℕ) (h : LatencyHistogram)
    → Counts xs h
    → IsPercentile xs target (reach target 0 (answers h))
unfolding reach
reach-IsPercentile xs target h c =
    ground (arith, c.le_1, c.le_10, c.le_50, c.le_100, c.le_500, c.le_1000)

-- get_percentile of the latencies recorded, for a rank: the answer is the limit of the first bucket
-- up to which there are that many latencies, or 2000 where fewer are at most 1000 milliseconds.
-- There is a latency.
pub get_percentile-IsPercentile :
    (x : ℕ) (xs : List ℕ) (target : ℕ)
    → IsPercentile (x ∷ xs) target (get_percentile (histogram (x ∷ xs)) target)
unfolding get_percentile
get_percentile-IsPercentile x xs target =
    let c = histogram-Counts (x ∷ xs) in
    if_false (IsPercentile (x ∷ xs) target) (eqb (total (histogram (x ∷ xs))) 0) _ _
      (ground (arith, c.all)) (reach-IsPercentile (x ∷ xs) target (histogram (x ∷ xs)) c)
