-- ===== src/Tests/CloudWatch.antt =====
-- The theorems on the CloudWatch collector at concrete inputs.
use aiops_aws.Prelude.{
  ℕ, ◌+◌, ◌-◌, ◌<◌, String, ◌≡◌, refl, some, List, [], ◌∷◌, ◌++◌, length, lookup, arith, eq_iff,
}
use aiops_aws.CloudWatch.{Collector, MetricDataResult, cache_ttl}
use aiops_aws.CloudWatch.Caches.{
  discovered_from, refresh_caches_if_needed, resolve_volume_ids, discover_cwagent_metrics,
}
use aiops_aws.CloudWatch.Queries.{metric_queries}
use aiops_aws.CloudWatch.Results.{nth, parse_results, latest_value, latest_idx}
use aiops_aws.CloudWatch.Fetch.{build_queries}
use aiops_aws.CloudWatch.Freshness.{volumes_at}
use aiops_aws.CloudWatch.Staleness.{
  Activity, fetch_batch, fetch_one, clear, loaded, perform_all, build_queries-young,
}
use aiops_aws.CloudWatch.Hits.{build_queries-cached}
use aiops_aws.CloudWatch.Latest.{IsLatest}
use aiops_aws.CloudWatch.Parsed.{parse_results-IsLatest}
use aiops_aws.Tests.Aws.{test_aws, test_devices, test_clock, test_clock_mono}

-- A batch with empty caches takes eight minutes: the caches expire between the first batch and the last.
abbrev day : List Activity
day =
    fetch_batch "i-1" 10
    ∷ fetch_one "CPUUtilization" "AWS/EC2" [] "Average" 10
    ∷ fetch_batch "i-2" 10
    ∷ clear
    ∷ fetch_batch "i-1" 10
    ∷ []

build_queries-young_example :
    let c = perform_all test_aws day (loaded test_aws) in
    (n : ℕ) × (m : ℕ) × ((build_queries test_aws "i-1" c).0.1
      ≡ metric_queries "i-1" (discovered_from test_aws "i-1" n) (volumes_at test_aws "i-1" m))
    × (n < (build_queries test_aws "i-1" c).1.step)
    × (m < (build_queries test_aws "i-1" c).1.step)
    × (test_aws.clock c.step < test_aws.clock n + cache_ttl)
    × (test_aws.clock c.step < test_aws.clock m + cache_ttl)
build_queries-young_example = build_queries-young test_aws test_clock_mono day "i-1"

abbrev start : Collector
start = record {
  cwagent_dimensions_cache = [];
  volume_ids_cache = [];
  cache_last_refresh = 1000000000;
  step = 1;
}

queries_made : length (build_queries test_aws "i-1" start).0.1 ≡ 18
unfolding build_queries metric_queries refresh_caches_if_needed resolve_volume_ids
    discover_cwagent_metrics discovered_from
queries_made = refl

still_young :
    test_clock ((build_queries test_aws "i-1" start).1.step + 1)
      - (build_queries test_aws "i-1" start).1.cache_last_refresh
    < cache_ttl
unfolding build_queries refresh_caches_if_needed resolve_volume_ids discover_cwagent_metrics
still_young = omega arith

build_queries-cached_example :
    let c' = (build_queries test_aws "i-1" start).1 in
    build_queries test_aws "i-1" (record c' { step = c'.step + 1 }) ≡ (
      (test_clock (c'.step + 1 + 1), (build_queries test_aws "i-1" start).0.1),
      record c' { step = c'.step + 1 + 1 + 1 },
    )
build_queries-cached_example =
    build_queries-cached test_aws "i-1" start 1 (λ n. (test_devices, refl)) still_young

abbrev result : String → List ℕ → List ℕ → MetricDataResult ℕ
result id values timestamps = record {
  result_id = some id;
  values = some values;
  timestamps = some timestamps;
}

abbrev earlier : List (MetricDataResult ℕ)
earlier = result "cpuutilization" (1 ∷ []) (5 ∷ []) ∷ []

abbrev later : List (MetricDataResult ℕ)
later = result "networkin" [] [] ∷ []

abbrev cpu : MetricDataResult ℕ
cpu = result "cpuutilization" (20 ∷ 30 ∷ 40 ∷ []) (300 ∷ 600 ∷ 600 ∷ [])

parse_results_latest :
    lookup "cpuutilization" (parse_results (some (earlier ++ cpu ∷ later))) ≡ some (some 30)
unfolding parse_results latest_value latest_idx
parse_results_latest = refl

parse_results-IsLatest_example :
    (i : ℕ) × (m : ℕ) × (value : ℕ) × IsLatest (300 ∷ 600 ∷ 600 ∷ []) i m
    × (nth (20 ∷ 30 ∷ 40 ∷ []) i ≡ some value)
    × (lookup "cpuutilization" (parse_results (some (earlier ++ cpu ∷ later))) ≡ some (some value))
parse_results-IsLatest_example =
    parse_results-IsLatest "cpuutilization" earlier later cpu 20 (30 ∷ 40 ∷ []) 300 (600 ∷ 600 ∷ [])
      (λ e. absurd (ground (arith, e, eq_iff "cpuutilization" ""))) refl refl refl refl refl
