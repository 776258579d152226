-- ===== src/CloudWatch/Staleness.antt =====
-- backend/aws/cloudwatch_collector.py: sequences of its operations, and the queries after them.
use aiops_aws.Prelude.{ℕ, ◌+◌, ◌≤◌, ◌<◌, String, ◌≡◌, refl, ap₂, List, [], ◌∷◌, arith}
use aiops_aws.CloudWatch.{Aws, Collector, Dimension, MetricQuery, cache_ttl}
use aiops_aws.CloudWatch.Caches.{
  discovered_from, clear_metric_caches, refresh_caches_if_needed, resolve_volume_ids,
}
use aiops_aws.CloudWatch.Queries.{metric_queries}
use aiops_aws.CloudWatch.Fetch.{fetch_single_metric, build_queries, ask, fetch_all_metrics_batch}
use aiops_aws.CloudWatch.Freshness.{
  volumes_at, IsFresh, IsFresh-later, IsFresh-tick, clear-IsFresh, refresh-IsFresh,
}
use aiops_aws.CloudWatch.Lookups.{resolve_volume_ids-Answers, discover_cwagent_metrics-Answers}

-- the calls that other modules make
pub data Activity : Type 0 where
  fetch_batch : String → ℕ → Activity
  fetch_one : String → String → List Dimension → String → ℕ → Activity
  clear : Activity

module _ {V : Type 0} (aws : Aws V) where
  -- the globals when the module has been loaded
  unfoldable pub loaded : Collector
  loaded = record {
    cwagent_dimensions_cache = [];
    volume_ids_cache = [];
    cache_last_refresh = aws.clock 0;
    step = 1;
  }

  unfoldable pub perform : Activity → Collector → Collector
  unfolding fetch_all_metrics_batch build_queries fetch_single_metric clear_metric_caches
  perform (fetch_batch i span) c = (fetch_all_metrics_batch aws i span c).1
  perform (fetch_one name namespace dimensions stat span) c =
      (fetch_single_metric aws name namespace dimensions stat span c).1
  perform clear c = clear_metric_caches aws c

  unfoldable pub perform_all : List Activity → Collector → Collector
  unfolding perform
  perform_all [] c = c
  perform_all (a ∷ calls) c = perform_all calls (perform a c)

module _ {V : Type 0} (aws : Aws V)
    (clock_mono : (n m : ℕ) → n ≤ m → aws.clock n ≤ aws.clock m) where
  -- What the queries of a batch are made of, from fresh caches.
  pub build_queries-IsFresh :
      (i : String) (c : Collector)
      → IsFresh aws c
      → ((n : ℕ) × (m : ℕ) × ((build_queries aws i c).0.1
            ≡ metric_queries i (discovered_from aws i n) (volumes_at aws i m))
          × (n < (build_queries aws i c).1.step)
          × (m < (build_queries aws i c).1.step)
          × (aws.clock c.step < aws.clock n + cache_ttl)
          × (aws.clock c.step < aws.clock m + cache_ttl))
        × IsFresh aws (build_queries aws i c).1
  unfolding build_queries
  build_queries-IsFresh i c h =
      let (h₁, young, before) = refresh-IsFresh aws clock_mono c h in
      let c₁ = refresh_caches_if_needed aws c in
      let h₁' = IsFresh-tick aws clock_mono c₁ 1 h₁ in
      let c₁' : Collector = record c₁ { step = c₁.step + 1 } in
      let ((m, since₂, before₂, eq₂), h₂, last₂, le₂) =
        resolve_volume_ids-Answers aws clock_mono i c₁' h₁' in
      let c₂ = (resolve_volume_ids aws i c₁').1 in
      let ((n, since₃, before₃, eq₃), h₃, last₃, le₃) =
        discover_cwagent_metrics-Answers aws clock_mono i c₂ h₂ in
      (
        (
          n,
          m,
          ap₂ (metric_queries i) eq₃ eq₂,
          omega (arith, before₃),
          omega (arith, before₂, le₃),
          omega (arith, young, since₃, last₂, last₃),
          omega (arith, young, since₂, last₂),
        ),
        h₃,
      )

  ask-IsFresh :
      (span now : ℕ) (queries : List MetricQuery) (c : Collector)
      → IsFresh aws c
      → IsFresh aws (ask aws span now queries c).1
  ask-IsFresh span now [] c h = h
  ask-IsFresh span now (q ∷ qs) c h = IsFresh-tick aws clock_mono c 1 h

  perform-IsFresh : (a : Activity) (c : Collector) → IsFresh aws c → IsFresh aws (perform aws a c)
  unfolding perform fetch_all_metrics_batch build_queries fetch_single_metric
  perform-IsFresh (fetch_batch i span) c h =
      let ((now, queries), c') = build_queries aws i c in
      ask-IsFresh span now queries c' (build_queries-IsFresh i c h).1
  perform-IsFresh (fetch_one name namespace dimensions stat span) c h =
      IsFresh-later aws clock_mono c (record c { step = c.step + 1 + 1 }) refl refl refl
        (omega arith) h
  perform-IsFresh clear c h = clear-IsFresh aws clock_mono c

  perform_all-IsFresh :
      (calls : List Activity) (c : Collector)
      → IsFresh aws c
      → IsFresh aws (perform_all aws calls c)
  unfolding perform_all
  perform_all-IsFresh [] c h = h
  perform_all-IsFresh (a ∷ calls) c h =
      perform_all-IsFresh calls (perform aws a c) (perform-IsFresh a c h)

  loaded-IsFresh : IsFresh aws (loaded aws)
  unfolding loaded
  loaded-IsFresh = record {
    refreshed = clock_mono 0 1 (omega arith);
    dimensions = λ i x e. absurd (ground (arith, e));
    volumes = λ i x e. absurd (ground (arith, e));
  }

  -- Where the clock does not go back: after any sequence of batch fetches, single fetches and
  -- clears since the module was loaded, a batch fetch of an instance asks for the metrics that the
  -- calls from some one on found, and for the volumes that some call found, none where it failed;
  -- and at the start of the fetch both of these calls are less than the time to live of the caches,
  -- 15 minutes, ago.
  pub build_queries-young :
      (calls : List Activity) (i : String)
      → let c = perform_all aws calls (loaded aws) in
        (n : ℕ) × (m : ℕ) × ((build_queries aws i c).0.1
          ≡ metric_queries i (discovered_from aws i n) (volumes_at aws i m))
        × (n < (build_queries aws i c).1.step)
        × (m < (build_queries aws i c).1.step)
        × (aws.clock c.step < aws.clock n + cache_ttl)
        × (aws.clock c.step < aws.clock m + cache_ttl)
  build_queries-young calls i =
      (build_queries-IsFresh i (perform_all aws calls (loaded aws))
        (perform_all-IsFresh calls (loaded aws) loaded-IsFresh)).0
