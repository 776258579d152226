-- ===== src/CloudWatch/Fetch.antt =====
-- backend/aws/cloudwatch_collector.py: the fetch of one metric, and of all of an instance.
use aiops_aws.Prelude.{ℕ, ◌+◌, ◌-◌, String, Option, none, some, List, [], ◌∷◌, Dict, lookup}
use aiops_aws.Security.{minutes}
use aiops_aws.Ec2.{Reply, returned, failed}
use aiops_aws.CloudWatch.{Aws, Collector, Dimension, MetricQuery, MetricDataResult, Datapoint}
use aiops_aws.CloudWatch.Caches.{
  refresh_caches_if_needed, resolve_volume_ids, discover_cwagent_metrics,
}
use aiops_aws.CloudWatch.Queries.{metric_queries}
use aiops_aws.CloudWatch.Results.{latest_datapoint, parse_results}

module _ {V : Type 0} where
  abbrev pub statistic_of : String → Reply (Option (List (Datapoint V))) → Option V
  statistic_of stat (failed e) = none
  statistic_of stat (returned none) = none
  statistic_of stat (returned (some [])) = none
  statistic_of stat (returned (some (d ∷ ds))) = lookup stat (latest_datapoint d ds).statistics

  abbrev pub batch_of : Reply (Option (List (MetricDataResult V))) → Dict (Option V)
  batch_of (failed e) = []
  batch_of (returned response) = parse_results response

module _ {V : Type 0} (aws : Aws V) where
  unfoldable pub fetch_single_metric :
      String → String → List Dimension → String → ℕ → Collector → Option V × Collector
  fetch_single_metric metric_name namespace dimensions stat span c =
      let now = aws.clock c.step in
      (
        statistic_of stat (
            aws.get_metric_statistics (c.step + 1) (record {
              namespace = namespace;
              metric_name = metric_name;
              dimensions = dimensions;
              start_time = now - minutes span;
              end_time = now;
              period = 300;
              stat = stat;
            })),
        record c { step = c.step + 1 + 1 },
      )

  -- What `fetch_all_metrics_batch` does before it asks for the data: the time, and the queries.
  unfoldable pub build_queries : String → Collector → (ℕ × List MetricQuery) × Collector
  build_queries instance_id c =
      let c₁ = refresh_caches_if_needed aws c in
      let now = aws.clock c₁.step in
      let (volume_ids, c₂) =
        resolve_volume_ids aws instance_id (record c₁ { step = c₁.step + 1 }) in
      let (discovered, c₃) = discover_cwagent_metrics aws instance_id c₂ in
      ((now, metric_queries instance_id discovered volume_ids), c₃)

  -- the rest of it
  abbrev pub ask : ℕ → ℕ → List MetricQuery → Collector → Dict (Option V) × Collector
  ask span now [] c = ([], c)
  ask span now (q ∷ qs) c = (
    batch_of (aws.get_metric_data c.step (q ∷ qs) (now - minutes span) now),
    record c { step = c.step + 1 },
  )

  unfoldable pub fetch_all_metrics_batch : String → ℕ → Collector → Dict (Option V) × Collector
  fetch_all_metrics_batch instance_id span c =
      let ((now, queries), c') = build_queries instance_id c in ask span now queries c'
