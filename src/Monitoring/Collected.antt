-- ===== src/Monitoring/Collected.antt =====
-- backend/aws/collector_service.py: the metrics of an instance whose queries are all answered.
use aiops_aws.Prelude.{ℕ, ◌+◌, String, ◌≡◌, refl, ap, sym, subst, ◌∙◌, some, List, [], ◌∷◌, map}
use aiops_aws.Ec2.{returned}
use aiops_aws.CloudWatch.{Aws, Collector, MetricQuery, MetricDataResult}
use aiops_aws.CloudWatch.Caches.{
  refresh_caches_if_needed, resolve_volume_ids, discover_cwagent_metrics,
}
use aiops_aws.CloudWatch.Results.{parse_results}
use aiops_aws.CloudWatch.Fetch.{batch_of, ask, build_queries, fetch_all_metrics_batch}
use aiops_aws.CloudWatch.VolumeIds.{
  HasDistinctVolumes, metric_queries-HasDistinctIds, metric_queries_named,
}
use aiops_aws.CloudWatch.Answered.{kept, parse_results-replies}
use aiops_aws.Monitoring.{Floats, Services, World}
use aiops_aws.Monitoring.CollectorService.{metrics_of, collect_metrics}
use aiops_aws.Monitoring.Volumes.{answers, SumsVolumes, metrics_of-SumsVolumes}

module _ {V : Type 0} (services : Services V) (reply : MetricQuery → MetricDataResult V) where
  -- CloudWatch answers every request with a result for each query, in their order
  abbrev pub AlwaysReplies : Type 0
  AlwaysReplies =
      (n : ℕ) (queries : List MetricQuery) (start end_time : ℕ)
      → services.aws.get_metric_data n queries start end_time ≡ returned (some (map reply queries))

  ask-replies :
      AlwaysReplies
      → (span now : ℕ) (queries : List MetricQuery) (c : Collector)
      → (ask services.aws span now queries c).0 ≡ parse_results (some (map reply queries))
  unfolding parse_results
  ask-replies replies span now [] c = refl
  ask-replies replies span now (q ∷ qs) c = ap batch_of (replies _ _ _ _)

-- what a batch finds of volumes, in the cache or from EC2, and the state then
abbrev found_volumes : {V : Type 0} → Aws V → String → Collector → List String × Collector
found_volumes aws i c =
    let c₁ = refresh_caches_if_needed aws c in
    resolve_volume_ids aws i (record c₁ { step = c₁.step + 1 })

abbrev pub batch_volumes : {V : Type 0} → Aws V → String → Collector → List String
batch_volumes aws i c = (found_volumes aws i c).0

module _ {V : Type 0} (services : Services V) (floats : Floats V) where
  -- When CloudWatch answers every request with a result for each query, which has the query's id,
  -- and in the queries' order, and no two of the instance's volumes have the same name in ids:
  -- each of the four volume metrics that are collected is the sum of the latest values for that
  -- metric over the instance's volumes, from 0 and in their order, and no other query's value is
  -- in it.
  pub collect_metrics-SumsVolumes :
      (reply : MetricQuery → MetricDataResult V) (i : String) (w : World)
      → AlwaysReplies services reply
      → ((q : MetricQuery) → (reply q).result_id ≡ some q.query_id)
      → HasDistinctVolumes (batch_volumes services.aws i w.collector)
      → SumsVolumes floats
          (kept reply)
          (collect_metrics floats services i w).0
          (batch_volumes services.aws i w.collector)
  unfolding collect_metrics fetch_all_metrics_batch build_queries
  collect_metrics-SumsVolumes reply i w replies named distinct =
      let ((now, queries), c) = build_queries services.aws i w.collector in
      let after = (fetch_all_metrics_batch services.aws i 10 w.collector).1 in
      let ids = batch_volumes services.aws i w.collector in
      let discovered =
        (discover_cwagent_metrics services.aws i (found_volumes services.aws i w.collector).1).0 in
      let answered : parse_results (some (map reply queries))
          ≡ answers floats (kept reply) queries =
        parse_results-replies reply named queries
          (metric_queries-HasDistinctIds i discovered ids distinct)
          (metric_queries_named i discovered ids) in
      subst
        (λ raw.
          SumsVolumes floats (kept reply) (metrics_of floats i (services.aws.clock after.step) raw)
            ids)
        (sym (ask-replies services reply replies 10 now queries c ∙ answered))
        (metrics_of-SumsVolumes floats (kept reply) i discovered ids
          (services.aws.clock after.step))
