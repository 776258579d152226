-- ===== src/CloudWatch/Caches.antt =====
-- backend/aws/cloudwatch_collector.py: the caches, and the discovery of metrics and volumes.
use aiops_aws.Prelude.{
  ℕ, ◌+◌, ◌-◌, String, Option, none, some, List, [], ◌∷◌, ◌++◌, map, length, Dict, lookup, assign,
  leb, if◌then◌else◌,
}
use aiops_aws.Ec2.{Reply, returned, failed}
use aiops_aws.CloudWatch.{
  Aws, Collector, Dimension, MetricEntry, Mapping, Devices, DeviceReservation, DevicePage,
  cache_ttl,
}

-- `CWAGENT_METRICS`, and `OPTIONAL_CWAGENT_METRICS` after them, with the statistics to ask for
abbrev pub cwagent_metrics : Dict String
cwagent_metrics = ("mem_used_percent", "Average") ∷ []

abbrev pub optional_cwagent_metrics : Dict String
optional_cwagent_metrics =
    ("GPUUtilization", "Average")
    ∷ ("GPUMemoryUtilization", "Average")
    ∷ ("GPUEncoderStatsSessionCount", "Average")
    ∷ []

abbrev pub all_cwagent_metrics : Dict String
all_cwagent_metrics = cwagent_metrics ++ optional_cwagent_metrics

-- `metrics[0]["Dimensions"]`, and `none` where there is no metric or anything raised, which the
-- loop catches
abbrev pub found_dimensions : Reply (Option (List MetricEntry)) → Option (List Dimension)
found_dimensions (returned (some (m ∷ ms))) = m.entry_dimensions
found_dimensions (returned (some [])) = none
found_dimensions (returned none) = none
found_dimensions (failed e) = none

abbrev note_metric :
    String → Option (List Dimension) → Dict (List Dimension) → Dict (List Dimension)
note_metric name none discovered = discovered
note_metric name (some dimensions) discovered = assign name dimensions discovered

abbrev mapping_volumes : Mapping → List String
mapping_volumes m = elim m.ebs [ none ↦ [] | some id ↦ elim id [ none ↦ [] | some v ↦ v ∷ [] ] ]

abbrev device_volumes : List Mapping → List String
device_volumes [] = []
device_volumes (m ∷ ms) = mapping_volumes m ++ device_volumes ms

abbrev instance_volumes : List Devices → List String
instance_volumes [] = []
instance_volumes (none ∷ is) = instance_volumes is
instance_volumes (some ms ∷ is) = device_volumes ms ++ instance_volumes is

abbrev reservation_volumes : List DeviceReservation → List String
reservation_volumes [] = []
reservation_volumes (none ∷ rs) = reservation_volumes rs
reservation_volumes (some is ∷ rs) = instance_volumes is ++ reservation_volumes rs

-- the volume ids of a response
abbrev pub page_volumes : DevicePage → List String
page_volumes none = []
page_volumes (some rs) = reservation_volumes rs

module _ {V : Type 0} (aws : Aws V) where
  unfoldable pub clear_metric_caches : Collector → Collector
  clear_metric_caches c = record c {
    cwagent_dimensions_cache = [];
    volume_ids_cache = [];
    cache_last_refresh = aws.clock c.step;
    step = c.step + 1;
  }

  -- `_refresh_caches_if_needed`
  unfoldable pub refresh_caches_if_needed : Collector → Collector
  unfolding clear_metric_caches
  refresh_caches_if_needed c =
      let c' = record c { step = c.step + 1 } in
      if leb cache_ttl (aws.clock c.step - c.cache_last_refresh) then clear_metric_caches c' else c'

  -- the loop of `_discover_cwagent_metrics`, from the n-th call on
  abbrev pub discover_each :
      String → List String → ℕ → Dict (List Dimension) → Dict (List Dimension)
  discover_each instance_id [] n discovered = discovered
  discover_each instance_id (name ∷ names) n discovered =
      discover_each instance_id names (n + 1)
        (note_metric name (found_dimensions (aws.list_metrics n name instance_id)) discovered)

  unfoldable pub discovered_from : String → ℕ → Dict (List Dimension)
  discovered_from instance_id n =
      discover_each instance_id (map (λ m. m.0) all_cwagent_metrics) n []

  abbrev cwagent_or_discover :
      String → Option (Dict (List Dimension)) → Collector → Dict (List Dimension) × Collector
  cwagent_or_discover instance_id (some discovered) c = (discovered, c)
  cwagent_or_discover instance_id none c =
      let discovered = discovered_from instance_id c.step in
      (
        discovered,
        record c {
          cwagent_dimensions_cache = assign instance_id discovered c.cwagent_dimensions_cache;
          step = c.step + length all_cwagent_metrics;
        },
      )

  -- `_discover_cwagent_metrics`
  unfoldable pub discover_cwagent_metrics : String → Collector → Dict (List Dimension) × Collector
  discover_cwagent_metrics instance_id c =
      cwagent_or_discover instance_id (lookup instance_id c.cwagent_dimensions_cache) c

  abbrev pub keep_volumes : String → Reply DevicePage → Collector → List String × Collector
  keep_volumes instance_id (failed e) c = ([], c)
  keep_volumes instance_id (returned page) c = (
    page_volumes page,
    record c { volume_ids_cache = assign instance_id (page_volumes page) c.volume_ids_cache },
  )

  abbrev volumes_or_describe : String → Option (List String) → Collector → List String × Collector
  volumes_or_describe instance_id (some ids) c = (ids, c)
  volumes_or_describe instance_id none c =
      keep_volumes instance_id (aws.describe_instances c.step instance_id)
        (record c { step = c.step + 1 })

  -- `_resolve_volume_ids`
  unfoldable pub resolve_volume_ids : String → Collector → List String × Collector
  resolve_volume_ids instance_id c =
      volumes_or_describe instance_id (lookup instance_id c.volume_ids_cache) c
