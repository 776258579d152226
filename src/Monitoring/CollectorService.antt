-- ===== src/Monitoring/CollectorService.antt =====
-- backend/aws/collector_service.py: the metrics of an instance from one batch.
use aiops_aws.Prelude.{
  ℕ, String, Option, none, some, [], ◌∷◌, Dict, lookup, lower, is_prefix, if◌then◌else◌,
}
use aiops_aws.CloudWatch.{Collector}
use aiops_aws.CloudWatch.Queries.{instance_dimensions}
use aiops_aws.CloudWatch.Fetch.{fetch_all_metrics_batch, fetch_single_metric}
use aiops_aws.Monitoring.{Floats, Metrics, Services, World, current_time}

module _ {V : Type 0} (floats : Floats V) where
  abbrev pub or_zero : Option (Option V) → V
  or_zero none = floats.of_int 0
  or_zero (some none) = floats.of_int 0
  or_zero (some (some v)) = v

  -- `_value(name)`
  abbrev pub value : Dict (Option V) → String → V
  value raw name = or_zero (lookup name raw)

  abbrev pub add_value : Option V → V → V
  add_value none total = total
  add_value (some v) total = floats.plus total v

  -- the sum over the names with a prefix, going on from a total
  abbrev pub sum_from : V → String → Dict (Option V) → V
  sum_from total prefix [] = total
  sum_from total prefix ((k, v) ∷ raw) =
      sum_from (if is_prefix prefix k then add_value v total else total) prefix raw

  -- `_sum_ebs(metric_name)`
  unfoldable pub sum_ebs : Dict (Option V) → String → V
  unfolding lower
  sum_ebs raw metric_name = sum_from (floats.of_int 0) (lower metric_name) raw

  unfoldable pub metrics_of : String → ℕ → Dict (Option V) → Metrics V
  metrics_of instance_id now raw = record {
    instance_id = instance_id;
    timestamp = now;
    cpu = value raw "cpuutilization";
    memory = value raw "mem_used_percent";
    gpu_utilization = value raw "gpuutilization";
    gpu_memory_utilization = value raw "gpumemoryutilization";
    gpu_encoder_session_count = value raw "gpuencoderstatssessioncount";
    network_in = value raw "networkin";
    network_out = value raw "networkout";
    network_packets_in = value raw "networkpacketsin";
    network_packets_out = value raw "networkpacketsout";
    disk_read_ops = value raw "diskreadops";
    disk_write_ops = value raw "diskwriteops";
    disk_read_bytes = value raw "diskreadbytes";
    disk_write_bytes = value raw "diskwritebytes";
    volume_read_bytes = sum_ebs raw "VolumeReadBytes";
    volume_write_bytes = sum_ebs raw "VolumeWriteBytes";
    volume_read_ops = sum_ebs raw "VolumeReadOps";
    volume_write_ops = sum_ebs raw "VolumeWriteOps";
  }

  -- The batch is over the last 10 minutes; the `timestamp` is read when the record is built.
  unfoldable pub collect_metrics : Services V → String → World → Metrics V × World
  collect_metrics services instance_id w =
      let (raw, c) = fetch_all_metrics_batch services.aws instance_id 10 w.collector in
      let (now, w') = current_time services (record w { collector = c }) in
      (metrics_of instance_id now raw, w')

-- It prints the value too.
unfoldable pub debug_metric :
    {V : Type 0} → Services V → String → String → String → String → Collector → Option V × Collector
debug_metric services instance_id metric_name namespace stat c =
    fetch_single_metric services.aws metric_name namespace (instance_dimensions instance_id) stat 10
      c
