-- ===== src/Monitoring/Inference.antt =====
-- backend/pipelines/inference_pipeline.py: the detection of anomalies by thresholds.
use Prim.Native.String
use aiops_aws.Prelude.{
  ℕ, String, Bool, not, ◌&&◌, Option, none, some, List, [], ◌∷◌, ◌++◌, length, Dict, lookup,
  contains, join, ltb, leb, if◌then◌else◌,
}
use aiops_aws.Ingestion.{LogSummary}
use aiops_aws.Monitoring.{
  Floats, Metrics, Observation, AnomalyResult, Services, World, current_time,
}
use aiops_aws.Monitoring.Storage.{save_anomaly_result}

-- Each threshold is a whole number.
abbrev pub feature_thresholds : Dict ℕ
feature_thresholds =
    ("cpu", 80)
    ∷ ("memory", 80)
    ∷ ("network_in", 1000000)
    ∷ ("network_out", 1000000)
    ∷ ("volume_write_bytes", 10000000)
    ∷ []

-- `metrics.model_dump()`, its fields of type `float`
abbrev pub model_dump : {V : Type 0} → Metrics V → Dict V
model_dump m =
    ("cpu", m.cpu)
    ∷ ("memory", m.memory)
    ∷ ("gpu_utilization", m.gpu_utilization)
    ∷ ("gpu_memory_utilization", m.gpu_memory_utilization)
    ∷ ("gpu_encoder_session_count", m.gpu_encoder_session_count)
    ∷ ("network_in", m.network_in)
    ∷ ("network_out", m.network_out)
    ∷ ("network_packets_in", m.network_packets_in)
    ∷ ("network_packets_out", m.network_packets_out)
    ∷ ("disk_read_ops", m.disk_read_ops)
    ∷ ("disk_write_ops", m.disk_write_ops)
    ∷ ("disk_read_bytes", m.disk_read_bytes)
    ∷ ("disk_write_bytes", m.disk_write_bytes)
    ∷ ("volume_read_bytes", m.volume_read_bytes)
    ∷ ("volume_write_bytes", m.volume_write_bytes)
    ∷ ("volume_read_ops", m.volume_read_ops)
    ∷ ("volume_write_ops", m.volume_write_ops)
    ∷ []

abbrev pub get_or {ℓ} : {A : Type ℓ} → A → Option A → A
get_or d none = d
get_or d (some a) = a

abbrev no_summary : LogSummary
no_summary = record { error_count = 0; warning_count = 0; keywords = [] }

abbrev pub severity_of : ℕ → String
severity_of n = if leb n 0 then "low" else if leb n 2 then "medium" else "high"

-- the text of a result, for what triggered it and the keywords
abbrev pub summary_of : List String → List String → String
summary_of [] keywords = "System behavior appears normal."
summary_of (t ∷ ts) [] = String.◌++◌ "Anomaly detected based on: " (join ", " (t ∷ ts))
summary_of (t ∷ ts) (k ∷ ks) =
    String.◌++◌ "Anomaly detected based on: "
      (String.◌++◌ (join ", " (t ∷ ts)) (String.◌++◌ ". Log keywords found: " (join ", " (k ∷ ks))))

abbrev pub with_errors : ℕ → List String → List String
with_errors error_count triggered =
    if ltb 0 error_count && not (contains "logs:error" triggered)
    then triggered ++ "logs:error" ∷ []
    else triggered

abbrev pub note_feature : Bool → String → List String → List String
note_feature exceeded feature more = if exceeded then feature ∷ more else more

module _ {V : Type 0} (floats : Floats V) where
  -- the loop over the thresholds
  abbrev pub triggered_by : Dict V → Dict ℕ → List String
  triggered_by metrics [] = []
  triggered_by metrics ((feature, threshold) ∷ rest) =
      note_feature
        (floats.exceeds (get_or (floats.of_int 0) (lookup feature metrics))
          (floats.of_int threshold))
        feature (triggered_by metrics rest)

  -- the result at a time
  unfoldable pub detect_anomaly_rule_based : Metrics V → Option LogSummary → ℕ → AnomalyResult V
  detect_anomaly_rule_based metrics log_summary now =
      let found = get_or no_summary log_summary in
      let triggered =
        with_errors found.error_count (triggered_by (model_dump metrics) feature_thresholds) in
      record {
        instance_id = metrics.instance_id;
        timestamp = now;
        is_anomaly = ltb 0 (length triggered);
        severity = severity_of (length triggered);
        score = floats.of_int (length triggered);
        summary = summary_of triggered found.keywords;
        triggered_features = triggered;
      }

  -- It prints the result too.
  unfoldable pub run_inference_pipeline :
      Services V → Observation V → World → AnomalyResult V × World
  unfolding detect_anomaly_rule_based
  run_inference_pipeline services observation w =
      let (now, w') = current_time services w in
      let result =
        detect_anomaly_rule_based observation.metrics (some observation.log_summary) now in
      (result, save_anomaly_result services result w')
