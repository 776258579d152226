-- ===== src/Monitoring/Pipelines.antt =====
-- backend/pipelines/ingestion_pipeline.py: `run_ingestion_pipeline`.
use aiops_aws.Prelude.{String, List, [], ◌∷◌, length}
use aiops_aws.Outcome.{ok, pure, crash, modify, ◌>>=◌, ◌>>◌}
use aiops_aws.Ingestion.{LogSummary, summarize_logs}
use aiops_aws.Monitoring.{Floats, Metrics, LogEvent, Observation, Services, World, Job}
use aiops_aws.Monitoring.CollectorService.{collect_metrics}
use aiops_aws.Monitoring.LogCollector.{fetch_logs}
use aiops_aws.Monitoring.Storage.{save_metrics, save_logs, save_observation}
use aiops_aws.Monitoring.S3Storage.{upload_metrics_to_s3, upload_logs_to_s3}

-- the settings
pub record Settings : Type 0 where
  pub instance_id : String
  pub s3_bucket_name : String
  pub log_group_name : String

-- a call that does not raise
abbrev pub always {ℓ} : {A : Type ℓ} → (World → A × World) → Job A
always f w = let (a, w') = f w in (ok a, w')

-- `summarize_logs` of what `fetch_logs` returns. A `LogEvent` has no `get`, which the first turn
-- of the loop calls.
unfoldable pub summarize_events : List LogEvent → Job LogSummary
summarize_events [] = pure (summarize_logs [])
summarize_events (log ∷ logs) = crash "AttributeError"

-- the last part, from the summary on
unfoldable pub observe :
    {V : Type 0} → Services V → Settings → Metrics V → List LogEvent → Job (Observation V)
unfolding summarize_events
observe services settings metrics logs = do
  log_summary ← summarize_events logs
  let observation : Observation _ = record {
    instance_id = settings.instance_id;
    timestamp = metrics.timestamp;
    metrics = metrics;
    raw_log_count = length logs;
    log_summary = log_summary;
  }
  modify (save_observation services observation)
  pure observation

unfoldable pub run_ingestion_pipeline :
    {V : Type 0} → Floats V → Services V → Settings → Job (Observation V)
unfolding observe
run_ingestion_pipeline floats services settings = do
  metrics ← always (collect_metrics floats services settings.instance_id)
  modify (save_metrics services metrics)
  upload_metrics_to_s3 services metrics settings.s3_bucket_name "metrics"
  logs ← always (fetch_logs services settings.instance_id settings.log_group_name 60)
  modify (save_logs services logs)
  upload_logs_to_s3 services logs settings.s3_bucket_name settings.instance_id "logs"
  observe services settings metrics logs
