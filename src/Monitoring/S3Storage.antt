-- ===== src/Monitoring/S3Storage.antt =====
-- backend/aws/s3_storage.py: the uploads. What S3 raises is logged and raised again.
use Prim.Native.String
use aiops_aws.Prelude.{ℕ, ◌+◌, String, Option, none, some, List, [], ◌∷◌, ◌++◌}
use aiops_aws.Outcome.{ok, err, unhandled, pure, ◌>>◌}
use aiops_aws.Ec2.{Reply, returned, failed, AwsError, client_error, boto_core_error}
use aiops_aws.Monitoring.{Metrics, LogEvent, Services, Job}
use aiops_aws.Monitoring.Storage.{safe_timestamp}

abbrev error_name : AwsError → String
error_name (client_error code message) = "ClientError"
error_name (boto_core_error message) = "BotoCoreError"

abbrev stored : String → String → Reply (Unit {0}) → Job (Unit {0})
stored key body (returned u) w = (ok tt, record w { uploads = w.uploads ++ (key, body) ∷ [] })
stored key body (failed e) w = (err (unhandled (error_name e)), w)

-- f"{prefix}/{instance_id}/{safe_timestamp}.json"
abbrev pub object_key : {V : Type 0} → Services V → String → String → ℕ → String
object_key services prefix instance_id t = String.◌++◌ prefix (
    String.◌++◌ "/"
      (String.◌++◌ instance_id (String.◌++◌ "/" (String.◌++◌ (safe_timestamp services t) ".json"))))

module _ {V : Type 0} (services : Services V) where
  -- for the text of the data
  unfoldable pub save_json_to_s3 : String → String → String → Job (Unit {0})
  save_json_to_s3 body bucket_name key w =
      let c = w.collector in
      stored key body (services.put_object c.step bucket_name key body)
        (record w { collector = record c { step = c.step + 1 } })

  unfoldable pub upload_metrics_to_s3 : Metrics V → String → String → Job String
  unfolding save_json_to_s3
  upload_metrics_to_s3 metrics bucket_name prefix =
      let key = object_key services prefix metrics.instance_id metrics.timestamp in
      save_json_to_s3 (services.metrics_json metrics) bucket_name key >> pure key

  unfoldable pub upload_logs_to_s3 : List LogEvent → String → String → String → Job (Option String)
  unfolding save_json_to_s3
  upload_logs_to_s3 [] bucket_name instance_id prefix = pure none
  upload_logs_to_s3 (log ∷ logs) bucket_name instance_id prefix =
      let key = object_key services prefix instance_id log.timestamp in
      save_json_to_s3 (services.logs_json (log ∷ logs)) bucket_name key >> pure (some key)
