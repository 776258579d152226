-- ===== src/Monitoring.antt =====
-- What backend/pipelines/ works on: backend/schemas/{metrics,log_event,observation,anomaly_result}.py,
-- the folders of ./data, and the process's state. `V` is Python's `float`, with the operations that
-- the code uses as the parameter `Floats`. `Services` is what CloudWatch Logs and S3 answer, and
-- the texts that pydantic and json write and read.
pub mod CollectorService
pub mod LogCollector
pub mod Storage
pub mod S3Storage
pub mod Inference
pub mod Pipelines
pub mod Routes
pub mod Verdict
pub mod Volumes
pub mod Collected
pub mod Runs
pub mod Guard
pub mod Outage
pub mod LogRuns
pub mod Reload
pub mod Handover
use aiops_aws.Prelude.{ℕ, ◌+◌, String, Bool, Option, List, Dict}
use aiops_aws.Outcome.{Result}
use aiops_aws.Ec2.{Reply}
use aiops_aws.CloudWatch.{Aws, Collector}
use aiops_aws.Ingestion.{LogSummary}

pub record Floats (V : Type 0) : Type 0 where
  -- `float(n)`
  pub of_int : ℕ → V
  pub plus : V → V → V
  -- `a > b`
  pub exceeds : V → V → Bool

pub record Metrics (V : Type 0) : Type 0 where
  pub instance_id : String
  pub timestamp : ℕ
  pub cpu : V
  pub memory : V
  pub gpu_utilization : V
  pub gpu_memory_utilization : V
  pub gpu_encoder_session_count : V
  pub network_in : V
  pub network_out : V
  pub network_packets_in : V
  pub network_packets_out : V
  pub disk_read_ops : V
  pub disk_write_ops : V
  pub disk_read_bytes : V
  pub disk_write_bytes : V
  pub volume_read_bytes : V
  pub volume_write_bytes : V
  pub volume_read_ops : V
  pub volume_write_ops : V

pub record LogEvent : Type 0 where
  pub instance_id : String
  pub timestamp : ℕ
  pub log_group : String
  pub log_stream : String
  pub message : String

pub record Observation (V : Type 0) : Type 0 where
  pub instance_id : String
  pub timestamp : ℕ
  pub metrics : Metrics V
  pub raw_log_count : ℕ
  pub log_summary : LogSummary

pub record AnomalyResult (V : Type 0) : Type 0 where
  pub instance_id : String
  pub timestamp : ℕ
  pub is_anomaly : Bool
  pub severity : String
  pub score : V
  pub summary : String
  pub triggered_features : List String

-- an event of `get_log_events`, with the keys that are there; the timestamp is in milliseconds
pub record RawEvent : Type 0 where
  pub event_timestamp : Option ℕ
  pub event_message : Option String

-- Writing a value as JSON, reading it back with its validation, and whether the JSON of a text is
-- a value that Python takes as false.
pub record Json (A : Type 0) : Type 0 where
  pub encode : A → String
  pub decode : String → Option A
  pub is_falsy : String → Bool

pub record Services (V : Type 0) : Type 0 where
  pub aws : Aws V
  -- for a log group, a stream, and a start
  pub get_log_events : ℕ → String → String → ℕ → Reply (Option (List RawEvent))
  -- for a bucket, a key, and a body
  pub put_object : ℕ → String → String → String → Reply (Unit {0})
  -- `datetime.isoformat`
  pub isoformat : ℕ → String
  pub metrics_json : Metrics V → String
  pub logs_json : List LogEvent → String
  pub observation_json : Json (Observation V)
  pub result_json : Json (AnomalyResult V)

-- a folder, where it exists: its files in the order of their creation, with their texts
abbrev pub Folder : Type 0
Folder = Option (Dict String)

pub record World : Type 0 where
  pub collector : Collector
  pub metrics_files : Folder
  pub logs_files : Folder
  pub observations_files : Folder
  pub predictions_files : Folder
  -- the keys and the bodies that S3 took
  pub uploads : List (String × String)

abbrev pub Job {ℓ} : Type ℓ → Type ℓ
Job A = World → Result A × World

-- `datetime.now(timezone.utc)`
abbrev pub current_time : {V : Type 0} → Services V → World → ℕ × World
current_time services w =
    let c = w.collector in
    (services.aws.clock c.step, record w { collector = record c { step = c.step + 1 } })
