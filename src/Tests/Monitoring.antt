-- ===== src/Tests/Monitoring.antt =====
-- The theorems on the pipelines at concrete inputs, with numbers for the floats.
use aiops_aws.Prelude.{
  String, ℕ, ◌+◌, ◌≤◌, ◌≡◌, refl, ◌↔◌, true, false, Option, none, some, [], ◌∷◌, arith, ltb,
}
use aiops_aws.Outcome.{ok, err, unhandled}
use aiops_aws.Ec2.{returned, failed, boto_core_error}
use aiops_aws.CloudWatch.Queries.{metric_queries}
use aiops_aws.Ingestion.{LogSummary}
use aiops_aws.Monitoring.{Floats, Metrics, Observation, RawEvent, Services, World}
use aiops_aws.Monitoring.CollectorService.{metrics_of, sum_ebs, collect_metrics}
use aiops_aws.Monitoring.Inference.{detect_anomaly_rule_based}
use aiops_aws.Monitoring.Pipelines.{Settings}
use aiops_aws.Monitoring.Routes.{InferenceResponse, run_ingestion, run_inference, run_full_cycle}
use aiops_aws.Database.Session.{Calls}
use aiops_aws.Api.{Running}
use aiops_aws.Api.Dependencies.{get_current_user}
use aiops_aws.Tests.Concrete.{env}
use aiops_aws.Tests.Data.{alice, begun, server, payload_of}
use aiops_aws.Tests.Codec.{encode}
use aiops_aws.Monitoring.Verdict.{
  reasons, names_where, count_true, errors_in, detect_anomaly_rule_based-reasons,
}
use aiops_aws.CloudWatch.Results.{parse_results, latest_value, latest_idx}
use aiops_aws.Monitoring.Volumes.{SumsVolumes}
use aiops_aws.Monitoring.Collected.{batch_volumes, collect_metrics-SumsVolumes}
use aiops_aws.CloudWatch.Answered.{kept}
use aiops_aws.CloudWatch.VolumeIds.{HasDistinctVolumes}
use aiops_aws.CloudWatch.Caches.{
  refresh_caches_if_needed, resolve_volume_ids, discover_cwagent_metrics, discovered_from,
}
use aiops_aws.CloudWatch.Fetch.{fetch_all_metrics_batch, build_queries}
use aiops_aws.Monitoring.Runs.{SameResults}
use aiops_aws.Monitoring.Outage.{IsNormal, run_full_cycle-outage}
use aiops_aws.Monitoring.LogRuns.{run_full_cycle-crash}
use aiops_aws.Monitoring.Handover.{run_ingestion-run_inference}
use aiops_aws.Tests.Aws.{test_aws, dark_aws, result_of}
use aiops_aws.Tests.ObservationCodec.{
  encode_observation, decode_observation, decode_observation-encode_observation,
}

abbrev numbers : Floats ℕ
numbers = record { of_int = λ n. n; plus = λ a b. a + b; exceeds = λ a b. ltb b a }

abbrev settings : Settings
settings = record { instance_id = "i-1"; s3_bucket_name = "b"; log_group_name = "g" }

abbrev quiet : Services ℕ
quiet = record {
  aws = test_aws;
  get_log_events = λ n group stream start. returned (some []);
  put_object = λ n bucket key body. returned tt;
  isoformat = λ t. "2026-03-25T18:51:45+00:00";
  metrics_json = λ m. m.instance_id;
  logs_json = λ logs. "[]";
  observation_json = record {
    encode = encode_observation;
    decode = decode_observation;
    is_falsy = λ text. false;
  };
  result_json = record { encode = λ r. r.summary; decode = λ text. none; is_falsy = λ text. false };
}

abbrev dark : Services ℕ
dark = record quiet {
  aws = dark_aws;
  get_log_events = λ n group stream start. failed (boto_core_error "EndpointConnectionError");
}

abbrev event : RawEvent
event = record { event_timestamp = some 1; event_message = some "ERROR: disk" }

abbrev noisy : Services ℕ
noisy = record quiet { get_log_events = λ n group stream start. returned (some (event ∷ [])) }

-- a world in which one observation was saved, some years ago
abbrev world : World
world = record {
  collector = record {
    cwagent_dimensions_cache = [];
    volume_ids_cache = [];
    cache_last_refresh = 1000000000;
    step = 1;
  };
  metrics_files = none;
  logs_files = none;
  observations_files = some (("i-1_2024-03-25T18-51-45+00-00.json", "") ∷ []);
  predictions_files = none;
  uploads = [];
}

abbrev metrics : Metrics ℕ
metrics = metrics_of numbers "i-1" 5 (("cpuutilization", some 95) ∷ ("networkin", none) ∷ [])

abbrev log_summary : Option LogSummary
log_summary = some (record { error_count = 2; warning_count = 0; keywords = "error" ∷ [] })

triggers : names_where (reasons numbers metrics 2) ≡ "cpu" ∷ "logs:error" ∷ []
unfolding metrics_of sum_ebs
triggers = refl

summary_text :
    (detect_anomaly_rule_based numbers metrics log_summary 7).summary
    ≡ "Anomaly detected based on: cpu, logs:error. Log keywords found: error"
unfolding detect_anomaly_rule_based metrics_of sum_ebs
summary_text = refl

detect_anomaly_rule_based-reasons_example :
    let r = detect_anomaly_rule_based numbers metrics log_summary 7 in
    let held = reasons numbers metrics (errors_in log_summary) in
    (r.triggered_features ≡ names_where held)
    × ((r.is_anomaly ≡ true) ↔ (1 ≤ count_true held))
    × (r.score ≡ numbers.of_int (count_true held))
    × ((r.severity ≡ "low") ↔ (count_true held ≡ 0))
    × ((r.severity ≡ "high") ↔ (3 ≤ count_true held))
    × (count_true held ≡ 0 → r.summary ≡ "System behavior appears normal.")
    × (r.instance_id ≡ metrics.instance_id)
detect_anomaly_rule_based-reasons_example =
    detect_anomaly_rule_based-reasons numbers metrics log_summary 7

two_volumes : batch_volumes test_aws "i-1" world.collector ≡ "vol-1" ∷ "vol-2" ∷ []
unfolding refresh_caches_if_needed resolve_volume_ids
two_volumes = refl

written : (collect_metrics numbers quiet "i-1" world).0.volume_write_bytes ≡ 180
unfolding collect_metrics fetch_all_metrics_batch build_queries refresh_caches_if_needed
    resolve_volume_ids discover_cwagent_metrics discovered_from metric_queries parse_results
    latest_value latest_idx metrics_of sum_ebs
written = refl

world-HasDistinctVolumes : HasDistinctVolumes (batch_volumes test_aws "i-1" world.collector)
unfolding refresh_caches_if_needed resolve_volume_ids
world-HasDistinctVolumes = (refl, (refl, tt))

collect_metrics-SumsVolumes_example :
    SumsVolumes numbers
      (kept result_of)
      (collect_metrics numbers quiet "i-1" world).0
      (batch_volumes test_aws "i-1" world.collector)
collect_metrics-SumsVolumes_example =
    collect_metrics-SumsVolumes quiet numbers result_of "i-1" world
      (λ n queries start end_time. refl) (λ q. refl) world-HasDistinctVolumes

-- a caller with a token of Alice
abbrev caller : Option String
caller = some (encode (payload_of "access" 1 "j" 80) env.settings.jwt_access_secret)

abbrev request : Running
request = record { server = server; session = begun }

caller-Alice : (get_current_user env caller begun).0 ≡ ok alice
unfolding get_current_user Calls
caller-Alice = refl

run_full_cycle-outage_example :
    (r : InferenceResponse ℕ) × ((run_full_cycle numbers dark settings env caller
        (request, world)).0
      ≡ ok r)
    × IsNormal numbers r.result
run_full_cycle-outage_example =
    run_full_cycle-outage dark settings numbers env caller alice request world caller-Alice
      (λ n bucket key body. refl)
      (
        (λ n queries start end_time. (boto_core_error "EndpointConnectionError", refl)),
        (λ n group stream start. (boto_core_error "EndpointConnectionError", refl)),
      )
      (λ n. ground arith)

run_full_cycle-crash_example :
    ((run_ingestion numbers noisy settings env caller (request, world)).0
      ≡ err (unhandled "AttributeError"))
    × SameResults world (run_ingestion numbers noisy settings env caller (request, world)).1.1
    × ((run_full_cycle numbers noisy settings env caller (request, world)).0
        ≡ err (unhandled "AttributeError"))
    × SameResults world (run_full_cycle numbers noisy settings env caller (request, world)).1.1
run_full_cycle-crash_example =
    run_full_cycle-crash noisy settings numbers env caller alice request world caller-Alice
      (λ n bucket key body. refl) (λ n start e. ground (arith, e))

run_ingestion-run_inference_example :
    (o : Observation ℕ) × (r : InferenceResponse ℕ) × ((run_ingestion numbers quiet settings env
        caller
        (request, world)).0
      ≡ ok o)
    × (o.metrics ≡ (collect_metrics numbers quiet "i-1" world).0)
    × (o.raw_log_count ≡ 0)
    × ((run_inference numbers quiet settings env caller
          (request, (run_ingestion numbers quiet settings env caller (request, world)).1.1)).0
        ≡ ok r)
    × (r.observation ≡ o)
run_ingestion-run_inference_example =
    run_ingestion-run_inference quiet settings numbers env caller alice request request world
      caller-Alice caller-Alice (λ n bucket key body. refl) (λ n start. refl)
      decode_observation-encode_observation refl
