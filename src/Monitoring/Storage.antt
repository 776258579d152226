-- ===== src/Monitoring/Storage.antt =====
-- backend/aws/storage.py, and `_read_latest_json` of backend/api/routes.py: the files of ./data.
-- A path is a name in its folder; the disk raises no error.
use Prim.Native.String
use aiops_aws.Prelude.{
  ℕ, String, Option, none, some, List, [], ◌∷◌, Dict, lookup, assign, last, sorted, filter,
  is_suffix, map, replace_char,
}
use aiops_aws.Outcome.{pure, crash}
use aiops_aws.CloudWatch.Results.{or_empty}
use aiops_aws.Monitoring.{
  Metrics, LogEvent, Observation, AnomalyResult, Services, Folder, World, Job,
}

-- `isoformat().replace(":", "-")`
abbrev pub safe_timestamp : {V : Type 0} → Services V → ℕ → String
safe_timestamp services t = replace_char b':' "-" (services.isoformat t)

-- f"{instance_id}_{timestamp}.json"
abbrev pub file_name : {V : Type 0} → Services V → String → ℕ → String
file_name services instance_id t =
    String.◌++◌ instance_id (String.◌++◌ "_" (String.◌++◌ (safe_timestamp services t) ".json"))

-- `mkdir(parents=True, exist_ok=True)`, and the file written
abbrev pub write_file : String → String → Folder → Folder
write_file name text folder = some (assign name text (or_empty folder))

-- `sorted(path.glob("*.json"))`
abbrev pub json_names : Dict String → List String
json_names files = sorted (λ n. n) (filter (is_suffix ".json") (map (λ f. f.0) files))

abbrev pub text_named : Option String → Dict String → Option String
text_named none files = none
text_named (some name) files = lookup name files

-- the text of the last file, where there is one
unfoldable pub read_latest : Folder → Option String
read_latest none = none
read_latest (some files) = text_named (last (json_names files)) files

module _ {V : Type 0} (services : Services V) where
  unfoldable pub save_metrics : Metrics V → World → World
  save_metrics metrics w = record w {
    metrics_files =
        write_file (file_name services metrics.instance_id metrics.timestamp)
          (services.metrics_json metrics) w.metrics_files;
  }

  unfoldable pub save_logs : List LogEvent → World → World
  save_logs [] w = w
  save_logs (log ∷ logs) w = record w {
    logs_files =
        write_file (file_name services log.instance_id log.timestamp)
          (services.logs_json (log ∷ logs)) w.logs_files;
  }

  unfoldable pub save_observation : Observation V → World → World
  save_observation observation w = record w {
    observations_files =
        write_file (file_name services observation.instance_id observation.timestamp)
          (services.observation_json.encode observation) w.observations_files;
  }

  unfoldable pub save_anomaly_result : AnomalyResult V → World → World
  save_anomaly_result result w = record w {
    predictions_files =
        write_file (file_name services result.instance_id result.timestamp)
          (services.result_json.encode result) w.predictions_files;
  }

  abbrev observation_of : Option (Observation V) → Job (Option (Observation V))
  observation_of none = crash "ValidationError"
  observation_of (some observation) = pure (some observation)

  -- `Observation(**data)` of the text, where there is a file
  abbrev pub parsed : Option String → Job (Option (Observation V))
  parsed none = pure none
  parsed (some text) = observation_of (services.observation_json.decode text)

  unfoldable pub load_latest_observation : Job (Option (Observation V))
  unfolding pure crash
  load_latest_observation w = parsed (read_latest w.observations_files) w
