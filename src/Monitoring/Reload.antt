-- ===== src/Monitoring/Reload.antt =====
-- backend/aws/storage.py: an observation that is loaded after it was saved by the ingestion.
use Prim.Native.String
use aiops_aws.Prelude.{
  ℕ, String, ◌≡◌, refl, ap, ◌∙◌, Bool, true, false, ◌&&◌, ◌||◌, some, [], ◌∷◌, map, filter, any,
  any-sorted, Dict, assign, lookup-assign, eq_refl, eq_iff, str_eq, arith, contains, is_suffix,
  is_suffix-append, is_after, last-sorted,
}
use aiops_aws.Outcome.{ok, pure}
use aiops_aws.CloudWatch.Results.{or_empty}
use aiops_aws.Monitoring.{Floats, Observation, Services, World, Folder}
use aiops_aws.Monitoring.CollectorService.{collect_metrics}
use aiops_aws.Monitoring.LogCollector.{logs_of, fetch_logs}
use aiops_aws.Monitoring.Storage.{
  safe_timestamp, file_name, write_file, json_names, read_latest, save_observation,
  load_latest_observation,
}
use aiops_aws.Monitoring.Pipelines.{Settings, run_ingestion_pipeline}
use aiops_aws.Monitoring.Outage.{blank, observe-blank}
use aiops_aws.Monitoring.Runs.{AlwaysStores, run_ingestion_pipeline-observe}

-- the names after a write
any-assign :
    (p q : String → Bool) (k text : String) (files : Dict String)
    → any p (filter q (map (λ f. f.0) (assign k text files)))
      ≡ (any p (filter q (map (λ f. f.0) files)) || q k && p k)
any-assign p q k text [] = ground arith
any-assign p q k text ((j, v) ∷ files) = ground (arith, eq_iff j k, any-assign p q k text files)

-- The last file is the one that was written, where no other name comes after its name.
read_latest-write_file :
    (k text : String) (folder : Folder)
    → is_suffix ".json" k ≡ true
    → any (is_after k) (json_names (or_empty folder)) ≡ false
    → read_latest (write_file k text folder) ≡ some text
unfolding read_latest
read_latest-write_file k text folder named no_later =
    let files = or_empty folder in
    let names = filter (is_suffix ".json") (map (λ f. f.0) (assign k text files)) in
    let found : contains k names ≡ true =
      any-assign (λ y. str_eq y k) (is_suffix ".json") k text files
      ∙ ground (arith, named, eq_refl k) in
    let nothing_later : any (is_after k) names ≡ false =
      any-assign (is_after k) (is_suffix ".json") k text files
      ∙ ground (
        arith,
        any-sorted (λ n. n) (is_after k) (filter (is_suffix ".json") (map (λ f. f.0) files)),
        no_later,
        eq_refl k,
      ) in
    rw (last-sorted k names found nothing_later)
      (lookup-assign k k text files ∙ ground (arith, eq_refl k))

module _ {V : Type 0} (services : Services V) where
  file_name-json : (i : String) (t : ℕ) → is_suffix ".json" (file_name services i t) ≡ true
  file_name-json i t =
      let ending = String.◌++◌ (safe_timestamp services t) ".json" in
      is_suffix-append ".json" i (String.◌++◌ "_" ending) (
        is_suffix-append ".json" "_" ending
          (is_suffix-append ".json" (safe_timestamp services t) ".json" refl))

  -- the JSON of an observation is read back as the observation
  abbrev pub ReadsBack : Type 0
  ReadsBack =
      (o : Observation V)
      → services.observation_json.decode (services.observation_json.encode o) ≡ some o

  save_observation-load_latest_observation :
      (o : Observation V) (w : World)
      → ReadsBack
      → any
          (is_after (file_name services o.instance_id o.timestamp))
          (json_names (or_empty w.observations_files))
        ≡ false
      → load_latest_observation services (save_observation services o w)
        ≡ (ok (some o), save_observation services o w)
  unfolding load_latest_observation save_observation pure
  save_observation-load_latest_observation o w reads no_later =
      let name = file_name services o.instance_id o.timestamp in
      rw
        (
          read_latest-write_file name (services.observation_json.encode o) w.observations_files
              (file_name-json o.instance_id o.timestamp) no_later,
          reads o,
        )
        refl

module _ {V : Type 0} (services : Services V) (settings : Settings) where
  -- CloudWatch has no logs of the instance whenever it is asked
  abbrev pub NeverLogs : Type 0
  NeverLogs =
      (n start : ℕ)
      → logs_of settings.instance_id settings.log_group_name
          (services.get_log_events n settings.log_group_name settings.instance_id start)
        ≡ []

  fetch_logs-none :
      NeverLogs
      → (w : World) → (fetch_logs services settings.instance_id settings.log_group_name 60 w).0 ≡ []
  unfolding fetch_logs
  fetch_logs-none never w = never _ _

module _ {V : Type 0} (services : Services V) (settings : Settings) (floats : Floats V) where
  pub run_ingestion_pipeline-load_latest_observation :
      (w : World)
      → AlwaysStores services
      → NeverLogs services settings
      → ReadsBack services
      → any
          (is_after (
            file_name services settings.instance_id
              (collect_metrics floats services settings.instance_id w).0.timestamp))
          (json_names (or_empty w.observations_files))
        ≡ false
      → (o : Observation V) × (w' : World) × (run_ingestion_pipeline floats services settings w
          ≡ (ok o, w'))
        × (load_latest_observation services w' ≡ (ok (some o), w'))
        × (o.metrics ≡ (collect_metrics floats services settings.instance_id w).0)
        × (o.raw_log_count ≡ 0)
  run_ingestion_pipeline-load_latest_observation w stores never reads no_later =
      let (v, w', same, eq) = run_ingestion_pipeline-observe services floats settings stores w in
      let metrics = (collect_metrics floats services settings.instance_id w).0 in
      let logs = (fetch_logs services settings.instance_id settings.log_group_name 60 v).0 in
      let o = blank services settings metrics in
      (
        o,
        save_observation services o w',
        eq
            ∙ observe-blank services settings metrics logs w'
                (fetch_logs-none services settings never v),
        save_observation-load_latest_observation services o w' reads (
            ap
              (λ f.
                any (is_after (file_name services settings.instance_id metrics.timestamp))
                  (json_names (or_empty f)))
              same.0
            ∙ no_later),
        refl,
        refl,
      )
