-- ===== src/Monitoring/Runs.antt =====
-- backend/pipelines/ingestion_pipeline.py: a run of the ingestion while S3 takes the uploads.
use aiops_aws.Prelude.{ℕ, String, ◌≡◌, refl, ap, ◌∙◌, some, none, List, [], ◌∷◌}
use aiops_aws.Outcome.{ok, pure, ◌>>=◌, ◌>>◌, continue}
use aiops_aws.Ec2.{returned}
use aiops_aws.Monitoring.{Floats, Metrics, LogEvent, Services, World, Job}
use aiops_aws.Monitoring.CollectorService.{collect_metrics}
use aiops_aws.Monitoring.LogCollector.{fetch_logs}
use aiops_aws.Monitoring.Storage.{save_metrics, save_logs}
use aiops_aws.Monitoring.S3Storage.{
  save_json_to_s3, upload_metrics_to_s3, upload_logs_to_s3, object_key,
}
use aiops_aws.Monitoring.Pipelines.{Settings, run_ingestion_pipeline, observe}

pub bind-ok {ℓ κ} :
    {A : Type ℓ} {B : Type κ} (m : Job A) (f : A → Job B) (w w' : World) (a : A)
    → m w ≡ (ok a, w')
    → (m >>= f) w ≡ f a w'
unfolding ◌>>=◌
bind-ok m f w w' a e = ap (λ r. continue r.0 f r.1) e

-- the files that the inference reads and writes
abbrev pub SameResults : World → World → Type 0
SameResults w w' =
    (w'.observations_files ≡ w.observations_files) × (w'.predictions_files ≡ w.predictions_files)

SameResults-trans : (u v w : World) → SameResults u v → SameResults v w → SameResults u w
SameResults-trans u v w h k = (k.0 ∙ h.0, k.1 ∙ h.1)

-- a job that returns, and keeps those files
abbrev pub Passes {ℓ} : {A : Type ℓ} → Job A → World → Type ℓ
Passes {A = A} m w = (a : A) × (w' : World) × (m w ≡ (ok a, w')) × SameResults w w'

module _ {V : Type 0} (services : Services V) where
  -- S3 takes every object
  abbrev pub AlwaysStores : Type 0
  AlwaysStores =
      (n : ℕ) (bucket key body : String) → services.put_object n bucket key body ≡ returned tt

  save_json_to_s3-Passes :
      AlwaysStores
      → (body bucket key : String) (w : World) → Passes (save_json_to_s3 services body bucket key) w
  unfolding save_json_to_s3
  save_json_to_s3-Passes stores body bucket key w =
      rw (stores w.collector.step bucket key body) (tt, _, refl, (refl, refl))

  -- `Passes` of a job that an upload ends
  upload-Passes {ℓ} :
      {A : Type ℓ} (a : A) (stores : AlwaysStores) (body bucket key : String) (w : World)
      → Passes (save_json_to_s3 services body bucket key >> pure a) w
  unfolding pure
  upload-Passes a stores body bucket key w =
      let (u, w', eq, same) = save_json_to_s3-Passes stores body bucket key w in
      (a, w', bind-ok (save_json_to_s3 services body bucket key) (λ _. pure a) w w' u eq, same)

  upload_metrics_to_s3-Passes :
      AlwaysStores
      → (metrics : Metrics V) (bucket prefix : String) (w : World)
      → Passes (upload_metrics_to_s3 services metrics bucket prefix) w
  unfolding upload_metrics_to_s3
  upload_metrics_to_s3-Passes stores metrics bucket prefix w =
      let key = object_key services prefix metrics.instance_id metrics.timestamp in
      upload-Passes key stores (services.metrics_json metrics) bucket key w

  upload_logs_to_s3-Passes :
      AlwaysStores
      → (logs : List LogEvent) (bucket i prefix : String) (w : World)
      → Passes (upload_logs_to_s3 services logs bucket i prefix) w
  unfolding upload_logs_to_s3 pure
  upload_logs_to_s3-Passes stores [] bucket i prefix w = (none, w, refl, (refl, refl))
  upload_logs_to_s3-Passes stores (log ∷ logs) bucket i prefix w =
      let key = object_key services prefix i log.timestamp in
      upload-Passes (some key) stores (services.logs_json (log ∷ logs)) bucket key w

  save_logs-SameResults :
      (logs : List LogEvent) (w : World) → SameResults w (save_logs services logs w)
  unfolding save_logs
  save_logs-SameResults [] w = (refl, refl)
  save_logs-SameResults (log ∷ logs) w = (refl, refl)

  -- A run of the ingestion comes to its last part, with the logs that it fetched in some world.
  pub run_ingestion_pipeline-observe :
      (floats : Floats V) (settings : Settings)
      → AlwaysStores
      → (w : World)
      → (v : World) × (w' : World) × SameResults w w'
        × (run_ingestion_pipeline floats services settings w
            ≡ observe services settings
                (collect_metrics floats services settings.instance_id w).0
                (fetch_logs services settings.instance_id settings.log_group_name 60 v).0
                w')
  unfolding run_ingestion_pipeline collect_metrics save_metrics fetch_logs ◌>>=◌
  run_ingestion_pipeline-observe floats settings stores w =
      let i = settings.instance_id in
      let bucket = settings.s3_bucket_name in
      let (metrics, w₁) = collect_metrics floats services i w in
      let w₂ = save_metrics services metrics w₁ in
      let (key, v, eq₁, same₁) = upload_metrics_to_s3-Passes stores metrics bucket "metrics" w₂ in
      let (logs, v₁) = fetch_logs services i settings.log_group_name 60 v in
      let v₂ = save_logs services logs v₁ in
      let (log_key, w', eq₂, same₂) = upload_logs_to_s3-Passes stores logs bucket i "logs" v₂ in
      (
        v,
        w',
        SameResults-trans w v w' same₁
            (SameResults-trans v v₂ w' (save_logs-SameResults logs v₁) same₂),
        bind-ok (upload_metrics_to_s3 services metrics bucket "metrics") _ w₂ v key eq₁
            ∙ bind-ok (upload_logs_to_s3 services logs bucket i "logs") _ v₂ w' log_key eq₂,
      )
