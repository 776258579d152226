-- ===== src/Monitoring/Handover.antt =====
-- backend/api/routes.py: the ingestion and then the inference, as two calls of a signed in caller.
use aiops_aws.Prelude.{Option, subst, sym, String, ◌≡◌, refl, ap, ◌∙◌, false, some, any, is_after}
use aiops_aws.Outcome.{ok, pure, ◌>>=◌, continue}
use aiops_aws.CloudWatch.Results.{or_empty}
use aiops_aws.Monitoring.{Floats, Observation, Services, World}
use aiops_aws.Monitoring.CollectorService.{collect_metrics}
use aiops_aws.Monitoring.Storage.{file_name, json_names, load_latest_observation}
use aiops_aws.Monitoring.Inference.{run_inference_pipeline}
use aiops_aws.Monitoring.Routes.{
  InferenceResponse, infer, infer_or_404, run_ingestion, run_inference,
}
use aiops_aws.Monitoring.Guard.{signed_in-ok}
use aiops_aws.Security.{Env}
use aiops_aws.Models.{User}
use aiops_aws.Api.{Running}
use aiops_aws.Api.Dependencies.{get_current_user}
use aiops_aws.Monitoring.Pipelines.{Settings, run_ingestion_pipeline}
use aiops_aws.Monitoring.Runs.{AlwaysStores}
use aiops_aws.Monitoring.Reload.{
  ReadsBack, NeverLogs, run_ingestion_pipeline-load_latest_observation,
}

module _ {V : Type 0} (services : Services V) (settings : Settings) (floats : Floats V) where
  -- the inference of a loaded observation
  infer-loaded :
      (o : Observation V) (w : World)
      → load_latest_observation services w ≡ (ok (some o), w)
      → (r : InferenceResponse V) × (((load_latest_observation services
              >>= infer_or_404 floats services settings)
            w).0
          ≡ ok r)
        × (r.observation ≡ o)
  unfolding infer pure ◌>>=◌
  infer-loaded o w e = (
    record { observation = o; result = (run_inference_pipeline floats services o w).0 },
    ap (λ r. (continue r.0 (infer_or_404 floats services settings) r.1).0) e,
    refl,
  )

  -- While S3 takes the uploads, CloudWatch has no logs of the instance, the JSON of an observation
  -- is read back as the observation, and no JSON file of the observations has a name after that of
  -- the instance and the time of its metrics: for a caller who is signed in, the endpoint that
  -- runs the ingestion succeeds, its observation has the metrics that were collected and no logs,
  -- and the endpoint that runs the inference, called next, succeeds and works on that observation.
  pub run_ingestion-run_inference :
      (env : Env) (credentials : Option String) (user : User) (q₁ q₂ : Running) (w : World)
      → (get_current_user env credentials q₁.session).0 ≡ ok user
      → (get_current_user env credentials q₂.session).0 ≡ ok user
      → AlwaysStores services
      → NeverLogs services settings
      → ReadsBack services
      → any
          (is_after (
            file_name services settings.instance_id
              (collect_metrics floats services settings.instance_id w).0.timestamp))
          (json_names (or_empty w.observations_files))
        ≡ false
      → (o : Observation V) × (r : InferenceResponse V) × ((run_ingestion floats services settings
            env credentials
            (q₁, w)).0
          ≡ ok o)
        × (o.metrics ≡ (collect_metrics floats services settings.instance_id w).0)
        × (o.raw_log_count ≡ 0)
        × ((run_inference floats services settings env credentials
              (q₂, (run_ingestion floats services settings env credentials (q₁, w)).1.1)).0
            ≡ ok r)
        × (r.observation ≡ o)
  unfolding run_ingestion run_inference
  run_ingestion-run_inference env credentials user q₁ q₂ w first second stores never reads
        no_later =
      let (o, w', ran, loaded, metrics_eq, count_eq) =
        run_ingestion_pipeline-load_latest_observation services settings floats w stores never reads
          no_later in
      let ingestion =
        signed_in-ok env credentials q₁ w (run_ingestion_pipeline floats services settings) user
          first in
      let w'' = (run_ingestion floats services settings env credentials (q₁, w)).1.1 in
      let world_eq : w'' ≡ w' = ingestion.1 ∙ ap (λ r. r.1) ran in
      let loaded' : load_latest_observation services w'' ≡ (ok (some o), w'') =
        subst (λ v. load_latest_observation services v ≡ (ok (some o), v)) (sym world_eq) loaded in
      let (r, inferred, observation_eq) = infer-loaded o w'' loaded' in
      let inference =
        signed_in-ok env credentials q₂ w''
          (load_latest_observation services >>= infer_or_404 floats services settings) user
          second in
      (
        o,
        r,
        ingestion.0 ∙ ap (λ a. a.0) ran,
        metrics_eq,
        count_eq,
        inference.0 ∙ inferred,
        observation_eq,
      )
