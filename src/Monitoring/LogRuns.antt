-- ===== src/Monitoring/LogRuns.antt =====
-- backend/pipelines/ingestion_pipeline.py: a run of the ingestion when there are logs.
use aiops_aws.Prelude.{String, Option, subst, sym, ℕ, ◌≡◌, ◌≢◌, refl, ap, ◌∙◌, List, [], ◌∷◌}
use aiops_aws.Outcome.{ok, err, unhandled, ◌>>=◌, continue}
use aiops_aws.Monitoring.{Floats, Metrics, LogEvent, Services, World}
use aiops_aws.Monitoring.CollectorService.{collect_metrics}
use aiops_aws.Monitoring.LogCollector.{logs_of, fetch_logs}
use aiops_aws.Monitoring.Pipelines.{Settings, run_ingestion_pipeline, observe, summarize_events}
use aiops_aws.Monitoring.Routes.{full_cycle, infer, run_ingestion, run_full_cycle}
use aiops_aws.Monitoring.Guard.{signed_in-ok}
use aiops_aws.Security.{Env}
use aiops_aws.Models.{User}
use aiops_aws.Api.{Running}
use aiops_aws.Api.Dependencies.{get_current_user}
use aiops_aws.Monitoring.Runs.{AlwaysStores, SameResults, run_ingestion_pipeline-observe}

module _ {V : Type 0} (services : Services V) (settings : Settings) where
  -- CloudWatch has logs of the instance whenever it is asked
  abbrev pub AlwaysLogs : Type 0
  AlwaysLogs =
      (n start : ℕ)
      → logs_of settings.instance_id settings.log_group_name
          (services.get_log_events n settings.log_group_name settings.instance_id start)
        ≢ []

  fetch_logs-some :
      AlwaysLogs
      → (w : World) → (fetch_logs services settings.instance_id settings.log_group_name 60 w).0 ≢ []
  unfolding fetch_logs
  fetch_logs-some always w = always _ _

  observe-crash :
      (metrics : Metrics V) (logs : List LogEvent) (w : World)
      → logs ≢ []
      → observe services settings metrics logs w ≡ (err (unhandled "AttributeError"), w)
  unfolding observe summarize_events ◌>>=◌
  observe-crash metrics [] w some_log = absurd (some_log refl)
  observe-crash metrics (log ∷ logs) w some_log = refl

  full_cycle-crash :
      (floats : Floats V) (w : World)
      → AlwaysStores services
      → AlwaysLogs
      → (w' : World) × SameResults w w'
        × (run_ingestion_pipeline floats services settings w
            ≡ (err (unhandled "AttributeError"), w'))
        × (full_cycle floats services settings w ≡ (err (unhandled "AttributeError"), w'))
  unfolding full_cycle ◌>>=◌
  full_cycle-crash floats w stores always =
      let (v, w', same, eq) = run_ingestion_pipeline-observe services floats settings stores w in
      let metrics = (collect_metrics floats services settings.instance_id w).0 in
      let logs = (fetch_logs services settings.instance_id settings.log_group_name 60 v).0 in
      let eq' = eq ∙ observe-crash metrics logs w' (fetch_logs-some always v) in
      (w', same, eq', ap (λ r. continue r.0 (infer floats services settings) r.1) eq')

  -- While S3 takes the uploads and CloudWatch has logs of the instance: for a caller who is signed
  -- in, the endpoints that run the ingestion and the full cycle raise an `AttributeError`, and the
  -- observations and the results that were saved before stay as they are.
  pub run_full_cycle-crash :
      (floats : Floats V) (env : Env) (credentials : Option String) (user : User) (q : Running)
      (w : World)
      → (get_current_user env credentials q.session).0 ≡ ok user
      → AlwaysStores services
      → AlwaysLogs
      → ((run_ingestion floats services settings env credentials (q, w)).0
          ≡ err (unhandled "AttributeError"))
        × SameResults w (run_ingestion floats services settings env credentials (q, w)).1.1
        × ((run_full_cycle floats services settings env credentials (q, w)).0
            ≡ err (unhandled "AttributeError"))
        × SameResults w (run_full_cycle floats services settings env credentials (q, w)).1.1
  unfolding run_ingestion run_full_cycle
  run_full_cycle-crash floats env credentials user q w allowed stores always =
      let (w', same, ran, cycled) = full_cycle-crash floats w stores always in
      let ingestion =
        signed_in-ok env credentials q w (run_ingestion_pipeline floats services settings) user
          allowed in
      let cycle =
        signed_in-ok env credentials q w (full_cycle floats services settings) user allowed in
      (
        ingestion.0 ∙ ap (λ r. r.0) ran,
        subst (SameResults w) (sym (ingestion.1 ∙ ap (λ r. r.1) ran)) same,
        cycle.0 ∙ ap (λ r. r.0) cycled,
        subst (SameResults w) (sym (cycle.1 ∙ ap (λ r. r.1) cycled)) same,
      )
