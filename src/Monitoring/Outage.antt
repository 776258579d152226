-- ===== src/Monitoring/Outage.antt =====
-- backend/api/routes.py: the full cycle while CloudWatch answers nothing.
use aiops_aws.Prelude.{
  String, Option, ℕ, String, ◌≡◌, refl, ap, ◌∙◌, false, List, [], ◌∷◌, some, arith, Bool-cases, inl,
  inr,
}
use aiops_aws.Outcome.{ok, pure, ◌>>=◌, continue}
use aiops_aws.Ec2.{failed, AwsError}
use aiops_aws.CloudWatch.{Collector, MetricQuery}
use aiops_aws.CloudWatch.Fetch.{batch_of, fetch_all_metrics_batch, ask, build_queries}
use aiops_aws.Ingestion.{LogSummary, summarize_logs}
use aiops_aws.Monitoring.{
  Floats, Metrics, LogEvent, Observation, AnomalyResult, Services, World, current_time,
}
use aiops_aws.Monitoring.CollectorService.{collect_metrics, metrics_of, sum_ebs}
use aiops_aws.Monitoring.LogCollector.{logs_of, fetch_logs}
use aiops_aws.Monitoring.Storage.{save_observation}
use aiops_aws.Monitoring.Inference.{run_inference_pipeline, detect_anomaly_rule_based}
use aiops_aws.Monitoring.Pipelines.{Settings, observe, summarize_events}
use aiops_aws.Monitoring.Routes.{full_cycle, infer, InferenceResponse, run_full_cycle}
use aiops_aws.Monitoring.Guard.{signed_in-ok}
use aiops_aws.Security.{Env}
use aiops_aws.Models.{User}
use aiops_aws.Api.{Running}
use aiops_aws.Api.Dependencies.{get_current_user}
use aiops_aws.Monitoring.Verdict.{
  reasons, count_true, names_where_none, detect_anomaly_rule_based-reasons,
}
use aiops_aws.Monitoring.Runs.{AlwaysStores, run_ingestion_pipeline-observe}

module _ {V : Type 0} (services : Services V) where
  -- CloudWatch refuses every request for data, and every one for logs
  abbrev pub AlwaysRefuses : Type 0
  AlwaysRefuses =
      ((n : ℕ) (queries : List MetricQuery) (start end_time : ℕ)
        → (e : AwsError) × (services.aws.get_metric_data n queries start end_time ≡ failed e))
      × ((n : ℕ) (group stream : String) (start : ℕ)
          → (e : AwsError) × (services.get_log_events n group stream start ≡ failed e))

  ask-outage :
      AlwaysRefuses
      → (span now : ℕ) (queries : List MetricQuery) (c : Collector)
      → (ask services.aws span now queries c).0 ≡ []
  ask-outage refuses span now [] c = refl
  ask-outage refuses span now (q ∷ qs) c = let (e, eq) = refuses.0 _ _ _ _ in ap batch_of eq

  collect_metrics-outage :
      AlwaysRefuses
      → (floats : Floats V) (i : String) (w : World)
      → (now : ℕ) × ((collect_metrics floats services i w).0 ≡ metrics_of floats i now [])
  unfolding collect_metrics fetch_all_metrics_batch
  collect_metrics-outage refuses floats i w =
      let ((now, queries), c) = build_queries services.aws i w.collector in
      (_, ap (metrics_of floats i _) (ask-outage refuses 10 now queries c))

  fetch_logs-outage :
      AlwaysRefuses
      → (i group : String) (span : ℕ) (w : World) → (fetch_logs services i group span w).0 ≡ []
  unfolding fetch_logs
  fetch_logs-outage refuses i group span w =
      let (e, eq) = refuses.1 _ _ _ _ in ap (logs_of i group) eq

-- Zero is above no limit.
abbrev pub ZeroIsLow : {V : Type 0} → Floats V → Type 0
ZeroIsLow floats = (n : ℕ) → floats.exceeds (floats.of_int 0) (floats.of_int n) ≡ false

reasons-outage :
    {V : Type 0} (floats : Floats V) (i : String) (now : ℕ)
    → ZeroIsLow floats
    → count_true (reasons floats (metrics_of floats i now []) 0) ≡ 0
unfolding metrics_of sum_ebs
reasons-outage floats i now low = rw (low 80, low 1000000, low 10000000) refl

module _ {V : Type 0} (floats : Floats V) where
  -- a result with no reason for an alarm
  abbrev pub IsNormal : AnomalyResult V → Type 0
  IsNormal r =
      (r.is_anomaly ≡ false)
      × (r.severity ≡ "low")
      × (r.score ≡ floats.of_int 0)
      × (r.triggered_features ≡ [])
      × (r.summary ≡ "System behavior appears normal.")

  detect-IsNormal :
      (metrics : Metrics V) (summary : LogSummary) (now : ℕ)
      → count_true (reasons floats metrics summary.error_count) ≡ 0
      → IsNormal (detect_anomaly_rule_based floats metrics (some summary) now)
  detect-IsNormal metrics summary now none_held =
      let (a, b, c, d, e, f, g) =
        detect_anomaly_rule_based-reasons floats metrics (some summary) now in
      let r = detect_anomaly_rule_based floats metrics (some summary) now in
      (
        elim (Bool-cases r.is_anomaly) [
          | inl alarm ↦ absurd (omega (arith, b.0 alarm, none_held))
          | inr not_so ↦ not_so
        ],
        d.1 none_held,
        c ∙ ap floats.of_int none_held,
        a ∙ names_where_none (reasons floats metrics summary.error_count) none_held,
        f none_held,
      )

module _ {V : Type 0} (services : Services V) (settings : Settings) where
  -- the observation of an outage
  abbrev pub blank : Metrics V → Observation V
  blank metrics = record {
    instance_id = settings.instance_id;
    timestamp = metrics.timestamp;
    metrics = metrics;
    raw_log_count = 0;
    log_summary = record { error_count = 0; warning_count = 0; keywords = [] };
  }

  pub observe-blank :
      (metrics : Metrics V) (logs : List LogEvent) (w : World)
      → logs ≡ []
      → observe services settings metrics logs w
        ≡ (ok (blank metrics), save_observation services (blank metrics) w)
  unfolding observe summarize_events summarize_logs ◌>>=◌
  observe-blank metrics [] w none_logged = refl
  observe-blank metrics (log ∷ logs) w none_logged = absurd (ground (arith, none_logged))

module _ {V : Type 0} (services : Services V) (settings : Settings) (floats : Floats V) where
  full_cycle-outage :
      (w : World)
      → AlwaysStores services
      → AlwaysRefuses services
      → ZeroIsLow floats
      → (r : InferenceResponse V) × (w' : World) × (full_cycle floats services settings w
          ≡ (ok r, w'))
        × IsNormal floats r.result
  unfolding full_cycle infer run_inference_pipeline pure ◌>>=◌
  full_cycle-outage w stores refuses low =
      let (v, w', same, eq) = run_ingestion_pipeline-observe services floats settings stores w in
      let (metrics, w₁) = collect_metrics floats services settings.instance_id w in
      let i = settings.instance_id in
      let logs = (fetch_logs services i settings.log_group_name 60 v).0 in
      let (now, blank_metrics) = collect_metrics-outage services refuses floats i w in
      let observation = blank services settings metrics in
      let saved = save_observation services observation w' in
      let no_logs = fetch_logs-outage services refuses i settings.log_group_name 60 v in
      let eq' = eq ∙ observe-blank services settings metrics logs w' no_logs in
      let (result, w'') = run_inference_pipeline floats services observation saved in
      let none_held : count_true (reasons floats metrics 0) ≡ 0 =
        ap (λ m. count_true (reasons floats m 0)) blank_metrics ∙ reasons-outage floats i now low in
      (
        record { observation = observation; result = result },
        w'',
        ap (λ r. continue r.0 (infer floats services settings) r.1) eq',
        detect-IsNormal floats metrics observation.log_summary (current_time services saved).0
            none_held,
      )

  -- While S3 takes the uploads, CloudWatch refuses every request for metric data and for logs, and
  -- zero is above no limit: for a caller who is signed in, the full cycle succeeds, and reports no
  -- anomaly, with low severity, a score of 0, no triggered feature, and the text that all is
  -- normal.
  pub run_full_cycle-outage :
      (env : Env) (credentials : Option String) (user : User) (q : Running) (w : World)
      → (get_current_user env credentials q.session).0 ≡ ok user
      → AlwaysStores services
      → AlwaysRefuses services
      → ZeroIsLow floats
      → (r : InferenceResponse V) × ((run_full_cycle floats services settings env credentials
            (q, w)).0
          ≡ ok r)
        × IsNormal floats r.result
  unfolding run_full_cycle
  run_full_cycle-outage env credentials user q w allowed stores refuses low =
      let (r, w', cycled, normal) = full_cycle-outage w stores refuses low in
      let cycle =
        signed_in-ok env credentials q w (full_cycle floats services settings) user allowed in
      (r, cycle.0 ∙ ap (λ a. a.0) cycled, normal)
