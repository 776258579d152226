-- ===== src/Monitoring/Routes.antt =====
-- backend/api/routes.py and health.py: the endpoints of the data. A call works on the request and on the world.
use aiops_aws.Prelude.{Dict, ◌∷◌, [], String, Option, none, some, if◌then◌else◌}
use aiops_aws.Outcome.{Result, pure, crash, raise, ◌>>=◌, ◌>>◌}
use aiops_aws.Security.{Env}
use aiops_aws.Models.{User}
use aiops_aws.Api.{Running, in_session}
use aiops_aws.Api.Dependencies.{get_current_user}
use aiops_aws.Monitoring.{Floats, Observation, AnomalyResult, Json, Folder, Services, World, Job}
use aiops_aws.Monitoring.Storage.{load_latest_observation, read_latest}
use aiops_aws.Monitoring.Inference.{run_inference_pipeline}
use aiops_aws.Monitoring.Pipelines.{Settings, always, run_ingestion_pipeline}

-- `health_check`, which asks for no user
abbrev pub health_check : Dict String
health_check = ("status", "ok") ∷ ("service", "AIOps AWS Backend") ∷ []

abbrev pub Route {ℓ} : Type ℓ → Type ℓ
Route A = Running × World → Result A × (Running × World)

pub record InferenceResponse (V : Type 0) : Type 0 where
  pub observation : Observation V
  pub result : AnomalyResult V

-- a job in the world
unfoldable pub in_world {ℓ} : {A : Type ℓ} → Job A → Route A
in_world m (q, w) = let (r, w') = m w in (r, (q, w'))

-- `Depends(get_current_user)`
unfoldable pub signed_in : Env → Option String → Route User
unfolding in_session
signed_in env credentials (q, w) =
    let (r, q') = in_session (get_current_user env credentials) q in (r, (q', w))

module _ {A : Type 0} (json : Json A) where
  abbrev decoded : Option A → Job A
  decoded none = crash "ResponseValidationError"
  decoded (some a) = pure a

  -- a response from the text of the last file, which is not found where it is none or false
  abbrev pub latest_or_404 : String → Option String → Job A
  latest_or_404 detail none = raise 404 detail
  latest_or_404 detail (some text) =
      if json.is_falsy text then raise 404 detail else decoded (json.decode text)

  unfoldable pub latest_json : String → (World → Folder) → Job A
  unfolding raise crash pure
  latest_json detail folder w = latest_or_404 detail (read_latest (folder w)) w

module _ {V : Type 0} (floats : Floats V) (services : Services V) (settings : Settings) where
  unfoldable pub infer : Observation V → Job (InferenceResponse V)
  infer observation = do
    result ← always (run_inference_pipeline floats services observation)
    pure (record { observation = observation; result = result })

  abbrev pub infer_or_404 : Option (Observation V) → Job (InferenceResponse V)
  infer_or_404 none = raise 404 "No observation found. Run /api/run-ingestion first."
  infer_or_404 (some observation) = infer observation

  -- `run_full_cycle` for a user who is signed in
  unfoldable pub full_cycle : Job (InferenceResponse V)
  unfolding infer
  full_cycle = run_ingestion_pipeline floats services settings >>= infer

  unfoldable pub run_ingestion : Env → Option String → Route (Observation V)
  unfolding signed_in in_world
  run_ingestion env credentials =
      signed_in env credentials >> in_world (run_ingestion_pipeline floats services settings)

  unfoldable pub run_inference : Env → Option String → Route (InferenceResponse V)
  unfolding signed_in in_world
  run_inference env credentials =
      signed_in env credentials >> in_world (load_latest_observation services >>= infer_or_404)

  unfoldable pub run_full_cycle : Env → Option String → Route (InferenceResponse V)
  unfolding signed_in in_world full_cycle
  run_full_cycle env credentials = signed_in env credentials >> in_world full_cycle

  unfoldable pub get_latest_observation : Env → Option String → Route (Observation V)
  unfolding signed_in in_world
  get_latest_observation env credentials =
      signed_in env credentials
      >> in_world
          (latest_json services.observation_json "No observation found" (λ w. w.observations_files))

  unfoldable pub get_latest_anomaly : Env → Option String → Route (AnomalyResult V)
  unfolding signed_in in_world
  get_latest_anomaly env credentials =
      signed_in env credentials
      >> in_world
          (latest_json services.result_json "No anomaly result found" (λ w. w.predictions_files))
