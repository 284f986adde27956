-- ===== src/Training/Routes.antt =====
-- backend/app/api/routes/training.py: what the routes ask of the training service, and the statuses
-- of its exceptions. The routes that only pass a request on are the service's operations.
use hyper_looms.Prelude.{String, Option, none, some}
use hyper_looms.Float.{FloatOps}
use hyper_looms.Models.Training.{
  ModelArtifact, DatasetArtifact, ComputeEstimateRequest, ComputeEstimateResponse,
  TrainingRunCreateRequest, TrainingRun, TrainingCheckpointCreateRequest, TrainingCheckpoint,
}
use hyper_looms.Credits.Routes.{Response, replied, http_exception}
use hyper_looms.Coordinator.Routes.{respond_or_missing, or_missing}
use hyper_looms.Store.State.{StoreState, list_nodes}
use hyper_looms.Training.Rows.{TrainingMoment, Database}
use hyper_looms.Training.Metadata.{
  MetadataStore, get_model_artifact, get_dataset_artifact, get_training_run,
}
use hyper_looms.Training.Estimate.{estimate_compute}
use hyper_looms.Training.Runs.{create_training_run, append_training_checkpoint, cancel_training_run}

-- a value that is there, or 404
abbrev pub found_or : {A : Type 0} → String → Option A → Response A
found_or detail none = http_exception 404 detail
found_or detail (some a) = replied a

module _ (F : FloatOps) (D : Database F) where
  open F use {Float}

  pub get_model_artifact_route : String → MetadataStore F D → Response (ModelArtifact F)
  get_model_artifact_route artifact_id s =
      found_or "Model artifact not found" (get_model_artifact F D s artifact_id)

  pub get_dataset_artifact_route : String → MetadataStore F D → Response (DatasetArtifact F)
  get_dataset_artifact_route dataset_id s =
      found_or "Dataset artifact not found" (get_dataset_artifact F D s dataset_id)

  pub get_training_run_route : String → MetadataStore F D → Response (TrainingRun F)
  get_training_run_route run_id s =
      found_or "Training run not found" (get_training_run F D s run_id)

  -- `rate` is the service's price of a GPU hour.
  pub estimate_compute_route :
      TrainingMoment F
      → Float
      → ComputeEstimateRequest F
      → StoreState F
      → MetadataStore F D
      → Response (ComputeEstimateResponse F)
  unfolding estimate_compute list_nodes
  estimate_compute_route m rate payload coordinator s =
      or_missing (estimate_compute F D m rate payload (list_nodes F coordinator) s)

  pub create_training_run_route :
      TrainingMoment F
      → Float
      → TrainingRunCreateRequest F
      → StoreState F
      → MetadataStore F D
      → Response (TrainingRun F) × (StoreState F × MetadataStore F D)
  unfolding create_training_run
  create_training_run_route m rate payload coordinator s =
      let (run, after) = create_training_run F D m rate payload coordinator s in
      (respond_or_missing 400 run, after)

  pub append_training_checkpoint_route :
      TrainingMoment F
      → String
      → TrainingCheckpointCreateRequest F
      → MetadataStore F D
      → Response (TrainingCheckpoint F) × MetadataStore F D
  unfolding append_training_checkpoint
  append_training_checkpoint_route m run_id payload s =
      let (checkpoint, s1) = append_training_checkpoint F D m run_id payload s in
      (or_missing checkpoint, s1)

  pub cancel_training_run_route :
      TrainingMoment F → String → MetadataStore F D → Response (TrainingRun F) × MetadataStore F D
  unfolding cancel_training_run
  cancel_training_run_route m run_id s =
      let (run, s1) = cancel_training_run F D m run_id s in (or_missing run, s1)
