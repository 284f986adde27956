-- ===== src/Training/Metadata.antt =====
-- backend/app/services/training_metadata_store.py: the operations of `TrainingMetadataStore`. An
-- operation returns its result, or what it raises, beside the store it leaves.
use hyper_looms.Prelude.{
  String, Bool, true, Option, none, some, List, map, ◌==◌, string_eq, max, [], ◌∷◌,
}
use mathlib.Core.Option
use hyper_looms.Float.{FloatOps}
use hyper_looms.Result.{Result, err, runtime_error, ok, concat}
use hyper_looms.Text.{strip}
use hyper_looms.Models.Training.{
  TrainingStatus, training_status_eq, ModelArtifactCreateRequest, ModelArtifact,
  DatasetCreateRequest, DatasetArtifact, TrainingRun, TrainingCheckpointCreateRequest,
  TrainingCheckpoint,
}
use hyper_looms.Training.Rows.{
  TrainingMoment, ModelArtifactRow, DatasetArtifactRow, TrainingRunRow, TrainingCheckpointRow,
  Database, map_artifact, map_dataset, map_training_run, map_checkpoint, RunData, run_not_found,
}

-- `x if x is not None else y`
abbrev pub first_of : {A : Type 0} → Option A → Option A → Option A
first_of none y = y
first_of (some x) y = some x

module _ (F : FloatOps) (D : Database F) where
  pub record MetadataStore : Type 0 where
    pub artifacts : D.artifacts.Table
    pub datasets : D.datasets.Table
    pub runs : D.runs.Table
    pub checkpoints : D.checkpoints.Table

  abbrev pub artifact_row : TrainingMoment F → ModelArtifactCreateRequest F → ModelArtifactRow F
  artifact_row m payload = record {
    artifact_id = concat ("model-" ∷ m.fresh "model" ∷ []);
    name = strip payload.name;
    version = strip payload.version;
    source_uri = strip payload.source_uri;
    framework = payload.framework;
    precision = strip payload.precision;
    parameter_count_b = payload.parameter_count_b;
    size_gb = payload.size_gb;
    metadata_json = payload.metadata;
    created_at = m.now;
  }

  -- `created_at` is the instant: what is returned has its zone, and what SQLite gives back has not.
  unfoldable pub create_model_artifact :
      TrainingMoment F
      → ModelArtifactCreateRequest F
      → MetadataStore
      → ModelArtifact F × MetadataStore
  create_model_artifact m payload s =
      let row = artifact_row m payload in
      (map_artifact F row, record s { artifacts = D.artifacts.insert row s.artifacts })

  pub list_model_artifacts : MetadataStore → List (ModelArtifact F)
  list_model_artifacts s =
      map (map_artifact F) (D.artifacts.select_desc (λ r. r.created_at) (λ _. true) s.artifacts)

  abbrev pub get_model_artifact : MetadataStore → String → Option (ModelArtifact F)
  get_model_artifact s artifact_id =
      Option.map (map_artifact F) (D.artifacts.find s.artifacts artifact_id)

  abbrev pub dataset_row : TrainingMoment F → DatasetCreateRequest F → DatasetArtifactRow F
  dataset_row m payload = record {
    dataset_id = concat ("dataset-" ∷ m.fresh "dataset" ∷ []);
    name = strip payload.name;
    version = strip payload.version;
    source_uri = strip payload.source_uri;
    format = payload.format;
    train_samples = payload.train_samples;
    val_samples = payload.val_samples;
    test_samples = payload.test_samples;
    size_gb = payload.size_gb;
    schema_json = payload.schema_fields;
    created_at = m.now;
  }

  unfoldable pub create_dataset_artifact :
      TrainingMoment F → DatasetCreateRequest F → MetadataStore → DatasetArtifact F × MetadataStore
  create_dataset_artifact m payload s =
      let row = dataset_row m payload in
      (map_dataset F row, record s { datasets = D.datasets.insert row s.datasets })

  pub list_dataset_artifacts : MetadataStore → List (DatasetArtifact F)
  list_dataset_artifacts s =
      map (map_dataset F) (D.datasets.select_desc (λ r. r.created_at) (λ _. true) s.datasets)

  abbrev pub get_dataset_artifact : MetadataStore → String → Option (DatasetArtifact F)
  get_dataset_artifact s dataset_id =
      Option.map (map_dataset F) (D.datasets.find s.datasets dataset_id)

  abbrev pub run_row : TrainingMoment F → RunData F → TrainingRunRow F
  run_row m row_data = record {
    run_id = concat ("run-" ∷ m.fresh "run" ∷ []);
    owner_id = row_data.owner_id;
    objective = row_data.objective;
    artifact_id = row_data.artifact_id;
    dataset_id = row_data.dataset_id;
    mode = row_data.mode;
    status = row_data.status;
    provider = row_data.provider;
    preferred_region = row_data.preferred_region;
    budget_profile = row_data.budget_profile;
    replicas = row_data.replicas;
    target_epochs = row_data.target_epochs;
    current_epoch = row_data.current_epoch;
    batch_size = row_data.batch_size;
    learning_rate = row_data.learning_rate;
    max_tokens = row_data.max_tokens;
    estimated_vram_gb = row_data.estimated_vram_gb;
    estimated_ram_gb = row_data.estimated_ram_gb;
    estimated_duration_hours = row_data.estimated_duration_hours;
    estimated_cost_credits = row_data.estimated_cost_credits;
    assigned_node_ids = row_data.assigned_node_ids;
    train_loss = none;
    val_loss = none;
    eval_score = none;
    best_checkpoint_uri = none;
    created_at = m.now;
    started_at = row_data.started_at;
    completed_at = row_data.completed_at;
    updated_at = m.now;
    error = row_data.error;
  }

  -- A session that raises is rolled back. A `SQLAlchemyError` stands here as a `runtime_error`.
  unfoldable pub insert_training_run :
      TrainingMoment F → RunData F → MetadataStore → Result (TrainingRun F) × MetadataStore
  insert_training_run m row_data s =
      let row = run_row m row_data in
      elim m.database_error [
        | none ↦ (ok (map_training_run F row), record s { runs = D.runs.insert row s.runs })
        | some text ↦ (err (runtime_error text), s)
      ]

  unfoldable pub list_training_runs : Option TrainingStatus → MetadataStore → List (TrainingRun F)
  list_training_runs status s =
      let wanted : TrainingRunRow F → Bool =
        λ r. elim status [ none ↦ true | some x ↦ r.status == x ] in
      map (map_training_run F) (D.runs.select_desc (λ r. r.created_at) wanted s.runs)

  abbrev pub get_training_run : MetadataStore → String → Option (TrainingRun F)
  get_training_run s run_id = Option.map (map_training_run F) (D.runs.find s.runs run_id)

  -- `update_training_run` with the updates as a function on the row
  unfoldable pub update_training_run :
      TrainingMoment F
      → String
      → (TrainingRunRow F → TrainingRunRow F)
      → MetadataStore
      → Result (TrainingRun F) × MetadataStore
  update_training_run m run_id updates s = elim (D.runs.find s.runs run_id) [
    | none ↦ (run_not_found F run_id, s)
    | some row ↦
        let updated = record (updates row) { updated_at = m.now } in
        (ok (map_training_run F updated), record s { runs = D.runs.update updated s.runs })
  ]

  abbrev pub checkpoint_row :
      TrainingMoment F → String → TrainingCheckpointCreateRequest F → TrainingCheckpointRow F
  checkpoint_row m run_id payload = record {
    checkpoint_id = concat ("ckpt-" ∷ m.fresh run_id ∷ []);
    run_id = run_id;
    epoch = payload.epoch;
    step = payload.step;
    train_loss = payload.train_loss;
    val_loss = payload.val_loss;
    eval_score = payload.eval_score;
    checkpoint_uri = strip payload.checkpoint_uri;
    created_at = m.now;
  }

  -- what a checkpoint makes of its run
  abbrev pub advanced_row :
      TrainingMoment F → TrainingCheckpointCreateRequest F → TrainingRunRow F → TrainingRunRow F
  advanced_row m payload row = record row {
    current_epoch = max row.current_epoch payload.epoch;
    train_loss = first_of payload.train_loss row.train_loss;
    val_loss = first_of payload.val_loss row.val_loss;
    eval_score = first_of payload.eval_score row.eval_score;
    best_checkpoint_uri = some (strip payload.checkpoint_uri);
    updated_at = m.now;
  }

  unfoldable pub create_checkpoint :
      TrainingMoment F
      → String
      → TrainingCheckpointCreateRequest F
      → MetadataStore
      → Result (TrainingCheckpoint F) × MetadataStore
  create_checkpoint m run_id payload s = elim (D.runs.find s.runs run_id) [
    | none ↦ (run_not_found F run_id, s)
    | some run_row ↦
        let row = checkpoint_row m run_id payload in
        (
          ok (map_checkpoint F row),
          record s {
            runs = D.runs.update (advanced_row m payload run_row) s.runs;
            checkpoints = D.checkpoints.insert row s.checkpoints;
          },
        )
  ]

  pub list_checkpoints : String → MetadataStore → List (TrainingCheckpoint F)
  list_checkpoints run_id s =
      map (map_checkpoint F)
        (D.checkpoints.select_desc (λ r. r.epoch) (λ r. r.run_id == run_id) s.checkpoints)
