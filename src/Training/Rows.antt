-- ===== src/Training/Rows.antt =====
-- backend/app/services/training_metadata_store.py: the rows of the tables, and what is read off them.
use hyper_looms.Prelude.{ℕ, String, Option, List, [], ◌∷◌, ◌==◌, string_eq, nat_eq, if◌then◌else◌}
use hyper_looms.Float.{FloatOps, min_float}
use hyper_looms.Result.{Result, err, key_error, concat}
use hyper_looms.Models.Training.{
  ArtifactFramework, DatasetFormat, TrainingMode, TrainingStatus, training_status_eq, BudgetProfile,
  MetadataValue, ModelArtifact, DatasetArtifact, TrainingRun, TrainingCheckpoint,
}
use hyper_looms.Training.Tables.{TableOps}

-- What a call reads from outside: the clock, the `uuid4` of each new row by what it is for, the
-- three calls of `random()` for each run, whether the database takes a new run, and the format `.1f` of a float.
pub record TrainingMoment (F : FloatOps) : Type 0 where
  pub now : ℕ
  pub fresh : String → String
  pub random : String → ℕ → F.Float
  pub one_decimal : F.Float → String
  -- the text of the error, if any, that SQLAlchemy raises when a new run is flushed and committed
  pub database_error : Option String

-- The times of the rows are instants: SQLite gives them back without their zone.
module _ (F : FloatOps) where
  open F use {Float, lit, mul, div, round}

  pub record ModelArtifactRow : Type 0 where
    pub artifact_id : String
    pub name : String
    pub version : String
    pub source_uri : String
    pub framework : ArtifactFramework
    pub precision : String
    pub parameter_count_b : Float
    pub size_gb : Float
    pub metadata_json : List (String × MetadataValue F)
    pub created_at : ℕ

  pub record DatasetArtifactRow : Type 0 where
    pub dataset_id : String
    pub name : String
    pub version : String
    pub source_uri : String
    pub format : DatasetFormat
    pub train_samples : ℕ
    pub val_samples : ℕ
    pub test_samples : ℕ
    pub size_gb : Float
    pub schema_json : List (String × String)
    pub created_at : ℕ

  pub record TrainingRunRow : Type 0 where
    pub run_id : String
    pub owner_id : String
    pub objective : String
    pub artifact_id : String
    pub dataset_id : String
    pub mode : TrainingMode
    pub status : TrainingStatus
    pub provider : String
    pub preferred_region : Option String
    pub budget_profile : BudgetProfile
    pub replicas : ℕ
    pub target_epochs : ℕ
    pub current_epoch : ℕ
    pub batch_size : ℕ
    pub learning_rate : Float
    pub max_tokens : ℕ
    pub estimated_vram_gb : Float
    pub estimated_ram_gb : Float
    pub estimated_duration_hours : Float
    pub estimated_cost_credits : Float
    pub assigned_node_ids : List String
    pub train_loss : Option Float
    pub val_loss : Option Float
    pub eval_score : Option Float
    pub best_checkpoint_uri : Option String
    pub created_at : ℕ
    pub started_at : Option ℕ
    pub completed_at : Option ℕ
    pub updated_at : ℕ
    pub error : Option String

  pub record TrainingCheckpointRow : Type 0 where
    pub checkpoint_id : String
    pub run_id : String
    pub epoch : ℕ
    pub step : ℕ
    pub train_loss : Option Float
    pub val_loss : Option Float
    pub eval_score : Option Float
    pub checkpoint_uri : String
    pub created_at : ℕ

  abbrev pub run_key : TrainingRunRow → String
  run_key r = r.run_id

  pub record Database : Type 1 where
    pub artifacts : TableOps ModelArtifactRow (λ r. r.artifact_id)
    pub datasets : TableOps DatasetArtifactRow (λ r. r.dataset_id)
    pub runs : TableOps TrainingRunRow run_key
    pub checkpoints : TableOps TrainingCheckpointRow (λ r. r.checkpoint_id)

  abbrev pub map_artifact : ModelArtifactRow → ModelArtifact F
  map_artifact row = record {
    artifact_id = row.artifact_id;
    name = row.name;
    version = row.version;
    source_uri = row.source_uri;
    framework = row.framework;
    precision = row.precision;
    parameter_count_b = row.parameter_count_b;
    size_gb = row.size_gb;
    metadata = row.metadata_json;
    created_at = row.created_at;
  }

  abbrev pub map_dataset : DatasetArtifactRow → DatasetArtifact F
  map_dataset row = record {
    dataset_id = row.dataset_id;
    name = row.name;
    version = row.version;
    source_uri = row.source_uri;
    format = row.format;
    train_samples = row.train_samples;
    val_samples = row.val_samples;
    test_samples = row.test_samples;
    size_gb = row.size_gb;
    schema_fields = row.schema_json;
    created_at = row.created_at;
  }

  abbrev pub progress_pct_of : TrainingRunRow → Float
  progress_pct_of row =
      if row.target_epochs == 0
      then lit 100 0
      else min_float F (lit 100 0)
          (round (mul (div (lit row.current_epoch 0) (lit row.target_epochs 0)) (lit 100 0)) 2)

  abbrev pub map_training_run : TrainingRunRow → TrainingRun F
  map_training_run row = record {
    run_id = row.run_id;
    owner_id = row.owner_id;
    objective = row.objective;
    artifact_id = row.artifact_id;
    dataset_id = row.dataset_id;
    mode = row.mode;
    status = row.status;
    provider = row.provider;
    preferred_region = row.preferred_region;
    budget_profile = row.budget_profile;
    replicas = row.replicas;
    target_epochs = row.target_epochs;
    current_epoch = row.current_epoch;
    batch_size = row.batch_size;
    learning_rate = row.learning_rate;
    max_tokens = row.max_tokens;
    estimated_vram_gb = row.estimated_vram_gb;
    estimated_ram_gb = row.estimated_ram_gb;
    estimated_duration_hours = row.estimated_duration_hours;
    estimated_cost_credits = row.estimated_cost_credits;
    assigned_node_ids = row.assigned_node_ids;
    train_loss = row.train_loss;
    val_loss = row.val_loss;
    eval_score = row.eval_score;
    best_checkpoint_uri = row.best_checkpoint_uri;
    progress_pct = progress_pct_of row;
    created_at = row.created_at;
    started_at = row.started_at;
    completed_at = row.completed_at;
    updated_at = row.updated_at;
    error = row.error;
  }

  abbrev pub map_checkpoint : TrainingCheckpointRow → TrainingCheckpoint F
  map_checkpoint row = record {
    checkpoint_id = row.checkpoint_id;
    run_id = row.run_id;
    epoch = row.epoch;
    step = row.step;
    train_loss = row.train_loss;
    val_loss = row.val_loss;
    eval_score = row.eval_score;
    checkpoint_uri = row.checkpoint_uri;
    created_at = row.created_at;
  }

  -- The dictionary that `create_training_run` gets.
  pub record RunData : Type 0 where
    pub owner_id : String
    pub objective : String
    pub artifact_id : String
    pub dataset_id : String
    pub mode : TrainingMode
    pub status : TrainingStatus
    pub provider : String
    pub preferred_region : Option String
    pub budget_profile : BudgetProfile
    pub replicas : ℕ
    pub target_epochs : ℕ
    pub current_epoch : ℕ
    pub batch_size : ℕ
    pub learning_rate : Float
    pub max_tokens : ℕ
    pub estimated_vram_gb : Float
    pub estimated_ram_gb : Float
    pub estimated_duration_hours : Float
    pub estimated_cost_credits : Float
    pub assigned_node_ids : List String
    pub started_at : Option ℕ
    pub completed_at : Option ℕ
    pub error : Option String

  abbrev pub run_not_found : {A : Type 0} → String → Result A
  run_not_found run_id = err (key_error (concat ("Run '" ∷ run_id ∷ "' not found" ∷ [])))
