-- ===== src/Models/Training.antt =====
-- backend/app/models/training.py. An enumeration is a `StrEnum`, whose members are the texts that
-- the database keeps.
use hyper_looms.Prelude.{ℕ, String, ◌≡◌, ◌↔◌, Bool, true, false, Option, List, arith, Eq}
use hyper_looms.Prelude.Int.{ℤ}
use hyper_looms.Float.{FloatOps}

pub data ArtifactFramework : Type 0 where
  pytorch tensorflow onnx custom : ArtifactFramework

pub data DatasetFormat : Type 0 where
  parquet jsonl webdataset csv custom : DatasetFormat

pub data TrainingMode : Type 0 where
  train finetune inference evaluation : TrainingMode

pub data TrainingStatus : Type 0 where
  queued running completed failed cancelled : TrainingStatus

pub data BudgetProfile : Type 0 where
  starter scale peak : BudgetProfile

abbrev pub training_status_beq : TrainingStatus → TrainingStatus → Bool
training_status_beq TrainingStatus.queued TrainingStatus.queued = true
training_status_beq TrainingStatus.running TrainingStatus.running = true
training_status_beq TrainingStatus.completed TrainingStatus.completed = true
training_status_beq TrainingStatus.failed TrainingStatus.failed = true
training_status_beq TrainingStatus.cancelled TrainingStatus.cancelled = true
training_status_beq _ _ = false

pub training_status_beq_iff : (a b : TrainingStatus) → (training_status_beq a b ≡ true) ↔ (a ≡ b)
training_status_beq_iff a b = ground arith

instance abbrev pub training_status_eq : Eq TrainingStatus
training_status_eq = record { beq = training_status_beq; beq_iff = training_status_beq_iff }

module _ (F : FloatOps) where
  open F use {Float}

  -- str | int | float | bool
  pub data MetadataValue : Type 0 where
    text : String → MetadataValue
    whole : ℤ → MetadataValue
    real : Float → MetadataValue
    flag : Bool → MetadataValue

  pub record ModelArtifactCreateRequest : Type 0 where
    pub name : String
    pub version : String
    pub source_uri : String
    pub framework : ArtifactFramework
    pub precision : String
    pub parameter_count_b : Float
    pub size_gb : Float
    pub metadata : List (String × MetadataValue)

  pub record ModelArtifact : Type 0 where
    pub artifact_id : String
    pub name : String
    pub version : String
    pub source_uri : String
    pub framework : ArtifactFramework
    pub precision : String
    pub parameter_count_b : Float
    pub size_gb : Float
    pub metadata : List (String × MetadataValue)
    pub created_at : ℕ

  pub record DatasetCreateRequest : Type 0 where
    pub name : String
    pub version : String
    pub source_uri : String
    pub format : DatasetFormat
    pub train_samples : ℕ
    pub val_samples : ℕ
    pub test_samples : ℕ
    pub size_gb : Float
    pub schema_fields : List (String × String)

  pub record DatasetArtifact : Type 0 where
    pub dataset_id : String
    pub name : String
    pub version : String
    pub source_uri : String
    pub format : DatasetFormat
    pub train_samples : ℕ
    pub val_samples : ℕ
    pub test_samples : ℕ
    pub size_gb : Float
    pub schema_fields : List (String × String)
    pub created_at : ℕ

  pub record NodeAllocationHint : Type 0 where
    pub node_id : String
    pub score : Float
    pub region : String
    pub vram_total_gb : Float
    pub free_vram_gb : Float

  pub record ComputeEstimateRequest : Type 0 where
    pub artifact_id : String
    pub dataset_id : String
    pub mode : TrainingMode
    pub provider : String
    pub replicas : ℕ
    pub target_epochs : ℕ
    pub batch_size : ℕ
    pub learning_rate : Float
    pub max_tokens : ℕ
    pub preferred_region : Option String
    pub budget_profile : BudgetProfile

  pub record ComputeEstimateResponse : Type 0 where
    pub required_vram_gb : Float
    pub required_ram_gb : Float
    pub estimated_duration_hours : Float
    pub estimated_cost_credits : Float
    pub recommended_replicas : ℕ
    pub node_candidates : List NodeAllocationHint
    pub warnings : List String

  pub record TrainingRunCreateRequest : Type 0 where
    pub owner_id : String
    pub objective : String
    pub artifact_id : String
    pub dataset_id : String
    pub mode : TrainingMode
    pub provider : String
    pub preferred_region : Option String
    pub budget_profile : BudgetProfile
    pub replicas : ℕ
    pub target_epochs : ℕ
    pub batch_size : ℕ
    pub learning_rate : Float
    pub max_tokens : ℕ

  pub record TrainingRun : Type 0 where
    pub run_id : String
    pub owner_id : String
    pub objective : String
    pub artifact_id : String
    pub dataset_id : String
    pub mode : TrainingMode
    pub status : TrainingStatus
    pub provider : String
    pub preferred_region : Option String
    pub budget_profile : BudgetProfile
    pub replicas : ℕ
    pub target_epochs : ℕ
    pub current_epoch : ℕ
    pub batch_size : ℕ
    pub learning_rate : Float
    pub max_tokens : ℕ
    pub estimated_vram_gb : Float
    pub estimated_ram_gb : Float
    pub estimated_duration_hours : Float
    pub estimated_cost_credits : Float
    pub assigned_node_ids : List String
    pub train_loss : Option Float
    pub val_loss : Option Float
    pub eval_score : Option Float
    pub best_checkpoint_uri : Option String
    pub progress_pct : Float
    pub created_at : ℕ
    pub started_at : Option ℕ
    pub completed_at : Option ℕ
    pub updated_at : ℕ
    pub error : Option String

  pub record TrainingCheckpointCreateRequest : Type 0 where
    pub epoch : ℕ
    pub step : ℕ
    pub train_loss : Option Float
    pub val_loss : Option Float
    pub eval_score : Option Float
    pub checkpoint_uri : String

  pub record TrainingCheckpoint : Type 0 where
    pub checkpoint_id : String
    pub run_id : String
    pub epoch : ℕ
    pub step : ℕ
    pub train_loss : Option Float
    pub val_loss : Option Float
    pub eval_score : Option Float
    pub checkpoint_uri : String
    pub created_at : ℕ
