-- ===== src/Models/Job.antt =====
-- backend/app/models/job.py
use hyper_looms.Prelude.{ℕ, String, ◌≡◌, ◌↔◌, Bool, true, false, Option, List, arith, Eq}
use hyper_looms.Float.{FloatOps}

pub data JobStatus : Type 0 where
  pending running verifying completed failed : JobStatus

abbrev pub job_status_beq : JobStatus → JobStatus → Bool
job_status_beq JobStatus.pending JobStatus.pending = true
job_status_beq JobStatus.running JobStatus.running = true
job_status_beq JobStatus.verifying JobStatus.verifying = true
job_status_beq JobStatus.completed JobStatus.completed = true
job_status_beq JobStatus.failed JobStatus.failed = true
job_status_beq _ _ = false

pub job_status_beq_iff : (a b : JobStatus) → (job_status_beq a b ≡ true) ↔ (a ≡ b)
job_status_beq_iff a b = ground arith

instance abbrev pub job_status_eq : Eq JobStatus
job_status_eq = record { beq = job_status_beq; beq_iff = job_status_beq_iff }

pub data VerificationStatus : Type 0 where
  pending verified mismatch failed : VerificationStatus

module _ (F : FloatOps) where
  open F use {Float}

  pub record JobConfig : Type 0 where
    pub model : String
    pub replicas : ℕ
    pub max_tokens : ℕ
    pub temperature : Float
    pub provider : String
    pub preferred_region : Option String

  pub record JobCreateRequest : Type 0 where
    pub prompt : String
    pub config : JobConfig
    pub owner_id : String

  -- An entry of `Job.logs`: the store appends dictionaries with these three keys.
  pub record JobLogEntry : Type 0 where
    pub message : String
    pub level : String
    pub node_id : Option String

  pub record NodeExecutionResult : Type 0 where
    pub node_id : String
    pub output : Option String
    pub latency_ms : Float
    pub success : Bool
    pub error : Option String

  pub record JobMetrics : Type 0 where
    pub queue_ms : Float
    pub execution_ms : Float
    pub verification_ms : Float
    pub total_ms : Float

  -- Of `verification_details` the services read the list "majority_nodes" alone.
  pub record Job : Type 0 where
    pub id : String
    pub prompt : String
    pub config : JobConfig
    pub owner_id : String
    pub cost_estimate_credits : Float
    pub status : JobStatus
    pub verification_status : VerificationStatus
    pub progress : Float
    pub assigned_node_ids : List String
    pub scheduled_node_ids : List String
    pub inflight_node_ids : List String
    pub failed_node_ids : List String
    pub results : List NodeExecutionResult
    pub logs : List JobLogEntry
    pub merged_output : Option String
    pub verification_confidence : Float
    pub majority_nodes : List String
    pub created_at : ℕ
    pub updated_at : ℕ
    pub error : Option String
    pub metrics : JobMetrics
