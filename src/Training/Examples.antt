-- ===== src/Training/Examples.antt =====
-- The theorems on training at a concrete store: one artifact, one data set, and one queued run.
use mathlib.Core.Option
use hyper_looms.Prelude.{
  sort_by, ◌⊎◌, ◌≤◌, ◌↔◌, String, ◌≡◌, refl, true, Option, none, some, [], ◌∷◌, arith, ◌==◌,
  string_eq, nat_eq, length, is_some, if_ind, subst,
}
use hyper_looms.Float.Fixed.{fixed, fixed-FloatLaws}
use hyper_looms.Result.{ok, err, runtime_error}
use hyper_looms.Credits.{
  TransferArgs, charge_args, CreditLedger, charge_user_for_job, transfer, move,
}
use hyper_looms.Dict.{get}
use hyper_looms.Prelude.{or_else, pair_eq}
use hyper_looms.Models.Credits.{account_type_eq}
use hyper_looms.Prelude.Int.{◌-ℤ◌}
use hyper_looms.Models.Training.{
  ArtifactFramework, DatasetFormat, TrainingMode, TrainingStatus, BudgetProfile,
  ModelArtifactCreateRequest, ComputeEstimateRequest, ComputeEstimateResponse,
  TrainingRunCreateRequest, DatasetArtifact,
}
use hyper_looms.Store.State.{list_nodes, StoreState}
use hyper_looms.Training.Tables.{TableLaws}
use hyper_looms.Training.RowTables.{row_table, row_table-TableLaws}
use hyper_looms.Training.Rows.{
  TrainingMoment, ModelArtifactRow, DatasetArtifactRow, TrainingRunRow, TrainingCheckpointRow,
  run_key, Database,
}
use hyper_looms.Training.Metadata.{
  insert_training_run, MetadataStore, create_model_artifact, get_model_artifact,
}
use hyper_looms.Training.Estimate.{estimate_compute, estimate_run}
use hyper_looms.Training.Runs.{
  train_call, train_reference, estimate_payload, charge_run, create_training_run,
  tick_training_runs,
}
use hyper_looms.Training.Effects.{ticked_row, same_some}
use hyper_looms.Training.Ticks.{IsOk, tick_training_runs_lem}
use hyper_looms.Training.Progress.{ticks, ticks_complete}
use hyper_looms.Training.Lifecycle.{RunIsValid}
use hyper_looms.Training.Reachable.{
  TrainingStep, TrainingSteps, RunsAreValid, AllMove, TrainingSteps-RunsAreValid,
  TrainingSteps-AllMove,
}
use hyper_looms.Credits.Idempotent.{LedgerStep, LedgerSteps}
use hyper_looms.Training.Requests.{
  estimate_compute_iff, estimate_compute_bounds, create_training_run_refused, charge_run_once,
}

abbrev tables : Database fixed
tables = record {
  artifacts = row_table (ModelArtifactRow fixed) (λ r. r.artifact_id);
  datasets = row_table (DatasetArtifactRow fixed) (λ r. r.dataset_id);
  runs = row_table (TrainingRunRow fixed) (run_key fixed);
  checkpoints = row_table (TrainingCheckpointRow fixed) (λ r. r.checkpoint_id);
}

abbrev run_laws : TableLaws (TrainingRunRow fixed) (run_key fixed) tables.runs
run_laws = row_table-TableLaws (TrainingRunRow fixed) (run_key fixed)

abbrev moment : TrainingMoment fixed
moment = record {
  now = 5000000;
  fresh = λ s. s;
  random = λ _ _. fixed.lit 5 1;
  one_decimal = λ _. "7.0";
  database_error = none;
}

abbrev queued_row : TrainingRunRow fixed
queued_row = record {
  run_id = "run-1";
  owner_id = "ann";
  objective = "";
  artifact_id = "model-1";
  dataset_id = "dataset-1";
  mode = TrainingMode.finetune;
  status = TrainingStatus.queued;
  provider = "fabric";
  preferred_region = none;
  budget_profile = BudgetProfile.scale;
  replicas = 1;
  target_epochs = 2;
  current_epoch = 0;
  batch_size = 8;
  learning_rate = fixed.lit 2 4;
  max_tokens = 1024;
  estimated_vram_gb = fixed.lit 40 1;
  estimated_ram_gb = fixed.lit 80 1;
  estimated_duration_hours = fixed.lit 10 1;
  estimated_cost_credits = fixed.lit 140 1;
  assigned_node_ids = [];
  train_loss = none;
  val_loss = none;
  eval_score = none;
  best_checkpoint_uri = none;
  created_at = 0;
  started_at = none;
  completed_at = none;
  updated_at = 0;
  error = none;
}

abbrev store : MetadataStore fixed tables
store = record {
  artifacts = (
    record {
      artifact_id = "model-1";
      name = "llama";
      version = "v1";
      source_uri = "s3://models/llama";
      framework = ArtifactFramework.pytorch;
      precision = "bf16";
      parameter_count_b = fixed.lit 70 1;
      size_gb = fixed.lit 140 1;
      metadata_json = [];
      created_at = 0;
    }
        ∷ [],
    (refl, tt),
  );
  datasets = (
    record {
      dataset_id = "dataset-1";
      name = "chat";
      version = "v1";
      source_uri = "s3://data/chat";
      format = DatasetFormat.jsonl;
      train_samples = 50000;
      val_samples = 0;
      test_samples = 0;
      size_gb = fixed.lit 100 1;
      schema_json = [];
      created_at = 0;
    }
        ∷ [],
    (refl, tt),
  );
  runs = (queued_row ∷ [], (refl, tt));
  checkpoints = ([], tt);
}

abbrev later : MetadataStore fixed tables
later = ticks fixed tables (moment ∷ moment ∷ moment ∷ []) store

-- three ticks start the run and complete its two epochs
ticks_complete_example :
    (after : TrainingRunRow fixed) × (tables.runs.find later.runs "run-1" ≡ some after)
    × (after.status ≡ TrainingStatus.completed)
    × (after.current_epoch ≡ 2)
ticks_complete_example =
    ticks_complete fixed tables run_laws (moment ∷ moment ∷ moment ∷ []) store "run-1" queued_row
      refl refl (omega arith) (omega arith)

tick_training_runs_lem_example :
    IsOk (tick_training_runs fixed tables moment store).0
    × ((run_id : String)
        → tables.runs.find (tick_training_runs fixed tables moment store).1.runs run_id
          ≡ Option.map
              (ticked_row fixed tables run_laws moment)
              (tables.runs.find store.runs run_id))
tick_training_runs_lem_example = tick_training_runs_lem fixed tables run_laws moment store

queued_row-RunIsValid : RunIsValid fixed queued_row
queued_row-RunIsValid = record {
  unfailed = λ e. ground arith;
  short = λ _. omega arith;
  full = λ e. absurd (ground arith);
}

store-RunsAreValid : RunsAreValid fixed tables store
store-RunsAreValid k row found =
    if_ind (λ (o : Option (TrainingRunRow fixed)). o ≡ some row → RunIsValid fixed row)
      ("run-1" == k)
      (λ _ (e : some queued_row ≡ some row).
        subst (RunIsValid fixed) (same_some (some queued_row) queued_row row refl e)
          queued_row-RunIsValid)
      (λ _ e. absurd (ground arith)) found

two_steps :
    TrainingSteps fixed tables store
      (tick_training_runs fixed tables moment (tick_training_runs fixed tables moment store).1).1
two_steps =
    let s1 = (tick_training_runs fixed tables moment store).1 in
    let s2 = (tick_training_runs fixed tables moment s1).1 in
    TrainingSteps.step store s1 s2 (TrainingStep.ticks moment store)
      (TrainingSteps.step s1 s2 s2 (TrainingStep.ticks moment s1) (TrainingSteps.done s2))

TrainingSteps-RunsAreValid_example :
    RunsAreValid fixed tables
      (tick_training_runs fixed tables moment (tick_training_runs fixed tables moment store).1).1
TrainingSteps-RunsAreValid_example =
    TrainingSteps-RunsAreValid fixed tables run_laws store
      (tick_training_runs fixed tables moment (tick_training_runs fixed tables moment store).1).1
      two_steps store-RunsAreValid

TrainingSteps-AllMove_example :
    AllMove fixed tables store
      (tick_training_runs fixed tables moment (tick_training_runs fixed tables moment store).1).1
TrainingSteps-AllMove_example =
    TrainingSteps-AllMove fixed tables run_laws store
      (tick_training_runs fixed tables moment (tick_training_runs fixed tables moment store).1).1
      two_steps store-RunsAreValid

abbrev new_artifact : ModelArtifactCreateRequest fixed
new_artifact = record {
  name = " qwen ";
  version = "v1";
  source_uri = "s3://models/qwen";
  framework = ArtifactFramework.onnx;
  precision = "bf16";
  parameter_count_b = fixed.lit 70 1;
  size_gb = fixed.lit 140 1;
  metadata = [];
}

abbrev request : ComputeEstimateRequest fixed
request = record {
  artifact_id = "model-1";
  dataset_id = "dataset-1";
  mode = TrainingMode.train;
  provider = "fabric";
  replicas = 2;
  target_epochs = 2;
  batch_size = 8;
  learning_rate = fixed.lit 2 4;
  max_tokens = 1024;
  preferred_region = none;
  budget_profile = BudgetProfile.peak;
}

-- nine replicas are more than a `JobConfig` takes
estimate_compute_iff_example :
    ((estimate : ComputeEstimateResponse fixed) × (estimate_compute fixed tables moment
          (fixed.lit 140 1)
          (record request { replicas = 9 })
          []
          store
        ≡ ok estimate))
    ↔ ((is_some (tables.artifacts.find store.artifacts "model-1") ≡ true)
        × (is_some (tables.datasets.find store.datasets "dataset-1") ≡ true)
        × ((1 ≤ 9) × (9 ≤ 8))
        × ((32 ≤ 1024) × (1024 ≤ 8192)))
estimate_compute_iff_example =
    estimate_compute_iff fixed tables moment (fixed.lit 140 1) (record request { replicas = 9 }) []
      store

abbrev dataset : DatasetArtifact fixed
dataset = record {
  dataset_id = "dataset-1";
  name = "chat";
  version = "v1";
  source_uri = "s3://data/chat";
  format = DatasetFormat.jsonl;
  train_samples = 50000;
  val_samples = 0;
  test_samples = 0;
  size_gb = fixed.lit 100 1;
  schema_fields = [];
  created_at = 0;
}

abbrev estimate : ComputeEstimateResponse fixed
estimate =
    estimate_run fixed moment (fixed.lit 140 1)
      (or_else (get_model_artifact fixed tables store "model-1")
        (create_model_artifact fixed tables moment new_artifact store).0)
      dataset request []

estimate_compute_bounds_example :
    (1 ≤ estimate.recommended_replicas)
    × (estimate.recommended_replicas ≤ 2)
    × (length estimate.node_candidates ≤ 8)
unfolding estimate_compute
estimate_compute_bounds_example =
    estimate_compute_bounds fixed tables moment (fixed.lit 140 1) request [] store estimate
      (omega arith) refl

abbrev run_request : TrainingRunCreateRequest fixed
run_request = record {
  owner_id = "ann";
  objective = "chat";
  artifact_id = "model-2";
  dataset_id = "dataset-1";
  mode = TrainingMode.train;
  provider = "fabric";
  preferred_region = none;
  budget_profile = BudgetProfile.peak;
  replicas = 2;
  target_epochs = 2;
  batch_size = 8;
  learning_rate = fixed.lit 2 4;
  max_tokens = 1024;
}

abbrev ledger : CreditLedger fixed
ledger = record {
  accounts = [];
  transactions = [];
  idempotency = [];
  bootstrap_user_credits = fixed.lit 100 0;
}

abbrev coordinator : StoreState fixed
coordinator = record {
  nodes = [];
  jobs = [];
  credits = some ledger;
  assignment_started_at = [];
  assignment_hash_digests = [];
  assignment_hash_expires_at = [];
  job_started_at = [];
}

-- the database refuses the run after it was paid
abbrev full_disk : TrainingMoment fixed
full_disk = record moment { database_error = some "disk full" }

abbrev stored_request : TrainingRunCreateRequest fixed
stored_request = record run_request { artifact_id = "model-1" }

test_create_training_run_unstored :
    (create_training_run fixed tables full_disk
      (fixed.lit 140 1)
      stored_request
      coordinator
      store).0
    ≡ err (runtime_error "disk full")
unfolding create_training_run estimate_compute insert_training_run charge_run charge_user_for_job
    transfer move get ◌-ℤ◌ estimate_run sort_by list_nodes
test_create_training_run_unstored = refl

create_training_run_refused_example :
    ((create_training_run fixed tables full_disk
        (fixed.lit 140 1)
        stored_request
        coordinator
        store).1
      ≡ (coordinator, store))
    ⊎ ((is_some full_disk.database_error ≡ true)
        × ((estimate : ComputeEstimateResponse fixed) × (paid : Option (CreditLedger fixed))
            × (estimate_compute fixed tables full_disk
                  (fixed.lit 140 1)
                  (estimate_payload fixed tables stored_request)
                  (list_nodes fixed coordinator)
                  store
                ≡ ok estimate)
            × (charge_run fixed tables full_disk stored_request estimate.estimated_cost_credits
                  coordinator.credits
                ≡ (ok tt, paid))
            × ((create_training_run fixed tables full_disk
                  (fixed.lit 140 1)
                  stored_request
                  coordinator
                  store).1
                ≡ (record coordinator { credits = paid }, store))))
create_training_run_refused_example =
    create_training_run_refused fixed tables fixed-FloatLaws full_disk (fixed.lit 140 1)
      stored_request coordinator store (runtime_error "disk full") test_create_training_run_unstored

-- the ledger after the first run is paid
abbrev paid : CreditLedger fixed
paid =
    (charge_user_for_job fixed (train_call fixed tables moment) run_request.owner_id
      (train_reference fixed tables run_request) (fixed.lit 50 1) ledger).1

-- another transfer of the same user in between
abbrev later_args : TransferArgs fixed
later_args = charge_args fixed run_request.owner_id "job-9" (fixed.lit 20 1)

abbrev later_ledger : CreditLedger fixed
later_ledger = (transfer fixed (train_call fixed tables moment) later_args paid).1

charge_run_once_example :
    charge_run fixed tables moment
      (record run_request { target_epochs = 100 })
      (fixed.lit 700 0)
      (some later_ledger)
    ≡ (ok tt, some later_ledger)
unfolding charge_run charge_user_for_job transfer move get ◌-ℤ◌
charge_run_once_example =
    charge_run_once fixed tables fixed-FloatLaws moment moment run_request
      (record run_request { target_epochs = 100 }) (fixed.lit 50 1) (fixed.lit 700 0) ledger paid
      later_ledger refl refl refl refl refl
      (LedgerSteps.next LedgerSteps.here
        (LedgerStep.transfers (train_call fixed tables moment) later_args paid))
