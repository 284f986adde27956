-- ===== src/Training/Runs.antt =====
-- backend/app/services/training_orchestrator.py: the operations of `TrainingOrchestrator` on runs.
use hyper_looms.Prelude.{
  ℕ, ◌+◌, ◌*◌, String, Bool, true, false, ◌&&◌, ◌||◌, not, Option, none, some, List, [], ◌∷◌, map,
  ◌==◌, string_eq, nat_eq, leb, ltb, max, min, take, if◌then◌else◌,
}
use hyper_looms.Float.{FloatOps, max_float, min_float}
use hyper_looms.Result.{Result, ok, err, concat}
use hyper_looms.Text.{strip, show_nat}
use hyper_looms.Models.Training.{
  TrainingStatus, training_status_eq, ComputeEstimateRequest, ComputeEstimateResponse,
  TrainingRunCreateRequest, TrainingRun, TrainingCheckpointCreateRequest, TrainingCheckpoint,
}
use hyper_looms.Credits.{Call, CreditLedger, charge_user_for_job}
use hyper_looms.Store.State.{StoreState, list_nodes}
use hyper_looms.Training.Rows.{TrainingMoment, TrainingRunRow, Database, RunData, run_not_found}
use hyper_looms.Training.Metadata.{
  MetadataStore, insert_training_run, list_training_runs, get_training_run, update_training_run,
  create_checkpoint,
}
use hyper_looms.Training.Estimate.{estimate_compute}

abbrev pub is_terminal : TrainingStatus → Bool
is_terminal TrainingStatus.completed = true
is_terminal TrainingStatus.failed = true
is_terminal TrainingStatus.cancelled = true
is_terminal _ = false

-- f"{n:03d}"
pub three_digits : ℕ → String
unfolding show_nat
three_digits n =
    if ltb n 10
    then concat ("00" ∷ show_nat n ∷ [])
    else if ltb n 100
    then concat ("0" ∷ show_nat n ∷ [])
    else show_nat n

-- `x or y` of a float that may be None
abbrev pub loss_or : (F : FloatOps) → Option F.Float → F.Float → F.Float
loss_or F none y = y
loss_or F (some x) y = if F.le x (F.lit 0 0) && F.le (F.lit 0 0) x then y else x

-- `TrainingOrchestrator.__init__`, the bound on what a GPU hour costs
abbrev pub credit_per_gpu_hour_of : (F : FloatOps) → F.Float → F.Float
credit_per_gpu_hour_of F x = max_float F (F.lit 1 2) x

module _ (F : FloatOps) (D : Database F) where
  open F use {Float, lit, add, mul, lt, round}

  abbrev pub estimate_payload : TrainingRunCreateRequest F → ComputeEstimateRequest F
  estimate_payload payload = record {
    artifact_id = payload.artifact_id;
    dataset_id = payload.dataset_id;
    mode = payload.mode;
    provider = payload.provider;
    replicas = payload.replicas;
    target_epochs = payload.target_epochs;
    batch_size = payload.batch_size;
    learning_rate = payload.learning_rate;
    max_tokens = payload.max_tokens;
    preferred_region = payload.preferred_region;
    budget_profile = payload.budget_profile;
  }

  abbrev pub run_data : TrainingRunCreateRequest F → ComputeEstimateResponse F → RunData F
  run_data payload estimate = record {
    owner_id = payload.owner_id;
    objective = strip payload.objective;
    artifact_id = payload.artifact_id;
    dataset_id = payload.dataset_id;
    mode = payload.mode;
    status = TrainingStatus.queued;
    provider = payload.provider;
    preferred_region = payload.preferred_region;
    budget_profile = payload.budget_profile;
    replicas = estimate.recommended_replicas;
    target_epochs = payload.target_epochs;
    current_epoch = 0;
    batch_size = payload.batch_size;
    learning_rate = payload.learning_rate;
    max_tokens = payload.max_tokens;
    estimated_vram_gb = estimate.required_vram_gb;
    estimated_ram_gb = estimate.required_ram_gb;
    estimated_duration_hours = estimate.estimated_duration_hours;
    estimated_cost_credits = estimate.estimated_cost_credits;
    assigned_node_ids =
        map (λ hint. hint.node_id) (take estimate.recommended_replicas estimate.node_candidates);
    started_at = none;
    completed_at = none;
    error = none;
  }

  -- the text that stands for a job in the charge
  abbrev pub train_reference : TrainingRunCreateRequest F → String
  train_reference payload = concat ("train-" ∷ payload.artifact_id ∷ "-" ∷ payload.dataset_id ∷ [])

  abbrev pub train_call : TrainingMoment F → Call
  train_call m = record { now = m.now; uuid = m.fresh "charge" }

  -- the charge, where there is a ledger and something to pay
  unfoldable pub charge_run :
      TrainingMoment F
      → TrainingRunCreateRequest F
      → Float
      → Option (CreditLedger F)
      → Result (Unit {0}) × Option (CreditLedger F)
  unfolding charge_user_for_job
  charge_run m payload cost none = (ok tt, none)
  charge_run m payload cost (some ledger) =
      let (charged, ledger') =
        charge_user_for_job F (train_call m) payload.owner_id (train_reference payload) cost
          ledger in
      if lt (lit 0 0) cost
      then (elim charged [ err e ↦ err e | ok _ ↦ ok tt ], some ledger')
      else (ok tt, some ledger)

  -- The store of the coordinator gives the nodes and the ledger. The charge comes before the insert,
  -- and is not taken back when that raises.
  unfoldable pub create_training_run :
      TrainingMoment F
      → Float
      → TrainingRunCreateRequest F
      → StoreState F
      → MetadataStore F D
      → Result (TrainingRun F) × (StoreState F × MetadataStore F D)
  unfolding estimate_compute charge_run insert_training_run
  create_training_run m credit_per_gpu_hour payload coordinator s =
      elim (estimate_compute F D m credit_per_gpu_hour (estimate_payload payload)
        (list_nodes F coordinator) s) [
          | err e ↦ (err e, (coordinator, s))
          | ok estimate ↦
              let (charged, credits) =
                charge_run m payload estimate.estimated_cost_credits coordinator.credits in
              let paid = record coordinator { credits = credits } in
              elim charged [
                | err e ↦ (err e, (paid, s))
                | ok _ ↦
                    let (run, s1) = insert_training_run F D m (run_data payload estimate) s in
                    (run, (paid, s1))
              ]
        ]

  abbrev pub completed_row :
      TrainingMoment F → TrainingCheckpoint F → TrainingRunRow F → TrainingRunRow F
  completed_row m checkpoint row = record row {
    status = TrainingStatus.completed;
    completed_at = some m.now;
    best_checkpoint_uri = some checkpoint.checkpoint_uri;
  }

  abbrev pub completes : TrainingRun F → Bool
  completes run =
      leb run.target_epochs run.current_epoch
      && not (run.status == TrainingStatus.completed || run.status == TrainingStatus.cancelled)

  unfoldable pub append_training_checkpoint :
      TrainingMoment F
      → String
      → TrainingCheckpointCreateRequest F
      → MetadataStore F D
      → Result (TrainingCheckpoint F) × MetadataStore F D
  unfolding create_checkpoint update_training_run
  append_training_checkpoint m run_id payload s =
      let (created, s1) = create_checkpoint F D m run_id payload s in
      elim created [
        | err e ↦ (err e, s1)
        | ok checkpoint ↦ elim (get_training_run F D s1 run_id) [
          | none ↦ (run_not_found F run_id, s1)
          | some run ↦
              let (result, s2) = update_training_run F D m run_id (completed_row m checkpoint) s1 in
              if completes run
              then (elim result [ err e ↦ err e | ok _ ↦ ok checkpoint ], s2)
              else (ok checkpoint, s1)
        ]
      ]

  abbrev pub cancelled_row : TrainingMoment F → TrainingRunRow F → TrainingRunRow F
  cancelled_row m row = record row {
    status = TrainingStatus.cancelled;
    completed_at = some m.now;
    error = some "Cancelled by operator";
  }

  unfoldable pub cancel_training_run :
      TrainingMoment F → String → MetadataStore F D → Result (TrainingRun F) × MetadataStore F D
  unfolding update_training_run
  cancel_training_run m run_id s = elim (get_training_run F D s run_id) [
    | none ↦ (run_not_found F run_id, s)
    | some run ↦
        if is_terminal run.status
        then (ok run, s)
        else update_training_run F D m run_id (cancelled_row m) s
  ]

  abbrev pub started_row : TrainingMoment F → TrainingRunRow F → TrainingRunRow F
  started_row m row = record row {
    status = TrainingStatus.running;
    started_at = some m.now;
    error = none;
  }

  abbrev pub next_epoch_of : TrainingRun F → ℕ
  next_epoch_of run = min run.target_epochs (run.current_epoch + 1)

  -- The checkpoint of an epoch, with the three random numbers of the run.
  unfoldable pub epoch_checkpoint :
      TrainingMoment F → TrainingRun F → TrainingCheckpointCreateRequest F
  unfolding three_digits
  epoch_checkpoint m run =
      let next_epoch = next_epoch_of run in
      let draw = m.random run.run_id in
      record {
        epoch = next_epoch;
        step = max 1 (next_epoch * 120);
        train_loss = some (
            max_float F (lit 1 2) (
              round
                (mul (loss_or F run.train_loss (lit 22 1))
                  (add (lit 78 2) (mul (draw 0) (lit 8 2))))
                4));
        val_loss = some (
            max_float F (lit 1 2) (
              round
                (mul (loss_or F run.val_loss (lit 235 2)) (add (lit 80 2) (mul (draw 1) (lit 9 2))))
                4));
        eval_score = some (
            min_float F (lit 99 2) (
              round
                (add (add (loss_or F run.eval_score (lit 42 2)) (lit 3 2)) (mul (draw 2) (lit 4 2)))
                4));
        checkpoint_uri = concat (
            run.artifact_id
            ∷ "/runs/"
            ∷ run.run_id
            ∷ "/epoch-"
            ∷ three_digits next_epoch
            ∷ ".ckpt"
            ∷ []);
      }

  abbrev pub epoch_status : TrainingRun F → TrainingStatus
  epoch_status run =
      if leb run.target_epochs (next_epoch_of run)
      then TrainingStatus.completed
      else TrainingStatus.running

  abbrev pub epoch_row :
      TrainingMoment F → TrainingRun F → TrainingCheckpoint F → TrainingRunRow F → TrainingRunRow F
  epoch_row m run checkpoint row = record row {
    status = epoch_status run;
    current_epoch = next_epoch_of run;
    train_loss = checkpoint.train_loss;
    val_loss = checkpoint.val_loss;
    eval_score = checkpoint.eval_score;
    best_checkpoint_uri = some checkpoint.checkpoint_uri;
    completed_at = if epoch_status run == TrainingStatus.completed then some m.now else none;
  }

  -- the body of the loop for a run that is neither finished nor queued
  unfoldable pub tick_epoch :
      TrainingMoment F
      → TrainingRun F
      → MetadataStore F D
      → Result (TrainingRun F) × MetadataStore F D
  unfolding create_checkpoint update_training_run epoch_checkpoint
  tick_epoch m run s =
      let (created, s1) = create_checkpoint F D m run.run_id (epoch_checkpoint m run) s in
      elim created [
        | err e ↦ (err e, s1)
        | ok checkpoint ↦ update_training_run F D m run.run_id (epoch_row m run checkpoint) s1
      ]

  unfoldable pub tick_run :
      TrainingMoment F
      → TrainingRun F
      → MetadataStore F D
      → Result (TrainingRun F) × MetadataStore F D
  unfolding update_training_run tick_epoch
  tick_run m run s =
      if run.status == TrainingStatus.queued
      then update_training_run F D m run.run_id (started_row m) s
      else tick_epoch m run s

  -- The loop over the runs that were listed: what was updated, and the store afterwards.
  unfoldable pub tick_runs :
      TrainingMoment F
      → List (TrainingRun F)
      → MetadataStore F D
      → Result (List (TrainingRun F)) × MetadataStore F D
  unfolding tick_run
  tick_runs m [] s = (ok [], s)
  tick_runs m (run ∷ runs) s =
      let (ticked, s1) = tick_run m run s in
      let (rest, s2) = tick_runs m runs s1 in
      let skipped = tick_runs m runs s in
      if is_terminal run.status then skipped else elim ticked [
        | err e ↦ (err e, s1)
        | ok updated ↦ elim rest [ err e ↦ (err e, s2) | ok others ↦ (ok (updated ∷ others), s2) ]
      ]

  unfoldable pub tick_training_runs :
      TrainingMoment F → MetadataStore F D → Result (List (TrainingRun F)) × MetadataStore F D
  unfolding list_training_runs tick_runs
  tick_training_runs m s = tick_runs m (list_training_runs F D none s) s
