-- ===== src/Store/Jobs.antt =====
-- The operations of `InMemoryStateStore` that create and change jobs outside a claim.
use hyper_looms.Prelude.{String, none, some, [], ◌∷◌, ◌++◌, string_eq}
use hyper_looms.Float.{FloatOps, max_float}
use hyper_looms.Dict.{get, put}
use hyper_looms.Result.{Result, ok, err, key_error, concat}
use hyper_looms.Models.Job.{
  Job, JobCreateRequest, JobLogEntry, JobMetrics, JobStatus, VerificationStatus,
}
use hyper_looms.Store.State.{Moment, StoreConfig, StoreState, list_nodes, put_job}
use hyper_looms.Store.Planning.{target_replicas, plan_nodes_for_job, ids_of}

module _ (F : FloatOps) where
  open F use {Float, lit, round}

  abbrev pub no_metrics : JobMetrics F
  no_metrics = record {
    queue_ms = lit 0 0;
    execution_ms = lit 0 0;
    verification_ms = lit 0 0;
    total_ms = lit 0 0;
  }

  abbrev pub new_job : Moment F → JobCreateRequest F → String → Float → Job F
  new_job m payload job_id cost = record {
    id = job_id;
    prompt = payload.prompt;
    config = payload.config;
    owner_id = payload.owner_id;
    cost_estimate_credits = round (max_float F (lit 0 1) cost) 4;
    status = JobStatus.pending;
    verification_status = VerificationStatus.pending;
    progress = lit 5 0;
    assigned_node_ids = [];
    scheduled_node_ids = [];
    inflight_node_ids = [];
    failed_node_ids = [];
    results = [];
    logs = [];
    merged_output = none;
    verification_confidence = lit 0 0;
    majority_nodes = [];
    created_at = m.now;
    updated_at = m.now;
    error = none;
    metrics = no_metrics;
  }

  -- The orchestrator, the only caller, passes a fresh `job_id`.
  unfoldable pub put_job_from_request :
      StoreConfig F
      → Moment F
      → JobCreateRequest F
      → String
      → Float
      → StoreState F
      → Job F × StoreState F
  put_job_from_request cfg m payload job_id cost s =
      let nodes = list_nodes F s in
      let target = target_replicas F cfg payload.config nodes in
      let plan = plan_nodes_for_job F cfg nodes payload.config target in
      let job = record (new_job m payload job_id cost) { scheduled_node_ids = ids_of F plan } in
      (job, put_job F job s)

  abbrev pub job_not_found : {A : Type 0} → String → Result A
  job_not_found job_id = err (key_error (concat ("Job '" ∷ job_id ∷ "' not found" ∷ [])))

  -- `touch_job` with the updates as a function on the job
  unfoldable pub touch_job :
      Moment F → String → (Job F → Job F) → StoreState F → Result (Job F) × StoreState F
  touch_job m job_id updates s = elim (get s.jobs job_id) [
    | none ↦ (job_not_found job_id, s)
    | some existing ↦
        let updated = record (updates existing) { updated_at = m.now } in
        (ok updated, record s { jobs = put s.jobs job_id updated })
  ]

  unfoldable pub append_job_log :
      Moment F → String → JobLogEntry F → StoreState F → Result (Job F) × StoreState F
  unfolding touch_job
  append_job_log m job_id entry s =
      touch_job m job_id (λ job. record job { logs = job.logs ++ entry ∷ [] }) s
