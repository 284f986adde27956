-- ===== src/Store/Submit.antt =====
-- `_submit_replica`: a node reports the output or the failure of the replica it claimed.
use hyper_looms.Prelude.{
  String, Bool, ◌&&◌, ◌||◌, true, false, not, Option, none, some, [], ◌∷◌, ◌++◌, ◌==◌, string_eq,
  pair_eq, if◌then◌else◌, or_else, filter, contains,
}
use hyper_looms.Prelude.Int.{negsuc}
use hyper_looms.Float.{FloatOps, max_float}
use hyper_looms.Dict.{get, put, has}
use hyper_looms.Result.{Result, ok, err, value_error, concat}
use hyper_looms.Models.Node.{NodeHeartbeatRequest}
use hyper_looms.Models.Job.{Job, JobStatus, job_status_eq, NodeExecutionResult}
use hyper_looms.Credits.{refund_user}
use hyper_looms.Store.State.{Moment, StoreConfig, StoreState, elapsed_ms}
use hyper_looms.Store.Nodes.{increment_node_jobs, adjust_node_trust, heartbeat}
use hyper_looms.Store.Planning.{unique}
use hyper_looms.Store.Keys.{verify_assignment_hash_key, drop_assignment}
use hyper_looms.Store.Jobs.{job_not_found}
use hyper_looms.Store.Claim.{log_entry}
use hyper_looms.Store.Evaluate.{evaluate_job, minus}

-- `if error`: neither `None` nor the empty text
abbrev pub truthy : Option String → Bool
truthy none = false
truthy (some e) = not (e == "")

module _ (F : FloatOps) where
  open F use {Float, lit, lt}

  -- the arguments of `_submit_replica`; the request model has `latency_ms >= 0`
  pub record Report : Type 0 where
    pub node_id : String
    pub job_id : String
    pub output : Option String
    pub latency_ms : Option Float
    pub error : Option String
    pub assignment_hash_key : Option String

  -- `submit_job_result` and `submit_job_failure` are the reports of these two forms.
  abbrev pub result_report : String → String → String → Option Float → Option String → Report
  result_report node_id job_id output latency_ms key = record {
    node_id = node_id;
    job_id = job_id;
    output = some output;
    latency_ms = latency_ms;
    error = none;
    assignment_hash_key = key;
  }

  abbrev pub failure_report : String → String → String → Option String → Report
  failure_report node_id job_id error key = record {
    node_id = node_id;
    job_id = job_id;
    output = none;
    latency_ms = none;
    error = some error;
    assignment_hash_key = key;
  }

  -- The checks that a report on a job which is not completed has to pass.
  unfoldable pub check_report :
      StoreConfig F → Moment F → Report → Job F → StoreState F → Result (Unit {0})
  unfolding verify_assignment_hash_key
  check_report cfg m r job s =
      if job.status == JobStatus.failed
      then err (value_error (concat ("Job '" ∷ r.job_id ∷ "' already failed" ∷ [])))
      else if contains r.node_id job.inflight_node_ids
          || has s.assignment_started_at (r.job_id, r.node_id)
      then verify_assignment_hash_key F cfg m r.job_id r.node_id r.assignment_hash_key s
      else err (
          value_error (
            concat (
              "Node '" ∷ r.node_id ∷ "' has no active assignment for job '" ∷ r.job_id ∷ "'" ∷ [])))

  abbrev pub replica_result : Moment F → Report → Job F → StoreState F → NodeExecutionResult F
  replica_result m r job s =
      let started_at = or_else (get s.job_started_at r.job_id) job.updated_at in
      let execution_ms = max_float F (lit 0 1) (elapsed_ms F m.now started_at) in
      record {
        node_id = r.node_id;
        output = r.output;
        latency_ms = or_else r.latency_ms execution_ms;
        success = elim r.error [ none ↦ true | some e ↦ false ];
        error = r.error;
      }

  unfoldable pub reported_job : Moment F → Report → Job F → StoreState F → Job F
  reported_job m r job s =
      let verb = if truthy r.error then "failed" else "result" in
      record job {
        status = JobStatus.running;
        results =
            filter (λ (x : NodeExecutionResult F). not (x.node_id == r.node_id)) job.results
            ++ replica_result m r job s ∷ [];
        inflight_node_ids = filter (λ i. not (i == r.node_id)) job.inflight_node_ids;
        failed_node_ids = elim r.error [
          | none ↦ job.failed_node_ids
          | some e ↦ unique (job.failed_node_ids ++ r.node_id ∷ [])
        ];
        logs =
            job.logs
            ++ log_entry F (concat ("Replica " ∷ verb ∷ " from " ∷ r.node_id ∷ []))
                (if truthy r.error then "error" else "info") (some r.node_id)
              ∷ [];
        updated_at = m.now;
      }

  -- what the report writes under the job lock
  unfoldable pub record_report : Moment F → Report → Job F → StoreState F → StoreState F
  unfolding reported_job drop_assignment
  record_report m r job s =
      let s' = drop_assignment F (r.job_id, r.node_id) s in
      record s' { jobs = put s'.jobs r.job_id (reported_job m r job s) }

  -- the heartbeat of a report
  abbrev pub report_beat : Report → NodeHeartbeatRequest F
  report_beat r = record {
    status = none;
    vram_used_gb = none;
    latency_ms = r.latency_ms;
    jobs_running = some 0;
    model_cache = none;
  }

  -- What the report does to the node: a heartbeat of an unknown node is ignored.
  unfoldable pub report_node : Moment F → Report → StoreState F → StoreState F
  unfolding increment_node_jobs adjust_node_trust heartbeat
  report_node m r s =
      let s1 = increment_node_jobs F m r.node_id (negsuc 0) s in
      let s2 =
        adjust_node_trust F r.node_id (if truthy r.error then minus F (lit 3 2) else lit 0 1) s1 in
      (heartbeat F m r.node_id (report_beat r) s2).1

  -- the refund of a job that came out as failed
  unfoldable pub refund_failed : Moment F → Job F → StoreState F → Result (Job F) × StoreState F
  refund_failed m final s = elim s.credits [
    | none ↦ (ok final, s)
    | some ledger ↦
        if final.status == JobStatus.failed && lt (lit 0 0) final.cost_estimate_credits
        then (let (result, ledger') =
              refund_user F
                (record {
                  now = m.now;
                  uuid = m.fresh (concat (final.id ∷ ":" ∷ final.owner_id ∷ []));
                })
                final.owner_id final.id final.cost_estimate_credits ledger in
            (
              elim result [ ok txn ↦ ok final | err e ↦ err e ],
              record s { credits = some ledger' },
            ))
        else (ok final, s)
  ]

  unfoldable pub submit_replica :
      StoreConfig F → Moment F → Report → StoreState F → Result (Job F) × StoreState F
  unfolding check_report record_report report_node evaluate_job refund_failed
  submit_replica cfg m r s = elim (get s.jobs r.job_id) [
    | none ↦ (job_not_found F r.job_id, s)
    | some job ↦
        if job.status == JobStatus.completed
        then (ok job, s)
        else elim (check_report cfg m r job s) [
          | err e ↦ (err e, s)
          | ok u ↦
              let s1 = report_node m r (record_report m r job s) in
              let (result, s2) = evaluate_job F cfg m r.job_id s1 in
              elim result [ err e ↦ (err e, s2) | ok final ↦ refund_failed m final s2 ]
        ]
  ]
