-- ===== src/Store/Evaluate.antt =====
-- `_evaluate_job`: what becomes of a job after a report or a lost claim, with the trust and the
-- rewards that a verdict brings.
use hyper_looms.Prelude.{
  ℕ, String, ◌&&◌, ◌||◌, not, Option, none, some, List, [], ◌∷◌, ◌++◌, map, ◌==◌, string_eq, nat_eq,
  pair_eq, leb, if◌then◌else◌, or_else, contains, length, max,
}
use hyper_looms.Float.{FloatOps, max_float}
use hyper_looms.Dict.{get, put}
use hyper_looms.Result.{Result, ok, err, concat}
use hyper_looms.Models.Node.{Node}
use hyper_looms.Models.Job.{Job, JobStatus, job_status_eq, NodeExecutionResult, VerificationStatus}
use hyper_looms.Credits.{reward_node}
use hyper_looms.Verifier.{Verdict, verify}
use hyper_looms.Store.State.{
  Moment, StoreConfig, Assignment, StoreState, elapsed_ms, list_nodes, get_job,
}
use hyper_looms.Store.Nodes.{adjust_node_trust}
use hyper_looms.Store.Planning.{
  unique, target_replicas, plan_nodes_for_job, rank_nodes_for_job, successful, progress_of, ids_of,
}
use hyper_looms.Store.Keys.{drop_assignment}
use hyper_looms.Store.Jobs.{job_not_found}
use hyper_looms.Store.Claim.{log_entry}

module _ (F : FloatOps) where
  open F use {Float, lit, add, sub, mul, div, round}

  -- a delta of -x
  abbrev pub minus : Float → Float
  minus x = sub (lit 0 0) x

  abbrev pub reward_amount : Job F → Float → Float
  reward_amount job multiplier =
      let base =
        max_float F (lit 1 1) (div job.cost_estimate_credits (lit (max 1 job.config.replicas) 0)) in
      round (mul base (max_float F (lit 2 1) multiplier)) 4

  unfoldable pub reward_node_for_job :
      Moment F → Job F → String → Float → StoreState F → Result (Unit {0}) × StoreState F
  reward_node_for_job m job node_id multiplier s = elim s.credits [
    | none ↦ (ok tt, s)
    | some ledger ↦
        let (result, ledger') =
          reward_node F
            (record { now = m.now; uuid = m.fresh (concat (job.id ∷ ":" ∷ node_id ∷ [])) }) node_id
            job.id (reward_amount job multiplier) "job_execution" ledger in
        (elim result [ ok txn ↦ ok tt | err e ↦ err e ], record s { credits = some ledger' })
  ]

  -- one round of the loop of `_apply_trust`
  unfoldable pub settle_result :
      Moment F → Job F → NodeExecutionResult F → StoreState F → Result (Unit {0}) × StoreState F
  unfolding reward_node_for_job adjust_node_trust
  settle_result m job result s =
      if not result.success
      then (ok tt, adjust_node_trust F result.node_id (minus (lit 1 2)) s)
      else if contains result.node_id job.majority_nodes
      then reward_node_for_job m job result.node_id (lit 115 2)
          (adjust_node_trust F result.node_id (lit 15 3) s)
      else reward_node_for_job m job result.node_id (lit 55 2)
          (adjust_node_trust F result.node_id (minus (lit 1 2)) s)

  unfoldable pub settle_results :
      Moment F
      → Job F
      → List (NodeExecutionResult F)
      → StoreState F
      → Result (Unit {0}) × StoreState F
  unfolding settle_result
  settle_results m job [] s = (ok tt, s)
  settle_results m job (r ∷ rs) s =
      let (result, s') = settle_result m job r s in
      elim result [ ok u ↦ settle_results m job rs s' | err e ↦ (err e, s') ]

  unfoldable pub apply_trust :
      Moment F → Option (Job F) → StoreState F → Result (Unit {0}) × StoreState F
  unfolding settle_results
  apply_trust m none s = (ok tt, s)
  apply_trust m (some job) s = settle_results m job job.results s

  -- the three ways on for a job that is not yet decided
  pub data Outlook : Type 0 where
    ready exhausted waiting : Outlook

  unfoldable pub outlook_of : StoreConfig F → List (Node F) → Job F → Outlook
  outlook_of cfg nodes job =
      let done = successful F job in
      let target = target_replicas F cfg job.config nodes in
      let used = map (λ (r : NodeExecutionResult F). r.node_id) done ++ job.inflight_node_ids in
      let remaining = rank_nodes_for_job F cfg nodes job.config used in
      let idle = length job.inflight_node_ids == 0 && length remaining == 0 in
      if leb target (length done) || (not (length done == 0) && idle)
      then ready
      else if length done == 0 && idle
      then exhausted
      else waiting

  abbrev pub exhausted_job : Job F → Job F
  exhausted_job job = record job {
    status = JobStatus.failed;
    verification_status = VerificationStatus.failed;
    progress = lit 100 0;
    error = some "No healthy nodes available to execute replicas";
  }

  unfoldable pub waiting_job : StoreConfig F → List (Node F) → Job F → Job F
  waiting_job cfg nodes job =
      let target = target_replicas F cfg job.config nodes in
      let inflight = length (unique job.inflight_node_ids) in
      record job {
        status = if inflight == 0 then JobStatus.pending else JobStatus.running;
        progress = progress_of F (length (successful F job)) inflight target;
        scheduled_node_ids = ids_of F (plan_nodes_for_job F cfg nodes job.config target);
      }

  abbrev pub verdict_text : VerificationStatus → String
  verdict_text VerificationStatus.pending = "pending"
  verdict_text VerificationStatus.verified = "verified"
  verdict_text VerificationStatus.mismatch = "mismatch"
  verdict_text VerificationStatus.failed = "failed"

  abbrev pub final_status : VerificationStatus → JobStatus
  final_status VerificationStatus.failed = JobStatus.failed
  final_status _ = JobStatus.completed

  -- The job after its verdict. `job` is marked as verifying already.
  unfoldable pub decided_job : Moment F → Verdict F → StoreState F → Job F → Job F
  decided_job m verdict s job =
      let started = or_else (get s.job_started_at job.id) job.created_at in
      let execution_ms = max_float F (lit 0 1) (elapsed_ms F m.now started) in
      let final = final_status verdict.status in
      record job {
        status = final;
        verification_status = verdict.status;
        merged_output = verdict.merged_output;
        verification_confidence = verdict.confidence;
        majority_nodes = verdict.majority_nodes;
        inflight_node_ids = [];
        progress = lit 100 0;
        error = if final == JobStatus.completed then none else some "Verification failed";
        metrics = record {
          queue_ms = round job.metrics.queue_ms 2;
          execution_ms = round execution_ms 2;
          verification_ms = round m.verification_ms 2;
          total_ms = round (add (add job.metrics.queue_ms execution_ms) m.verification_ms) 2;
        };
        logs =
            job.logs
            ++ log_entry F (concat ("Verification " ∷ verdict_text verdict.status ∷ [])) "info" none
              ∷ [];
        updated_at = m.now;
      }

  -- every claim on the job ends
  unfoldable pub drop_job_assignments : String → List (Assignment × ℕ) → StoreState F → StoreState F
  unfolding drop_assignment
  drop_job_assignments job_id [] s = s
  drop_job_assignments job_id ((a, t) ∷ rest) s =
      drop_job_assignments job_id rest (if a.0 == job_id then drop_assignment F a s else s)

  unfoldable pub decide_job :
      StoreConfig F
      → Moment F
      → List (Node F)
      → Job F
      → StoreState F
      → Result (Job F) × StoreState F
  unfolding decided_job drop_job_assignments apply_trust
  decide_job cfg m nodes job s =
      let verifying = record job { status = JobStatus.verifying; progress = lit 92 0 } in
      let verdict =
        verify F cfg.verifier (successful F job) (target_replicas F cfg job.config nodes) in
      let decided = decided_job m verdict s verifying in
      let s1 = record s { jobs = put s.jobs job.id decided } in
      let s2 = drop_job_assignments job.id s1.assignment_started_at s1 in
      let (result, s3) = apply_trust m (some decided) s2 in
      elim result [
        | err e ↦ (err e, s3)
        | ok u ↦ elim (get s3.jobs job.id) [
          | none ↦ (job_not_found F job.id, s3)
          | some final ↦ (ok final, s3)
        ]
      ]

  unfoldable pub evaluate_job :
      StoreConfig F → Moment F → String → StoreState F → Result (Job F) × StoreState F
  unfolding outlook_of waiting_job decide_job
  evaluate_job cfg m job_id s = elim (get_job F s job_id) [
    | none ↦ (job_not_found F job_id, s)
    | some job ↦
        let nodes = list_nodes F s in
        if job.status == JobStatus.completed || job.status == JobStatus.failed
        then (ok job, s)
        else elim (outlook_of cfg nodes job) [
          | ready ↦ decide_job cfg m nodes job s
          | exhausted ↦
              (ok (exhausted_job job), record s { jobs = put s.jobs job_id (exhausted_job job) })
          | waiting ↦ (
            ok (waiting_job cfg nodes job),
            record s { jobs = put s.jobs job_id (waiting_job cfg nodes job) },
          )
        ]
  ]
