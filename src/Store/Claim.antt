-- ===== src/Store/Claim.antt =====
-- `claim_next_job`: a node asks for work.
use hyper_looms.Prelude.{
  ℕ, ◌+◌, ◌-◌, ◌*◌, String, Bool, ◌&&◌, ◌||◌, not, Option, none, some, List, [], ◌∷◌, ◌++◌, ◌==◌,
  string_eq, nat_eq, pair_eq, ltb, if◌then◌else◌, or_else, take, any, contains, length, sort_by,
  max, min,
}
use hyper_looms.Prelude.Int.{pos}
use hyper_looms.Float.{FloatOps}
use hyper_looms.Dict.{get, put, has, values}
use hyper_looms.Result.{Result, ok, err, key_error, concat}
use hyper_looms.Models.Node.{NodeStatus, node_status_eq, Node}
use hyper_looms.Models.Job.{
  Job, JobLogEntry, JobStatus, job_status_eq, NodeExecutionResult, VerificationStatus,
}
use hyper_looms.Scheduler.{rank_nodes}
use hyper_looms.Store.State.{Moment, StoreConfig, StoreState, elapsed_ms, get_node, list_nodes}
use hyper_looms.Store.Nodes.{increment_node_jobs, add_model_to_node_cache}
use hyper_looms.Store.Planning.{
  unique, target_replicas, rank_nodes_for_job, single_node_fallback_nodes, successful, progress_of,
  ids_of,
}
use hyper_looms.Store.Keys.{issue_assignment_hash_key}

module _ (F : FloatOps) where
  open F use {Float, lit, add, round}

  abbrev pub log_entry : String → String → Option String → JobLogEntry F
  log_entry message level node_id = record { message = message; level = level; node_id = node_id }

  -- the replicas that are still wanted
  abbrev pub needed_replicas : Job F → ℕ → ℕ
  needed_replicas job target =
      target - (length (successful F job) + length (unique job.inflight_node_ids))

  -- the nodes that may take the job, best first; `strict` are those that the scheduler ranks
  abbrev pub ranked_for : StoreConfig F → List (Node F) → Job F → List (Node F) → List (Node F)
  ranked_for cfg nodes job strict = elim strict [
    | [] ↦ rank_nodes_for_job F cfg nodes job.config job.inflight_node_ids
    | x ∷ xs ↦ x ∷ xs
  ]

  -- The tests of the loop, none of which says `continue`.
  unfoldable pub may_claim : StoreConfig F → String → List (Node F) → Job F → Bool
  may_claim cfg node_id nodes job =
      let target = target_replicas F cfg job.config nodes in
      let needed = needed_replicas job target in
      let strict = rank_nodes F nodes job.config job.inflight_node_ids in
      let ranked = ranked_for cfg nodes job strict in
      not (
        job.status == JobStatus.completed
        || (job.status == JobStatus.failed || job.status == JobStatus.verifying))
      && (ltb 0 needed
          && (not (contains node_id job.inflight_node_ids)
              && (not (any (λ (r : NodeExecutionResult F). r.node_id == node_id) (successful F job))
                  && contains node_id
                      (ids_of F (take (min (length ranked) (max target (needed * 2))) ranked)))))

  abbrev pub started_at : Moment F → Job F → StoreState F → ℕ
  started_at m job s = or_else (get s.job_started_at job.id) m.now

  -- the log line of a fallback assignment, if it is one
  abbrev pub fallback_logs :
      StoreConfig F → String → List (Node F) → List (Node F) → List (JobLogEntry F)
  fallback_logs cfg node_id nodes strict = elim strict [
    | x ∷ xs ↦ []
    | [] ↦ elim (single_node_fallback_nodes F cfg nodes) [
      | [] ↦ []
      | y ∷ ys ↦
          log_entry
            "Single-node fallback assignment active (capacity filter relaxed for MVP testing)."
            "warning" (some node_id)
          ∷ []
    ]
  ]

  -- The job as the claim leaves it.
  unfoldable pub claimed_job :
      StoreConfig F → Moment F → String → List (Node F) → Job F → StoreState F → Job F
  claimed_job cfg m node_id nodes job s =
      let target = target_replicas F cfg job.config nodes in
      let strict = rank_nodes F nodes job.config job.inflight_node_ids in
      let ranked = ranked_for cfg nodes job strict in
      let started = started_at m job s in
      let queue_ms = elapsed_ms F started job.created_at in
      let execution_ms = elapsed_ms F m.now started in
      let inflight_ids = unique (job.inflight_node_ids ++ node_id ∷ []) in
      record job {
        status = JobStatus.running;
        verification_status = VerificationStatus.pending;
        inflight_node_ids = inflight_ids;
        assigned_node_ids = unique (job.assigned_node_ids ++ node_id ∷ []);
        scheduled_node_ids = ids_of F (take target ranked);
        progress = progress_of F (length (successful F job)) (length inflight_ids) target;
        metrics = record {
          queue_ms = round queue_ms 2;
          execution_ms = round execution_ms 2;
          verification_ms = job.metrics.verification_ms;
          total_ms = round (add (add queue_ms execution_ms) job.metrics.verification_ms) 2;
        };
        logs =
            job.logs
            ++ (log_entry (concat ("Replica claimed by " ∷ node_id ∷ [])) "info" (some node_id)
                ∷ fallback_logs cfg node_id nodes strict);
        updated_at = m.now;
      }

  -- The first job, oldest first, that the node may claim.
  unfoldable pub find_claim : StoreConfig F → String → List (Node F) → List (Job F) → Option (Job F)
  unfolding may_claim
  find_claim cfg node_id nodes [] = none
  find_claim cfg node_id nodes (job ∷ jobs) =
      let rest = find_claim cfg node_id nodes jobs in
      if may_claim cfg node_id nodes job then some job else rest

  unfoldable pub oldest_first : StoreState F → List (Job F)
  oldest_first s = sort_by (λ a b. ltb a.created_at b.created_at) (values s.jobs)

  -- What the claim of `job` writes under the job lock.
  unfoldable pub record_claim :
      StoreConfig F
      → Moment F
      → String
      → List (Node F)
      → Job F
      → StoreState F
      → (Job F × String × ℕ) × StoreState F
  unfolding claimed_job issue_assignment_hash_key
  record_claim cfg m node_id nodes job s =
      let claimed = claimed_job cfg m node_id nodes job s in
      let s1 = record s {
        jobs = put s.jobs job.id claimed;
        assignment_started_at = put s.assignment_started_at (job.id, node_id) m.now;
        job_started_at =
            if has s.job_started_at job.id
            then s.job_started_at
            else put s.job_started_at job.id m.now;
      } in
      let ((key, expires_at), s2) = issue_assignment_hash_key F cfg m job.id node_id s1 in
      ((claimed, key, expires_at), s2)

  unfoldable pub claim_next_job :
      StoreConfig F
      → Moment F
      → String
      → StoreState F
      → Result (Option (Job F × String × ℕ)) × StoreState F
  unfolding find_claim oldest_first record_claim increment_node_jobs add_model_to_node_cache
  claim_next_job cfg m node_id s = elim (get_node F s node_id) [
    | none ↦ (err (key_error (concat ("Node '" ∷ node_id ∷ "' not found" ∷ []))), s)
    | some node ↦
        if node.status == NodeStatus.offline
        then (ok none, s)
        else elim (find_claim cfg node_id (list_nodes F s) (oldest_first s)) [
          | none ↦ (ok none, s)
          | some job ↦
              let (claim, s1) = record_claim cfg m node_id (list_nodes F s) job s in
              let s2 = increment_node_jobs F m node_id (pos 1) s1 in
              (ok (some claim), add_model_to_node_cache F node_id job.config.model s2)
        ]
  ]
