-- ===== src/Store/Health/Loops.antt =====
-- Claims, evaluations and reports keep the nodes valid.
use hyper_looms.Prelude.{
  ℕ, String, ◌||◌, ◌&&◌, List, [], ◌∷◌, arith, ◌==◌, string_eq, nat_eq, pair_eq, if_ind, option_ind,
  not, contains,
}
use hyper_looms.Prelude.Int.{pos, negsuc}
use hyper_looms.Float.{FloatOps, FloatLaws}
use hyper_looms.Dict.{get, put}
use hyper_looms.Result.{Result, ok, result_ind}
use hyper_looms.Models.Node.{Node, NodeStatus, node_status_eq}
use hyper_looms.Models.Job.{Job, JobStatus, job_status_eq, NodeExecutionResult}
use hyper_looms.Store.State.{Moment, StoreConfig, Assignment, StoreState, list_nodes}
use hyper_looms.Store.Nodes.{increment_node_jobs}
use hyper_looms.Verifier.{verify}
use hyper_looms.Store.Planning.{successful, target_replicas}
use hyper_looms.Store.Claim.{find_claim, oldest_first, record_claim, claim_next_job}
use hyper_looms.Store.Keys.{issue_assignment_hash_key, drop_assignment}
use hyper_looms.Store.Evaluate.{
  Outlook, outlook_of, reward_node_for_job, settle_result, settle_results, apply_trust, decide_job,
  drop_job_assignments, decided_job, exhausted_job, waiting_job, evaluate_job,
}
use hyper_looms.Store.Submit.{
  Report, report_beat, report_node, record_report, refund_failed, check_report, submit_replica,
}
use hyper_looms.Store.Health.{
  Sound, heartbeat-Sound, adjust_node_trust-Sound, add_model_to_node_cache-Sound,
  increment_node_jobs-Sound,
}

module _ (F : FloatOps) (laws : FloatLaws F) where
  open F use {Float}

  abbrev pub SoundAfter : {A : Type 0} → Result A × StoreState F → Type 0
  SoundAfter t = Sound F laws t.1

  pub fewer_jobs-Sound :
      (m : Moment F) (i : String) (s : StoreState F)
      → Sound F laws s
      → Sound F laws (increment_node_jobs F m i (negsuc 0) s)
  fewer_jobs-Sound m i s v =
      increment_node_jobs-Sound F laws m i (negsuc 0) s (λ n d found same. absurd (ground arith)) v

  -- A claim keeps the nodes valid: trust between 0 and 1, and no running jobs on an offline node.
  pub claim_next_job-Sound :
      (cfg : StoreConfig F) (m : Moment F) (i : String) (s : StoreState F)
      → Sound F laws s
      → Sound F laws (claim_next_job F cfg m i s).1
  unfolding claim_next_job record_claim issue_assignment_hash_key
  claim_next_job-Sound cfg m i s v =
      option_ind SoundAfter (get s.nodes i) (λ _. v)
        (λ node found.
          if_ind SoundAfter (node.status == NodeStatus.offline) (λ _. v)
            (λ online.
              option_ind SoundAfter (find_claim F cfg i (list_nodes F s) (oldest_first F s))
                (λ _. v)
                (λ job picked.
                  let s1 = (record_claim F cfg m i (list_nodes F s) job s).1 in
                  let s2 = increment_node_jobs F m i (pos 1) s1 in
                  add_model_to_node_cache-Sound F laws i job.config.model s2 (
                    increment_node_jobs-Sound F laws m i (pos 1) s1 (λ n d same _ off. ground arith)
                      v))))

  reward-Sound :
      (m : Moment F) (job : Job F) (i : String) (x : Float) (s : StoreState F)
      → Sound F laws s
      → Sound F laws (reward_node_for_job F m job i x s).1
  unfolding reward_node_for_job
  reward-Sound m job i x s v = option_ind SoundAfter s.credits (λ _. v) (λ ledger _. v)

  settle_result-Sound :
      (m : Moment F) (job : Job F) (r : NodeExecutionResult F) (s : StoreState F)
      → Sound F laws s
      → Sound F laws (settle_result F m job r s).1
  unfolding settle_result
  settle_result-Sound m job r s v =
      let adjusted = λ (x : Float). adjust_node_trust-Sound F laws r.node_id x s v in
      if_ind SoundAfter (not r.success) (λ _. adjusted _)
        (λ _.
          if_ind SoundAfter (contains r.node_id job.majority_nodes)
            (λ _. reward-Sound m job r.node_id _ _ (adjusted _))
            (λ _. reward-Sound m job r.node_id _ _ (adjusted _)))

  settle_results-Sound :
      (m : Moment F) (job : Job F) (rs : List (NodeExecutionResult F)) (s : StoreState F)
      → Sound F laws s
      → Sound F laws (settle_results F m job rs s).1
  unfolding settle_results
  settle_results-Sound m job [] s v = v
  settle_results-Sound m job (r ∷ rs) s v =
      let one = settle_result-Sound m job r s v in
      result_ind SoundAfter (settle_result F m job r s).0 (λ e _. one)
        (λ u _. settle_results-Sound m job rs (settle_result F m job r s).1 one)

  drop_job_assignments-Sound :
      (i : String) (claims : List (Assignment × ℕ)) (s : StoreState F)
      → Sound F laws s
      → Sound F laws (drop_job_assignments F i claims s)
  unfolding drop_job_assignments drop_assignment
  drop_job_assignments-Sound i [] s v = v
  drop_job_assignments-Sound i ((a, t) ∷ rest) s v =
      drop_job_assignments-Sound i rest _ (if_ind (Sound F laws) (a.0 == i) (λ _. v) (λ _. v))

  decide_job-Sound :
      (cfg : StoreConfig F) (m : Moment F) (nodes : List (Node F)) (job : Job F) (s : StoreState F)
      → Sound F laws s
      → Sound F laws (decide_job F cfg m nodes job s).1
  unfolding decide_job apply_trust
  decide_job-Sound cfg m nodes job s v =
      let verifying = record job { status = JobStatus.verifying; progress = F.lit 92 0 } in
      let verdict =
        verify F cfg.verifier (successful F job) (target_replicas F cfg job.config nodes) in
      let decided = decided_job F m verdict s verifying in
      let s1 = record s { jobs = put s.jobs job.id decided } in
      let s2 = drop_job_assignments F job.id s1.assignment_started_at s1 in
      let after = settle_results F m decided decided.results s2 in
      let settled : SoundAfter after =
        settle_results-Sound m decided decided.results s2
          (drop_job_assignments-Sound job.id s1.assignment_started_at s1 v) in
      result_ind (SoundAfter {A = Job F}) after.0 (λ e _. settled)
        (λ u _.
          option_ind (SoundAfter {A = Job F}) (get after.1.jobs job.id) (λ _. settled)
            (λ final _. settled))

  -- An evaluation, whatever comes of it, keeps the nodes valid: trust between 0 and 1, and no running
  -- jobs on an offline node.
  pub evaluate_job-Sound :
      (cfg : StoreConfig F) (m : Moment F) (job_id : String) (s : StoreState F)
      → Sound F laws s
      → Sound F laws (evaluate_job F cfg m job_id s).1
  unfolding evaluate_job
  evaluate_job-Sound cfg m job_id s v =
      option_ind SoundAfter (get s.jobs job_id) (λ _. v)
        (λ job found.
          if_ind SoundAfter (job.status == JobStatus.completed || job.status == JobStatus.failed)
            (λ _. v) (λ _. outlook_ind job (outlook_of F cfg (list_nodes F s) job)))
    where
      outlook_ind :
          (job : Job F) (o : Outlook F)
          → SoundAfter (
              let t : Result (Job F) × StoreState F = elim o [
                | Outlook.ready ↦ decide_job F cfg m (list_nodes F s) job s
                | Outlook.exhausted ↦ (
                  ok (exhausted_job F job),
                  record s { jobs = put s.jobs job_id (exhausted_job F job) },
                )
                | Outlook.waiting ↦ (
                  ok (waiting_job F cfg (list_nodes F s) job),
                  record s { jobs = put s.jobs job_id (waiting_job F cfg (list_nodes F s) job) },
                )
              ] in
              t)
      outlook_ind job Outlook.ready = decide_job-Sound cfg m (list_nodes F s) job s v
      outlook_ind job Outlook.exhausted = v
      outlook_ind job Outlook.waiting = v

  refund_failed-Sound :
      (m : Moment F) (final : Job F) (s : StoreState F)
      → Sound F laws s
      → Sound F laws (refund_failed F m final s).1
  unfolding refund_failed
  refund_failed-Sound m final s v =
      option_ind SoundAfter s.credits (λ _. v)
        (λ ledger _.
          if_ind SoundAfter
            (final.status == JobStatus.failed && F.lt (F.lit 0 0) final.cost_estimate_credits)
            (λ _. v) (λ _. v))

  report_node-Sound :
      (m : Moment F) (r : Report F) (s : StoreState F)
      → Sound F laws s
      → Sound F laws (report_node F m r s)
  unfolding report_node
  report_node-Sound m r s v =
      heartbeat-Sound F laws m r.node_id (report_beat F r) _
        (adjust_node_trust-Sound F laws r.node_id _ _ (fewer_jobs-Sound m r.node_id s v))

  record_report-Sound :
      (m : Moment F) (r : Report F) (job : Job F) (s : StoreState F)
      → Sound F laws s
      → Sound F laws (record_report F m r job s)
  unfolding record_report drop_assignment
  record_report-Sound m r job s v = v

  -- A report, refused or not, keeps the nodes valid: trust between 0 and 1, and no running jobs on
  -- an offline node.
  pub submit_replica-Sound :
      (cfg : StoreConfig F) (m : Moment F) (r : Report F) (s : StoreState F)
      → Sound F laws s
      → Sound F laws (submit_replica F cfg m r s).1
  unfolding submit_replica
  submit_replica-Sound cfg m r s v =
      option_ind (SoundAfter {A = Job F}) (get s.jobs r.job_id) (λ _. v)
        (λ job found.
          if_ind (SoundAfter {A = Job F}) (job.status == JobStatus.completed) (λ _. v)
            (λ undone.
              let s1 = report_node F m r (record_report F m r job s) in
              let evaluated = evaluate_job-Sound cfg m r.job_id s1 (
                report_node-Sound m r (record_report F m r job s)
                  (record_report-Sound m r job s v)) in
              result_ind (SoundAfter {A = Job F}) (check_report F cfg m r job s) (λ e _. v)
                (λ u _.
                  result_ind (SoundAfter {A = Job F}) (evaluate_job F cfg m r.job_id s1).0
                    (λ e _. evaluated)
                    (λ final _.
                      refund_failed-Sound m final (evaluate_job F cfg m r.job_id s1).1 evaluated))))
