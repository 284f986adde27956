-- ===== src/Store/Lifecycle/Reports.antt =====
-- A report keeps the invariant on jobs: its claim ends with its replica.
use hyper_looms.Prelude.{
  String, ◌≡◌, ◌≢◌, ◌∙◌, sym, ap, refl, true, false, ◌&&◌, not, some, List, arith, ◌==◌, string_eq,
  pair_eq, contains, contains-filter, filter, if_ind, option_ind, if◌then◌else◌,
}
use hyper_looms.Prelude.Int.{negsuc}
use hyper_looms.Float.{FloatOps}
use hyper_looms.Dict.{get, put}
use hyper_looms.Result.{Result, ok, result_ind}
use hyper_looms.Models.Node.{Node, NodeHeartbeatRequest}
use hyper_looms.Models.Job.{Job, JobStatus, job_status_eq}
use hyper_looms.Store.State.{Moment, StoreConfig, Assignment, StoreState}
use hyper_looms.Store.Nodes.{increment_node_jobs, adjust_node_trust, heartbeat}
use hyper_looms.Store.Keys.{drop_assignment}
use hyper_looms.Store.Evaluate.{evaluate_job, minus}
use hyper_looms.Store.Submit.{
  Report, truthy, report_beat, report_node, reported_job, record_report, refund_failed,
  check_report, submit_replica,
}
use hyper_looms.Store.Grants.{SameJobs, SameJobs-refl, SameJobs-increment_node_jobs}
use hyper_looms.Store.Lifecycle.Base.{
  is_decided, ⟶-undecided, Goes, GoesTo, Goes-refl, Goes-trans, Goes-same, write-Goes,
}
use hyper_looms.Store.Lifecycle.Evaluations.{
  SameJobs-trans, SameJobs-adjust_node_trust, Held-drop_assignment, evaluate_job-Goes,
}

module _ (F : FloatOps) where
  open F use {Float, lit}

  pub SameJobs-heartbeat :
      (m : Moment F) (i : String) (payload : NodeHeartbeatRequest F) (s : StoreState F)
      → SameJobs F s (heartbeat F m i payload s).1
  unfolding heartbeat
  SameJobs-heartbeat m i payload s =
      option_ind (λ (t : Result (Node F) × StoreState F). SameJobs F s t.1) (get s.nodes i)
        (λ _. SameJobs-refl F s)
        (λ node _. record { jobs = refl; started = refl; digests = refl; expires = refl })

  SameJobs-report_node :
      (m : Moment F) (r : Report F) (s : StoreState F) → SameJobs F s (report_node F m r s)
  unfolding report_node
  SameJobs-report_node m r s =
      let s1 = increment_node_jobs F m r.node_id (negsuc 0) s in
      let delta = if truthy r.error then minus F (lit 3 2) else lit 0 1 in
      let s2 = adjust_node_trust F r.node_id delta s1 in
      SameJobs-trans F s s1 _ (SameJobs-increment_node_jobs F m r.node_id (negsuc 0) s) (
        SameJobs-trans F s1 s2 _ (SameJobs-adjust_node_trust F r.node_id delta s1)
          (SameJobs-heartbeat m r.node_id (report_beat F r) s2))

  -- A node that is still in flight after its claim with a job ended is another one.
  pub in_flight_after :
      (node_id n : String) (nodes : List String)
      → contains n (filter (λ i. not (i == node_id)) nodes) ≡ true
      → (contains n nodes ≡ true) × (node_id ≢ n)
  in_flight_after node_id n nodes h = (
    ground (arith, contains-filter (λ i. not (i == node_id)) n nodes),
    λ e.
        ground
          (arith, contains-filter (λ i. not (i == node_id)) n nodes, string_eq.beq_iff n node_id),
  )

  -- A write of an undecided job that ends the claim of one node with it.
  pub release-Goes :
      (s : StoreState F) (k node_id : String) (old new : Job F)
      → get s.jobs k ≡ some old
      → is_decided old.status ≡ false
      → new.id ≡ old.id
      → is_decided new.status ≡ false
      → new.inflight_node_ids ≡ filter (λ i. not (i == node_id)) old.inflight_node_ids
      → Goes F s
          (let s' = drop_assignment F (k, node_id) s in record s' { jobs = put s'.jobs k new })
  unfolding drop_assignment
  release-Goes s k node_id old new stored open_job same_id still_open nodes =
      write-Goes F s
        (let s' = drop_assignment F (k, node_id) s in record s' { jobs = put s'.jobs k new }) k new
        refl
        (λ v.
          let it = v.at k old stored in
          (
            rw stored (⟶-undecided old.status new.status open_job),
            record {
              keyed = same_id ∙ it.keyed;
              held = λ n h.
                  let (was, other) =
                    in_flight_after node_id n old.inflight_node_ids
                      (sym (ap (contains n) nodes) ∙ h) in
                  Held-drop_assignment F s (k, node_id) (k, n)
                    (λ e. other (ap (λ (p : Assignment). p.1) e)) (it.held n was);
              idle = λ d. absurd (ground arith);
            },
          ))
        (λ i n ne h.
          Held-drop_assignment F s (k, node_id) (i, n) (λ e. ne (ap (λ (p : Assignment). p.0) e)) h)

  refund_failed-Goes :
      (m : Moment F) (final : Job F) (s : StoreState F) → Goes F s (refund_failed F m final s).1
  unfolding refund_failed
  refund_failed-Goes m final s =
      option_ind (GoesTo F {A = Job F} s) s.credits (λ _. Goes-refl F s)
        (λ ledger _.
          if_ind (GoesTo F {A = Job F} s)
            (final.status == JobStatus.failed && F.lt (lit 0 0) final.cost_estimate_credits)
            (λ _.
              Goes-same F s _
                (record { jobs = refl; started = refl; digests = refl; expires = refl }))
            (λ _. Goes-refl F s))

  accepted_open :
      (cfg : StoreConfig F) (m : Moment F) (r : Report F) (job : Job F) (s : StoreState F)
      (u : Unit {0})
      → (job.status == JobStatus.completed) ≡ false
      → check_report F cfg m r job s ≡ ok u
      → is_decided job.status ≡ false
  unfolding check_report
  accepted_open cfg m r job s u undone passed = ground arith

  pub submit_replica-Goes :
      (cfg : StoreConfig F) (m : Moment F) (r : Report F) (s : StoreState F)
      → Goes F s (submit_replica F cfg m r s).1
  unfolding submit_replica record_report reported_job
  submit_replica-Goes cfg m r s =
      option_ind (GoesTo F {A = Job F} s) (get s.jobs r.job_id) (λ _. Goes-refl F s)
        (λ job found.
          if_ind (GoesTo F {A = Job F} s) (job.status == JobStatus.completed) (λ _. Goes-refl F s)
            (λ undone.
              result_ind (GoesTo F {A = Job F} s) (check_report F cfg m r job s)
                (λ e _. Goes-refl F s)
                (λ u passed.
                  let s1 = record_report F m r job s in
                  let s2 = report_node F m r s1 in
                  let s3 = (evaluate_job F cfg m r.job_id s2).1 in
                  let recorded : Goes F s s1 =
                    release-Goes s r.job_id r.node_id job (reported_job F m r job s) found
                      (accepted_open cfg m r job s u undone passed) refl refl refl in
                  let evaluated : Goes F s s3 = Goes-trans F s s1 s3 recorded (
                    Goes-trans F s1 s2 s3 (Goes-same F s1 s2 (SameJobs-report_node m r s1))
                      (evaluate_job-Goes F cfg m r.job_id s2)) in
                  result_ind (GoesTo F {A = Job F} s) (evaluate_job F cfg m r.job_id s2).0
                    (λ e _. evaluated)
                    (λ final _.
                      Goes-trans F s s3 (refund_failed F m final s3).1 evaluated
                        (refund_failed-Goes m final s3)))))
