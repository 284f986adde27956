-- ===== src/Store/Lifecycle/Claims.antt =====
-- A claim keeps the invariant on jobs: the node in flight gets its claim.
use hyper_looms.Prelude.{
  String, ◌≡◌, ◌≢◌, sym, refl, false, some, List, [], ◌∷◌, ◌++◌, arith, ◌==◌, string_eq, nat_eq,
  pair_eq, Bool-cases, inl, inr, contains-append, if_ind, option_ind, All, All-sort_by, subst, ltb,
}
use hyper_looms.Prelude.Int.{pos}
use hyper_looms.Float.{FloatOps}
use hyper_looms.Dict.{get, values, All-values, has-put, has-put_self}
use hyper_looms.Models.Node.{Node, NodeStatus, node_status_eq}
use hyper_looms.Models.Job.{Job, JobStatus, job_status_eq}
use hyper_looms.Store.State.{Moment, StoreConfig, StoreState, list_nodes}
use hyper_looms.Store.Nodes.{increment_node_jobs, add_model_to_node_cache}
use hyper_looms.Store.Planning.{contains-unique}
use hyper_looms.Store.Keys.{issue_assignment_hash_key}
use hyper_looms.Store.Claim.{
  may_claim, find_claim, oldest_first, claimed_job, record_claim, claim_next_job,
}
use hyper_looms.Store.Grants.{
  find_claim-may_claim, may_claim_conditions, SameJobs-increment_node_jobs,
  SameJobs-add_model_to_node_cache,
}
use hyper_looms.Store.Lifecycle.Base.{
  is_decided, ⟶-undecided, Held, JobsAreValid, Goes, GoesTo, Goes-refl, Goes-trans, Goes-same,
  write-Goes,
}

module _ (F : FloatOps) where
  find_claim-All :
      (P : Job F → Type 0) (cfg : StoreConfig F) (node_id : String) (nodes : List (Node F))
      (jobs : List (Job F)) (job : Job F)
      → All P jobs
      → find_claim F cfg node_id nodes jobs ≡ some job
      → P job
  unfolding find_claim
  find_claim-All P cfg node_id nodes [] job h e = absurd (ground arith)
  find_claim-All P cfg node_id nodes (j ∷ jobs) job (first, later) e =
      elim (Bool-cases (may_claim F cfg node_id nodes j)) [
        | inl taken ↦ subst P (ground arith) first
        | inr passed ↦ find_claim-All P cfg node_id nodes jobs job later (ground arith)
      ]

  -- The job that a claim picks is stored under its id.
  picked_stored :
      (cfg : StoreConfig F) (node_id : String) (nodes : List (Node F)) (job : Job F)
      (s : StoreState F)
      → JobsAreValid F s
      → find_claim F cfg node_id nodes (oldest_first F s) ≡ some job
      → get s.jobs job.id ≡ some job
  unfolding oldest_first
  picked_stored cfg node_id nodes job s v =
      let Stored : Job F → Type 0 = λ j. get s.jobs j.id ≡ some j in
      find_claim-All Stored cfg node_id nodes (oldest_first F s) job (
        All-sort_by (λ (a b : Job F). ltb a.created_at b.created_at) Stored (values s.jobs)
          (All-values Stored s.jobs v.unique_keys
            (λ k j found. subst (λ x. get s.jobs x ≡ some j) (sym (v.at k j found).keyed) found)))

  not_decided :
      (a : JobStatus) → a ≢ JobStatus.completed → a ≢ JobStatus.failed → is_decided a ≡ false
  not_decided a h k = ground arith

  record_claim-Goes :
      (cfg : StoreConfig F) (m : Moment F) (node_id : String) (nodes : List (Node F)) (job : Job F)
      (s : StoreState F)
      → (JobsAreValid F s → get s.jobs job.id ≡ some job)
      → is_decided job.status ≡ false
      → Goes F s (record_claim F cfg m node_id nodes job s).1
  unfolding record_claim claimed_job issue_assignment_hash_key
  record_claim-Goes cfg m node_id nodes job s stored open_job =
      let t = (record_claim F cfg m node_id nodes job s).1 in
      write-Goes F s t job.id (claimed_job F cfg m node_id nodes job s) refl
        (λ v.
          let old = v.at job.id job (stored v) in
          (
            rw (stored v) (⟶-undecided job.status JobStatus.running open_job),
            record {
              keyed = refl;
              held = λ n h. elim (Bool-cases (n == node_id)) [
                | inl it ↦
                    subst (λ x. Held F t (job.id, x)) (ground (arith, string_eq.beq_iff n node_id))
                      (has-put_self _ _ _, has-put_self _ _ _, has-put_self _ _ _)
                | inr other ↦
                    let (a, b, c) = old.held n (
                      ground (
                        arith,
                        contains-unique (job.inflight_node_ids ++ node_id ∷ []) n,
                        contains-append n job.inflight_node_ids (node_id ∷ []),
                      )) in
                    (has-put _ _ _ _ a, has-put _ _ _ _ b, has-put _ _ _ _ c)
              ];
              idle = λ e. absurd (ground arith);
            },
          ))
        (λ i n ne (a, b, c). (has-put _ _ _ _ a, has-put _ _ _ _ b, has-put _ _ _ _ c))

  pub claim_next_job-Goes :
      (cfg : StoreConfig F) (m : Moment F) (node_id : String) (s : StoreState F)
      → Goes F s (claim_next_job F cfg m node_id s).1
  unfolding claim_next_job
  claim_next_job-Goes cfg m node_id s =
      option_ind (GoesTo F s) (get s.nodes node_id) (λ _. Goes-refl F s)
        (λ node found.
          if_ind (GoesTo F s) (node.status == NodeStatus.offline) (λ _. Goes-refl F s)
            (λ online.
              option_ind (GoesTo F s) (find_claim F cfg node_id (list_nodes F s) (oldest_first F s))
                (λ _. Goes-refl F s)
                (λ job picked.
                  let nodes = list_nodes F s in
                  let (a, b, _, _) =
                    may_claim_conditions F cfg node_id nodes job
                      (find_claim-may_claim F cfg node_id nodes (oldest_first F s) job picked) in
                  let s1 = (record_claim F cfg m node_id nodes job s).1 in
                  let s2 = increment_node_jobs F m node_id (pos 1) s1 in
                  let s3 = add_model_to_node_cache F node_id job.config.model s2 in
                  Goes-trans F s s1 s3
                    (record_claim-Goes cfg m node_id nodes job s
                      (λ v. picked_stored cfg node_id nodes job s v picked)
                      (not_decided job.status a b))
                    (Goes-trans F s1 s2 s3
                      (Goes-same F s1 s2 (SameJobs-increment_node_jobs F m node_id (pos 1) s1))
                      (Goes-same F s2 s3
                        (SameJobs-add_model_to_node_cache F node_id job.config.model s2))))))
