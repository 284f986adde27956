-- ===== src/Store/Lifecycle/Watchdog.antt =====
-- The expiry of claims keeps the invariant on jobs: a claim ends with its replica.
use hyper_looms.Prelude.{
  ℕ, String, ◌≡◌, ◌∙◌, ap, refl, Bool, true, false, some, List, [], ◌∷◌, map, arith, string_eq,
  pair_eq, Bool-cases, inl, inr, contains, if_ind, option_ind, subst,
}
use hyper_looms.Prelude.Int.{negsuc}
use hyper_looms.Float.{FloatOps}
use hyper_looms.Dict.{get}
use hyper_looms.Result.{result_ind}
use hyper_looms.Models.Job.{Job, job_status_eq}
use hyper_looms.Store.State.{Moment, StoreConfig, Assignment, StoreState}
use hyper_looms.Store.Nodes.{increment_node_jobs, adjust_node_trust}
use hyper_looms.Store.Planning.{unique}
use hyper_looms.Store.Keys.{drop_assignment}
use hyper_looms.Store.Evaluate.{evaluate_job, minus}
use hyper_looms.Store.Expire.{
  expired_job, expire_claim, expire_claims, stale_claims, blame_expired, evaluate_jobs,
  expire_stale_job_claims, status_without, blame_offline,
}
use hyper_looms.Store.Grants.{SameJobs, SameJobs-refl, SameJobs-increment_node_jobs}
use hyper_looms.Store.Lifecycle.Base.{
  stay, is_decided, JobsAreValid, Goes, GoesTo, Goes-refl, Goes-trans, Goes-same,
}
use hyper_looms.Store.Lifecycle.Evaluations.{
  SameJobs-trans, SameJobs-adjust_node_trust, Held-drop_assignment, evaluate_job-Goes,
}
use hyper_looms.Store.Lifecycle.Reports.{release-Goes}

module _ (F : FloatOps) where
  open F use {lit}

  -- A decided job has no node in flight, so a job that has one is undecided.
  busy_undecided :
      (s : StoreState F) (k node_id : String) (job : Job F)
      → JobsAreValid F s
      → get s.jobs k ≡ some job
      → contains node_id job.inflight_node_ids ≡ true
      → is_decided job.status ≡ false
  busy_undecided s k node_id job v found busy = elim (Bool-cases (is_decided job.status)) [
    | inl decided ↦
        let none_left = (v.at k job found).idle decided in
        absurd (ground (arith, ap (contains node_id) none_left))
    | inr open_job ↦ open_job
  ]

  pub status_without_undecided : (job : Job F) → is_decided (status_without F job) ≡ false
  status_without_undecided job = ground arith

  -- A claim may end alone where its node is not in flight.
  drop-Goes :
      (s : StoreState F) (a : Assignment)
      → ((job : Job F) → get s.jobs a.0 ≡ some job → contains a.1 job.inflight_node_ids ≡ false)
      → Goes F s (drop_assignment F a s)
  unfolding drop_assignment
  drop-Goes s a free v = (
    record {
      unique_keys = v.unique_keys;
      at = λ k job found.
          let it = v.at k job found in
          record {
            keyed = it.keyed;
            held = λ n h.
                Held-drop_assignment F s a (k, n)
                  (λ e.
                    let same_job : a.0 ≡ k = ap (λ (p : Assignment). p.0) e in
                    let same_node : a.1 ≡ n = ap (λ (p : Assignment). p.1) e in
                    let clear = free job (ap (get s.jobs) same_job ∙ found) in
                    ground (arith, ap (λ x. contains x job.inflight_node_ids) same_node))
                  (it.held n h);
            idle = it.idle;
          };
    },
    λ k. stay,
  )

  expire_claim-Goes : (a : Assignment) (s : StoreState F) → Goes F s (expire_claim F a s).1
  unfolding expire_claim drop_assignment
  expire_claim-Goes a s =
      let Fine : Bool × StoreState F → Type 0 = λ t. Goes F s t.1 in
      option_ind Fine (get s.jobs a.0) (λ gone. drop-Goes s a (λ job found. absurd (ground arith)))
        (λ job found.
          if_ind Fine (contains a.1 job.inflight_node_ids)
            (λ busy v.
              release-Goes F s a.0 a.1 job (expired_job F a.1 job) found
                (busy_undecided s a.0 a.1 job v found busy) refl (status_without_undecided job) refl
                v)
            (λ clear. drop-Goes s a (λ other there.
              let same : job ≡ other = ground arith in
              subst (λ (j : Job F). contains a.1 j.inflight_node_ids ≡ false) same clear)))

  expire_claims-Goes :
      (claims : List Assignment) (s : StoreState F) → Goes F s (expire_claims F claims s).1
  unfolding expire_claims
  expire_claims-Goes [] s = Goes-refl F s
  expire_claims-Goes (a ∷ claims) s =
      let s1 = (expire_claim F a s).1 in
      Goes-trans F s s1 (expire_claims F claims s1).1 (expire_claim-Goes a s)
        (expire_claims-Goes claims s1)

  SameJobs-blame_expired :
      (m : Moment F) (ids : List String) (s : StoreState F) → SameJobs F s (blame_expired F m ids s)
  unfolding blame_expired
  SameJobs-blame_expired m [] s = SameJobs-refl F s
  SameJobs-blame_expired m (i ∷ ids) s =
      let s1 = increment_node_jobs F m i (negsuc 0) s in
      let s2 = adjust_node_trust F i (minus F (lit 1 2)) s1 in
      SameJobs-trans F s s1 _ (SameJobs-increment_node_jobs F m i (negsuc 0) s) (
        SameJobs-trans F s1 s2 _ (SameJobs-adjust_node_trust F i (minus F (lit 1 2)) s1)
          (SameJobs-blame_expired m ids s2))

  pub SameJobs-blame_offline :
      (ids : List String) (s : StoreState F) → SameJobs F s (blame_offline F ids s)
  unfolding blame_offline
  SameJobs-blame_offline [] s = SameJobs-refl F s
  SameJobs-blame_offline (i ∷ ids) s =
      let s1 = adjust_node_trust F i (minus F (lit 2 2)) s in
      SameJobs-trans F s s1 _ (SameJobs-adjust_node_trust F i (minus F (lit 2 2)) s)
        (SameJobs-blame_offline ids s1)

  pub evaluate_jobs-Goes :
      (cfg : StoreConfig F) (m : Moment F) (ids : List String) (s : StoreState F)
      → Goes F s (evaluate_jobs F cfg m ids s).1
  unfolding evaluate_jobs
  evaluate_jobs-Goes cfg m [] s = Goes-refl F s
  evaluate_jobs-Goes cfg m (i ∷ ids) s =
      let s1 = (evaluate_job F cfg m i s).1 in
      let one = evaluate_job-Goes F cfg m i s in
      result_ind (GoesTo F {A = Unit {0}} s) (evaluate_job F cfg m i s).0 (λ e _. one)
        (λ job _.
          Goes-trans F s s1 (evaluate_jobs F cfg m ids s1).1 one (evaluate_jobs-Goes cfg m ids s1))

  pub expire_stale_job_claims-Goes :
      (cfg : StoreConfig F) (m : Moment F) (timeout : ℕ) (s : StoreState F)
      → Goes F s (expire_stale_job_claims F cfg m timeout s).1
  unfolding expire_stale_job_claims
  expire_stale_job_claims-Goes cfg m timeout s =
      let stale = stale_claims F m.now timeout s.assignment_started_at in
      let (lost, s1) = expire_claims F stale s in
      let nodes = unique (map (λ (a : Assignment). a.1) lost) in
      let affected = unique (map (λ (a : Assignment). a.0) lost) in
      let s2 = blame_expired F m nodes s1 in
      Goes-trans F s s1 (evaluate_jobs F cfg m affected s2).1 (expire_claims-Goes stale s) (
        Goes-trans F s1 s2 (evaluate_jobs F cfg m affected s2).1
          (Goes-same F s1 s2 (SameJobs-blame_expired m nodes s1))
          (evaluate_jobs-Goes cfg m affected s2))
