-- ===== src/Store/Lifecycle/Evaluations.antt =====
-- An evaluation keeps the invariant on jobs, and decides only an undecided job.
use hyper_looms.Prelude.{
  ℕ, String, ◌≡◌, ◌≢◌, ◌∙◌, sym, ap, refl, Bool, true, false, ◌||◌, not, some, List, [], ◌∷◌, arith,
  ◌==◌, string_eq, nat_eq, pair_eq, contains, if_ind, option_ind, subst, length, if◌then◌else◌,
}
use hyper_looms.Float.{FloatOps}
use hyper_looms.Dict.{get, put, has-remove}
use hyper_looms.Result.{Result, result_ind}
use hyper_looms.Models.Node.{Node}
use hyper_looms.Models.Job.{Job, JobStatus, job_status_eq, NodeExecutionResult}
use hyper_looms.Verifier.{verify}
use hyper_looms.Store.State.{Moment, StoreConfig, Assignment, StoreState, list_nodes}
use hyper_looms.Store.Nodes.{adjust_node_trust}
use hyper_looms.Store.Planning.{successful, target_replicas}
use hyper_looms.Store.Keys.{drop_assignment}
use hyper_looms.Store.Evaluate.{
  Outlook, outlook_of, reward_node_for_job, settle_result, settle_results, apply_trust,
  drop_job_assignments, decided_job, exhausted_job, waiting_job, decide_job, evaluate_job,
}
use hyper_looms.Store.Verdicts.{jobs-drop_job_assignments}
use hyper_looms.Store.Grants.{SameJobs, SameJobs-refl}
use hyper_looms.Store.Lifecycle.Base.{
  is_decided, ⟶-undecided, Held, JobsAreValid, Goes, GoesTo, Goes-refl, Goes-trans, Goes-same,
  write-Goes,
}

module _ (F : FloatOps) where
  open F use {Float}

  abbrev SameAfter : {A : Type 0} → StoreState F → Result A × StoreState F → Type 0
  SameAfter s t = SameJobs F s t.1

  pub SameJobs-trans : (s t u : StoreState F) → SameJobs F s t → SameJobs F t u → SameJobs F s u
  SameJobs-trans s t u f g = record {
    jobs = g.jobs ∙ f.jobs;
    started = g.started ∙ f.started;
    digests = g.digests ∙ f.digests;
    expires = g.expires ∙ f.expires;
  }

  pub SameJobs-adjust_node_trust :
      (i : String) (x : Float) (s : StoreState F) → SameJobs F s (adjust_node_trust F i x s)
  unfolding adjust_node_trust
  SameJobs-adjust_node_trust i x s =
      option_ind (SameJobs F s) (get s.nodes i) (λ _. SameJobs-refl F s)
        (λ node _. record { jobs = refl; started = refl; digests = refl; expires = refl })

  SameJobs-reward_node_for_job :
      (m : Moment F) (job : Job F) (i : String) (x : Float) (s : StoreState F)
      → SameAfter s (reward_node_for_job F m job i x s)
  unfolding reward_node_for_job
  SameJobs-reward_node_for_job m job i x s =
      option_ind (SameAfter s) s.credits (λ _. SameJobs-refl F s)
        (λ ledger _. record { jobs = refl; started = refl; digests = refl; expires = refl })

  -- trust, then a reward
  SameJobs-settle :
      (m : Moment F) (job : Job F) (i : String) (x y : Float) (s : StoreState F)
      → SameAfter s (reward_node_for_job F m job i y (adjust_node_trust F i x s))
  SameJobs-settle m job i x y s =
      let s1 = adjust_node_trust F i x s in
      SameJobs-trans s s1 (reward_node_for_job F m job i y s1).1 (SameJobs-adjust_node_trust i x s)
        (SameJobs-reward_node_for_job m job i y s1)

  SameJobs-settle_result :
      (m : Moment F) (job : Job F) (r : NodeExecutionResult F) (s : StoreState F)
      → SameAfter s (settle_result F m job r s)
  unfolding settle_result
  SameJobs-settle_result m job r s =
      if_ind (SameAfter s) (not r.success) (λ _. SameJobs-adjust_node_trust r.node_id _ s)
        (λ _.
          if_ind (SameAfter s) (contains r.node_id job.majority_nodes)
            (λ _. SameJobs-settle m job r.node_id _ _ s)
            (λ _. SameJobs-settle m job r.node_id _ _ s))

  SameJobs-settle_results :
      (m : Moment F) (job : Job F) (rs : List (NodeExecutionResult F)) (s : StoreState F)
      → SameAfter s (settle_results F m job rs s)
  unfolding settle_results
  SameJobs-settle_results m job [] s = SameJobs-refl F s
  SameJobs-settle_results m job (r ∷ rs) s =
      let s1 = (settle_result F m job r s).1 in
      let one = SameJobs-settle_result m job r s in
      result_ind (SameAfter s) (settle_result F m job r s).0 (λ e _. one)
        (λ u _. SameJobs-trans s s1 _ one (SameJobs-settle_results m job rs s1))

  -- Dropping a claim keeps every other one.
  pub Held-drop_assignment :
      (s : StoreState F) (a b : Assignment) → a ≢ b → Held F s b → Held F (drop_assignment F a s) b
  unfolding drop_assignment
  Held-drop_assignment s a b ne (x, y, z) =
      (has-remove _ a b ne x, has-remove _ a b ne y, has-remove _ a b ne z)

  Held-drop_job_assignments :
      (job_id : String) (claims : List (Assignment × ℕ)) (s : StoreState F) (b : Assignment)
      → job_id ≢ b.0
      → Held F s b
      → Held F (drop_job_assignments F job_id claims s) b
  unfolding drop_job_assignments
  Held-drop_job_assignments job_id [] s b ne h = h
  Held-drop_job_assignments job_id ((a, t) ∷ rest) s b ne h =
      Held-drop_job_assignments job_id rest (if a.0 == job_id then drop_assignment F a s else s) b
        ne
        (if_ind (λ (u : StoreState F). Held F u b) (a.0 == job_id)
          (λ same.
            Held-drop_assignment s a b
              (λ e. ne (
                sym (ground (arith, string_eq.beq_iff a.0 job_id))
                ∙ ap (λ (p : Assignment). p.0) e))
              h)
          (λ _. h))

  decide_job-Goes :
      (cfg : StoreConfig F) (m : Moment F) (nodes : List (Node F)) (job : Job F) (s : StoreState F)
      → (JobsAreValid F s → get s.jobs job.id ≡ some job)
      → is_decided job.status ≡ false
      → Goes F s (decide_job F cfg m nodes job s).1
  unfolding decide_job apply_trust decided_job
  decide_job-Goes cfg m nodes job s stored open_job =
      let verifying = record job { status = JobStatus.verifying; progress = F.lit 92 0 } in
      let verdict =
        verify F cfg.verifier (successful F job) (target_replicas F cfg job.config nodes) in
      let decided = decided_job F m verdict s verifying in
      let s1 = record s { jobs = put s.jobs job.id decided } in
      let s2 = drop_job_assignments F job.id s1.assignment_started_at s1 in
      let after = settle_results F m decided decided.results s2 in
      let written : Goes F s s2 =
        write-Goes F s s2 job.id decided
          (jobs-drop_job_assignments F job.id s1.assignment_started_at s1)
          (λ v. (
            rw (stored v) (⟶-undecided job.status decided.status open_job),
            record { keyed = refl; held = λ n h. absurd (ground arith); idle = λ _. refl },
          ))
          (λ i n ne h. Held-drop_job_assignments job.id s1.assignment_started_at s1 (i, n) ne h) in
      let settled : GoesTo F s after =
        Goes-trans F s s2 after.1 written
          (Goes-same F s2 after.1 (SameJobs-settle_results m decided decided.results s2)) in
      result_ind (GoesTo F {A = Job F} s) after.0 (λ e _. settled)
        (λ u _.
          option_ind (GoesTo F {A = Job F} s) (get after.1.jobs job.id) (λ _. settled)
            (λ final _. settled))

  -- A write of an undecided job under its id that leaves the claims alone.
  pub rewrite-Goes :
      (s : StoreState F) (k : String) (old new : Job F)
      → get s.jobs k ≡ some old
      → is_decided old.status ≡ false
      → new.id ≡ old.id
      → new.inflight_node_ids ≡ old.inflight_node_ids
      → (is_decided new.status ≡ true → new.inflight_node_ids ≡ [])
      → Goes F s (record s { jobs = put s.jobs k new })
  rewrite-Goes s k old new stored open_job same_id same_nodes idle =
      let t = record s { jobs = put s.jobs k new } in
      write-Goes F s t k new refl
        (λ v.
          let it = v.at k old stored in
          (
            rw stored (⟶-undecided old.status new.status open_job),
            record {
              keyed = same_id ∙ it.keyed;
              held = λ n h. it.held n (sym (ap (contains n) same_nodes) ∙ h);
              idle = idle;
            },
          ))
        (λ i n ne h. h)

  pub undecided_of :
      (a : JobStatus)
      → (a == JobStatus.completed || a == JobStatus.failed) ≡ false
      → is_decided a ≡ false
  undecided_of a h = ground arith

  pub waiting_undecided :
      (b : Bool) → is_decided (if b then JobStatus.pending else JobStatus.running) ≡ true → ⊥
  waiting_undecided b h = ground arith

  none_in_flight :
      (cfg : StoreConfig F) (nodes : List (Node F)) (job : Job F)
      → outlook_of F cfg nodes job ≡ Outlook.exhausted
      → job.inflight_node_ids ≡ []
  unfolding outlook_of
  none_in_flight cfg nodes job h = empty_of job.inflight_node_ids (ground arith)
    where
      empty_of : (xs : List String) → length xs ≡ 0 → xs ≡ []
      empty_of [] e = refl
      empty_of (x ∷ xs) e = absurd (omega arith)

  outlook_ind {κ} :
      {B : Type 0} (P : B → Type κ) (o : Outlook F) {x y z : B}
      → (o ≡ Outlook.ready → P x)
      → (o ≡ Outlook.exhausted → P y)
      → (o ≡ Outlook.waiting → P z)
      → P (elim o [ Outlook.ready ↦ x | Outlook.exhausted ↦ y | Outlook.waiting ↦ z ])
  outlook_ind P Outlook.ready hx hy hz = hx refl
  outlook_ind P Outlook.exhausted hx hy hz = hy refl
  outlook_ind P Outlook.waiting hx hy hz = hz refl

  pub evaluate_job-Goes :
      (cfg : StoreConfig F) (m : Moment F) (job_id : String) (s : StoreState F)
      → Goes F s (evaluate_job F cfg m job_id s).1
  unfolding evaluate_job waiting_job
  evaluate_job-Goes cfg m job_id s =
      option_ind (GoesTo F {A = Job F} s) (get s.jobs job_id) (λ _. Goes-refl F s)
        (λ job found.
          if_ind (GoesTo F {A = Job F} s)
            (job.status == JobStatus.completed || job.status == JobStatus.failed)
            (λ _. Goes-refl F s)
            (λ undone.
              let nodes = list_nodes F s in
              let open_job = undecided_of job.status undone in
              outlook_ind (λ (t : Result (Job F) × StoreState F). GoesTo F s t)
                (outlook_of F cfg nodes job)
                (λ _.
                  decide_job-Goes cfg m nodes job s
                    (λ v.
                      subst (λ x. get s.jobs x ≡ some job) (sym (v.at job_id job found).keyed)
                        found)
                    open_job)
                (λ e.
                  rewrite-Goes s job_id job (exhausted_job F job) found open_job refl refl
                    (λ _. none_in_flight cfg nodes job e))
                (λ _.
                  rewrite-Goes s job_id job (waiting_job F cfg nodes job) found open_job refl refl
                    (λ h. absurd (waiting_undecided _ h)))))
