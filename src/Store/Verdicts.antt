-- ===== src/Store/Verdicts.antt =====
-- What an evaluation makes of a job.
use mathlib.Core.List.{append-nil}
use hyper_looms.Prelude.{
  ◌≤◌, ◌&&◌, ◌++◌, length, map, Bool, Bool-cases, true, ℕ, String, ◌≡◌, ◌≢◌, ◌↔◌, ◌⊎◌, ◌∙◌, some,
  List, [], ◌∷◌, arith, sym, ◌==◌, string_eq, nat_eq, pair_eq, if◌then◌else◌, if_ind, option_ind,
  inl, inr, refl, not, contains,
}
use hyper_looms.Float.{FloatOps}
use hyper_looms.Dict.{get, put, get-put_self}
use hyper_looms.Result.{Result, result_ind, ok}
use hyper_looms.Models.Node.{Node}
use hyper_looms.Models.Job.{
  Job, JobConfig, JobStatus, job_status_eq, NodeExecutionResult, VerificationStatus,
}
use hyper_looms.Verifier.{verify}
use hyper_looms.Store.State.{Moment, StoreConfig, Assignment, StoreState, list_nodes}
use hyper_looms.Store.Nodes.{adjust_node_trust}
use hyper_looms.Store.Planning.{successful, target_replicas, rank_nodes_for_job}
use hyper_looms.Store.Keys.{drop_assignment}
use hyper_looms.Store.Evaluate.{
  Outlook, outlook_of, decide_job, evaluate_job, settle_result, settle_results, reward_node_for_job,
  drop_job_assignments, apply_trust, final_status, waiting_job, decided_job,
}

module _ (F : FloatOps) where
  open F use {Float}

  abbrev Keeps : StoreState F → Result (Unit {0}) × StoreState F → Type 0
  Keeps s t = t.1.jobs ≡ s.jobs

  jobs-adjust_node_trust :
      (i : String) (x : Float) (s : StoreState F) → (adjust_node_trust F i x s).jobs ≡ s.jobs
  unfolding adjust_node_trust
  jobs-adjust_node_trust i x s =
      option_ind (λ (t : StoreState F). t.jobs ≡ s.jobs) (get s.nodes i) (λ _. refl) (λ _ _. refl)

  jobs-reward_node_for_job :
      (m : Moment F) (job : Job F) (i : String) (x : Float) (s : StoreState F)
      → Keeps s (reward_node_for_job F m job i x s)
  unfolding reward_node_for_job
  jobs-reward_node_for_job m job i x s =
      option_ind (Keeps s) s.credits (λ _. refl) (λ ledger _. refl)

  jobs-settle_result :
      (m : Moment F) (job : Job F) (r : NodeExecutionResult F) (s : StoreState F)
      → Keeps s (settle_result F m job r s)
  unfolding settle_result
  jobs-settle_result m job r s =
      if_ind (Keeps s) (not r.success) (λ _. jobs-adjust_node_trust r.node_id _ s)
        (λ _.
          if_ind (Keeps s) (contains r.node_id job.majority_nodes)
            (λ _.
              jobs-reward_node_for_job m job r.node_id _ _ ∙ jobs-adjust_node_trust r.node_id _ s)
            (λ _.
              jobs-reward_node_for_job m job r.node_id _ _ ∙ jobs-adjust_node_trust r.node_id _ s))

  jobs-settle_results :
      (m : Moment F) (job : Job F) (rs : List (NodeExecutionResult F)) (s : StoreState F)
      → Keeps s (settle_results F m job rs s)
  unfolding settle_results
  jobs-settle_results m job [] s = refl
  jobs-settle_results m job (r ∷ rs) s =
      let one = jobs-settle_result m job r s in
      result_ind (Keeps s) (settle_result F m job r s).0 (λ e _. one)
        (λ u _. jobs-settle_results m job rs (settle_result F m job r s).1 ∙ one)

  pub jobs-drop_job_assignments :
      (i : String) (claims : List (Assignment × ℕ)) (s : StoreState F)
      → (drop_job_assignments F i claims s).jobs ≡ s.jobs
  unfolding drop_job_assignments drop_assignment
  jobs-drop_job_assignments i [] s = refl
  jobs-drop_job_assignments i ((a, t) ∷ rest) s =
      jobs-drop_job_assignments i rest (if a.0 == i then drop_assignment F a s else s)
      ∙ if_ind (λ (t : StoreState F). t.jobs ≡ s.jobs) (a.0 == i) (λ _. refl) (λ _. refl)

  -- A decision that goes through returns the decided job and leaves it in the store.
  decide_job-ok :
      (cfg : StoreConfig F) (m : Moment F) (nodes : List (Node F)) (job final : Job F)
      (s : StoreState F)
      → (decide_job F cfg m nodes job s).0 ≡ ok final
      → (get (decide_job F cfg m nodes job s).1.jobs job.id ≡ some final)
        × (final.status
            ≡ final_status F
                (verify F cfg.verifier
                  (successful F job)
                  (target_replicas F cfg job.config nodes)).status)
        × (final.inflight_node_ids ≡ [])
  unfolding decide_job apply_trust decided_job
  decide_job-ok cfg m nodes job final s h =
      let verifying = record job { status = JobStatus.verifying; progress = F.lit 92 0 } in
      let verdict =
        verify F cfg.verifier (successful F job) (target_replicas F cfg job.config nodes) in
      let decided = decided_job F m verdict s verifying in
      let s1 = record s { jobs = put s.jobs job.id decided } in
      let s2 = drop_job_assignments F job.id s1.assignment_started_at s1 in
      let kept : (settle_results F m decided decided.results s2).1.jobs
          ≡ put s.jobs job.id decided =
        jobs-settle_results m decided decided.results s2
        ∙ jobs-drop_job_assignments job.id s1.assignment_started_at s1 in
      let found : get (settle_results F m decided decided.results s2).1.jobs job.id ≡ some decided =
        rw kept (get-put_self s.jobs job.id decided) in
      let same : final ≡ decided = ground arith in (ground arith, ground arith, ground arith)

  Outlook-cases :
      (o : Outlook F) → (o ≡ Outlook.ready) ⊎ ((o ≡ Outlook.exhausted) ⊎ (o ≡ Outlook.waiting))
  Outlook-cases Outlook.ready = inl refl
  Outlook-cases Outlook.exhausted = inr (inl refl)
  Outlook-cases Outlook.waiting = inr (inr refl)

  final_status_completed :
      (v : VerificationStatus)
      → (final_status F v ≡ JobStatus.completed) ↔ (v ≢ VerificationStatus.failed)
  final_status_completed v = ground arith

  length_zero : {A : Type 0} (xs : List A) → (length xs == 0 ≡ true) ↔ (xs ≡ [])
  length_zero [] = (λ _. refl, λ _. refl)
  length_zero (x ∷ xs) = (λ e. absurd (ground arith), λ e. absurd (ground arith))

  -- Nothing is in flight for the job, and no node is ranked for it but those that have answered it
  -- with success.
  abbrev pub IsIdle : StoreConfig F → List (Node F) → Job F → Type 0
  IsIdle cfg nodes job =
      (job.inflight_node_ids ≡ [])
      × (rank_nodes_for_job F cfg nodes job.config
            (map (λ (r : NodeExecutionResult F). r.node_id) (successful F job))
          ≡ [])

  -- The job has as many successful results as replicas are wanted, or has one and is idle.
  abbrev pub IsReady : StoreConfig F → List (Node F) → Job F → Type 0
  IsReady cfg nodes job =
      (target_replicas F cfg job.config nodes ≤ length (successful F job))
      ⊎ ((1 ≤ length (successful F job)) × IsIdle cfg nodes job)

  abbrev idle : StoreConfig F → List (Node F) → Job F → Bool
  idle cfg nodes job =
      let used =
        map (λ (r : NodeExecutionResult F). r.node_id) (successful F job)
        ++ job.inflight_node_ids in
      length job.inflight_node_ids == 0
      && length (rank_nodes_for_job F cfg nodes job.config used) == 0

  idle_iff :
      (cfg : StoreConfig F) (nodes : List (Node F)) (job : Job F)
      → (idle cfg nodes job ≡ true) ↔ IsIdle cfg nodes job
  idle_iff cfg nodes job =
      let ids = map (λ (r : NodeExecutionResult F). r.node_id) (successful F job) in
      let none_left : (xs : List String)
          → xs ≡ []
          → rank_nodes_for_job F cfg nodes job.config (ids ++ xs)
            ≡ rank_nodes_for_job F cfg nodes job.config ids =
        λ xs e. rw (e, append-nil) refl in
      let same = none_left job.inflight_node_ids in
      let left = rank_nodes_for_job F cfg nodes job.config (ids ++ job.inflight_node_ids) in
      ground (arith, length_zero job.inflight_node_ids, length_zero left, same)

  -- The verdict is awaited exactly of a job that is ready.
  pub outlook_ready_iff :
      (cfg : StoreConfig F) (nodes : List (Node F)) (job : Job F)
      → (outlook_of F cfg nodes job ≡ Outlook.ready) ↔ IsReady cfg nodes job
  unfolding outlook_of
  outlook_ready_iff cfg nodes job =
      let i = idle_iff cfg nodes job in
      elim (Bool-cases (idle cfg nodes job)) [
        | inl e ↦ let now = i.0 e in ground arith
        | inr e ↦ let busy : ¬ IsIdle cfg nodes job = λ h. absurd (ground arith) in ground arith
      ]

  pub outlook_exhausted_iff :
      (cfg : StoreConfig F) (nodes : List (Node F)) (job : Job F)
      → 1 ≤ target_replicas F cfg job.config nodes
      → (outlook_of F cfg nodes job ≡ Outlook.exhausted)
        ↔ ((length (successful F job) ≡ 0) × IsIdle cfg nodes job)
  unfolding outlook_of
  outlook_exhausted_iff cfg nodes job some_target =
      let i = idle_iff cfg nodes job in
      elim (Bool-cases (idle cfg nodes job)) [
        | inl e ↦ let now = i.0 e in ground arith
        | inr e ↦ let busy : ¬ IsIdle cfg nodes job = λ h. absurd (ground arith) in ground arith
      ]

  target_replicas_pos :
      (cfg : StoreConfig F) (config : JobConfig F) (nodes : List (Node F))
      → 1 ≤ target_replicas F cfg config nodes
  unfolding target_replicas
  target_replicas_pos cfg config nodes = ground arith

  final_status_failed :
      (v : VerificationStatus)
      → (final_status F v ≡ JobStatus.failed) ↔ (v ≡ VerificationStatus.failed)
  final_status_failed v = ground arith

  abbrev verdict_of : StoreConfig F → List (Node F) → Job F → VerificationStatus
  verdict_of cfg nodes job =
      (verify F cfg.verifier (successful F job) (target_replicas F cfg job.config nodes)).status

  -- An evaluation of an undecided job that goes through leaves in the store what it returns. It
  -- completes the job exactly when the job has as many successful results as replicas are wanted,
  -- or has one with nothing in flight and no other node ranked for it, and their verdict is not a
  -- failure. It fails the job exactly when such a verdict is a failure, or when there is no
  -- successful result, nothing is in flight and no node is ranked for it.
  pub evaluate_job_completes_iff :
      (cfg : StoreConfig F) (m : Moment F) (job_id : String) (job final : Job F) (s : StoreState F)
      → get s.jobs job_id ≡ some job
      → job.id ≡ job_id
      → job.status ≢ JobStatus.completed
      → job.status ≢ JobStatus.failed
      → (evaluate_job F cfg m job_id s).0 ≡ ok final
      → (get (evaluate_job F cfg m job_id s).1.jobs job_id ≡ some final)
        × ((final.status ≡ JobStatus.completed) ↔ (
            IsReady cfg (list_nodes F s) job
            × ((verify F cfg.verifier
                  (successful F job)
                  (target_replicas F cfg job.config (list_nodes F s))).status
                ≢ VerificationStatus.failed)))
        × ((final.status ≡ JobStatus.failed) ↔ (
            (IsReady cfg (list_nodes F s) job
              × ((verify F cfg.verifier
                    (successful F job)
                    (target_replicas F cfg job.config (list_nodes F s))).status
                  ≡ VerificationStatus.failed))
            ⊎ ((length (successful F job) ≡ 0) × IsIdle cfg (list_nodes F s) job)))
  unfolding evaluate_job waiting_job
  evaluate_job_completes_iff cfg m job_id job final s stored keyed open1 open2 h =
      let nodes = list_nodes F s in
      let ready = outlook_ready_iff cfg nodes job in
      let exhausted =
        outlook_exhausted_iff cfg nodes job (target_replicas_pos cfg job.config nodes) in
      let verdict = verdict_of cfg nodes job in
      elim (Outlook-cases (outlook_of F cfg nodes job)) [
        | inl e ↦
            let (kept, status, _) = decide_job-ok cfg m nodes job final s (ground arith) in
            let is_ready : IsReady cfg nodes job = ready.0 e in
            let not_exhausted : ¬ ((length (successful F job) ≡ 0) × IsIdle cfg nodes job) =
              λ x. let o = exhausted.1 x in absurd (ground arith) in
            (
              ground arith,
              ground (arith, final_status_completed verdict),
              (
                λ f. inl (is_ready, (final_status_failed verdict).0 (sym status ∙ f)),
                λ o. elim o [
                  | inl (_, v) ↦ status ∙ (final_status_failed verdict).1 v
                  | inr x ↦ absurd (not_exhausted x)
                ],
              ),
            )
        | inr (inl e) ↦
            let x = exhausted.0 e in
            let unready : ¬ IsReady cfg nodes job =
              λ r. let o = ready.1 r in absurd (ground arith) in
            (
              ground (arith, get-put_self s.jobs job_id final),
              (λ c. absurd (ground arith), λ (r, _). absurd (unready r)),
              (λ _. inr x, λ _. ground arith),
            )
        | inr (inr e) ↦
            let unready : ¬ IsReady cfg nodes job =
              λ r. let o = ready.1 r in absurd (ground arith) in
            let going : ¬ ((length (successful F job) ≡ 0) × IsIdle cfg nodes job) =
              λ x. let o = exhausted.1 x in absurd (ground arith) in
            (
              ground (arith, get-put_self s.jobs job_id final),
              (λ c. absurd (ground arith), λ (r, _). absurd (unready r)),
              (
                λ f. absurd (ground arith),
                λ o. elim o [ inl (r, _) ↦ absurd (unready r) | inr x ↦ absurd (going x) ],
              ),
            )
      ]
