-- ===== src/Orchestrator/Queueing.antt =====
-- A submission changes no node, and moves one fresh job from absent to undecided.
use hyper_looms.Prelude.{
  String, ◌≡◌, ◌∙◌, sym, ap, refl, Option, none, some, [], ◌∷◌, ◌++◌, arith, string_eq, pair_eq,
  option_ind, contains,
}
use hyper_looms.Float.{FloatOps}
use hyper_looms.Dict.{get, put, get-put_self}
use hyper_looms.Result.{Result, result_ind, concat}
use hyper_looms.Models.Job.{Job, JobCreateRequest, JobLogEntry}
use hyper_looms.Credits.{CreditLedger, estimate_job_cost, charge_user_for_job}
use hyper_looms.Store.State.{Moment, StoreConfig, StoreState}
use hyper_looms.Store.Jobs.{put_job_from_request, touch_job, append_job_log}
use hyper_looms.Store.Claim.{log_entry}
use hyper_looms.Store.Lifecycle.Base.{
  ◌⟶◌, stay, create, phase_of_status, is_decided, Goes, GoesTo, Goes-refl, Goes-trans, Goes-same,
  write-Goes,
}
use hyper_looms.Orchestrator.{
  accepted_message, requeued, queue_job, charge_call, submit_job, retry_job,
}

module _ (F : FloatOps) where
  open F use {Float, lit}

  pub touch_job-nodes :
      (m : Moment F) (job_id : String) (f : Job F → Job F) (s : StoreState F)
      → (touch_job F m job_id f s).1.nodes ≡ s.nodes
  unfolding touch_job
  touch_job-nodes m job_id f s =
      option_ind (λ (t : Result (Job F) × StoreState F). t.1.nodes ≡ s.nodes) (get s.jobs job_id)
        (λ _. refl) (λ _ _. refl)

  -- An update that keeps the id and the nodes in flight, and does not decide or reopen a job.
  pub touch_job-Goes :
      (m : Moment F) (job_id : String) (f : Job F → Job F) (s : StoreState F)
      → ((job : Job F)
          → get s.jobs job_id ≡ some job
          → (phase_of_status job.status ⟶ phase_of_status (f job).status)
            × (is_decided (f job).status ≡ is_decided job.status)
            × ((f job).id ≡ job.id)
            × ((f job).inflight_node_ids ≡ job.inflight_node_ids))
      → Goes F s (touch_job F m job_id f s).1
  unfolding touch_job
  touch_job-Goes m job_id f s mild =
      option_ind (GoesTo F {A = Job F} s) (get s.jobs job_id) (λ _. Goes-refl F s)
        (λ job found.
          let updated = record (f job) { updated_at = m.now } in
          let t = record s { jobs = put s.jobs job_id updated } in
          write-Goes F s t job_id updated refl
            (λ v.
              let (forward, decided, same_id, same_nodes) = mild job found in
              let old = v.at job_id job found in
              (
                rw found forward,
                record {
                  keyed = same_id ∙ old.keyed;
                  held = λ n h. old.held n (ap (contains n) (sym same_nodes) ∙ h);
                  idle = λ d. same_nodes ∙ old.idle (sym decided ∙ d);
                },
              ))
            (λ i n ne h. h))

  pub append_job_log-Goes :
      (m : Moment F) (job_id : String) (entry : JobLogEntry F) (s : StoreState F)
      → Goes F s (append_job_log F m job_id entry s).1
  unfolding append_job_log
  append_job_log-Goes m job_id entry s =
      touch_job-Goes m job_id (λ job. record job { logs = job.logs ++ entry ∷ [] }) s
        (λ job found. (stay, refl, refl, refl))

  pub append_job_log-nodes :
      (m : Moment F) (job_id : String) (entry : JobLogEntry F) (s : StoreState F)
      → (append_job_log F m job_id entry s).1.nodes ≡ s.nodes
  unfolding append_job_log
  append_job_log-nodes m job_id entry s =
      touch_job-nodes m job_id (λ job. record job { logs = job.logs ++ entry ∷ [] }) s

  abbrev logged_job : Moment F → JobLogEntry F → Job F → Job F
  logged_job m entry job = record job { logs = job.logs ++ entry ∷ []; updated_at = m.now }

  get-append_job_log :
      (m : Moment F) (job_id : String) (entry : JobLogEntry F) (s : StoreState F) (job : Job F)
      → get s.jobs job_id ≡ some job
      → get (append_job_log F m job_id entry s).1.jobs job_id ≡ some (logged_job m entry job)
  unfolding append_job_log touch_job
  get-append_job_log m job_id entry s job found =
      ground (arith, found, get-put_self s.jobs job_id (logged_job m entry job))

  put_job_from_request-Goes :
      (cfg : StoreConfig F) (m : Moment F) (payload : JobCreateRequest F) (job_id : String)
      (cost : Float) (s : StoreState F)
      → get s.jobs job_id ≡ none
      → Goes F s (put_job_from_request F cfg m payload job_id cost s).1
  unfolding put_job_from_request
  put_job_from_request-Goes cfg m payload job_id cost s fresh =
      let (job, t) = put_job_from_request F cfg m payload job_id cost s in
      write-Goes F s t job_id job refl
        (λ v. (
          rw fresh create,
          record { keyed = refl; held = λ n h. absurd (ground arith); idle = λ d. refl },
        ))
        (λ i n ne h. h)

  same_status : (o : Option (Job F)) (a b : Job F) → o ≡ some a → o ≡ some b → a.status ≡ b.status
  same_status o a b h g = ground arith

  pub queue_job-Goes :
      (cfg : StoreConfig F) (m : Moment F) (payload : JobCreateRequest F) (job_id : String)
      (cost : Float) (s : StoreState F)
      → get s.jobs job_id ≡ none
      → Goes F s (queue_job F cfg m payload job_id cost s).1
  unfolding queue_job put_job_from_request
  queue_job-Goes cfg m payload job_id cost s fresh =
      let (job, s1) = put_job_from_request F cfg m payload job_id cost s in
      let entry = log_entry F (accepted_message F job.scheduled_node_ids) "info" none in
      let s2 = (append_job_log F m job.id entry s1).1 in
      let there = get-append_job_log m job_id entry s1 job (get-put_self s.jobs job_id job) in
      let s3 = (touch_job F m job.id (requeued F) s2).1 in
      let first : Goes F s s2 =
        Goes-trans F s s1 s2 (put_job_from_request-Goes cfg m payload job_id cost s fresh)
          (append_job_log-Goes m job_id entry s1) in
      let second : Goes F s2 s3 = touch_job-Goes m job_id (requeued F) s2 (λ found_job found.
        let is_pending = same_status _ (logged_job m entry job) found_job there found in
        (rw (sym is_pending) stay, rw (sym is_pending) refl, refl, refl)) in
      result_ind (GoesTo F {A = Job F} s) (append_job_log F m job.id entry s1).0 (λ e _. first)
        (λ _ _.
          result_ind (GoesTo F {A = Job F} s) (touch_job F m job.id (requeued F) s2).0
            (λ e _. Goes-trans F s s2 s3 first second) (λ _ _. Goes-trans F s s2 s3 first second))

  queue_job-nodes :
      (cfg : StoreConfig F) (m : Moment F) (payload : JobCreateRequest F) (job_id : String)
      (cost : Float) (s : StoreState F)
      → (queue_job F cfg m payload job_id cost s).1.nodes ≡ s.nodes
  unfolding queue_job put_job_from_request
  queue_job-nodes cfg m payload job_id cost s =
      let (job, s1) = put_job_from_request F cfg m payload job_id cost s in
      let entry = log_entry F (accepted_message F job.scheduled_node_ids) "info" none in
      let s2 = (append_job_log F m job.id entry s1).1 in
      let Kept : Result (Job F) × StoreState F → Type 0 = λ t. t.1.nodes ≡ s.nodes in
      let first = append_job_log-nodes m job_id entry s1 in
      let second = touch_job-nodes m job_id (requeued F) s2 ∙ first in
      result_ind Kept (append_job_log F m job.id entry s1).0 (λ e _. first)
        (λ _ _.
          result_ind Kept (touch_job F m job.id (requeued F) s2).0 (λ e _. second) (λ _ _. second))

  -- A property of the step from one store to the next that holds of a change of the credits and of
  -- the queueing of a fresh job holds of a submission.
  submit_job_ind :
      (P : StoreState F → Type 0) (cfg : StoreConfig F) (m : Moment F)
      (payload : JobCreateRequest F) (job_id : String) (s : StoreState F)
      → ((credits : Option (CreditLedger F)) → P (record s { credits = credits }))
      → ((cost : Float) (credits : Option (CreditLedger F))
          → P (queue_job F cfg m payload job_id cost (record s { credits = credits })).1)
      → P (submit_job F cfg m payload job_id s).1
  unfolding submit_job
  submit_job_ind P cfg m payload job_id s unpaid paid =
      let After : Result (Job F) × StoreState F → Type 0 = λ t. P t.1 in
      option_ind After s.credits (λ e. paid (lit 0 1) s.credits)
        (λ ledger _.
          let cost = estimate_job_cost F payload.config in
          let (charged, ledger') =
            charge_user_for_job F (charge_call F m job_id payload.owner_id) payload.owner_id job_id
              cost ledger in
          result_ind After charged (λ e _. unpaid (some ledger')) (λ _ _. paid cost (some ledger')))

  with_credits-Goes :
      (s : StoreState F) (credits : Option (CreditLedger F))
      → Goes F s (record s { credits = credits })
  with_credits-Goes s credits =
      Goes-same F s (record s { credits = credits })
        (record { jobs = refl; started = refl; digests = refl; expires = refl })

  pub submit_job-Goes :
      (cfg : StoreConfig F) (m : Moment F) (payload : JobCreateRequest F) (job_id : String)
      (s : StoreState F)
      → get s.jobs job_id ≡ none
      → Goes F s (submit_job F cfg m payload job_id s).1
  submit_job-Goes cfg m payload job_id s fresh =
      submit_job_ind (Goes F s) cfg m payload job_id s (with_credits-Goes s) (λ cost credits.
        Goes-trans F s (record s { credits = credits }) _ (with_credits-Goes s credits)
          (queue_job-Goes cfg m payload job_id cost (record s { credits = credits }) fresh))

  pub submit_job-nodes :
      (cfg : StoreConfig F) (m : Moment F) (payload : JobCreateRequest F) (job_id : String)
      (s : StoreState F)
      → (submit_job F cfg m payload job_id s).1.nodes ≡ s.nodes
  submit_job-nodes cfg m payload job_id s =
      submit_job_ind (λ t. t.nodes ≡ s.nodes) cfg m payload job_id s (λ credits. refl)
        (λ cost credits. queue_job-nodes cfg m payload job_id cost (record s { credits = credits }))

  -- the same for a retry: a submission, and at most a log entry
  retry_job_ind :
      (P : StoreState F → Type 0) (cfg : StoreConfig F) (m : Moment F) (job_id fresh_id : String)
      (s : StoreState F)
      → P s
      → ((payload : JobCreateRequest F) → P (submit_job F cfg m payload fresh_id s).1)
      → ((payload : JobCreateRequest F) (i : String) (entry : JobLogEntry F)
          → P (append_job_log F m i entry (submit_job F cfg m payload fresh_id s).1).1)
      → P (retry_job F cfg m job_id fresh_id s).1
  unfolding retry_job
  retry_job_ind P cfg m job_id fresh_id s here submitted logged =
      let After : Result (Job F) × StoreState F → Type 0 = λ t. P t.1 in
      option_ind After (get s.jobs job_id) (λ _. here)
        (λ existing _.
          let payload : JobCreateRequest F = record {
            prompt = existing.prompt;
            config = existing.config;
            owner_id = existing.owner_id;
          } in
          let (result, s1) = submit_job F cfg m payload fresh_id s in
          result_ind After result (λ e _. submitted payload)
            (λ retry _.
              let entry =
                log_entry F (concat ("Created as retry from " ∷ job_id ∷ [])) "info" none in
              result_ind After (append_job_log F m retry.id entry s1).0
                (λ e _. logged payload retry.id entry) (λ _ _. logged payload retry.id entry)))

  pub retry_job-Goes :
      (cfg : StoreConfig F) (m : Moment F) (job_id fresh_id : String) (s : StoreState F)
      → get s.jobs fresh_id ≡ none
      → Goes F s (retry_job F cfg m job_id fresh_id s).1
  retry_job-Goes cfg m job_id fresh_id s fresh =
      retry_job_ind (Goes F s) cfg m job_id fresh_id s (Goes-refl F s)
        (λ payload. submit_job-Goes cfg m payload fresh_id s fresh)
        (λ payload i entry.
          let t = (submit_job F cfg m payload fresh_id s).1 in
          Goes-trans F s t (append_job_log F m i entry t).1
            (submit_job-Goes cfg m payload fresh_id s fresh) (append_job_log-Goes m i entry t))

  pub retry_job-nodes :
      (cfg : StoreConfig F) (m : Moment F) (job_id fresh_id : String) (s : StoreState F)
      → (retry_job F cfg m job_id fresh_id s).1.nodes ≡ s.nodes
  retry_job-nodes cfg m job_id fresh_id s =
      retry_job_ind (λ t. t.nodes ≡ s.nodes) cfg m job_id fresh_id s refl
        (λ payload. submit_job-nodes cfg m payload fresh_id s)
        (λ payload i entry.
          append_job_log-nodes m i entry _ ∙ submit_job-nodes cfg m payload fresh_id s)
