-- ===== src/Orchestrator.antt =====
-- backend/app/services/orchestrator.py: `JobOrchestrator`, which charges for a job and queues it in
-- the store. Its ledger is the store's, as main.py wires them; what it sends to the WebSocket hub
-- and to the log changes no state.
pub mod Charges
pub mod Queueing
mod Examples
use hyper_looms.Prelude.{String, Option, none, some, List, [], ◌∷◌, or_else, string_eq}
use hyper_looms.Float.{FloatOps}
use hyper_looms.Dict.{get}
use hyper_looms.Result.{Result, ok, err, concat}
use hyper_looms.Models.Job.{Job, JobCreateRequest, JobStatus}
use hyper_looms.Credits.{Call, estimate_job_cost, charge_user_for_job}
use hyper_looms.Store.State.{Moment, StoreConfig, StoreState}
use hyper_looms.Store.Jobs.{put_job_from_request, touch_job, append_job_log, job_not_found}
use hyper_looms.Store.Claim.{log_entry}

-- ', '.join(ids)
join : List String → String
join [] = ""
join (x ∷ []) = x
join (x ∷ y ∷ ys) = concat (x ∷ ", " ∷ join (y ∷ ys) ∷ [])

module _ (F : FloatOps) where
  open F use {Float, lit}

  unfoldable pub accepted_message : List String → String
  unfolding join
  accepted_message [] = "Job accepted and queued"
  accepted_message (i ∷ ids) =
      concat ("Job accepted and queued. Planned nodes: " ∷ join (i ∷ ids) ∷ [])

  abbrev pub requeued : Job F → Job F
  requeued job = record job { status = JobStatus.pending; progress = lit 5 0 }

  -- `submit_job` behind the charge
  unfoldable pub queue_job :
      StoreConfig F
      → Moment F
      → JobCreateRequest F
      → String
      → Float
      → StoreState F
      → Result (Job F) × StoreState F
  unfolding put_job_from_request append_job_log touch_job accepted_message
  queue_job cfg m payload job_id cost s =
      let (job, s1) = put_job_from_request F cfg m payload job_id cost s in
      let entry = log_entry F (accepted_message job.scheduled_node_ids) "info" none in
      let (logged, s2) = append_job_log F m job.id entry s1 in
      elim logged [
        | err e ↦ (err e, s2)
        | ok _ ↦
            let (touched, s3) = touch_job F m job.id requeued s2 in
            elim touched [
              | err e ↦ (err e, s3)
              | ok _ ↦ (ok (or_else (get s3.jobs job.id) job), s3)
            ]
      ]

  -- what the charge reads from outside
  abbrev pub charge_call : Moment F → String → String → Call
  charge_call m job_id owner_id = record {
    now = m.now;
    uuid = m.fresh (concat (job_id ∷ ":" ∷ owner_id ∷ []));
  }

  -- `job_id` is the fresh id, f"job-{uuid4().hex[:12]}".
  unfoldable pub submit_job :
      StoreConfig F
      → Moment F
      → JobCreateRequest F
      → String
      → StoreState F
      → Result (Job F) × StoreState F
  unfolding queue_job
  submit_job cfg m payload job_id s = elim s.credits [
    | none ↦ queue_job cfg m payload job_id (lit 0 1) s
    | some ledger ↦
        let cost = estimate_job_cost F payload.config in
        let (charged, ledger') =
          charge_user_for_job F (charge_call m job_id payload.owner_id) payload.owner_id job_id cost
            ledger in
        let s1 = record s { credits = some ledger' } in
        elim charged [ err e ↦ (err e, s1) | ok _ ↦ queue_job cfg m payload job_id cost s1 ]
  ]

  -- In one step, without the wait for the hub's sockets that `submit_job` ends with. What happens
  -- during that wait is, in the step relation, between a submission of the same request and the
  -- append of the log, which are steps of their own.
  unfoldable pub retry_job :
      StoreConfig F → Moment F → String → String → StoreState F → Result (Job F) × StoreState F
  unfolding submit_job append_job_log
  retry_job cfg m job_id fresh_id s = elim (get s.jobs job_id) [
    | none ↦ (job_not_found F job_id, s)
    | some existing ↦
        let payload : JobCreateRequest F = record {
          prompt = existing.prompt;
          config = existing.config;
          owner_id = existing.owner_id;
        } in
        let (submitted, s1) = submit_job cfg m payload fresh_id s in
        elim submitted [
          | err e ↦ (err e, s1)
          | ok retry ↦
              let entry =
                log_entry F (concat ("Created as retry from " ∷ job_id ∷ [])) "info" none in
              let (logged, s2) = append_job_log F m retry.id entry s1 in
              elim logged [ err e ↦ (err e, s2) | ok _ ↦ (ok retry, s2) ]
        ]
  ]

  -- `emit_job_log`: what it appends is what it broadcasts.
  unfoldable pub emit_job_log :
      Moment F
      → String
      → String
      → String
      → Option String
      → StoreState F
      → Result (Job F) × StoreState F
  unfolding append_job_log
  emit_job_log m job_id message level node_id =
      append_job_log F m job_id (log_entry F message level node_id)
