-- ===== src/Orchestrator/Charges.antt =====
-- A job is queued only for an owner who pays.
use hyper_looms.Prelude.{String, ◌≡◌, true, some, arith}
use hyper_looms.Float.{FloatOps, FloatLaws}
use hyper_looms.Float.Clamp.{le-max_left, round_recorded}
use hyper_looms.Result.{Error, err}
use hyper_looms.Models.Job.{JobConfig, JobCreateRequest}
use hyper_looms.Credits.{CreditLedger, estimate_job_cost, charge_user_for_job}
use hyper_looms.Credits.Idempotent.{charge_user_for_job_atomic}
use hyper_looms.Store.State.{Moment, StoreConfig, StoreState}
use hyper_looms.Orchestrator.{submit_job, charge_call}

module _ (F : FloatOps) (laws : FloatLaws F) where
  -- No job is estimated at less than 0.25, so the charge for it does not round to zero.
  estimate_recorded :
      (config : JobConfig F) → F.lt (F.lit 0 0) (F.round (estimate_job_cost F config) 4) ≡ true
  unfolding estimate_job_cost
  estimate_recorded config =
      round_recorded F laws 25 2 (estimate_job_cost F config) (omega arith) (omega arith)
        (laws.le-round 25 2 _ (omega arith) (le-max_left F laws (F.lit 25 2) _))

  -- Where the charge for the estimated cost raises, the submission raises the same, and the store
  -- with its jobs and its ledger is as it was.
  pub submit_job_unpaid :
      (cfg : StoreConfig F) (m : Moment F) (payload : JobCreateRequest F) (job_id : String)
      (s : StoreState F) (ledger : CreditLedger F) (e : Error)
      → s.credits ≡ some ledger
      → (charge_user_for_job F
          (charge_call F m job_id payload.owner_id)
          payload.owner_id
          job_id
          (estimate_job_cost F payload.config)
          ledger).0
        ≡ err e
      → submit_job F cfg m payload job_id s ≡ (err e, s)
  unfolding submit_job
  submit_job_unpaid cfg m payload job_id s ledger e wired refused =
      let kept =
        charge_user_for_job_atomic F (charge_call F m job_id payload.owner_id) payload.owner_id
          job_id (estimate_job_cost F payload.config) ledger e (estimate_recorded payload.config)
          refused in
      ground (arith, kept, refused)
