-- ===== src/Coordinator/Progress.antt =====
-- Every step keeps the invariant on jobs and claims, and moves each job only forward.
use hyper_looms.Prelude.{
  String, ◌≡◌, sym, refl, true, Option, none, some, [], arith, string_eq, subst,
}
use hyper_looms.Float.{FloatOps}
use hyper_looms.Dict.{get}
use hyper_looms.Models.Job.{Job, JobStatus}
use hyper_looms.Store.State.{StoreConfig, StoreState}
use hyper_looms.Store.Nodes.{seed_nodes}
use hyper_looms.Store.Nodes.{register_node}
use hyper_looms.Store.Claim.{log_entry}
use hyper_looms.Store.Expire.{synthetic_pulse}
use hyper_looms.Orchestrator.{emit_job_log}
use hyper_looms.Orchestrator.Queueing.{submit_job-Goes, retry_job-Goes, append_job_log-Goes}
use hyper_looms.Store.Lifecycle.Base.{
  ◌⟶◌, ⟶-final, phase, phase_of, phase_of_status, is_decided, JobsAreValid, Goes, Goes-refl,
  Goes-trans, Goes-same,
}
use hyper_looms.Store.Lifecycle.Claims.{claim_next_job-Goes}
use hyper_looms.Store.Lifecycle.Reports.{SameJobs-heartbeat, submit_replica-Goes}
use hyper_looms.Store.Lifecycle.Watchdog.{expire_stale_job_claims-Goes}
use hyper_looms.Store.Lifecycle.Releases.{expire_stale_nodes-Goes}
use hyper_looms.Coordinator.{
  Step, registers, beats, submits, retries, logs, trades, claims, reports, expires_claims,
  expires_nodes, seeds, pulses, Steps, done, step, Reachable, start, next,
}

module _ (F : FloatOps) (cfg : StoreConfig F) where
  Step-Goes : (s t : StoreState F) → Step F cfg s t → Goes F s t
  unfolding synthetic_pulse emit_job_log register_node seed_nodes
  Step-Goes s t (registers m payload _) =
      Goes-same F s t (record { jobs = refl; started = refl; digests = refl; expires = refl })
  Step-Goes s t (beats m i payload _) = Goes-same F s t (SameJobs-heartbeat F m i payload s)
  Step-Goes s t (submits m payload i _ fresh) = submit_job-Goes F cfg m payload i s fresh
  Step-Goes s t (retries m job_id i _ fresh) = retry_job-Goes F cfg m job_id i s fresh
  Step-Goes s t (logs m job_id message level node_id _) =
      append_job_log-Goes F m job_id (log_entry F message level node_id) s
  Step-Goes s t (trades credits _) =
      Goes-same F s t (record { jobs = refl; started = refl; digests = refl; expires = refl })
  Step-Goes s t (claims m i _) = claim_next_job-Goes F cfg m i s
  Step-Goes s t (reports m r _) = submit_replica-Goes F cfg m r s
  Step-Goes s t (expires_claims m timeout _) = expire_stale_job_claims-Goes F cfg m timeout s
  Step-Goes s t (expires_nodes m timeout _) = expire_stale_nodes-Goes F cfg m timeout s
  Step-Goes s t (seeds m _) =
      Goes-same F s t (record { jobs = refl; started = refl; digests = refl; expires = refl })
  Step-Goes s t (pulses m _) =
      Goes-same F s t (record { jobs = refl; started = refl; digests = refl; expires = refl })

  Steps-Goes : (s t : StoreState F) → Steps F cfg s t → Goes F s t
  Steps-Goes s _ (done _) = Goes-refl F s
  Steps-Goes s u (step _ t _ first rest) =
      Goes-trans F s t u (Step-Goes s t first) (Steps-Goes t u rest)

  -- In every reachable state, no two jobs have one key, each job stands under its own id, each node
  -- in flight for a job holds a claim on it with the digest and the expiry time of its key, and a
  -- completed or failed job has no node in flight.
  pub Reachable-JobsAreValid : (s : StoreState F) → Reachable F cfg s → JobsAreValid F s
  unfolding get
  Reachable-JobsAreValid s (start credits) = record {
    unique_keys = tt;
    at = λ k job found. absurd (ground arith);
  }
  Reachable-JobsAreValid t (next s _ r one) = (Step-Goes s t one (Reachable-JobsAreValid s r)).0

  -- Any steps from a reachable state refine the life of a job of each name: it may be created once
  -- and decided once, for completion or for failure, and makes no other move.
  pub Steps-refine_life :
      (s t : StoreState F)
      → Reachable F cfg s
      → Steps F cfg s t
      → (job_id : String) → phase F s job_id ⟶ phase F t job_id
  Steps-refine_life s t r steps = (Steps-Goes s t steps (Reachable-JobsAreValid s r)).1

  decided_phase :
      (s : JobStatus) (o : Option (Job F))
      → is_decided s ≡ true
      → phase_of_status s ⟶ phase_of F o
      → (after : Job F) × (o ≡ some after) × (after.status ≡ s)
  decided_phase s none d forward =
      let kept = ⟶-final forward (λ e. ground arith) (λ e. ground arith) in ground arith
  decided_phase s (some after) d forward =
      let kept = ⟶-final forward (λ e. ground arith) (λ e. ground arith) in
      (after, refl, ground arith)

  -- A job that is completed or failed in a reachable state is still stored after any steps, with the
  -- same status, and with no node in flight.
  pub decided_for_good :
      (s t : StoreState F) (job_id : String) (job : Job F)
      → Reachable F cfg s
      → Steps F cfg s t
      → get s.jobs job_id ≡ some job
      → is_decided job.status ≡ true
      → (after : Job F) × (get t.jobs job_id ≡ some after)
        × (after.status ≡ job.status)
        × (after.inflight_node_ids ≡ [])
  decided_for_good s t job_id job r steps found decided =
      let (valid, forward) = Steps-Goes s t steps (Reachable-JobsAreValid s r) in
      let (after, there, same) =
        decided_phase job.status (get t.jobs job_id) decided
          (subst (λ o. phase_of F o ⟶ phase F t job_id) found (forward job_id)) in
      (
        after,
        there,
        same,
        (valid.at job_id after there).idle (subst (λ x. is_decided x ≡ true) (sym same) decided),
      )
