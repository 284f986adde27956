-- ===== src/Store/Authority.antt =====
-- Only the holder of the key of a claim moves the claim's job by a report.
use hyper_looms.Prelude.{
  ℕ, ◌≤◌, String, ◌≡◌, ◌⊎◌, inl, inr, Option, none, some, arith, ◌==◌, string_eq, nat_eq, pair_eq,
  Option-cases, if_ind, option_ind, refl,
}
use hyper_looms.Float.{FloatOps}
use hyper_looms.Dict.{get}
use hyper_looms.Result.{Result, ok, Result-cases}
use hyper_looms.Models.Job.{Job, JobStatus, job_status_eq}
use hyper_looms.Store.State.{Moment, StoreConfig, StoreState}
use hyper_looms.Store.Keys.{check_key, verify_assignment_hash_key}
use hyper_looms.Store.Submit.{Report, check_report, submit_replica}

module _ (F : FloatOps) where
  -- The key hashes to the digest on record, and the time on record has not passed.
  pub record Authorised (cfg : StoreConfig F) (m : Moment F) (job_id node_id : String)
      (key : Option String) (s : StoreState F) : Type 0 where
    pub secret : String
    pub expires_at : ℕ
    pub presented : key ≡ some secret
    pub on_record : get s.assignment_hash_digests (job_id, node_id) ≡ some (cfg.sha256_hex secret)
    pub expiry : get s.assignment_hash_expires_at (job_id, node_id) ≡ some expires_at
    pub in_time : m.now ≤ expires_at

  check_key_ok :
      (cfg : StoreConfig F) (m : Moment F) (job_id node_id key digest : String) (expires_at : ℕ)
      (u : Unit {0})
      → check_key F cfg m job_id node_id key digest expires_at ≡ ok u
      → (cfg.sha256_hex key ≡ digest) × (m.now ≤ expires_at)
  unfolding check_key
  check_key_ok cfg m job_id node_id key digest expires_at u h =
      ground (arith, string_eq.beq_iff (cfg.sha256_hex key) digest)

  verify-Authorised :
      (cfg : StoreConfig F) (m : Moment F) (job_id node_id : String) (key : Option String)
      (s : StoreState F) (u : Unit {0})
      → verify_assignment_hash_key F cfg m job_id node_id key s ≡ ok u
      → Authorised cfg m job_id node_id key s
  unfolding verify_assignment_hash_key
  verify-Authorised cfg m job_id node_id none s u h = absurd (ground arith)
  verify-Authorised cfg m job_id node_id (some secret) s u h =
      elim (Option-cases (get s.assignment_hash_digests (job_id, node_id))) [
        | inl e ↦ absurd (ground arith)
        | inr (digest, ed) ↦
            elim (Option-cases (get s.assignment_hash_expires_at (job_id, node_id))) [
              | inl e ↦ absurd (ground arith)
              | inr (expires_at, ee) ↦
                  let checked : check_key F cfg m job_id node_id secret digest expires_at ≡ ok u =
                    ground arith in
                  let (same, in_time) =
                    check_key_ok cfg m job_id node_id secret digest expires_at u checked in
                  record {
                    secret = secret;
                    expires_at = expires_at;
                    presented = refl;
                    on_record = cc;
                    expiry = ee;
                    in_time = in_time;
                  }
            ]
      ]

  -- A report either leaves the whole store as it was, or comes with the key on record for its
  -- claim, not yet expired.
  pub submit_replica-Authorised :
      (cfg : StoreConfig F) (m : Moment F) (r : Report F) (s : StoreState F)
      → ((submit_replica F cfg m r s).1 ≡ s)
        ⊎ Authorised cfg m r.job_id r.node_id r.assignment_hash_key s
  unfolding submit_replica check_report
  submit_replica-Authorised cfg m r s =
      let Fine : Result (Job F) × StoreState F → Type 0 =
        λ t. (t.1 ≡ s) ⊎ Authorised cfg m r.job_id r.node_id r.assignment_hash_key s in
      option_ind Fine (get s.jobs r.job_id) (λ _. inl refl)
        (λ job found.
          if_ind Fine (job.status == JobStatus.completed) (λ _. inl refl)
            (λ open_job. elim (Result-cases (check_report F cfg m r job s)) [
              | inl (e, refused) ↦ rw refused (inl refl)
              | inr (u, passed) ↦ inr (
                  verify-Authorised cfg m r.job_id r.node_id r.assignment_hash_key s u
                    (ground arith))
            ]))
