-- ===== src/Store/Grants.antt =====
-- What a claim grants, and that a refused claim changes nothing.
use hyper_looms.Prelude.{
  ℕ, ◌+◌, ◌<◌, length, ◌≢◌, String, ◌≡◌, ◌⊎◌, inl, inr, Option, some, List, [], ◌∷◌, ◌++◌, arith,
  ◌==◌, string_eq, nat_eq, pair_eq, beq_refl, Option-cases, if_ind, option_ind, refl, true, false,
  contains, contains-append, subst,
}
use hyper_looms.Prelude.Int.{ℤ, pos}
use hyper_looms.Float.{FloatOps}
use hyper_looms.Dict.{get, get-put_self}
use hyper_looms.Result.{Result, ok}
use hyper_looms.Models.Node.{Node, NodeStatus, node_status_eq}
use hyper_looms.Models.Job.{Job, JobStatus, job_status_eq}
use hyper_looms.Store.State.{Moment, StoreConfig, StoreState, list_nodes}
use hyper_looms.Store.Nodes.{increment_node_jobs, add_model_to_node_cache}
use hyper_looms.Store.Planning.{contains-unique, unique, successful, target_replicas}
use hyper_looms.Store.Keys.{issue_assignment_hash_key}
use hyper_looms.Store.Claim.{
  may_claim, find_claim, oldest_first, claimed_job, record_claim, claim_next_job,
}

module _ (F : FloatOps) where
  -- The part of the store that operations on nodes leave alone.
  pub record SameJobs (s t : StoreState F) : Type 0 where
    pub jobs : t.jobs ≡ s.jobs
    pub started : t.assignment_started_at ≡ s.assignment_started_at
    pub digests : t.assignment_hash_digests ≡ s.assignment_hash_digests
    pub expires : t.assignment_hash_expires_at ≡ s.assignment_hash_expires_at

  pub SameJobs-refl : (s : StoreState F) → SameJobs s s
  SameJobs-refl s = record { jobs = refl; started = refl; digests = refl; expires = refl }

  pub SameJobs-increment_node_jobs :
      (m : Moment F) (node_id : String) (delta : ℤ) (s : StoreState F)
      → SameJobs s (increment_node_jobs F m node_id delta s)
  unfolding increment_node_jobs
  SameJobs-increment_node_jobs m node_id delta s =
      option_ind (SameJobs s) (get s.nodes node_id) (λ _. SameJobs-refl s)
        (λ node _. record { jobs = refl; started = refl; digests = refl; expires = refl })

  pub SameJobs-add_model_to_node_cache :
      (node_id model : String) (s : StoreState F)
      → SameJobs s (add_model_to_node_cache F node_id model s)
  unfolding add_model_to_node_cache
  SameJobs-add_model_to_node_cache node_id model s =
      option_ind (SameJobs s) (get s.nodes node_id) (λ _. SameJobs-refl s)
        (λ node _.
          if_ind (SameJobs s) (model == "") (λ _. SameJobs-refl s)
            (λ _. record { jobs = refl; started = refl; digests = refl; expires = refl }))

  pub find_claim-may_claim :
      (cfg : StoreConfig F) (node_id : String) (nodes : List (Node F)) (jobs : List (Job F))
      (job : Job F)
      → find_claim F cfg node_id nodes jobs ≡ some job
      → may_claim F cfg node_id nodes job ≡ true
  unfolding find_claim
  find_claim-may_claim cfg node_id nodes [] job h = absurd (ground arith)
  find_claim-may_claim cfg node_id nodes (j ∷ jobs) job h =
      ground (arith, find_claim-may_claim cfg node_id nodes jobs job)

  -- A claim that is refused, or that finds nothing, leaves the whole store as it was.
  pub claim_refused :
      (cfg : StoreConfig F) (m : Moment F) (node_id : String) (s : StoreState F)
      → ((claim_next_job F cfg m node_id s).1 ≡ s)
        ⊎ ((claim : Job F × String × ℕ) × ((claim_next_job F cfg m node_id s).0 ≡ ok (some claim)))
  unfolding claim_next_job
  claim_refused cfg m node_id s =
      let Fine : Result (Option (Job F × String × ℕ)) × StoreState F → Type 0 =
        λ t. (t.1 ≡ s) ⊎ ((claim : Job F × String × ℕ) × (t.0 ≡ ok (some claim))) in
      option_ind Fine (get s.nodes node_id) (λ _. inl refl)
        (λ node found.
          if_ind Fine (node.status == NodeStatus.offline) (λ _. inl refl)
            (λ online.
              option_ind Fine (find_claim F cfg node_id (list_nodes F s) (oldest_first F s))
                (λ _. inl refl) (λ job picked. inr (_, refl))))

  -- What the store records of a claim that the node holds.
  pub record Granted (cfg : StoreConfig F) (m : Moment F) (node_id : String) (s : StoreState F)
      (claim : Job F × String × ℕ) : Type 0 where
    pub stored : get s.jobs claim.0.id ≡ some claim.0
    pub running : claim.0.status ≡ JobStatus.running
    pub inflight : contains node_id claim.0.inflight_node_ids ≡ true
    pub started : get s.assignment_started_at (claim.0.id, node_id) ≡ some m.now
    pub digest : get s.assignment_hash_digests (claim.0.id, node_id) ≡ some (cfg.sha256_hex claim.1)
    pub expiry : get s.assignment_hash_expires_at (claim.0.id, node_id) ≡ some claim.2

  Granted-SameJobs :
      (cfg : StoreConfig F) (m : Moment F) (node_id : String) (s t : StoreState F)
      (claim : Job F × String × ℕ)
      → SameJobs s t
      → Granted cfg m node_id s claim
      → Granted cfg m node_id t claim
  Granted-SameJobs cfg m node_id s t claim same g = record {
    stored = rw same.jobs g.stored;
    running = g.running;
    inflight = g.inflight;
    started = rw same.started g.started;
    digest = rw same.digests g.digest;
    expiry = rw same.expires g.expiry;
  }

  Granted-record_claim :
      (cfg : StoreConfig F) (m : Moment F) (node_id : String) (nodes : List (Node F)) (job : Job F)
      (s : StoreState F)
      → let (claim, s') = record_claim F cfg m node_id nodes job s in Granted cfg m node_id s' claim
  unfolding record_claim claimed_job issue_assignment_hash_key
  Granted-record_claim cfg m node_id nodes job s = record {
    stored = get-put_self s.jobs job.id _;
    running = refl;
    inflight = ground (
      arith,
      contains-unique (job.inflight_node_ids ++ node_id ∷ []) node_id,
      contains-append node_id job.inflight_node_ids (node_id ∷ []),
      beq_refl node_id,
    );
    started = get-put_self s.assignment_started_at (job.id, node_id) m.now;
    digest = get-put_self s.assignment_hash_digests (job.id, node_id) _;
    expiry = get-put_self s.assignment_hash_expires_at (job.id, node_id) _;
  }

  -- A claim that is granted leaves its job in the store as it is
  -- returned: running, with the node among those in flight, the start of the claim, and the digest
  -- and the expiry time of the returned key.
  pub claim_grants :
      (cfg : StoreConfig F) (m : Moment F) (node_id : String) (s : StoreState F)
      (claim : Job F × String × ℕ)
      → (claim_next_job F cfg m node_id s).0 ≡ ok (some claim)
      → Granted cfg m node_id (claim_next_job F cfg m node_id s).1 claim
  unfolding claim_next_job
  claim_grants cfg m node_id s =
      let Fine : Result (Option (Job F × String × ℕ)) × StoreState F → Type 0 = λ t.
        (claim : Job F × String × ℕ) → t.0 ≡ ok (some claim) → Granted cfg m node_id t.1 claim in
      option_ind Fine (get s.nodes node_id) (λ _ claim h. absurd (cc))
        (λ node found.
          if_ind Fine (node.status == NodeStatus.offline) (λ _ claim h. absurd (cc))
            (λ online.
              option_ind Fine (find_claim F cfg node_id (list_nodes F s) (oldest_first F s))
                (λ _ claim h. absurd (cc))
                (λ job picked claim h.
                  let nodes = list_nodes F s in
                  let (made, s1) = record_claim F cfg m node_id nodes job s in
                  let s2 = increment_node_jobs F m node_id (pos 1) s1 in
                  let granted =
                    Granted-SameJobs cfg m node_id s2
                      (add_model_to_node_cache F node_id job.config.model s2) made
                      (SameJobs-add_model_to_node_cache node_id job.config.model s2)
                      (Granted-SameJobs cfg m node_id s1 s2 made
                        (SameJobs-increment_node_jobs m node_id (pos 1) s1)
                        (Granted-record_claim cfg m node_id nodes job s)) in
                  subst
                    (Granted cfg m node_id (add_model_to_node_cache F node_id job.config.model s2))
                    (cc) granted)))

  pub may_claim_conditions :
      (cfg : StoreConfig F) (node_id : String) (nodes : List (Node F)) (job : Job F)
      → may_claim F cfg node_id nodes job ≡ true
      → (job.status ≢ JobStatus.completed)
        × (job.status ≢ JobStatus.failed)
        × (contains node_id job.inflight_node_ids ≡ false)
        × (length (successful F job) + length (unique job.inflight_node_ids)
            < target_replicas F cfg job.config nodes)
  unfolding may_claim
  may_claim_conditions cfg node_id nodes job h =
      (λ e. ground arith, λ e. ground arith, ground arith, ground arith)

  -- A claim that is granted is of a stored job that is neither completed nor failed, that the node
  -- has not in flight, and whose successes and replicas in flight are fewer than its target.
  pub claim_wanted :
      (cfg : StoreConfig F) (m : Moment F) (node_id : String) (s : StoreState F)
      (claim : Job F × String × ℕ)
      → (claim_next_job F cfg m node_id s).0 ≡ ok (some claim)
      → (job : Job F) × (find_claim F cfg node_id (list_nodes F s) (oldest_first F s) ≡ some job)
        × (claim.0.id ≡ job.id)
        × (job.status ≢ JobStatus.completed)
        × (job.status ≢ JobStatus.failed)
        × (contains node_id job.inflight_node_ids ≡ false)
        × (length (successful F job) + length (unique job.inflight_node_ids)
            < target_replicas F cfg job.config (list_nodes F s))
  unfolding claim_next_job record_claim claimed_job
  claim_wanted cfg m node_id s claim h =
      elim (Option-cases (find_claim F cfg node_id (list_nodes F s) (oldest_first F s))) [
        | inl e ↦ absurd (ground arith)
        | inr (job, e) ↦
            let may = find_claim-may_claim cfg node_id (list_nodes F s) (oldest_first F s) job e in
            let (a, b, c, d) = may_claim_conditions cfg node_id (list_nodes F s) job may in
            (job, e, ground arith, a, b, c, d)
      ]
