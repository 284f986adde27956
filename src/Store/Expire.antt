-- ===== src/Store/Expire.antt =====
-- The watchdog's operations of `InMemoryStateStore`: claims and nodes that time out. A Python set
-- is a list without repetitions, gone through in the order in which its elements came.
use hyper_looms.Prelude.{
  ℕ, ◌+◌, ◌*◌, String, Bool, ◌&&◌, ◌||◌, true, false, not, none, some, List, [], ◌∷◌, ◌++◌, map,
  ◌==◌, string_eq, nat_eq, pair_eq, ltb, if◌then◌else◌, filter, any, contains, length,
}
use hyper_looms.Prelude.Int.{negsuc}
use hyper_looms.Float.{FloatOps}
use hyper_looms.Dict.{Dict, get, put}
use hyper_looms.Result.{Result, ok, err, concat}
use hyper_looms.Text.{starts_with}
use hyper_looms.Models.Node.{NodeStatus, node_status_eq, Node}
use hyper_looms.Models.Job.{Job, JobStatus}
use hyper_looms.Store.State.{Moment, StoreConfig, Assignment, StoreState}
use hyper_looms.Store.Nodes.{increment_node_jobs, adjust_node_trust}
use hyper_looms.Store.Planning.{unique}
use hyper_looms.Store.Keys.{drop_assignment}
use hyper_looms.Store.Claim.{log_entry}
use hyper_looms.Store.Evaluate.{evaluate_job, minus}

-- ts < now - timedelta(seconds=timeout), in microseconds
abbrev pub is_stale : ℕ → ℕ → ℕ → Bool
is_stale now timeout_seconds ts = ltb (ts + timeout_seconds * 1000000) now

module _ (F : FloatOps) where
  open F use {Float, lit}

  -- the claims that are older than the timeout
  unfoldable pub stale_claims : ℕ → ℕ → Dict Assignment ℕ → List Assignment
  stale_claims now timeout_seconds [] = []
  stale_claims now timeout_seconds ((a, ts) ∷ d) =
      let rest = stale_claims now timeout_seconds d in
      if is_stale now timeout_seconds ts then a ∷ rest else rest

  -- the status of a job that loses a claim
  abbrev pub status_without : Job F → JobStatus
  status_without job =
      if ltb 1 (length job.inflight_node_ids) then JobStatus.running else JobStatus.pending

  abbrev pub expired_job : String → Job F → Job F
  expired_job node_id job = record job {
    status = status_without job;
    inflight_node_ids = filter (λ i. not (i == node_id)) job.inflight_node_ids;
    failed_node_ids = unique (job.failed_node_ids ++ node_id ∷ []);
    logs =
        job.logs
        ++ log_entry F (concat ("Replica lease expired for " ∷ node_id ∷ [])) "warning"
            (some node_id)
          ∷ [];
  }

  -- One round of the loop over the stale claims: whether a job lost a replica, and the store.
  unfoldable pub expire_claim : Assignment → StoreState F → Bool × StoreState F
  unfolding drop_assignment
  expire_claim a s =
      let s1 = drop_assignment F a s in
      elim (get s1.jobs a.0) [
        | none ↦ (false, s1)
        | some job ↦
            if contains a.1 job.inflight_node_ids
            then (true, record s1 { jobs = put s1.jobs a.0 (expired_job a.1 job) })
            else (false, s1)
      ]

  -- The loop: the claims by which a job lost a replica, and the store.
  unfoldable pub expire_claims : List Assignment → StoreState F → List Assignment × StoreState F
  unfolding expire_claim
  expire_claims [] s = ([], s)
  expire_claims (a ∷ claims) s =
      let (lost, s1) = expire_claim a s in
      let (rest, s2) = expire_claims claims s1 in (if lost then a ∷ rest else rest, s2)

  -- the loop of `_evaluate_job` over the affected jobs
  unfoldable pub evaluate_jobs :
      StoreConfig F → Moment F → List String → StoreState F → Result (Unit {0}) × StoreState F
  unfolding evaluate_job
  evaluate_jobs cfg m [] s = (ok tt, s)
  evaluate_jobs cfg m (job_id ∷ job_ids) s =
      let (result, s') = evaluate_job F cfg m job_id s in
      elim result [ err e ↦ (err e, s') | ok job ↦ evaluate_jobs cfg m job_ids s' ]

  unfoldable pub blame_expired : Moment F → List String → StoreState F → StoreState F
  unfolding increment_node_jobs adjust_node_trust
  blame_expired m [] s = s
  blame_expired m (node_id ∷ node_ids) s = blame_expired m node_ids (
      adjust_node_trust F node_id (minus F (lit 1 2))
        (increment_node_jobs F m node_id (negsuc 0) s))

  unfoldable pub expire_stale_job_claims :
      StoreConfig F → Moment F → ℕ → StoreState F → Result (List String) × StoreState F
  unfolding stale_claims expire_claims blame_expired evaluate_jobs
  expire_stale_job_claims cfg m timeout_seconds s =
      let (lost, s1) =
        expire_claims (stale_claims m.now timeout_seconds s.assignment_started_at) s in
      let affected = unique (map (λ (a : Assignment). a.0) lost) in
      let nodes = unique (map (λ (a : Assignment). a.1) lost) in
      let (result, s2) = evaluate_jobs cfg m affected (blame_expired m nodes s1) in
      (elim result [ ok u ↦ ok affected | err e ↦ err e ], s2)

  abbrev pub expires : ℕ → ℕ → Node F → Bool
  expires now timeout_seconds node =
      is_stale now timeout_seconds node.last_heartbeat && not (node.status == NodeStatus.offline)

  abbrev pub offline_node : Node F → Node F
  offline_node node = record node { status = NodeStatus.offline; jobs_running = 0 }

  -- The loop over the nodes: those that time out, and all of them afterwards.
  unfoldable pub expire_nodes : ℕ → ℕ → Dict String (Node F) → List String × Dict String (Node F)
  expire_nodes now timeout_seconds [] = ([], [])
  expire_nodes now timeout_seconds ((i, node) ∷ d) =
      let (offline, d') = expire_nodes now timeout_seconds d in
      if expires now timeout_seconds node
      then (i ∷ offline, (i, offline_node node) ∷ d')
      else (offline, (i, node) ∷ d')

  -- the claims of the given nodes end
  unfoldable pub drop_node_assignments :
      List String → Dict Assignment ℕ → StoreState F → StoreState F
  unfolding drop_assignment
  drop_node_assignments node_ids [] s = s
  drop_node_assignments node_ids ((a, t) ∷ rest) s =
      drop_node_assignments node_ids rest
        (if contains a.1 node_ids then drop_assignment F a s else s)

  abbrev pub released_job : List String → String → Job F → Job F
  released_job node_ids message job = record job {
    status = status_without job;
    inflight_node_ids = filter (λ i. not (contains i node_ids)) job.inflight_node_ids;
    failed_node_ids =
        unique (job.failed_node_ids ++ filter (λ i. contains i node_ids) job.inflight_node_ids);
    logs = job.logs ++ log_entry F message "warning" none ∷ [];
  }

  -- The loop over the jobs: those that lose a replica, and all of them afterwards.
  unfoldable pub release_jobs :
      List String → String → Dict String (Job F) → List String × Dict String (Job F)
  release_jobs node_ids message [] = ([], [])
  release_jobs node_ids message ((i, job) ∷ d) =
      let (affected, d') = release_jobs node_ids message d in
      if any (λ n. contains n node_ids) job.inflight_node_ids
      then (i ∷ affected, (i, released_job node_ids message job) ∷ d')
      else (affected, (i, job) ∷ d')

  unfoldable pub blame_offline : List String → StoreState F → StoreState F
  unfolding adjust_node_trust
  blame_offline [] s = s
  blame_offline (node_id ∷ node_ids) s =
      blame_offline node_ids (adjust_node_trust F node_id (minus F (lit 2 2)) s)

  unfoldable pub release_inflight :
      StoreConfig F
      → Moment F
      → List String
      → String
      → StoreState F
      → Result (List String) × StoreState F
  unfolding drop_node_assignments release_jobs blame_offline evaluate_jobs
  release_inflight cfg m node_ids message s =
      let s1 = drop_node_assignments node_ids s.assignment_started_at s in
      let (affected, jobs) = release_jobs node_ids message s1.jobs in
      let s2 = blame_offline node_ids (record s1 { jobs = jobs }) in
      let (result, s3) = evaluate_jobs cfg m affected s2 in
      (elim result [ ok u ↦ ok affected | err e ↦ err e ], s3)

  unfoldable pub expire_stale_nodes :
      StoreConfig F → Moment F → ℕ → StoreState F → Result (List String) × StoreState F
  unfolding expire_nodes release_inflight
  expire_stale_nodes cfg m timeout_seconds s =
      let (offline, nodes) = expire_nodes m.now timeout_seconds s.nodes in
      let s1 = record s { nodes = nodes } in
      if length offline == 0
      then (ok [], s1)
      else release_inflight cfg m offline "Assigned node went offline. Replica will be reassigned."
          s1

  abbrev pub pulsed_node : Moment F → Node F → Node F
  pulsed_node m node = record node {
    status = if ltb 0 node.jobs_running then NodeStatus.busy else NodeStatus.healthy;
    last_heartbeat = m.now;
  }

  -- the loop of `synthetic_pulse`, which keeps the demo nodes alive
  unfoldable pub pulse_nodes : Moment F → Dict String (Node F) → Dict String (Node F)
  unfolding starts_with
  pulse_nodes m [] = []
  pulse_nodes m ((i, node) ∷ d) =
      let rest = pulse_nodes m d in
      if not (starts_with "demo-" i)
        || (node.status == NodeStatus.offline && node.jobs_running == 0)
      then (i, node) ∷ rest
      else (i, pulsed_node m node) ∷ rest

  unfoldable pub synthetic_pulse : Moment F → StoreState F → StoreState F
  unfolding pulse_nodes
  synthetic_pulse m s = record s { nodes = pulse_nodes m s.nodes }
