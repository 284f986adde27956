-- ===== src/Store/Stats.antt =====
-- What `InMemoryStateStore` reports on its nodes and jobs (the response models are those of
-- backend/app/schemas).
use hyper_looms.Prelude.{
  ℕ, String, Bool, ◌||◌, not, List, [], ◌∷◌, map, ◌==◌, nat_eq, if◌then◌else◌, filter, take, length,
  max,
}
use hyper_looms.Float.{FloatOps}
use hyper_looms.Text.{prefix}
use hyper_looms.Models.Node.{NodeStatus, node_status_eq, Node}
use hyper_looms.Models.Job.{Job, JobStatus, job_status_eq, VerificationStatus}
use hyper_looms.Store.State.{StoreState, list_nodes, list_jobs}
use hyper_looms.Store.Planning.{successful}

module _ (F : FloatOps) where
  open F use {Float, lit, add, div, lt, round}

  pub record NetworkStats : Type 0 where
    pub active_nodes : ℕ
    pub total_nodes : ℕ
    pub total_vram_gb : Float
    pub jobs_running : ℕ
    pub avg_latency_ms : Float

  pub record NodeJobDistributionItem : Type 0 where
    pub node_id : String
    pub jobs : ℕ
    pub status : NodeStatus
    pub trust_score : Float

  pub record AdminLiveJobItem : Type 0 where
    pub job_id : String
    pub status : JobStatus
    pub verification_status : VerificationStatus
    pub prompt_preview : String
    pub model : String
    pub target_replicas : ℕ
    pub successful_replicas : ℕ
    pub inflight_replicas : ℕ
    pub assigned_node_ids : List String
    pub failed_node_ids : List String
    pub verification_confidence : Float
    pub updated_at : ℕ

  -- sum(xs), from the left
  sum_from : Float → List Float → Float
  sum_from total [] = total
  sum_from total (x ∷ xs) = sum_from (add total x) xs

  abbrev pub is_live : Job F → Bool
  is_live job =
      job.status == JobStatus.pending
      || (job.status == JobStatus.running || job.status == JobStatus.verifying)

  unfoldable pub network_stats : StoreState F → NetworkStats
  unfolding list_nodes list_jobs sum_from
  network_stats s =
      let nodes = list_nodes F s in
      let latencies = filter (λ x. lt (lit 0 0) x) (map (λ (n : Node F). n.latency_ms_avg) nodes) in
      record {
        active_nodes = length (filter (λ (n : Node F). not (n.status == NodeStatus.offline)) nodes);
        total_nodes = length nodes;
        total_vram_gb = round (sum_from (lit 0 0) (map (λ (n : Node F). n.vram_total_gb) nodes)) 2;
        jobs_running = length (filter is_live (list_jobs F s));
        avg_latency_ms =
            if length latencies == 0
            then lit 0 0
            else round (div (sum_from (lit 0 0) latencies) (lit (length latencies) 0)) 2;
      }

  -- `jobs_status_counts()[status]`
  unfoldable pub jobs_status_counts : StoreState F → JobStatus → ℕ
  unfolding list_jobs
  jobs_status_counts s status =
      length (filter (λ (job : Job F). job.status == status) (list_jobs F s))

  unfoldable pub jobs_distribution : StoreState F → List NodeJobDistributionItem
  unfolding list_nodes
  jobs_distribution s =
      map
        (λ (node : Node F). record {
          node_id = node.id;
          jobs = node.jobs_running;
          status = node.status;
          trust_score = node.trust_score;
        })
        (list_nodes F s)

  abbrev pub live_job_item : Job F → AdminLiveJobItem
  live_job_item job = record {
    job_id = job.id;
    status = job.status;
    verification_status = job.verification_status;
    prompt_preview = prefix 120 job.prompt;
    model = job.config.model;
    target_replicas = max 1 job.config.replicas;
    successful_replicas = length (successful F job);
    inflight_replicas = length job.inflight_node_ids;
    assigned_node_ids = job.assigned_node_ids;
    failed_node_ids = job.failed_node_ids;
    verification_confidence = job.verification_confidence;
    updated_at = job.updated_at;
  }

  -- for a `limit` that is not negative
  unfoldable pub admin_live_jobs : ℕ → StoreState F → List AdminLiveJobItem
  unfolding list_jobs
  admin_live_jobs limit s = map live_job_item (take limit (list_jobs F s))
