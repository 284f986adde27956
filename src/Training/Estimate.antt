-- ===== src/Training/Estimate.antt =====
-- backend/app/services/training_orchestrator.py: `TrainingOrchestrator.estimate_compute`.
use hyper_looms.Prelude.{
  ℕ, ◌+◌, ◌-◌, ◌*◌, ◌/◌, String, Bool, ◌&&◌, ◌||◌, not, none, some, List, [], ◌∷◌, ◌++◌, map, ◌==◌,
  string_eq, leb, ltb, max, min, length, take, filter, if◌then◌else◌, sort_by,
}
use hyper_looms.Float.{FloatOps, max_float, min_float}
use hyper_looms.Result.{Result, ok, err, key_error, value_error, concat}
use hyper_looms.Text.{str_less, show_nat}
use hyper_looms.Models.Node.{Node, NodeStatus, node_status_eq, free_vram_gb}
use hyper_looms.Models.Job.{JobConfig}
use hyper_looms.Models.Training.{
  TrainingMode, BudgetProfile, ModelArtifact, DatasetArtifact, NodeAllocationHint,
  ComputeEstimateRequest, ComputeEstimateResponse,
}
use hyper_looms.Scheduler.{rank_nodes, score_node, estimate_required_vram_gb}
use hyper_looms.Training.Rows.{TrainingMoment, Database}
use hyper_looms.Training.Metadata.{MetadataStore, get_model_artifact, get_dataset_artifact}

-- ceil(a / b) for b > 0, exact below 2^53, which a sample count never reaches
abbrev pub ceil_div : ℕ → ℕ → ℕ
ceil_div a b = (a + (b - 1)) / b

module _ (F : FloatOps) where
  open F use {Float, lit, mul, div, lt, round}

  -- the validation of a `JobConfig`: pydantic's error is a `ValueError` with a text of its own
  abbrev pub config_is_valid : ComputeEstimateRequest F → Bool
  config_is_valid payload =
      (leb 1 payload.replicas && leb payload.replicas 8)
      && (leb 32 payload.max_tokens && leb payload.max_tokens 8192)

  abbrev pub config_of : TrainingMoment F → ModelArtifact F → ComputeEstimateRequest F → JobConfig F
  config_of m artifact payload = record {
    model = concat (artifact.name ∷ "-" ∷ m.one_decimal artifact.parameter_count_b ∷ "b" ∷ []);
    replicas = payload.replicas;
    max_tokens = payload.max_tokens;
    temperature = lit 3 1;
    provider = payload.provider;
    preferred_region = payload.preferred_region;
  }

  -- the order of the keys (healthy, trust_score, free_vram_gb, id)
  pub candidate_less : Node F → Node F → Bool
  candidate_less a b =
      let ha = a.status == NodeStatus.healthy in
      let hb = b.status == NodeStatus.healthy in
      let by_id = str_less a.id b.id in
      let by_vram =
        lt (free_vram_gb F a) (free_vram_gb F b)
        || (not (lt (free_vram_gb F b) (free_vram_gb F a)) && by_id) in
      let by_trust =
        lt a.trust_score b.trust_score || (not (lt b.trust_score a.trust_score) && by_vram) in
      (not ha && hb) || ((not ha || hb) && by_trust)

  unfoldable pub fallback_candidates : List (Node F) → List (Node F)
  unfolding candidate_less
  fallback_candidates nodes =
      sort_by (λ a b. candidate_less b a) (filter (λ n. not (n.status == NodeStatus.offline)) nodes)

  unfoldable pub effective_candidates : List (Node F) → List (Node F) → List (Node F)
  effective_candidates [] fallback = fallback
  effective_candidates (n ∷ ranked) fallback = n ∷ ranked

  abbrev pub mode_factor : TrainingMode → Float
  mode_factor TrainingMode.train = lit 15 1
  mode_factor TrainingMode.finetune = lit 10 1
  mode_factor TrainingMode.inference = lit 35 2
  mode_factor TrainingMode.evaluation = lit 45 2

  abbrev pub budget_factor : BudgetProfile → Float
  budget_factor BudgetProfile.starter = lit 135 2
  budget_factor BudgetProfile.scale = lit 10 1
  budget_factor BudgetProfile.peak = lit 7 1

  pub capacity_warning : List (Node F) → List (Node F) → List String
  capacity_warning (n ∷ ranked) fallback = []
  capacity_warning [] [] =
      "No healthy nodes currently match VRAM requirements. Run will queue until capacity appears."
      ∷ []
  capacity_warning [] (n ∷ fallback) =
      concat (
        "Using single-node MVP fallback for planning because strict VRAM match was not found. "
        ∷ "Run will execute sequentially on available node(s)." ∷ [])
      ∷ []

  pub replicas_warning : ℕ → ℕ → List String
  unfolding show_nat
  replicas_warning requested recommended =
      if ltb recommended requested
      then concat (
          "Requested replicas reduced from "
          ∷ show_nat requested
          ∷ " to "
          ∷ show_nat recommended
          ∷ " due to current fabric capacity."
          ∷ [])
        ∷ []
      else []

  abbrev pub hint_of : JobConfig F → Node F → NodeAllocationHint F
  hint_of config node = record {
    node_id = node.id;
    score = round (score_node F node config) 4;
    region = node.region;
    vram_total_gb = node.vram_total_gb;
    free_vram_gb = free_vram_gb F node;
  }

  abbrev pub replicas_for : ℕ → List (Node F) → ℕ
  replicas_for requested candidates = max 1 (min requested (max 1 (length candidates)))

  -- the part of `estimate_compute` behind its three checks
  unfoldable pub estimate_run :
      TrainingMoment F
      → Float
      → ModelArtifact F
      → DatasetArtifact F
      → ComputeEstimateRequest F
      → List (Node F)
      → ComputeEstimateResponse F
  unfolding fallback_candidates effective_candidates rank_nodes estimate_required_vram_gb
      capacity_warning replicas_warning
  estimate_run m credit_per_gpu_hour artifact dataset payload nodes =
      let config = config_of m artifact payload in
      let ranked = rank_nodes F nodes config [] in
      let fallback = fallback_candidates nodes in
      let candidates = effective_candidates ranked fallback in
      let required_vram = max_float F (lit 20 1) (estimate_required_vram_gb F config) in
      let required_ram = max_float F (lit 40 1) (round (mul required_vram (lit 165 2)) 2) in
      let recommended = replicas_for payload.replicas candidates in
      let token_factor =
        max_float F (lit 5 1)
          (min_float F (lit 80 1) (div (lit payload.max_tokens 0) (lit 1024 0))) in
      let samples = max 1 dataset.train_samples in
      let steps_per_epoch = ceil_div samples (max 1 (payload.batch_size * recommended)) in
      let step_seconds = max_float F (lit 4 2) (
        mul (mul (mul (div required_vram (lit 16 0)) (mode_factor payload.mode)) token_factor)
          (budget_factor payload.budget_profile)) in
      let hours =
        round
          (div (mul (lit (steps_per_epoch * payload.target_epochs) 0) step_seconds) (lit 3600 0))
          3 in
      let cost = round (mul (mul hours (lit recommended 0)) credit_per_gpu_hour) 2 in
      record {
        required_vram_gb = round required_vram 2;
        required_ram_gb = round required_ram 2;
        estimated_duration_hours = hours;
        estimated_cost_credits = cost;
        recommended_replicas = recommended;
        node_candidates = map (hint_of config) (take 8 candidates);
        warnings =
            (capacity_warning ranked fallback ++ replicas_warning payload.replicas recommended)
            ++ (if lt (lit 500 0) dataset.size_gb
                then "Large dataset detected. Ensure shard streaming is configured on worker nodes."
                  ∷ []
                else []);
      }

module _ (F : FloatOps) (D : Database F) where
  open F use {Float}

  unfoldable pub estimate_compute :
      TrainingMoment F
      → Float
      → ComputeEstimateRequest F
      → List (Node F)
      → MetadataStore F D
      → Result (ComputeEstimateResponse F)
  unfolding estimate_run
  estimate_compute m credit_per_gpu_hour payload nodes s =
      elim (get_model_artifact F D s payload.artifact_id) [
        | none ↦
            err (key_error (concat ("Model artifact '" ∷ payload.artifact_id ∷ "' not found" ∷ [])))
        | some artifact ↦ elim (get_dataset_artifact F D s payload.dataset_id) [
          | none ↦
              err (
                key_error (concat ("Dataset artifact '" ∷ payload.dataset_id ∷ "' not found" ∷ [])))
          | some dataset ↦
              if config_is_valid F payload
              then ok (estimate_run F m credit_per_gpu_hour artifact dataset payload nodes)
              else err (value_error "JobConfig")
        ]
      ]
