-- ===== src/Scheduler.antt =====
-- backend/app/services/scheduler.py: `WeightedScheduler`, which keeps no state.
pub mod Ranking
pub mod Scores
mod Examples
use text.Mathlib.Text.{starts_with}
use hyper_looms.Prelude.{
  ℕ, zero, suc, String, Bool, ◌&&◌, ◌||◌, true, false, not, Option, none, some, List, [], ◌∷◌, map,
  ◌==◌, string_eq, pair_eq, if◌then◌else◌, or_else, take, filter, any, contains, sort_by,
}
use hyper_looms.Float.{FloatOps, max_float, min_float}
use hyper_looms.Dict.{Dict, get}
use hyper_looms.Text.{lower, strip, before, model_size}
use hyper_looms.Models.Node.{NodeStatus, node_status_eq, Node, free_vram_gb}
use hyper_looms.Models.Job.{JobConfig}

-- REGION_RTT_MS
abbrev region_rtt_ms : Dict (String × String) ℕ
region_rtt_ms =
    (("us-east-1", "us-east-1"), 8)
    ∷ (("us-east-1", "us-east-2"), 14)
    ∷ (("us-east-1", "us-west-2"), 68)
    ∷ (("us-east-1", "eu-west-1"), 84)
    ∷ (("us-east-1", "ap-south-1"), 195)
    ∷ (("us-west-2", "us-west-2"), 9)
    ∷ (("us-west-2", "us-east-1"), 68)
    ∷ (("us-west-2", "eu-west-1"), 152)
    ∷ (("eu-west-1", "eu-west-1"), 10)
    ∷ (("eu-west-1", "us-east-1"), 84)
    ∷ (("eu-west-1", "ap-south-1"), 130)
    ∷ (("ap-south-1", "ap-south-1"), 12)
    ∷ (("ap-south-1", "us-east-1"), 195)
    ∷ []

-- the round-trip time of two regions, in either direction
pub region_rtt : String → String → ℕ
unfolding get
region_rtt left right =
    or_else (get region_rtt_ms (left, right)) (or_else (get region_rtt_ms (right, left)) 220)

module _ (F : FloatOps) where
  open F use {Float, lit, add, sub, mul, div, lt, le, round}

  unfoldable pub estimate_required_vram_gb : JobConfig F → Float
  unfolding lower model_size
  estimate_required_vram_gb config =
      let parameter_hint_b : Float = elim (model_size (lower config.model)) [
        | some n ↦ lit n 0
        | none ↦ lit 130 1
      ] in
      let token_factor =
        min_float F (lit 20 1)
          (max_float F (lit 4 1) (div (lit config.max_tokens 0) (lit 2048 0))) in
      let required = mul (mul parameter_hint_b (lit 7 1)) token_factor in
      max_float F (lit 40 1) (min_float F (lit 800 1) (round required 2))

  unfoldable pub has_capacity : Node F → JobConfig F → Bool
  has_capacity node config =
      let required = estimate_required_vram_gb config in
      if lt node.vram_total_gb (mul required (lit 75 2))
      then false
      else le (max_float F (lit 20 1) (mul required (lit 3 1))) (free_vram_gb F node)

  pub free_vram_ratio : Node F → JobConfig F → Float
  free_vram_ratio node config =
      let required = estimate_required_vram_gb config in
      if le node.vram_total_gb (lit 0 0)
      then lit 0 1
      else (let headroom =
            max_float F (lit 0 1) (sub (free_vram_gb F node) (mul required (lit 2 1))) in
          min_float F (lit 10 1) (div headroom node.vram_total_gb))

  pub latency_score : Float → Float
  latency_score latency_ms =
      if le latency_ms (lit 0 0)
      then lit 75 2
      else if le (lit 1600 0) latency_ms
      then lit 1 1
      else max_float F (lit 1 1) (sub (lit 10 1) (div latency_ms (lit 1700 0)))

  pub region_affinity_score : String → Option String → Float
  unfolding strip lower region_rtt
  region_affinity_score node_region none = lit 7 1
  region_affinity_score node_region (some preferred_region) =
      let left = lower (strip preferred_region) in
      let right = lower (strip node_region) in
      if preferred_region == ""
      then lit 7 1
      else if left == "" || right == ""
      then lit 45 2
      else if left == right
      then lit 10 1
      else max_float F (lit 15 2) (
          min_float F (lit 10 1) (sub (lit 10 1) (div (lit (region_rtt left right) 0) (lit 280 0))))

  pub model_cache_score : Node F → JobConfig F → Float
  unfolding strip lower before
  model_cache_score node config =
      let model = lower (strip config.model) in
      let cached = map (λ item. lower (strip item)) node.model_cache in
      let family = before 45 (before 58 model) in
      if model == ""
      then lit 4 1
      else if contains model cached
      then lit 10 1
      else if any (λ item. starts_with item family) cached
      then lit 72 2
      else lit 25 2

  pub score_node : Node F → JobConfig F → Float
  unfolding free_vram_ratio latency_score region_affinity_score model_cache_score
  score_node node config =
      let availability = if node.status == NodeStatus.healthy then lit 10 1 else lit 65 2 in
      let trust = node.trust_score in
      let vram_score = free_vram_ratio node config in
      let load_headroom =
        max_float F (lit 0 1)
          (sub (lit 10 1) (min_float F (lit 10 1) (div (lit node.jobs_running 0) (lit 6 0)))) in
      let latency = latency_score node.latency_ms_avg in
      let region_score = region_affinity_score node.region config.preferred_region in
      let cache_score = model_cache_score node config in
      add
        (add
          (add
            (add
              (add (add (mul availability (lit 14 2)) (mul trust (lit 28 2)))
                (mul vram_score (lit 22 2)))
              (mul load_headroom (lit 11 2)))
            (mul latency (lit 7 2)))
          (mul region_score (lit 10 2)))
        (mul cache_score (lit 8 2))

  -- not offline, not excluded, and with room for the job
  unfoldable pub is_candidate : JobConfig F → List String → Node F → Bool
  unfolding has_capacity
  is_candidate config exclude node =
      not (node.status == NodeStatus.offline)
      && (not (contains node.id exclude) && has_capacity node config)

  -- a higher score comes first
  pub ranks_above : JobConfig F → Node F → Node F → Bool
  unfolding score_node
  ranks_above config a b = lt (score_node b config) (score_node a config)

  unfoldable pub rank_nodes : List (Node F) → JobConfig F → List String → List (Node F)
  unfolding is_candidate ranks_above
  rank_nodes nodes config exclude =
      sort_by (ranks_above config) (filter (is_candidate config exclude) nodes)

  -- `replicas` at or below zero gives the empty list, as taking none does.
  unfoldable pub select_nodes : List (Node F) → JobConfig F → ℕ → List (Node F)
  unfolding rank_nodes
  select_nodes nodes config replicas = take replicas (rank_nodes nodes config [])
