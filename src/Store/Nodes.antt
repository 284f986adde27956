-- ===== src/Store/Nodes.antt =====
-- The operations of `InMemoryStateStore` on nodes.
use hyper_looms.Prelude.{
  ℕ, ◌+◌, ◌-◌, String, none, some, List, [], ◌∷◌, ◌++◌, ◌==◌, string_eq, option_eq, ltb,
  if◌then◌else◌, or_else, take, contains, length,
}
use hyper_looms.Prelude.Int.{ℤ, pos, negsuc}
use hyper_looms.Float.{FloatOps, max_float, min_float}
use hyper_looms.Dict.{get, put}
use hyper_looms.Result.{Result, ok, err, key_error, concat}
use hyper_looms.Text.{lower, strip, show_nat, replace_blanks}
use hyper_looms.Models.Node.{
  NodeStatus, node_status_eq, Node, NodeRegisterRequest, NodeHeartbeatRequest,
}
use hyper_looms.Store.State.{Moment, StoreState}

-- The loop of `_normalize_model_cache` over what is left, with the keys seen so far.
normalize_from : List String → List String → List String
unfolding strip lower
normalize_from seen [] = []
normalize_from seen (model ∷ models) =
    let cleaned = strip model in
    let key = lower cleaned in
    let skip = normalize_from seen models in
    let keep = normalize_from (key ∷ seen) models in
    if cleaned == "" then skip else if contains key seen then skip else cleaned ∷ keep

unfoldable pub normalize_model_cache : List String → List String
unfolding normalize_from
normalize_model_cache models = take 32 (normalize_from [] models)

-- max(0, n + delta)
abbrev pub plus_delta : ℕ → ℤ → ℕ
plus_delta n (pos d) = n + d
plus_delta n (negsuc d) = n - (d + 1)

module _ (F : FloatOps) where
  open F use {Float, lit, add, mul}

  -- the defaults of the model for what is not given
  abbrev pub demo_node : Moment F → String → String → ℕ → String → Node F
  demo_node m i gpu vram region = record {
    id = i;
    gpu = gpu;
    vram_total_gb = lit vram 0;
    vram_used_gb = lit 0 0;
    status = NodeStatus.healthy;
    trust_score = lit 9 1;
    jobs_running = 0;
    latency_ms_avg = lit 0 0;
    region = region;
    model_cache = [];
    last_heartbeat = m.now;
  }

  unfoldable pub seed_nodes : Moment F → StoreState F → StoreState F
  seed_nodes m s = record s {
    nodes =
        put
          (put
            (put
              (put s.nodes "demo-a100-1" (demo_node m "demo-a100-1" "NVIDIA A100" 80 "us-east-1"))
              "demo-h100-1" (demo_node m "demo-h100-1" "NVIDIA H100" 80 "us-west-2"))
            "demo-l40s-1" (demo_node m "demo-l40s-1" "NVIDIA L40S" 48 "eu-west-1"))
          "demo-a10-1" (demo_node m "demo-a10-1" "NVIDIA A10" 24 "us-east-2");
  }

  abbrev pub node_id_of : NodeRegisterRequest F → StoreState F → String
  node_id_of payload s =
      let made =
        concat (
          "node-"
          ∷ replace_blanks (lower payload.gpu)
          ∷ "-"
          ∷ show_nat (length s.nodes + 1)
          ∷ []) in
      elim payload.id [ none ↦ made | some i ↦ if i == "" then made else i ]

  abbrev pub new_node : Moment F → String → NodeRegisterRequest F → Node F
  new_node m node_id payload = record {
    id = node_id;
    gpu = payload.gpu;
    vram_total_gb = payload.vram_total_gb;
    vram_used_gb = lit 0 0;
    status = NodeStatus.offline;
    trust_score = lit 9 1;
    jobs_running = 0;
    latency_ms_avg = lit 0 0;
    region = payload.region;
    model_cache = normalize_model_cache payload.model_cache;
    last_heartbeat = m.now;
  }

  abbrev pub renewed_node : Moment F → NodeRegisterRequest F → Node F → Node F
  renewed_node m payload existing = record existing {
    gpu = payload.gpu;
    vram_total_gb = payload.vram_total_gb;
    region = payload.region;
    model_cache = normalize_model_cache payload.model_cache;
    status = NodeStatus.offline;
    jobs_running = 0;
    last_heartbeat = m.now;
  }

  unfoldable pub register_node :
      Moment F → NodeRegisterRequest F → StoreState F → Node F × StoreState F
  unfolding normalize_model_cache
  register_node m payload s =
      let node_id = node_id_of payload s in
      let node : Node F = elim (get s.nodes node_id) [
        | some existing ↦ renewed_node m payload existing
        | none ↦ new_node m node_id payload
      ] in
      (node, record s { nodes = put s.nodes node.id node })

  -- `payload.jobs_running` and `payload.status` decide the status; going offline stops all jobs.
  abbrev pub beat_status : NodeHeartbeatRequest F → Node F → NodeStatus
  beat_status payload node =
      if payload.status == some NodeStatus.offline
      then NodeStatus.offline
      else elim payload.jobs_running [
        | some n ↦ if ltb 0 n then NodeStatus.busy else NodeStatus.healthy
        | none ↦ or_else payload.status node.status
      ]

  abbrev pub beat_jobs : NodeHeartbeatRequest F → Node F → ℕ
  beat_jobs payload node =
      if payload.status == some NodeStatus.offline
      then 0
      else or_else payload.jobs_running node.jobs_running

  abbrev pub beat_node : Moment F → NodeHeartbeatRequest F → Node F → Node F
  beat_node m payload node = record node {
    status = beat_status payload node;
    jobs_running = beat_jobs payload node;
    vram_used_gb = elim payload.vram_used_gb [
      | some v ↦ min_float F v node.vram_total_gb
      | none ↦ node.vram_used_gb
    ];
    latency_ms_avg = elim payload.latency_ms [
      | some l ↦ add (mul node.latency_ms_avg (lit 7 1)) (mul l (lit 3 1))
      | none ↦ node.latency_ms_avg
    ];
    model_cache = elim payload.model_cache [
      | some c ↦ normalize_model_cache c
      | none ↦ node.model_cache
    ];
    last_heartbeat = m.now;
  }

  unfoldable pub heartbeat :
      Moment F → String → NodeHeartbeatRequest F → StoreState F → Result (Node F) × StoreState F
  unfolding normalize_model_cache
  heartbeat m node_id payload s = elim (get s.nodes node_id) [
    | none ↦ (err (key_error (concat ("Node '" ∷ node_id ∷ "' not found" ∷ []))), s)
    | some node ↦ (
      ok (beat_node m payload node),
      record s { nodes = put s.nodes node_id (beat_node m payload node) },
    )
  ]

  abbrev pub busy_status : Node F → ℕ → NodeStatus
  busy_status node jobs_running =
      if node.status == NodeStatus.offline
      then node.status
      else if ltb 0 jobs_running
      then NodeStatus.busy
      else NodeStatus.healthy

  unfoldable pub increment_node_jobs : Moment F → String → ℤ → StoreState F → StoreState F
  increment_node_jobs m node_id delta s = elim (get s.nodes node_id) [
    | none ↦ s
    | some node ↦
        let jobs_running = plus_delta node.jobs_running delta in
        record s {
          nodes = put s.nodes node_id (record node {
            jobs_running = jobs_running;
            status = busy_status node jobs_running;
            last_heartbeat = m.now;
          });
        }
  ]

  unfoldable pub adjust_node_trust : String → Float → StoreState F → StoreState F
  adjust_node_trust node_id delta s = elim (get s.nodes node_id) [
    | none ↦ s
    | some node ↦ record s {
      nodes = put s.nodes node_id (record node {
        trust_score = min_float F (lit 10 1) (max_float F (lit 0 1) (add node.trust_score delta));
      });
    }
  ]

  unfoldable pub add_model_to_node_cache : String → String → StoreState F → StoreState F
  unfolding normalize_model_cache
  add_model_to_node_cache node_id model s = elim (get s.nodes node_id) [
    | none ↦ s
    | some node ↦ if model == "" then s else record s {
      nodes =
          put s.nodes node_id
            (record node { model_cache = normalize_model_cache (node.model_cache ++ model ∷ []) });
    }
  ]
