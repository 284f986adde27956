-- ===== src/Store/Health.antt =====
-- The nodes stay healthy records: trust between 0 and 1, and no running jobs on an offline node.
pub mod Loops
pub mod Watchdog
use hyper_looms.Prelude.{
  ℕ, ◌-◌, ◌+◌, String, ◌≡◌, ◌≢◌, Bool, Option, none, some, List, [], ◌∷◌, arith, ◌==◌, string_eq,
  nat_eq, option_eq, pair_eq, subst, sym, ◌∙◌, if_ind, option_ind, refl, true, false, ltb,
  if◌then◌else◌,
}
use hyper_looms.Prelude.Int.{ℤ, pos, negsuc}
use hyper_looms.Float.{FloatOps, FloatLaws, min_float, max_float}
use hyper_looms.Float.Clamp.{le-max_left, min-le_left, le-min}
use hyper_looms.Dict.{Dict, get, put, get-put}
use hyper_looms.Result.{Result}
use hyper_looms.Models.Node.{
  Node, NodeStatus, node_status_eq, NodeHeartbeatRequest, NodeRegisterRequest,
}
use hyper_looms.Store.State.{Moment, StoreConfig, StoreState}
use hyper_looms.Store.Nodes.{
  register_node, new_node, renewed_node, heartbeat, beat_node, increment_node_jobs, busy_status,
  plus_delta, adjust_node_trust, add_model_to_node_cache, normalize_model_cache,
}

module _ (F : FloatOps) (laws : FloatLaws F) where
  open F use {Float, lit, le, add}

  pub record NodeIsValid (n : Node F) : Type 0 where
    pub trust_low : le (lit 0 1) n.trust_score ≡ true
    pub trust_high : le n.trust_score (lit 10 1) ≡ true
    pub idle : n.status ≡ NodeStatus.offline → n.jobs_running ≡ 0

  -- Every stored node is valid.
  pub record NodesAreValid (nodes : Dict String (Node F)) : Type 0 where
    pub at : (i : String) (n : Node F) → get nodes i ≡ some n → NodeIsValid n

  abbrev pub Sound : StoreState F → Type 0
  Sound s = NodesAreValid s.nodes

  pub put-NodesAreValid :
      (nodes : Dict String (Node F)) (i : String) (n : Node F)
      → NodesAreValid nodes
      → NodeIsValid n
      → NodesAreValid (put nodes i n)
  put-NodesAreValid nodes i n v h = record {
    at = λ j k e.
        let moved : (if i == j then some n else get nodes j) ≡ some k =
          sym (get-put nodes i j n) ∙ e in
        if_ind (λ o. o ≡ some k → NodeIsValid k) (i == j)
          (λ _ (found : some n ≡ some k). subst NodeIsValid (ground arith) h)
          (λ _ found. v.at j k found) moved;
  }

  new_node-NodeIsValid :
      (m : Moment F) (i : String) (payload : NodeRegisterRequest F)
      → NodeIsValid (new_node F m i payload)
  new_node-NodeIsValid m i payload = record {
    trust_low = laws.lit_le 0 1 9 1 (omega arith);
    trust_high = laws.lit_le 9 1 10 1 (omega arith);
    idle = λ _. refl;
  }

  pub register_node-Sound :
      (m : Moment F) (payload : NodeRegisterRequest F) (s : StoreState F)
      → Sound s
      → Sound (register_node F m payload s).1
  unfolding register_node
  register_node-Sound m payload s v = put-NodesAreValid s.nodes _ _ v (
      option_ind NodeIsValid (get s.nodes _) (λ _. new_node-NodeIsValid m _ payload)
        (λ existing found. record {
          trust_low = (v.at _ existing found).trust_low;
          trust_high = (v.at _ existing found).trust_high;
          idle = λ _. refl;
        }))

  -- A heartbeat, whatever it reports, keeps the nodes valid: trust between 0 and 1, and no running
  -- jobs on an offline node.
  pub heartbeat-Sound :
      (m : Moment F) (i : String) (payload : NodeHeartbeatRequest F) (s : StoreState F)
      → Sound s
      → Sound (heartbeat F m i payload s).1
  unfolding heartbeat
  heartbeat-Sound m i payload s v =
      option_ind (λ (t : Result (Node F) × StoreState F). Sound t.1) (get s.nodes i) (λ _. v)
        (λ node found.
          let old = v.at i node found in
          put-NodesAreValid s.nodes i (beat_node F m payload node) v (record {
            trust_low = old.trust_low;
            trust_high = old.trust_high;
            idle = λ off. let idle = old.idle in ground arith;
          }))

  -- An adjustment of trust, by any amount, keeps the nodes valid: trust between 0 and 1, and no
  -- running jobs on an offline node.
  pub adjust_node_trust-Sound :
      (i : String) (delta : Float) (s : StoreState F)
      → Sound s
      → Sound (adjust_node_trust F i delta s)
  unfolding adjust_node_trust
  adjust_node_trust-Sound i delta s v =
      option_ind Sound (get s.nodes i) (λ _. v)
        (λ node found. put-NodesAreValid s.nodes i _ v (record {
          trust_low =
              le-min F laws (lit 10 1) _ (lit 0 1) (laws.lit_le 0 1 10 1 (omega arith))
                (le-max_left F laws (lit 0 1) (add node.trust_score delta));
          trust_high = min-le_left F laws (lit 10 1) _;
          idle = (v.at i node found).idle;
        }))

  pub add_model_to_node_cache-Sound :
      (i model : String) (s : StoreState F) → Sound s → Sound (add_model_to_node_cache F i model s)
  unfolding add_model_to_node_cache
  add_model_to_node_cache-Sound i model s v =
      option_ind Sound (get s.nodes i) (λ _. v)
        (λ node found.
          if_ind Sound (model == "") (λ _. v)
            (λ _.
              let old = v.at i node found in
              put-NodesAreValid s.nodes i _ v (record {
                trust_low = old.trust_low;
                trust_high = old.trust_high;
                idle = old.idle;
              })))

  idle_after :
      (delta : ℤ) (node : Node F)
      → (node.status ≡ NodeStatus.offline → node.jobs_running ≡ 0)
      → ((d : ℕ) → delta ≡ pos d → node.status ≢ NodeStatus.offline)
      → busy_status F node (plus_delta node.jobs_running delta) ≡ NodeStatus.offline
      → plus_delta node.jobs_running delta ≡ 0
  idle_after (pos d) node idle online off = let here = online d refl in absurd (ground arith)
  idle_after (negsuc d) node idle online off = ground arith

  -- A job more on a node that is not offline, or a job less on any node, keeps the nodes valid.
  pub increment_node_jobs-Sound :
      (m : Moment F) (i : String) (delta : ℤ) (s : StoreState F)
      → ((n : Node F) (d : ℕ)
          → get s.nodes i ≡ some n
          → delta ≡ pos d
          → n.status ≢ NodeStatus.offline)
      → Sound s
      → Sound (increment_node_jobs F m i delta s)
  unfolding increment_node_jobs
  increment_node_jobs-Sound m i delta s online v =
      option_ind Sound (get s.nodes i) (λ _. v)
        (λ node found.
          let old = v.at i node found in
          put-NodesAreValid s.nodes i _ v (record {
            trust_low = old.trust_low;
            trust_high = old.trust_high;
            idle = idle_after delta node old.idle (λ d same. online node d found same);
          }))
