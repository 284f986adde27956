-- ===== src/Models/Node.antt =====
-- backend/app/models/node.py
use hyper_looms.Prelude.{ℕ, String, ◌≡◌, ◌↔◌, Bool, true, false, Option, List, arith, Eq}
use hyper_looms.Float.{FloatOps, max_float}

pub data NodeStatus : Type 0 where
  healthy busy offline : NodeStatus

abbrev pub node_status_beq : NodeStatus → NodeStatus → Bool
node_status_beq healthy healthy = true
node_status_beq busy busy = true
node_status_beq offline offline = true
node_status_beq _ _ = false

pub node_status_beq_iff : (a b : NodeStatus) → (node_status_beq a b ≡ true) ↔ (a ≡ b)
node_status_beq_iff a b = ground arith

instance abbrev pub node_status_eq : Eq NodeStatus
node_status_eq = record { beq = node_status_beq; beq_iff = node_status_beq_iff }

module _ (F : FloatOps) where
  open F use {Float, lit, sub}

  pub record Node : Type 0 where
    pub id : String
    pub gpu : String
    pub vram_total_gb : Float
    pub vram_used_gb : Float
    pub status : NodeStatus
    pub trust_score : Float
    pub jobs_running : ℕ
    pub latency_ms_avg : Float
    pub region : String
    pub model_cache : List String
    pub last_heartbeat : ℕ

  abbrev pub free_vram_gb : Node → Float
  free_vram_gb n = max_float F (lit 0 0) (sub n.vram_total_gb n.vram_used_gb)

  pub record NodeRegisterRequest : Type 0 where
    pub id : Option String
    pub gpu : String
    pub vram_total_gb : Float
    pub region : String
    pub model_cache : List String

  pub record NodeHeartbeatRequest : Type 0 where
    pub status : Option NodeStatus
    pub vram_used_gb : Option Float
    pub latency_ms : Option Float
    pub jobs_running : Option ℕ
    pub model_cache : Option (List String)
