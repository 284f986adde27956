-- ===== src/Models/P2p.antt =====
-- backend/app/models/p2p.py
use hyper_looms.Prelude.{Bool, ℕ, String, ◌≡◌, ◌↔◌, Bool, true, false, Option, List, arith, Eq}
use hyper_looms.Float.{FloatOps}

pub data PeerStatus : Type 0 where
  online suspect offline : PeerStatus

abbrev pub peer_status_beq : PeerStatus → PeerStatus → Bool
peer_status_beq online online = true
peer_status_beq suspect suspect = true
peer_status_beq offline offline = true
peer_status_beq _ _ = false

pub peer_status_beq_iff : (a b : PeerStatus) → (peer_status_beq a b ≡ true) ↔ (a ≡ b)
peer_status_beq_iff a b = ground arith

instance abbrev pub peer_status_eq : Eq PeerStatus
peer_status_eq = record { beq = peer_status_beq; beq_iff = peer_status_beq_iff }

pub data PeerRole : Type 0 where
  worker validator router : PeerRole

module _ (F : FloatOps) where
  open F use {Float}

  -- `has_zone` tells whether the `datetime` of `last_seen` carries its zone: a sender may leave it out.
  -- `metadata` is an association list of the texts of its values.
  pub record PeerNode : Type 0 where
    pub id : String
    pub endpoint : String
    pub region : String
    pub role : PeerRole
    pub status : PeerStatus
    pub trust_score : Float
    pub load : Float
    pub model_cache : List String
    pub metadata : List (String × String)
    pub last_seen : ℕ
    pub has_zone : Bool
    pub created_at : ℕ

  pub record PeerRegisterRequest : Type 0 where
    pub id : Option String
    pub endpoint : String
    pub region : String
    pub role : PeerRole
    pub trust_score : Float
    pub load : Float
    pub model_cache : List String
    pub metadata : List (String × String)

  pub record PeerHeartbeatRequest : Type 0 where
    pub status : Option PeerStatus
    pub trust_score : Option Float
    pub load : Option Float
    pub model_cache : Option (List String)

  pub record GossipMembershipEntry : Type 0 where
    pub peer_id : String
    pub status : PeerStatus
    pub trust_score : Float
    pub load : Float
    pub last_seen : ℕ
    pub has_zone : Bool
    pub region : String

  pub record GossipEnvelope : Type 0 where
    pub source_peer_id : String
    pub seq : ℕ
    pub sent_at : ℕ
    pub membership : List GossipMembershipEntry

  pub record JobAssignmentProposal : Type 0 where
    pub job_id : String
    pub proposer_peer_id : String
    pub candidate_node_ids : List String
    pub weight : Float
    pub reason : String
    pub created_at : ℕ

  -- `method` and `created_at` are the defaults of the model, and nothing reads them.
  pub record JobConsensusDecision : Type 0 where
    pub job_id : String
    pub assigned_node_ids : List String
    pub decided_by : List String
    pub quorum_size : ℕ
    pub confidence : Float
