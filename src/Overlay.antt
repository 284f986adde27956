-- ===== src/Overlay.antt =====
-- backend/app/services/p2p_overlay.py: the peers, the gossip and the proposals of
-- `P2POverlayService`. Each method runs under the one lock, so it is one step.
pub mod Gossip
pub mod Decide
pub mod Decision
pub mod Merging
mod Examples
use Prim.Native.Nat.{Ordering}
use Prim.Native.String.{count, compare}
use hyper_looms.Prelude.{
  not, Bool, true, ℕ, suc, ◌+◌, ◌*◌, String, Bool, ◌&&◌, true, false, not, Option, none, some, List,
  [], ◌∷◌, ◌++◌, map, ◌==◌, string_eq, ltb, leb, if◌then◌else◌, or_else, take, filter, contains,
  length, sort_by, max, min,
}
use hyper_looms.Float.{FloatOps, max_float, min_float}
use hyper_looms.Dict.{Dict, get, has, put, values}
use hyper_looms.Result.{Result, ok, err, value_error, type_error, key_error, concat}
use hyper_looms.Text.{str_less}
use hyper_looms.Credits.{Call}
use hyper_looms.Models.P2p.{
  PeerStatus, peer_status_eq, PeerRole, PeerNode, PeerRegisterRequest, PeerHeartbeatRequest,
  GossipMembershipEntry, GossipEnvelope, JobAssignmentProposal, JobConsensusDecision,
}

-- The bounds that `PeerNode` sets on `region`. Its other bounds are those of the requests.
abbrev pub valid_region : String → Bool
valid_region region = leb 2 (count region) && leb (count region) 64

module _ (F : FloatOps) where
  open F use {Float, lit, add, sub, mul, div, lt, le, round, round_nat}

  pub record P2POverlayService : Type 0 where
    pub peers : Dict String (PeerNode F)
    pub gossip_seq : Dict String ℕ
    pub proposals : Dict String (List (JobAssignmentProposal F))

  -- `P2POverlayService.__init__`
  abbrev pub new_overlay : P2POverlayService
  new_overlay = record { peers = []; gossip_seq = []; proposals = [] }

  -- the fields that a registration sets, on a new peer and on a known one
  abbrev registered : Call → String → PeerRegisterRequest F → ℕ → PeerNode F
  registered call peer_id payload created = record {
    id = peer_id;
    endpoint = payload.endpoint;
    region = payload.region;
    role = payload.role;
    trust_score = payload.trust_score;
    load = payload.load;
    model_cache = payload.model_cache;
    metadata = payload.metadata;
    status = PeerStatus.online;
    last_seen = call.now;
    has_zone = true;
    created_at = created;
  }

  abbrev pub peer_id_of : Call → PeerRegisterRequest F → String
  peer_id_of call payload = elim payload.id [
    | none ↦ concat ("peer-" ∷ call.uuid ∷ [])
    | some i ↦ if i == "" then concat ("peer-" ∷ call.uuid ∷ []) else i
  ]

  pub register_peer :
      Call → PeerRegisterRequest F → P2POverlayService → PeerNode F × P2POverlayService
  register_peer call payload s =
      let peer_id = peer_id_of call payload in
      let peer : PeerNode F = elim (get s.peers peer_id) [
        | some existing ↦ registered call existing.id payload existing.created_at
        | none ↦ registered call peer_id payload call.now
      ] in
      (peer, record s { peers = put s.peers peer_id peer })

  abbrev heartbeat_update : Call → PeerHeartbeatRequest F → PeerNode F → PeerNode F
  heartbeat_update call payload peer = record peer {
    status = or_else payload.status peer.status;
    trust_score = or_else payload.trust_score peer.trust_score;
    load = or_else payload.load peer.load;
    model_cache = or_else payload.model_cache peer.model_cache;
    last_seen = call.now;
    has_zone = true;
  }

  -- `heartbeat` builds the peer anew, which checks its region again.
  pub heartbeat :
      Call
      → String
      → PeerHeartbeatRequest F
      → P2POverlayService
      → Result (PeerNode F) × P2POverlayService
  heartbeat call peer_id payload s = elim (get s.peers peer_id) [
    | none ↦ (err (key_error (concat ("peer_not_found: " ∷ peer_id ∷ []))), s)
    | some peer ↦
        let next_peer = heartbeat_update call payload peer in
        if valid_region next_peer.region
        then (ok next_peer, record s { peers = put s.peers peer_id next_peer })
        else (err (value_error "region"), s)
  ]

  pub list_peers : P2POverlayService → List (PeerNode F)
  list_peers s = sort_by (λ a b. str_less a.id b.id) (values s.peers)

  -- a peer that is first heard of by gossip: the defaults of the model for what is not gossiped
  abbrev gossiped_peer : Call → GossipMembershipEntry F → PeerNode F
  gossiped_peer call item = record {
    id = item.peer_id;
    endpoint = "";
    region = item.region;
    role = PeerRole.worker;
    status = item.status;
    trust_score = item.trust_score;
    load = item.load;
    model_cache = [];
    metadata = [];
    last_seen = item.last_seen;
    has_zone = item.has_zone;
    created_at = call.now;
  }

  abbrev gossip_update : GossipMembershipEntry F → PeerNode F → PeerNode F
  gossip_update item peer = record peer {
    status = item.status;
    trust_score = item.trust_score;
    load = item.load;
    region = item.region;
    last_seen = item.last_seen;
    has_zone = item.has_zone;
  }

  -- Python compares two times with their zone or two without; else it raises a `TypeError`.
  abbrev pub is_comparable : PeerNode F → GossipMembershipEntry F → Bool
  is_comparable peer item = if peer.has_zone then item.has_zone else not item.has_zone

  -- The body of the loop over `membership`: the peers after one entry and the count of updates, or
  -- what building the peer or comparing the times raises.
  pub merge_entry :
      Call
      → GossipMembershipEntry F
      → Dict String (PeerNode F) × ℕ
      → Result ℕ × Dict String (PeerNode F)
  merge_entry call item (peers, updated) = elim (get peers item.peer_id) [
    | none ↦
        if valid_region item.region
        then (ok (updated + 1), put peers item.peer_id (gossiped_peer call item))
        else (err (value_error "region"), peers)
    | some peer ↦
        if not (is_comparable peer item)
        then (err (type_error "can't compare offset-naive and offset-aware datetimes"), peers)
        else if leb peer.last_seen item.last_seen
        then (ok (updated + 1), put peers item.peer_id (gossip_update item peer))
        else (ok updated, peers)
  ]

  -- The loop: an exception ends it, and what was merged before stays.
  pub merge_entries :
      Call
      → List (GossipMembershipEntry F)
      → Dict String (PeerNode F) × ℕ
      → Result ℕ × Dict String (PeerNode F)
  unfolding merge_entry
  merge_entries call [] (peers, updated) = (ok updated, peers)
  merge_entries call (item ∷ items) state =
      let (result, peers) = merge_entry call item state in
      elim result [
        | ok updated ↦ merge_entries call items (peers, updated)
        | err e ↦ (err e, peers)
      ]

  -- `defaultdict(int)[source]`: reading a missing key stores 0 under it.
  abbrev pub current_seq : P2POverlayService → String → ℕ
  current_seq s source = or_else (get s.gossip_seq source) 0

  abbrev touch_seq : P2POverlayService → String → P2POverlayService
  touch_seq s source =
      if has s.gossip_seq source then s else record s { gossip_seq = put s.gossip_seq source 0 }

  pub ingest_gossip : Call → GossipEnvelope F → P2POverlayService → Result ℕ × P2POverlayService
  unfolding merge_entries
  ingest_gossip call payload s =
      if leb payload.seq (current_seq s payload.source_peer_id)
      then (ok 0, touch_seq s payload.source_peer_id)
      else (let (result, peers) = merge_entries call payload.membership (s.peers, 0) in
          (
            result,
            record s {
              peers = peers;
              gossip_seq = put s.gossip_seq payload.source_peer_id payload.seq;
            },
          ))

  abbrev pub proposals_of : P2POverlayService → String → List (JobAssignmentProposal F)
  proposals_of s job_id = or_else (get s.proposals job_id) []

  abbrev pub other_proposal : String → JobAssignmentProposal F → Bool
  other_proposal proposer item = not (item.proposer_peer_id == proposer)

  pub propose_job_assignment :
      Call
      → String
      → JobAssignmentProposal F
      → P2POverlayService
      → JobAssignmentProposal F × P2POverlayService
  propose_job_assignment call job_id payload s =
      let proposal = record payload { job_id = job_id; created_at = call.now } in
      let kept = filter (other_proposal proposal.proposer_peer_id) (proposals_of s job_id) in
      (proposal, record s { proposals = put s.proposals job_id (kept ++ proposal ∷ []) })
