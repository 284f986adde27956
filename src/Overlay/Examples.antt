-- ===== src/Overlay/Examples.antt =====
-- The theorems on gossip and decisions at a concrete overlay, and tests.
use hyper_looms.Prelude.{
  true, ℕ, ◌≤◌, ◌↔◌, String, ◌≡◌, refl, [], ◌∷◌, filter, length, max, min, some, IsNodup, string_eq,
  ne_of_beq,
}
use hyper_looms.Float.Fixed.{fixed}
use hyper_looms.Dict.{values, get, put}
use hyper_looms.Result.{ok, err, value_error}
use hyper_looms.Credits.{Call}
use hyper_looms.Models.P2p.{
  PeerStatus, peer_status_eq, PeerRole, PeerRegisterRequest, GossipMembershipEntry, GossipEnvelope,
  JobAssignmentProposal,
}
use hyper_looms.Overlay.{
  P2POverlayService, new_overlay, register_peer, merge_entry, merge_entries, ingest_gossip,
  propose_job_assignment, proposals_of, other_proposal,
}
use hyper_looms.Overlay.Decide.{decide_job_assignment}
use hyper_looms.Prelude.{take, arith}
use hyper_looms.Store.Planning.{unique}
use hyper_looms.Overlay.Decide.{merge_ids}
use hyper_looms.Overlay.Merging.{merge_ids-unique}
use hyper_looms.Overlay.Gossip.{SeenLater, ingest_gossip_again, ingest_gossip-SeenLater}
use hyper_looms.Overlay.Decision.{
  by_proposer, is_online, propose_replaces, decide_bounds, decide_assigns_iff,
}

abbrev early : Call
early = record { now = 100; uuid = "u1" }

abbrev late : Call
late = record { now = 200; uuid = "u2" }

abbrev entry : String → String → ℕ → GossipMembershipEntry fixed
entry i region seen = record {
  peer_id = i;
  status = PeerStatus.online;
  trust_score = fixed.lit 8 1;
  load = fixed.lit 2 1;
  last_seen = seen;
  has_zone = true;
  region = region;
}

abbrev registration : PeerRegisterRequest fixed
registration = record {
  id = some "p1";
  endpoint = "";
  region = "eu-west";
  role = PeerRole.worker;
  trust_score = fixed.lit 9 1;
  load = fixed.lit 1 1;
  model_cache = [];
  metadata = [];
}

-- p1 has registered
abbrev overlay : P2POverlayService fixed
overlay = (register_peer fixed early registration (new_overlay fixed)).1

abbrev envelope : ℕ → GossipEnvelope fixed
envelope n = record {
  source_peer_id = "p1";
  seq = n;
  sent_at = 150;
  membership = entry "p1" "eu-west" 150 ∷ entry "p2" "x" 150 ∷ entry "p3" "us-east" 150 ∷ [];
}

abbrev proposal : JobAssignmentProposal fixed
proposal = record {
  job_id = "";
  proposer_peer_id = "p1";
  candidate_node_ids = "p1" ∷ "p2" ∷ [];
  weight = fixed.lit 10 1;
  reason = "";
  created_at = 0;
}

abbrev digest : String → ℕ
digest s = 1234567

ingest_gossip_again_example :
    ((ingest_gossip fixed late (envelope 3) (ingest_gossip fixed early (envelope 3) overlay).1).0
      ≡ ok 0)
    × ((ingest_gossip fixed late
          (envelope 3)
          (ingest_gossip fixed early (envelope 3) overlay).1).1.peers
        ≡ (ingest_gossip fixed early (envelope 3) overlay).1.peers)
ingest_gossip_again_example = ingest_gossip_again fixed early late (envelope 3) overlay

ingest_gossip-SeenLater_example :
    SeenLater fixed overlay.peers (ingest_gossip fixed late (envelope 3) overlay).1.peers
ingest_gossip-SeenLater_example = ingest_gossip-SeenLater fixed late (envelope 3) overlay

propose_replaces_example :
    let (made, s') = propose_job_assignment fixed late "j1" proposal overlay in
    (filter (by_proposer fixed "p1") (proposals_of fixed s' "j1") ≡ made ∷ [])
    × (filter (other_proposal fixed "p1") (proposals_of fixed s' "j1")
        ≡ filter (other_proposal fixed "p1") (proposals_of fixed overlay "j1"))
    × (proposals_of fixed s' "j2" ≡ proposals_of fixed overlay "j2")
propose_replaces_example =
    propose_replaces fixed late "j1" "j2" proposal overlay (ne_of_beq "j1" "j2" refl)

decide_bounds_example :
    let ids = (decide_job_assignment fixed digest "j1" 2 overlay).assigned_node_ids in
    (length ids ≤ max 1 (min 8 2)) × IsNodup ids
decide_bounds_example = decide_bounds fixed digest "j1" 2 overlay

decide_assigns_iff_example :
    (length (decide_job_assignment fixed digest "j1" 2 overlay).assigned_node_ids ≡ 0)
    ↔ (length (filter (is_online fixed digest) (values overlay.peers)) ≡ 0)
decide_assigns_iff_example = decide_assigns_iff fixed digest "j1" 2 overlay

-- the second entry has a region that the model refuses: the third is lost, the first is not
test_ingest_gossip_fails :
    (ingest_gossip fixed late (envelope 3) overlay).0 ≡ err (value_error "region")
unfolding ingest_gossip merge_entries merge_entry register_peer get put
test_ingest_gossip_fails = refl

merge_ids-unique_example :
    merge_ids 2 [] ("a" ∷ "b" ∷ "a" ∷ "c" ∷ []) ≡ take 2 (unique ("a" ∷ "b" ∷ "a" ∷ "c" ∷ []))
merge_ids-unique_example = merge_ids-unique 2 ("a" ∷ "b" ∷ "a" ∷ "c" ∷ []) (omega arith)
