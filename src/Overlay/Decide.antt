-- ===== src/Overlay/Decide.antt =====
-- `decide_job_assignment` of backend/app/services/p2p_overlay.py. It writes nothing.
mod Votes
unfoldable pub use Votes.{vote, vote_all, merge_ids, top_vote, merged_votes, most_common}
use hyper_looms.Prelude.{
  ℕ, ◌*◌, String, Bool, true, false, not, Option, none, some, List, [], ◌∷◌, ◌++◌, map, ◌==◌,
  string_eq, if◌then◌else◌, or_else, take, filter, contains, length, sort_by, max, min,
}
use hyper_looms.Float.{FloatOps, max_float, min_float}
use hyper_looms.Dict.{Dict, values}
use hyper_looms.Text.{str_less}
use hyper_looms.Result.{concat}
use hyper_looms.Models.P2p.{
  PeerStatus, peer_status_eq, PeerNode, JobAssignmentProposal, JobConsensusDecision,
}
use hyper_looms.Overlay.{P2POverlayService, proposals_of}

module _ (F : FloatOps) where
  open F use {Float, lit, sub, mul, div, lt, round, round_nat}

  abbrev pub proposal_votes : JobAssignmentProposal F → ℕ
  proposal_votes p = max 1 (round_nat (mul p.weight (lit 2 0)))

  unfoldable pub count_proposals : Dict String ℕ → List (JobAssignmentProposal F) → Dict String ℕ
  unfolding vote_all
  count_proposals votes [] = votes
  count_proposals votes (p ∷ ps) =
      count_proposals (vote_all votes p.candidate_node_ids (proposal_votes p)) ps

  -- the set of proposers, each once
  unfoldable pub proposer_set : List (JobAssignmentProposal F) → List String
  proposer_set [] = []
  proposer_set (p ∷ ps) =
      let rest = proposer_set ps in
      if contains p.proposer_peer_id rest then rest else p.proposer_peer_id ∷ rest

  unfoldable pub decision_confidence : Dict String ℕ → List String → Float
  unfolding top_vote merged_votes
  decision_confidence votes [] = lit 0 1
  decision_confidence votes (m ∷ ms) =
      let merged : List String = m ∷ ms in
      min_float F (lit 10 1) (
        max_float F (lit 2 1) (
          div (lit (merged_votes votes merged) 0)
            (mul (lit (top_vote votes * length merged) 0) (lit 16 1))))

  -- the votes of the proposals, and two more for each selected peer
  unfoldable pub tally : String → List (PeerNode F) → P2POverlayService F → Dict String ℕ
  unfolding vote_all count_proposals
  tally job_id selection s =
      vote_all (count_proposals [] (proposals_of F s job_id))
        (map (λ (p : PeerNode F). p.id) selection) 2

  -- The decision, once the peers are ranked and cut to `target`.
  unfoldable pub decide_among :
      String → ℕ → List (PeerNode F) → P2POverlayService F → JobConsensusDecision F
  unfolding tally most_common merge_ids decision_confidence proposer_set
  decide_among job_id target [] s = record {
    job_id = job_id;
    assigned_node_ids = [];
    decided_by = [];
    quorum_size = 0;
    confidence = lit 0 1;
  }
  decide_among job_id target (p ∷ ps) s =
      let selection : List (PeerNode F) = p ∷ ps in
      let votes = tally job_id selection s in
      let ordered = most_common (max (target * 2) target) votes in
      let fallback = map (λ (q : PeerNode F). q.id) selection in
      let merged = merge_ids target [] (ordered ++ fallback) in
      let proposers = proposer_set (proposals_of F s job_id) in
      record {
        job_id = job_id;
        assigned_node_ids = merged;
        decided_by = take 20 (sort_by str_less proposers);
        quorum_size = length proposers;
        confidence = round (decision_confidence votes merged) 4;
      }

  -- `digest s` is int(sha256(s).hexdigest()[:16], 16).
  module _ (digest : String → ℕ) where
    unfoldable pub rendezvous_score : String → PeerNode F → Float
    rendezvous_score job_id peer =
        let rnd =
          div (lit (digest (concat (job_id ∷ ":" ∷ peer.id ∷ []))) 0)
            (lit 18446744073709551615 0) in
        let trust = max_float F (lit 5 2) peer.trust_score in
        let load_penalty = max_float F (lit 1 1) (sub (lit 10 1) (mul peer.load (lit 65 2))) in
        mul (mul rnd trust) load_penalty

    -- the peers that are not offline, best score first, and the first `target` of them
    unfoldable pub select_peers : String → ℕ → P2POverlayService F → List (PeerNode F)
    unfolding rendezvous_score
    select_peers job_id target s = take target (
        sort_by (λ a b. lt (rendezvous_score job_id b) (rendezvous_score job_id a))
          (filter (λ (p : PeerNode F). not (p.status == PeerStatus.offline)) (values s.peers)))

    -- `replicas` below 1 counts as 1, so a natural number stands for it.
    unfoldable pub decide_job_assignment : String → ℕ → P2POverlayService F → JobConsensusDecision F
    unfolding select_peers decide_among
    decide_job_assignment job_id replicas s =
        let target = max 1 (min 8 replicas) in
        decide_among job_id target (select_peers job_id target s) s
