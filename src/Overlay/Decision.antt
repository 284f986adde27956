-- ===== src/Overlay/Decision.antt =====
-- Proposals are kept one to a proposer, and a decision assigns distinct nodes within its target.
use hyper_looms.Prelude.{
  ℕ, ◌+◌, ◌*◌, ◌≤◌, ◌<◌, String, ◌≡◌, ◌↔◌, refl, ◌≢◌, Bool, not, List, [], ◌∷◌, ◌++◌, arith, ◌==◌,
  string_eq, leb, Bool-cases, inl, inr, beq_refl, filter, contains, length, IsNodup, IsNodup-snoc,
  length-append, filter-append, filter-filter_self, filter-filter_not, max, min, if_ind,
  length-take, length-sort_by, map, take, sort_by, ap, ◌∙◌,
}
use mathlib.Core.List.{append-nil}
use hyper_looms.Float.{FloatOps}
use hyper_looms.Dict.{get-put_self, get-put_ne, values}
use hyper_looms.Credits.{Call}
use hyper_looms.Models.P2p.{PeerNode, PeerStatus, peer_status_eq, JobAssignmentProposal}
use hyper_looms.Overlay.{P2POverlayService, proposals_of, other_proposal, propose_job_assignment}
use hyper_looms.Overlay.Decide.{
  merge_ids, decide_among, decide_job_assignment, select_peers, rendezvous_score, tally,
  most_common,
}

module _ (F : FloatOps) where
  -- the proposals of one proposer
  abbrev pub by_proposer : String → JobAssignmentProposal F → Bool
  by_proposer proposer item = item.proposer_peer_id == proposer

  -- After a proposal, the job has that proposal as the only one of its proposer; the proposals of
  -- other proposers, and those for other jobs, are as before.
  pub propose_replaces :
      (call : Call) (job_id other : String) (payload : JobAssignmentProposal F)
      (s : P2POverlayService F)
      → job_id ≢ other
      → let (proposal, s') = propose_job_assignment F call job_id payload s in
        (filter (by_proposer payload.proposer_peer_id) (proposals_of F s' job_id) ≡ proposal ∷ [])
        × (filter (other_proposal F payload.proposer_peer_id) (proposals_of F s' job_id)
            ≡ filter (other_proposal F payload.proposer_peer_id) (proposals_of F s job_id))
        × (proposals_of F s' other ≡ proposals_of F s other)
  unfolding propose_job_assignment
  propose_replaces call job_id other payload s ne =
      let proposer = payload.proposer_peer_id in
      let mine = by_proposer proposer in
      let others = other_proposal F proposer in
      let before = proposals_of F s job_id in
      (
        rw
            (
              get-put_self,
              filter-append mine (filter others before),
              filter-filter_not others mine (λ p h. ground arith) before,
              beq_refl proposer,
            )
            refl,
        rw
            (
              get-put_self,
              filter-append others (filter others before),
              filter-filter_self others before,
              beq_refl proposer,
            )
            (append-nil (filter others before)),
        rw (get-put_ne _ _ _ _ ne) refl,
      )

merge_ids_bounds :
    (target : ℕ) (merged items : List String)
    → length merged < target
    → IsNodup merged
    → (length (merge_ids target merged items) ≤ target)
      × IsNodup (merge_ids target merged items)
      × (length merged ≤ length (merge_ids target merged items))
unfolding merge_ids
merge_ids_bounds target merged [] h d = (omega arith, d, omega arith)
merge_ids_bounds target merged (item ∷ items) h d = elim (Bool-cases (contains item merged)) [
  | inl old ↦ rw old (ground (arith, merge_ids_bounds target merged items h d))
  | inr new ↦
      let longer : length (merged ++ item ∷ []) ≡ length merged + 1 =
        length-append merged (item ∷ []) in
      let distinct = IsNodup-snoc merged item d new in
      rw new (ground (arith, longer, distinct, merge_ids_bounds target (merged ++ item ∷ []) items))
]

merge_ids_some :
    (target : ℕ) (item : String) (items : List String)
    → 1 ≤ length (merge_ids target [] (item ∷ items))
unfolding merge_ids
merge_ids_some target item items =
    if_ind (λ (l : List String). 1 ≤ length l) (leb target 1) (λ _. omega arith)
      (λ more. (merge_ids_bounds target (item ∷ []) items (ground arith) (refl, tt)).2)

merge_ids_append_some :
    (target : ℕ) (xs : List String) (item : String) (items : List String)
    → 1 ≤ length (merge_ids target [] (xs ++ item ∷ items))
merge_ids_append_some target [] item items = merge_ids_some target item items
merge_ids_append_some target (x ∷ xs) item items = merge_ids_some target x (xs ++ item ∷ items)

module _ (F : FloatOps) (digest : String → ℕ) where
  abbrev pub is_online : PeerNode F → Bool
  is_online p = not (p.status == PeerStatus.offline)

  -- A decision assigns distinct nodes, at most `replicas` of them, which is cut to the range 1 to 8.
  pub decide_bounds :
      (job_id : String) (replicas : ℕ) (s : P2POverlayService F)
      → let ids = (decide_job_assignment F digest job_id replicas s).assigned_node_ids in
        (length ids ≤ max 1 (min 8 replicas)) × IsNodup ids
  unfolding decide_job_assignment
  decide_bounds job_id replicas s = go (select_peers F digest job_id (max 1 (min 8 replicas)) s)
    where
      go :
          (selection : List (PeerNode F))
          → let ids =
              (decide_among F job_id (max 1 (min 8 replicas)) selection s).assigned_node_ids in
            (length ids ≤ max 1 (min 8 replicas)) × IsNodup ids
      go [] = (omega arith, tt)
      go (p ∷ ps) =
          let (bound, distinct, _) =
            merge_ids_bounds (max 1 (min 8 replicas)) [] _ (omega arith) tt in
          (bound, distinct)

  -- A decision assigns a node unless every peer is offline, and then none.
  pub decide_assigns_iff :
      (job_id : String) (replicas : ℕ) (s : P2POverlayService F)
      → (length (decide_job_assignment F digest job_id replicas s).assigned_node_ids ≡ 0)
        ↔ (length (filter is_online (values s.peers)) ≡ 0)
  unfolding decide_job_assignment select_peers
  decide_assigns_iff job_id replicas s =
      let online = filter is_online (values s.peers) in
      let target = max 1 (min 8 replicas) in
      let less : PeerNode F → PeerNode F → Bool =
        λ a b. F.lt (rendezvous_score F digest job_id b) (rendezvous_score F digest job_id a) in
      let size : length (take target (sort_by less online)) ≡ min target (length online) =
        length-take target (sort_by less online) ∙ ap (min target) (length-sort_by less online) in
      go (take target (sort_by less online)) online size
    where
      go :
          (selection online : List (PeerNode F))
          → length selection ≡ min (max 1 (min 8 replicas)) (length online)
          → (length (decide_among F job_id (max 1 (min 8 replicas)) selection s).assigned_node_ids
              ≡ 0)
            ↔ (length online ≡ 0)
      go [] online e = (λ _. omega arith, λ _. refl)
      go (p ∷ ps) online e = (
        λ none_assigned. absurd (
            omega (
              arith,
              merge_ids_append_some (max 1 (min 8 replicas))
                  (most_common (max (max 1 (min 8 replicas) * 2) (max 1 (min 8 replicas)))
                    (tally F job_id (p ∷ ps) s))
                  p.id (map (λ (q : PeerNode F). q.id) ps),
            )),
        λ none_online. absurd (omega arith),
      )
