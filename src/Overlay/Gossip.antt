-- ===== src/Overlay/Gossip.antt =====
-- Gossip is applied once for each sequence number, and never takes a peer back in time.
use hyper_looms.Prelude.{
  not, refl, ◌∙◌, ℕ, ◌≤◌, String, ◌≡◌, some, List, [], ◌∷◌, arith, ◌==◌, string_eq, leb, Bool-cases,
  inl, inr, if_ind, option_ind,
}
use hyper_looms.Float.{FloatOps}
use hyper_looms.Dict.{Dict, get, put, has, get-put, get-put_self}
use hyper_looms.Result.{Result, ok, err}
use hyper_looms.Credits.{Call}
use hyper_looms.Models.P2p.{PeerNode, GossipMembershipEntry, GossipEnvelope}
use hyper_looms.Overlay.{
  is_comparable, P2POverlayService, merge_entry, merge_entries, current_seq, valid_region,
  gossiped_peer, gossip_update, ingest_gossip,
}

module _ (F : FloatOps) where
  abbrev Peers : Type 0
  Peers = Dict String (PeerNode F)

  -- An envelope whose sequence number is not above the recorded one of its source updates no peer,
  -- and leaves every recorded sequence number as it reads.
  pub ingest_gossip_stale :
      (call : Call) (payload : GossipEnvelope F) (s : P2POverlayService F) (source : String)
      → payload.seq ≤ current_seq F s payload.source_peer_id
      → ((ingest_gossip F call payload s).0 ≡ ok 0)
        × ((ingest_gossip F call payload s).1.peers ≡ s.peers)
        × (current_seq F (ingest_gossip F call payload s).1 source ≡ current_seq F s source)
  unfolding ingest_gossip
  ingest_gossip_stale call payload s source h = ground (
    arith,
    get-put s.gossip_seq payload.source_peer_id source 0,
    string_eq.beq_iff payload.source_peer_id source,
  )

  -- The recorded sequence number of every source never falls.
  pub current_seq-le-ingest_gossip :
      (call : Call) (payload : GossipEnvelope F) (s : P2POverlayService F) (source : String)
      → current_seq F s source ≤ current_seq F (ingest_gossip F call payload s).1 source
  unfolding ingest_gossip
  current_seq-le-ingest_gossip call payload s source = ground (
    arith,
    get-put s.gossip_seq payload.source_peer_id source 0,
    get-put s.gossip_seq payload.source_peer_id source payload.seq,
    string_eq.beq_iff payload.source_peer_id source,
  )

  -- After any envelope, also one that failed midway, the recorded number of its source is at least
  -- the envelope's.
  seq-le-current_seq :
      (call : Call) (payload : GossipEnvelope F) (s : P2POverlayService F)
      → payload.seq ≤ current_seq F (ingest_gossip F call payload s).1 payload.source_peer_id
  unfolding ingest_gossip
  seq-le-current_seq call payload s = ground (
    arith,
    get-put_self s.gossip_seq payload.source_peer_id 0,
    get-put_self s.gossip_seq payload.source_peer_id payload.seq,
  )

  -- An envelope that arrives again, also one that failed midway, updates no peer the second time.
  pub ingest_gossip_again :
      (call later : Call) (payload : GossipEnvelope F) (s : P2POverlayService F)
      → ((ingest_gossip F later payload (ingest_gossip F call payload s).1).0 ≡ ok 0)
        × ((ingest_gossip F later payload (ingest_gossip F call payload s).1).1.peers
            ≡ (ingest_gossip F call payload s).1.peers)
  ingest_gossip_again call later payload s =
      let (r, p, _) =
        ingest_gossip_stale later payload (ingest_gossip F call payload s).1 payload.source_peer_id
          (seq-le-current_seq call payload s) in
      (r, p)

  -- Every peer of the first table is in the second, seen no earlier by a time of the same kind, with a
  -- zone or without.
  pub record SeenLater (before after : Dict String (PeerNode F)) : Type 0 where
    pub at :
        (i : String) (p : PeerNode F)
        → get before i ≡ some p
        → (q : PeerNode F) × (get after i ≡ some q)
          × (p.last_seen ≤ q.last_seen)
          × (p.has_zone ≡ q.has_zone)

  SeenLater-put :
      (peers : Peers) (i : String) (q : PeerNode F)
      → ((p : PeerNode F)
          → get peers i ≡ some p
          → (p.last_seen ≤ q.last_seen) × (p.has_zone ≡ q.has_zone))
      → SeenLater peers (put peers i q)
  SeenLater-put peers i q later = record {
    at = λ j p e. elim (Bool-cases (i == j)) [
      | inl same ↦ (
        q,
        ground (arith, get-put peers i j q),
        ground (arith, string_eq.beq_iff i j, later p),
        ground (arith, string_eq.beq_iff i j, later p),
      )
      | inr other ↦ (p, ground (arith, get-put peers i j q), omega arith, refl)
    ];
  }

  SeenLater-refl : (peers : Peers) → SeenLater peers peers
  SeenLater-refl peers = record { at = λ i p e. (p, e, omega arith, refl) }

  SeenLater-trans : (a b c : Peers) → SeenLater a b → SeenLater b c → SeenLater a c
  SeenLater-trans a b c f g = record {
    at = λ i p e.
        let (q, eq, h, z) = f.at i p e in
        let (r, er, k, y) = g.at i q eq in (r, er, omega arith, z ∙ y);
  }

  merge_entry-SeenLater :
      (call : Call) (item : GossipMembershipEntry F) (peers : Peers) (updated : ℕ)
      → SeenLater peers (merge_entry F call item (peers, updated)).1
  unfolding merge_entry
  merge_entry-SeenLater call item peers updated =
      option_ind (λ (r : Result ℕ × Peers). SeenLater peers r.1) (get peers item.peer_id)
        (λ missing.
          if_ind (λ (r : Result ℕ × Peers). SeenLater peers r.1) (valid_region item.region)
            (λ _. SeenLater-put peers item.peer_id (gossiped_peer F call item) (λ p e. cc))
            (λ _. SeenLater-refl peers))
        (λ peer found.
          if_ind (λ (r : Result ℕ × Peers). SeenLater peers r.1) (not (is_comparable F peer item))
            (λ _. SeenLater-refl peers)
            (λ comparable.
              if_ind (λ (r : Result ℕ × Peers). SeenLater peers r.1)
                (leb peer.last_seen item.last_seen)
                (λ newer.
                  SeenLater-put peers item.peer_id (gossip_update F item peer)
                    (λ p e. (ground arith, ground arith)))
                (λ _. SeenLater-refl peers)))

  merge_entries-SeenLater :
      (call : Call) (items : List (GossipMembershipEntry F)) (peers : Peers) (updated : ℕ)
      → SeenLater peers (merge_entries F call items (peers, updated)).1
  unfolding merge_entries
  merge_entries-SeenLater call [] peers updated = SeenLater-refl peers
  merge_entries-SeenLater call (item ∷ items) peers updated =
      after_one (merge_entry F call item (peers, updated))
        (merge_entry-SeenLater call item peers updated) (merge_entries-SeenLater call items)
    where
      after_one :
          (r : Result ℕ × Peers)
          → SeenLater peers r.1
          → ((ps : Peers) (n : ℕ) → SeenLater ps (merge_entries F call items (ps, n)).1)
          → SeenLater peers
              (let t : Result ℕ × Peers = elim r.0 [
                | ok n ↦ merge_entries F call items (r.1, n)
                | err e ↦ (err e, r.1)
              ] in
                t).1
      after_one (ok n, ps) h ih = SeenLater-trans peers ps _ h (ih ps n)
      after_one (err e, ps) h ih = h

  -- Whatever an envelope says, and whether or not it fails midway, every known peer stays known and
  -- its last sighting is no earlier than before, and a time with a zone exactly when it was one.
  pub ingest_gossip-SeenLater :
      (call : Call) (payload : GossipEnvelope F) (s : P2POverlayService F)
      → SeenLater s.peers (ingest_gossip F call payload s).1.peers
  unfolding ingest_gossip
  ingest_gossip-SeenLater call payload s =
      if_ind (λ (r : Result ℕ × P2POverlayService F). SeenLater s.peers r.1.peers)
        (leb payload.seq (current_seq F s payload.source_peer_id))
        (λ _.
          if_ind (λ (t : P2POverlayService F). SeenLater s.peers t.peers)
            (has s.gossip_seq payload.source_peer_id) (λ _. SeenLater-refl s.peers)
            (λ _. SeenLater-refl s.peers))
        (λ _. merge_entries-SeenLater call payload.membership s.peers 0)
