-- ===== src/Store/Health/Watchdog.antt =====
-- The watchdog keeps the nodes valid.
use hyper_looms.Prelude.{
  ℕ, String, ◌≡◌, subst, Bool, some, List, [], ◌∷◌, arith, ◌==◌, string_eq, nat_eq, pair_eq, map,
  Bool-cases, inl, inr, if_ind, option_ind, refl, if◌then◌else◌, contains, length,
}
use hyper_looms.Prelude.Int.{negsuc}
use hyper_looms.Float.{FloatOps, FloatLaws}
use hyper_looms.Dict.{Dict, get}
use hyper_looms.Result.{result_ind}
use hyper_looms.Models.Node.{Node, node_status_eq}
use hyper_looms.Store.State.{Moment, StoreConfig, Assignment, StoreState}
use hyper_looms.Store.Planning.{unique}
use hyper_looms.Store.Nodes.{increment_node_jobs, adjust_node_trust}
use hyper_looms.Store.Keys.{drop_assignment}
use hyper_looms.Store.Evaluate.{evaluate_job, minus}
use hyper_looms.Store.Expire.{
  expires, offline_node, expire_nodes, expire_claim, expire_claims, stale_claims, blame_expired,
  evaluate_jobs, expire_stale_job_claims, drop_node_assignments, release_jobs, blame_offline,
  release_inflight, expire_stale_nodes,
}
use hyper_looms.Store.Health.{NodeIsValid, Sound, adjust_node_trust-Sound}
use hyper_looms.Store.Health.Loops.{SoundAfter, fewer_jobs-Sound, evaluate_job-Sound}

module _ (F : FloatOps) (laws : FloatLaws F) where
  open F use {lit}

  offline_node-NodeIsValid :
      (n : Node F) → NodeIsValid F laws n → NodeIsValid F laws (offline_node F n)
  offline_node-NodeIsValid n v = record {
    trust_low = v.trust_low;
    trust_high = v.trust_high;
    idle = λ _. refl;
  }

  -- What an expiry leaves under a name is what stood there, perhaps taken offline.
  get-expire_nodes :
      (now timeout : ℕ) (d : Dict String (Node F)) (i : String)
      → ((n : Node F) → get d i ≡ some n → NodeIsValid F laws n)
      → (n : Node F) → get (expire_nodes F now timeout d).1 i ≡ some n
      → NodeIsValid F laws n
  unfolding expire_nodes get
  get-expire_nodes now timeout [] i h n e = h n e
  get-expire_nodes now timeout ((j, node) ∷ d) i h n e = elim (Bool-cases (j == i)) [
    | inl same ↦
        let first = h node (ground arith) in
        elim (Bool-cases (expires F now timeout node)) [
          | inl stale ↦
              subst (NodeIsValid F laws) (ground arith) (offline_node-NodeIsValid node first)
          | inr fresh ↦ subst (NodeIsValid F laws) (ground arith) first
        ]
    | inr other ↦ get-expire_nodes now timeout d i (λ k found. h k (ground arith)) n (ground arith)
  ]

  evaluate_jobs-Sound :
      (cfg : StoreConfig F) (m : Moment F) (ids : List String) (s : StoreState F)
      → Sound F laws s
      → Sound F laws (evaluate_jobs F cfg m ids s).1
  unfolding evaluate_jobs
  evaluate_jobs-Sound cfg m [] s v = v
  evaluate_jobs-Sound cfg m (i ∷ ids) s v =
      let one = evaluate_job-Sound F laws cfg m i s v in
      result_ind (SoundAfter F laws {A = Unit {0}}) (evaluate_job F cfg m i s).0 (λ e _. one)
        (λ job _. evaluate_jobs-Sound cfg m ids (evaluate_job F cfg m i s).1 one)

  blame_expired-Sound :
      (m : Moment F) (ids : List String) (s : StoreState F)
      → Sound F laws s
      → Sound F laws (blame_expired F m ids s)
  unfolding blame_expired
  blame_expired-Sound m [] s v = v
  blame_expired-Sound m (i ∷ ids) s v =
      blame_expired-Sound m ids
        (adjust_node_trust F i (minus F (lit 1 2)) (increment_node_jobs F m i (negsuc 0) s))
        (adjust_node_trust-Sound F laws i (minus F (lit 1 2))
          (increment_node_jobs F m i (negsuc 0) s) (fewer_jobs-Sound F laws m i s v))

  expire_claim-Sound :
      (a : Assignment) (s : StoreState F) → Sound F laws s → Sound F laws (expire_claim F a s).1
  unfolding expire_claim drop_assignment
  expire_claim-Sound a s v =
      let Fine : Bool × StoreState F → Type 0 = λ t. Sound F laws t.1 in
      option_ind Fine (get s.jobs a.0) (λ _. v)
        (λ job _. if_ind Fine (contains a.1 job.inflight_node_ids) (λ _. v) (λ _. v))

  expire_claims-Sound :
      (claims : List Assignment) (s : StoreState F)
      → Sound F laws s
      → Sound F laws (expire_claims F claims s).1
  unfolding expire_claims
  expire_claims-Sound [] s v = v
  expire_claims-Sound (a ∷ claims) s v =
      expire_claims-Sound claims (expire_claim F a s).1 (expire_claim-Sound a s v)

  -- The expiry of claims keeps the nodes valid: trust between 0 and 1, and no running jobs on an
  -- offline node.
  pub expire_stale_job_claims-Sound :
      (cfg : StoreConfig F) (m : Moment F) (timeout : ℕ) (s : StoreState F)
      → Sound F laws s
      → Sound F laws (expire_stale_job_claims F cfg m timeout s).1
  unfolding expire_stale_job_claims
  expire_stale_job_claims-Sound cfg m timeout s v =
      let stale = stale_claims F m.now timeout s.assignment_started_at in
      let (lost, s1) = expire_claims F stale s in
      let nodes = unique (map (λ (a : Assignment). a.1) lost) in
      evaluate_jobs-Sound cfg m (unique (map (λ (a : Assignment). a.0) lost))
        (blame_expired F m nodes s1)
        (blame_expired-Sound m nodes s1 (expire_claims-Sound stale s v))

  drop_node_assignments-Sound :
      (ids : List String) (claims : Dict Assignment ℕ) (s : StoreState F)
      → Sound F laws s
      → Sound F laws (drop_node_assignments F ids claims s)
  unfolding drop_node_assignments drop_assignment
  drop_node_assignments-Sound ids [] s v = v
  drop_node_assignments-Sound ids ((a, t) ∷ rest) s v =
      drop_node_assignments-Sound ids rest (if contains a.1 ids then drop_assignment F a s else s)
        (if_ind (Sound F laws) (contains a.1 ids) (λ _. v) (λ _. v))

  blame_offline-Sound :
      (ids : List String) (s : StoreState F) → Sound F laws s → Sound F laws (blame_offline F ids s)
  unfolding blame_offline
  blame_offline-Sound [] s v = v
  blame_offline-Sound (i ∷ ids) s v =
      blame_offline-Sound ids (adjust_node_trust F i (minus F (lit 2 2)) s)
        (adjust_node_trust-Sound F laws i (minus F (lit 2 2)) s v)

  release_inflight-Sound :
      (cfg : StoreConfig F) (m : Moment F) (ids : List String) (message : String) (s : StoreState F)
      → Sound F laws s
      → Sound F laws (release_inflight F cfg m ids message s).1
  unfolding release_inflight
  release_inflight-Sound cfg m ids message s v =
      let s1 = drop_node_assignments F ids s.assignment_started_at s in
      let (affected, jobs) = release_jobs F ids message s1.jobs in
      let s2 = record s1 { jobs = jobs } in
      evaluate_jobs-Sound cfg m affected (blame_offline F ids s2)
        (blame_offline-Sound ids s2 (drop_node_assignments-Sound ids s.assignment_started_at s v))

  -- The expiry of nodes keeps the nodes valid: trust between 0 and 1, and no running jobs on an
  -- offline node.
  pub expire_stale_nodes-Sound :
      (cfg : StoreConfig F) (m : Moment F) (timeout : ℕ) (s : StoreState F)
      → Sound F laws s
      → Sound F laws (expire_stale_nodes F cfg m timeout s).1
  unfolding expire_stale_nodes
  expire_stale_nodes-Sound cfg m timeout s v =
      let (offline, nodes) = expire_nodes F m.now timeout s.nodes in
      let s1 = record s { nodes = nodes } in
      let marked : Sound F laws s1 = record {
        at = λ i. get-expire_nodes m.now timeout s.nodes i (v.at i);
      } in
      if_ind (SoundAfter F laws {A = List String}) (length offline == 0) (λ _. marked)
        (λ _. release_inflight-Sound cfg m offline _ s1 marked)
