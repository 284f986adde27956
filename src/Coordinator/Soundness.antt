-- ===== src/Coordinator/Soundness.antt =====
-- Every step keeps the nodes healthy records.
use hyper_looms.Prelude.{
  ℕ, String, ◌≡◌, some, [], ◌∷◌, ◌&&◌, ◌||◌, not, arith, ◌==◌, string_eq, nat_eq, Bool-cases, inl,
  inr, subst,
}
use hyper_looms.Float.{FloatOps, FloatLaws}
use hyper_looms.Dict.{Dict, get}
use hyper_looms.Text.{starts_with}
use hyper_looms.Models.Node.{Node, NodeStatus, node_status_eq}
use hyper_looms.Store.State.{Moment, StoreConfig, StoreState}
use hyper_looms.Store.Nodes.{seed_nodes, demo_node}
use hyper_looms.Store.Expire.{pulse_nodes, pulsed_node, synthetic_pulse}
use hyper_looms.Store.Health.{
  put-NodesAreValid, NodeIsValid, Sound, register_node-Sound, heartbeat-Sound,
}
use hyper_looms.Store.Health.Loops.{claim_next_job-Sound, submit_replica-Sound}
use hyper_looms.Store.Health.Watchdog.{expire_stale_job_claims-Sound, expire_stale_nodes-Sound}
use hyper_looms.Coordinator.{
  Step, registers, beats, submits, retries, logs, trades, claims, reports, expires_claims,
  expires_nodes, seeds, pulses, Reachable, start, next,
}
use hyper_looms.Store.Claim.{log_entry}
use hyper_looms.Store.Health.{NodesAreValid}
use hyper_looms.Prelude.{sym}
use hyper_looms.Orchestrator.{emit_job_log}
use hyper_looms.Orchestrator.Queueing.{submit_job-nodes, retry_job-nodes, append_job_log-nodes}

module _ (F : FloatOps) (cfg : StoreConfig F) (laws : FloatLaws F) where
  demo_node-NodeIsValid :
      (m : Moment F) (i gpu : String) (vram : ℕ) (region : String)
      → NodeIsValid F laws (demo_node F m i gpu vram region)
  demo_node-NodeIsValid m i gpu vram region = record {
    trust_low = laws.lit_le 0 1 9 1 (omega arith);
    trust_high = laws.lit_le 9 1 10 1 (omega arith);
    idle = λ off. absurd (ground arith);
  }

  seed_nodes-Sound :
      (m : Moment F) (s : StoreState F) → Sound F laws s → Sound F laws (seed_nodes F m s)
  unfolding seed_nodes
  seed_nodes-Sound m s v =
      let demo = demo_node-NodeIsValid m in
      let put = put-NodesAreValid F laws in
      put _ _ _
        (put _ _ _
          (put _ _ _ (put _ _ _ v (demo "demo-a100-1" "NVIDIA A100" 80 "us-east-1"))
            (demo "demo-h100-1" "NVIDIA H100" 80 "us-west-2"))
          (demo "demo-l40s-1" "NVIDIA L40S" 48 "eu-west-1"))
        (demo "demo-a10-1" "NVIDIA A10" 24 "us-east-2")

  pulsed_node-NodeIsValid :
      (m : Moment F) (n : Node F) → NodeIsValid F laws n → NodeIsValid F laws (pulsed_node F m n)
  pulsed_node-NodeIsValid m n v = record {
    trust_low = v.trust_low;
    trust_high = v.trust_high;
    idle = λ off. absurd (ground arith);
  }

  get-pulse_nodes :
      (m : Moment F) (d : Dict String (Node F)) (i : String)
      → ((n : Node F) → get d i ≡ some n → NodeIsValid F laws n)
      → (n : Node F) → get (pulse_nodes F m d) i ≡ some n
      → NodeIsValid F laws n
  unfolding pulse_nodes get
  get-pulse_nodes m [] i h n e = h n e
  get-pulse_nodes m ((j, node) ∷ d) i h n e =
      let skipped =
        not (starts_with "demo-" j)
        || (node.status == NodeStatus.offline && node.jobs_running == 0) in
      elim (Bool-cases (j == i)) [
        | inl same ↦
            let first = h node (ground arith) in
            elim (Bool-cases skipped) [
              | inl skip ↦ subst (NodeIsValid F laws) (ground arith) first
              | inr pulse ↦
                  subst (NodeIsValid F laws) (ground arith) (pulsed_node-NodeIsValid m node first)
            ]
        | inr other ↦ get-pulse_nodes m d i (λ k found. h k (ground arith)) n (ground arith)
      ]

  Step-Sound : (s t : StoreState F) → Step F cfg s t → Sound F laws s → Sound F laws t
  unfolding synthetic_pulse emit_job_log
  Step-Sound s t (registers m payload _) v = register_node-Sound F laws m payload s v
  Step-Sound s t (beats m i payload _) v = heartbeat-Sound F laws m i payload s v
  Step-Sound s t (submits m payload i _ _) v =
      subst (NodesAreValid F laws) (sym (submit_job-nodes F cfg m payload i s)) v
  Step-Sound s t (retries m job_id i _ _) v =
      subst (NodesAreValid F laws) (sym (retry_job-nodes F cfg m job_id i s)) v
  Step-Sound s t (logs m job_id message level node_id _) v =
      subst (NodesAreValid F laws)
        (sym (append_job_log-nodes F m job_id (log_entry F message level node_id) s)) v
  Step-Sound s t (trades credits _) v = v
  Step-Sound s t (claims m i _) v = claim_next_job-Sound F laws cfg m i s v
  Step-Sound s t (reports m r _) v = submit_replica-Sound F laws cfg m r s v
  Step-Sound s t (expires_claims m timeout _) v =
      expire_stale_job_claims-Sound F laws cfg m timeout s v
  Step-Sound s t (expires_nodes m timeout _) v = expire_stale_nodes-Sound F laws cfg m timeout s v
  Step-Sound s t (seeds m _) v = seed_nodes-Sound m s v
  Step-Sound s t (pulses m _) v = record { at = λ i. get-pulse_nodes m s.nodes i (v.at i) }

  -- In every state that seeding, registrations, heartbeats, submissions and retries of jobs, log
  -- entries, changes of credits, claims, reports, expiries and pulses lead to from a new store, in
  -- any order, each node has a trust between 0 and 1, and an offline node has no running jobs.
  pub Reachable-Sound : (s : StoreState F) → Reachable F cfg s → Sound F laws s
  unfolding get
  Reachable-Sound s (start credits) = record { at = λ i n e. absurd (ground arith) }
  Reachable-Sound t (next s _ r step) = Step-Sound s t step (Reachable-Sound s r)
