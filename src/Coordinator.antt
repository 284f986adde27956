-- ===== src/Coordinator.antt =====
-- The coordinator as a state machine: the operations that its routes and its loops call on the store
-- (backend/app/main.py and the HTTP routes), in any order, each as one step.
pub mod Soundness
pub mod Progress
pub mod Routes
mod Examples
use hyper_looms.Prelude.{ℕ, String, ◌≡◌, Option, none, some, [], string_eq}
use hyper_looms.Float.{FloatOps}
use hyper_looms.Dict.{get}
use hyper_looms.Credits.{CreditLedger}
use hyper_looms.Models.Node.{NodeRegisterRequest, NodeHeartbeatRequest}
use hyper_looms.Models.Job.{JobCreateRequest}
use hyper_looms.Store.State.{Moment, StoreConfig, StoreState}
use hyper_looms.Store.Nodes.{register_node, seed_nodes, heartbeat}
use hyper_looms.Store.Claim.{claim_next_job}
use hyper_looms.Store.Submit.{Report, submit_replica}
use hyper_looms.Store.Expire.{synthetic_pulse, expire_stale_job_claims, expire_stale_nodes}
use hyper_looms.Orchestrator.{submit_job, retry_job, emit_job_log}

module _ (F : FloatOps) (cfg : StoreConfig F) where
  -- `InMemoryStateStore.__init__`
  abbrev pub new_store : Option (CreditLedger F) → StoreState F
  new_store credits = record {
    nodes = [];
    jobs = [];
    credits = credits;
    assignment_started_at = [];
    assignment_hash_digests = [];
    assignment_hash_expires_at = [];
    job_started_at = [];
  }

  -- One call. The id of a new job is a `uuid4`, which no stored job has. `trades` is any change of
  -- the ledger, by the credit routes or by the training service.
  pub data Step : StoreState F → StoreState F → Type 0 where
    registers :
        (m : Moment F) (payload : NodeRegisterRequest F) (s : StoreState F)
        → Step s (register_node F m payload s).1
    beats :
        (m : Moment F) (node_id : String) (payload : NodeHeartbeatRequest F) (s : StoreState F)
        → Step s (heartbeat F m node_id payload s).1
    submits :
        (m : Moment F) (payload : JobCreateRequest F) (fresh_id : String) (s : StoreState F)
        → get s.jobs fresh_id ≡ none
        → Step s (submit_job F cfg m payload fresh_id s).1
    retries :
        (m : Moment F) (job_id fresh_id : String) (s : StoreState F)
        → get s.jobs fresh_id ≡ none
        → Step s (retry_job F cfg m job_id fresh_id s).1
    logs :
        (m : Moment F) (job_id message level : String) (node_id : Option String) (s : StoreState F)
        → Step s (emit_job_log F m job_id message level node_id s).1
    trades :
        (credits : Option (CreditLedger F)) (s : StoreState F)
        → Step s (record s { credits = credits })
    claims :
        (m : Moment F) (node_id : String) (s : StoreState F)
        → Step s (claim_next_job F cfg m node_id s).1
    reports :
        (m : Moment F) (r : Report F) (s : StoreState F) → Step s (submit_replica F cfg m r s).1
    expires_claims :
        (m : Moment F) (timeout : ℕ) (s : StoreState F)
        → Step s (expire_stale_job_claims F cfg m timeout s).1
    expires_nodes :
        (m : Moment F) (timeout : ℕ) (s : StoreState F)
        → Step s (expire_stale_nodes F cfg m timeout s).1
    seeds : (m : Moment F) (s : StoreState F) → Step s (seed_nodes F m s)
    pulses : (m : Moment F) (s : StoreState F) → Step s (synthetic_pulse F m s)

  -- Any number of calls.
  pub data Steps : StoreState F → StoreState F → Type 0 where
    done : (s : StoreState F) → Steps s s
    step : (s t u : StoreState F) → Step s t → Steps t u → Steps s u

  -- The states that any calls lead to, from a new store.
  pub data Reachable : StoreState F → Type 0 where
    start : (credits : Option (CreditLedger F)) → Reachable (new_store credits)
    next : (s t : StoreState F) → Reachable s → Step s t → Reachable t
