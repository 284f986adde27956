-- ===== src/Store/Examples.antt =====
-- The theorems on the store at a concrete store: a node that is up, and a job that it may claim.
use Prim.Native.String.{count}
use hyper_looms.Prelude.{
  ℕ, ◌+◌, ◌<◌, String, ◌≡◌, ◌≢◌, ◌⊎◌, ◌↔◌, refl, true, false, none, some, [], ◌∷◌, arith, string_eq,
  nat_eq, pair_eq, contains, length, sort_by,
}
use hyper_looms.Float.Fixed.{fixed, fixed-FloatLaws}
use hyper_looms.Dict.{get, put}
use hyper_looms.Result.{ok}
use hyper_looms.Models.Node.{Node, NodeStatus, NodeHeartbeatRequest, NodeRegisterRequest}
use hyper_looms.Models.Job.{Job, JobCreateRequest, JobStatus, VerificationStatus}
use hyper_looms.Verifier.{verify}
use hyper_looms.Text.{lower, model_size}
use hyper_looms.Prelude.Int.{◌+ℤ◌, ◌-ℤ◌}
use hyper_looms.Scheduler.{rank_nodes, is_candidate, has_capacity, estimate_required_vram_gb}
use hyper_looms.Store.State.{Moment, StoreConfig, StoreState, list_nodes}
use hyper_looms.Store.Jobs.{new_job}
use hyper_looms.Store.Planning.{successful, target_replicas, unique}
use hyper_looms.Store.Claim.{find_claim, may_claim, oldest_first, record_claim, claim_next_job}
use hyper_looms.Store.Evaluate.{outlook_of, evaluate_job, decide_job, decided_job}
use hyper_looms.Store.Submit.{Report, result_report, submit_replica}
use hyper_looms.Store.Authority.{Authorised, submit_replica-Authorised}
use hyper_looms.Store.Grants.{Granted, claim_grants, claim_wanted}
use hyper_looms.Store.Verdicts.{IsReady, IsIdle, evaluate_job_completes_iff}
use hyper_looms.Store.Health.{Sound}

abbrev cfg : StoreConfig fixed
cfg = record {
  verifier = record { similarity_threshold = fixed.lit 82 2; embedding_dims = 4; digest = count };
  sign = λ s. s;
  sha256_hex = λ s. s;
  assignment_hash_ttl_sec = 900;
  enable_single_node_test_fallback = true;
}

abbrev moment : Moment fixed
moment = record { now = 5000000; nonce = "n"; verification_ms = fixed.lit 1 0; fresh = λ s. s }

abbrev gpu : Node fixed
gpu = record {
  id = "n1";
  gpu = "RTX";
  vram_total_gb = fixed.lit 48 0;
  vram_used_gb = fixed.lit 0 0;
  status = NodeStatus.healthy;
  trust_score = fixed.lit 9 1;
  jobs_running = 0;
  latency_ms_avg = fixed.lit 20 0;
  region = "eu";
  model_cache = [];
  last_heartbeat = 0;
}

abbrev request : JobCreateRequest fixed
request = record {
  prompt = "hi";
  config = record {
    model = "m7b";
    replicas = 1;
    max_tokens = 256;
    temperature = fixed.lit 2 1;
    provider = "";
    preferred_region = none;
  };
  owner_id = "ann";
}

abbrev job : Job fixed
job = new_job fixed moment request "j1" (fixed.lit 1 0)

abbrev store : StoreState fixed
store = record {
  nodes = ("n1", gpu) ∷ [];
  jobs = ("j1", job) ∷ [];
  credits = none;
  assignment_started_at = [];
  assignment_hash_digests = [];
  assignment_hash_expires_at = [];
  job_started_at = [];
}

abbrev report : Report fixed
report = result_report fixed "n1" "j1" "red" none (some "forged")

beat : NodeHeartbeatRequest fixed
beat = record {
  status = some NodeStatus.offline;
  vram_used_gb = none;
  latency_ms = none;
  jobs_running = some 3;
  model_cache = none;
}

abbrev registration : NodeRegisterRequest fixed
registration = record {
  id = some "n1";
  gpu = "RTX";
  vram_total_gb = fixed.lit 48 0;
  region = "eu";
  model_cache = [];
}

store-Sound : Sound fixed fixed-FloatLaws store
unfolding get
store-Sound = record {
  at = λ i n found. record {
    trust_low = ground arith;
    trust_high = ground arith;
    idle = λ off. ground arith;
  };
}

abbrev claim : Job fixed × String × ℕ
claim = (record_claim fixed cfg moment "n1" (gpu ∷ []) job store).0

-- n1 reports with the key that its claim returned
submit_replica-Authorised_example :
    ((submit_replica fixed cfg moment
        (result_report fixed "n1" "j1" "red" none (some claim.1))
        (claim_next_job fixed cfg moment "n1" store).1).1
      ≡ (claim_next_job fixed cfg moment "n1" store).1)
    ⊎ Authorised fixed cfg moment "j1" "n1"
        (some claim.1)
        (claim_next_job fixed cfg moment "n1" store).1
submit_replica-Authorised_example =
    submit_replica-Authorised fixed cfg moment
      (result_report fixed "n1" "j1" "red" none (some claim.1))
      (claim_next_job fixed cfg moment "n1" store).1

-- the claim goes through
test_claim_next_job : (claim_next_job fixed cfg moment "n1" store).0 ≡ ok (some claim)
unfolding claim_next_job find_claim may_claim oldest_first list_nodes get sort_by rank_nodes
    is_candidate has_capacity estimate_required_vram_gb target_replicas model_size lower ◌+ℤ◌ ◌-ℤ◌
    unique
test_claim_next_job = refl

claim_grants_example :
    Granted fixed cfg moment "n1" (claim_next_job fixed cfg moment "n1" store).1 claim
claim_grants_example = claim_grants fixed cfg moment "n1" store claim test_claim_next_job

claim_wanted_example :
    (picked : Job fixed) × (find_claim fixed cfg "n1"
        (list_nodes fixed store)
        (oldest_first fixed store)
      ≡ some picked)
    × (claim.0.id ≡ picked.id)
    × (picked.status ≢ JobStatus.completed)
    × (picked.status ≢ JobStatus.failed)
    × (contains "n1" picked.inflight_node_ids ≡ false)
    × (length (successful fixed picked) + length (unique picked.inflight_node_ids)
        < target_replicas fixed cfg picked.config (list_nodes fixed store))
claim_wanted_example = claim_wanted fixed cfg moment "n1" store claim test_claim_next_job

-- the job with the one answer that it wants
abbrev answered : Job fixed
answered = record job {
  status = JobStatus.running;
  results =
      record {
        node_id = "n1";
        output = some "red";
        latency_ms = fixed.lit 10 0;
        success = true;
        error = none;
      }
      ∷ [];
}

abbrev answered_store : StoreState fixed
answered_store = record store { jobs = ("j1", answered) ∷ [] }

abbrev final : Job fixed
final =
    decided_job fixed moment (verify fixed cfg.verifier (successful fixed answered) 1)
      answered_store (record answered { status = JobStatus.verifying; progress = fixed.lit 92 0 })

-- the job is decided
test_evaluate_job : (evaluate_job fixed cfg moment "j1" answered_store).0 ≡ ok final
unfolding evaluate_job decide_job outlook_of list_nodes get sort_by rank_nodes is_candidate
    has_capacity estimate_required_vram_gb target_replicas model_size lower ◌+ℤ◌ ◌-ℤ◌ unique verify
    put
test_evaluate_job = refl

evaluate_job_completes_iff_example :
    (get (evaluate_job fixed cfg moment "j1" answered_store).1.jobs "j1" ≡ some final)
    × ((final.status ≡ JobStatus.completed) ↔ (
        IsReady fixed cfg (list_nodes fixed answered_store) answered
        × ((verify fixed cfg.verifier
              (successful fixed answered)
              (target_replicas fixed cfg answered.config (list_nodes fixed answered_store))).status
            ≢ VerificationStatus.failed)))
    × ((final.status ≡ JobStatus.failed) ↔ (
        (IsReady fixed cfg (list_nodes fixed answered_store) answered
          × ((verify fixed cfg.verifier (successful fixed answered) (
                target_replicas fixed cfg answered.config (list_nodes fixed answered_store))).status
              ≡ VerificationStatus.failed))
        ⊎ ((length (successful fixed answered) ≡ 0)
            × IsIdle fixed cfg (list_nodes fixed answered_store) answered)))
unfolding get
evaluate_job_completes_iff_example =
    evaluate_job_completes_iff fixed cfg moment "j1" answered final answered_store refl refl
      (λ e. ground arith) (λ e. ground arith) test_evaluate_job
