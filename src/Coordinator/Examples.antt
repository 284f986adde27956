-- ===== src/Coordinator/Examples.antt =====
-- The theorems on reachable states at a concrete run: a node registers, a job is submitted, the node
-- claims it and answers, and the job is completed.
use Prim.Native.String.{count}
use hyper_looms.Prelude.{
  String, ◌≡◌, refl, true, none, some, [], string_eq, nat_eq, pair_eq, or_else, sort_by,
}
use hyper_looms.Prelude.Int.{◌+ℤ◌, ◌-ℤ◌}
use hyper_looms.Float.Fixed.{fixed, fixed-FloatLaws}
use hyper_looms.Text.{lower, model_size, strip, replace_blanks, show_nat, split, parse_nat}
use hyper_looms.Dict.{get, put, remove}
use hyper_looms.Models.Node.{NodeRegisterRequest, NodeHeartbeatRequest, NodeStatus}
use hyper_looms.Models.Job.{Job, JobCreateRequest}
use hyper_looms.Store.State.{Moment, StoreConfig, StoreState, list_nodes}
use hyper_looms.Store.Jobs.{new_job, put_job_from_request, touch_job, append_job_log}
use hyper_looms.Store.Claim.{
  claim_next_job, find_claim, may_claim, oldest_first, record_claim, claimed_job,
}
use hyper_looms.Store.Submit.{
  result_report, submit_replica, check_report, reported_job, record_report, report_node,
  refund_failed,
}
use hyper_looms.Store.Nodes.{
  register_node, heartbeat, normalize_model_cache, increment_node_jobs, adjust_node_trust,
  add_model_to_node_cache,
}
use hyper_looms.Store.Expire.{expire_stale_nodes}
use hyper_looms.Store.Health.{Sound}
use hyper_looms.Store.Lifecycle.Base.{◌⟶◌, phase, is_decided, JobsAreValid}
use hyper_looms.Orchestrator.{submit_job, queue_job, accepted_message}
use hyper_looms.Store.Evaluate.{
  evaluate_job, outlook_of, decide_job, decided_job, settle_results, settle_result,
  drop_job_assignments, apply_trust,
}
use hyper_looms.Store.Keys.{
  issue_assignment_hash_key, check_key, verify_assignment_hash_key, clear_assignment_hash_key,
  drop_assignment,
}
use hyper_looms.Store.Planning.{
  unique, target_replicas, plan_nodes_for_job, single_node_fallback_nodes, rank_nodes_for_job,
}
use hyper_looms.Verifier.{verify}
use hyper_looms.Scheduler.{
  estimate_required_vram_gb, has_capacity, is_candidate, rank_nodes, select_nodes,
}
use hyper_looms.Coordinator.{new_store, Step, Steps, Reachable}
use hyper_looms.Prelude.{◌⊎◌, arith, ap}
use hyper_looms.Result.{ok}
use hyper_looms.NodeAuth.{
  AuthSettings, NodeTokenManager, TokenPayload, presented_token, rstrip_equals,
}
use hyper_looms.NodeAuth.Tokens.{Authentic}
use hyper_looms.Store.Authority.{Authorised}
use hyper_looms.Store.Submit.{Report}
use hyper_looms.Coordinator.Routes.{submit_report_route, submit_report_route-Authorised}
use hyper_looms.Coordinator.Soundness.{Reachable-Sound}
use hyper_looms.Coordinator.Progress.{Reachable-JobsAreValid, Steps-refine_life, decided_for_good}

abbrev cfg : StoreConfig fixed
cfg = record {
  verifier = record { similarity_threshold = fixed.lit 82 2; embedding_dims = 4; digest = count };
  sign = λ s. s;
  sha256_hex = λ s. s;
  assignment_hash_ttl_sec = 900;
  enable_single_node_test_fallback = true;
}

abbrev moment : Moment fixed
moment = record { now = 5000000; nonce = "n"; verification_ms = fixed.lit 1 0; fresh = λ s. s }

abbrev request : JobCreateRequest fixed
request = record {
  prompt = "hi";
  config = record {
    model = "m7b";
    replicas = 1;
    max_tokens = 256;
    temperature = fixed.lit 2 1;
    provider = "";
    preferred_region = none;
  };
  owner_id = "ann";
}

abbrev registration : NodeRegisterRequest fixed
registration = record {
  id = some "n1";
  gpu = "RTX";
  vram_total_gb = fixed.lit 48 0;
  region = "eu";
  model_cache = [];
}

abbrev empty_store : StoreState fixed
empty_store = new_store fixed cfg none

abbrev beat : NodeHeartbeatRequest fixed
beat = record {
  status = some NodeStatus.healthy;
  vram_used_gb = none;
  latency_ms = none;
  jobs_running = none;
  model_cache = none;
}

abbrev registered : StoreState fixed
registered = (register_node fixed moment registration empty_store).1

abbrev with_node : StoreState fixed
with_node = (heartbeat fixed moment "n1" beat registered).1

abbrev with_job : StoreState fixed
with_job = (submit_job fixed cfg moment request "j1" with_node).1

abbrev with_claim : StoreState fixed
with_claim = (claim_next_job fixed cfg moment "n1" with_job).1

abbrev key : String
key = or_else (get with_claim.assignment_hash_digests ("j1", "n1")) ""

abbrev answered : StoreState fixed
answered =
    (submit_replica fixed cfg moment (result_report fixed "n1" "j1" "red" none (some key))
      with_claim).1

abbrev later : StoreState fixed
later = (expire_stale_nodes fixed cfg (record moment { now = 900000000 }) 30 answered).1

abbrev job : Job fixed
job = or_else (get answered.jobs "j1") (new_job fixed moment request "j1" (fixed.lit 1 0))

answered-Reachable : Reachable fixed cfg answered
unfolding get heartbeat register_node put
answered-Reachable =
    let report = result_report fixed "n1" "j1" "red" none (some key) in
    Reachable.next with_claim answered
      (Reachable.next with_job with_claim
        (Reachable.next with_node with_job
          (Reachable.next registered with_node
            (Reachable.next empty_store registered (Reachable.start none)
              (Step.registers moment registration empty_store))
            (Step.beats moment "n1" beat registered))
          (Step.submits moment request "j1" with_node refl))
        (Step.claims moment "n1" with_job))
      (Step.reports moment report with_claim)

later-Steps : Steps fixed cfg answered later
later-Steps =
    Steps.step answered later later
      (Step.expires_nodes (record moment { now = 900000000 }) 30 answered) (Steps.done later)

-- the job is completed
test_answered : get answered.jobs "j1" ≡ some job
unfolding get put remove sort_by list_nodes register_node heartbeat submit_job queue_job
    accepted_message put_job_from_request touch_job append_job_log claim_next_job find_claim
    may_claim oldest_first record_claim claimed_job submit_replica check_report reported_job
    record_report report_node refund_failed evaluate_job outlook_of decide_job decided_job
    settle_results settle_result drop_job_assignments issue_assignment_hash_key check_key
    verify_assignment_hash_key clear_assignment_hash_key drop_assignment normalize_model_cache
    increment_node_jobs adjust_node_trust add_model_to_node_cache unique target_replicas
    plan_nodes_for_job single_node_fallback_nodes rank_nodes_for_job verify
    estimate_required_vram_gb has_capacity is_candidate rank_nodes select_nodes lower strip
    model_size replace_blanks show_nat split parse_nat ◌+ℤ◌ ◌-ℤ◌ apply_trust
test_answered = refl

test_is_decided : is_decided job.status ≡ true
unfolding get put remove sort_by list_nodes register_node heartbeat submit_job queue_job
    accepted_message put_job_from_request touch_job append_job_log claim_next_job find_claim
    may_claim oldest_first record_claim claimed_job submit_replica check_report reported_job
    record_report report_node refund_failed evaluate_job outlook_of decide_job decided_job
    settle_results settle_result drop_job_assignments issue_assignment_hash_key check_key
    verify_assignment_hash_key clear_assignment_hash_key drop_assignment normalize_model_cache
    increment_node_jobs adjust_node_trust add_model_to_node_cache unique target_replicas
    plan_nodes_for_job single_node_fallback_nodes rank_nodes_for_job verify
    estimate_required_vram_gb has_capacity is_candidate rank_nodes select_nodes lower strip
    model_size replace_blanks show_nat split parse_nat ◌+ℤ◌ ◌-ℤ◌ apply_trust
test_is_decided = refl

Reachable-Sound_example : Sound fixed fixed-FloatLaws answered
Reachable-Sound_example = Reachable-Sound fixed cfg fixed-FloatLaws answered answered-Reachable

Reachable-JobsAreValid_example : JobsAreValid fixed answered
Reachable-JobsAreValid_example = Reachable-JobsAreValid fixed cfg answered answered-Reachable

Steps-refine_life_example : phase fixed answered "j1" ⟶ phase fixed later "j1"
Steps-refine_life_example =
    Steps-refine_life fixed cfg answered later answered-Reachable later-Steps "j1"

decided_for_good_example :
    (after : Job fixed) × (get later.jobs "j1" ≡ some after)
    × (after.status ≡ job.status)
    × (after.inflight_node_ids ≡ [])
decided_for_good_example =
    decided_for_good fixed cfg answered later "j1" job answered-Reachable later-Steps test_answered
      test_is_decided

-- tokens of which the payload is the id of the node
abbrev tokens : NodeTokenManager
tokens = record {
  crypto = record {
    urlsafe_b64encode = λ raw. raw;
    urlsafe_b64decode = λ s. some (rstrip_equals s);
    hmac_sha256 = λ payload. payload;
    dumps = λ node_id iat exp. node_id;
    loads = λ payload. ok (record { node_id = payload; exp = 300 });
  };
  ttl = 300;
}

abbrev settings : AuthSettings
settings = record { admin_api_key = "a"; node_auth_enabled = true; node_join_token = "j" }

abbrev answer : Report fixed
answer = result_report fixed "n1" "j1" "red" none (some key)

submit_report_route-Authorised_example :
    ((submit_report_route fixed cfg settings tokens moment answer
        (some "Bearer n1.n1")
        none
        with_claim).1
      ≡ with_claim)
    ⊎ (((token : String) × (p : TokenPayload) × (presented_token (some "Bearer n1.n1") none
            ≡ some token)
          × Authentic tokens 5000000 token (some "n1") p
          × (p.node_id ≡ "n1"))
        × Authorised fixed cfg moment "j1" "n1" (some key) with_claim)
submit_report_route-Authorised_example =
    submit_report_route-Authorised fixed cfg settings tokens moment answer (some "Bearer n1.n1")
      none with_claim refl (λ e. ground (arith, ap count e))
