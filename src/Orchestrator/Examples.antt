-- ===== src/Orchestrator/Examples.antt =====
-- The theorem on charges at a concrete store, whose user has no credits.
use hyper_looms.Prelude.{◌≡◌, refl, true, none, some, [], ◌∷◌, string_eq, pair_eq}
use Prim.Native.String.{count}
use hyper_looms.Prelude.Int.{◌+ℤ◌, ◌-ℤ◌}
use hyper_looms.Float.Fixed.{fixed, fixed-FloatLaws}
use hyper_looms.Dict.{get}
use hyper_looms.Result.{err, value_error}
use hyper_looms.Text.{lower, model_size}
use hyper_looms.Models.Job.{JobCreateRequest}
use hyper_looms.Models.Credits.{user, account_type_eq}
use hyper_looms.Credits.{CreditLedger, estimate_job_cost, charge_user_for_job, transfer, move}
use hyper_looms.Store.State.{Moment, StoreConfig, StoreState}
use hyper_looms.Orchestrator.{submit_job, charge_call}
use hyper_looms.Orchestrator.Charges.{submit_job_unpaid}

abbrev cfg : StoreConfig fixed
cfg = record {
  verifier = record { similarity_threshold = fixed.lit 82 2; embedding_dims = 4; digest = count };
  sign = λ s. s;
  sha256_hex = λ s. s;
  assignment_hash_ttl_sec = 900;
  enable_single_node_test_fallback = true;
}

abbrev moment : Moment fixed
moment = record { now = 5000000; nonce = "n"; verification_ms = fixed.lit 1 0; fresh = λ s. s }

abbrev request : JobCreateRequest fixed
request = record {
  prompt = "hi";
  config = record {
    model = "m7b";
    replicas = 1;
    max_tokens = 256;
    temperature = fixed.lit 2 1;
    provider = "";
    preferred_region = none;
  };
  owner_id = "ann";
}

abbrev poor : CreditLedger fixed
poor = record {
  accounts =
      (
        (user, "ann"),
        record {
          account_type = user;
          account_id = "ann";
          balance = fixed.lit 0 0;
          created_at = 0;
          updated_at = 0;
        },
      )
      ∷ [];
  transactions = [];
  idempotency = [];
  bootstrap_user_credits = fixed.lit 0 0;
}

abbrev store : StoreState fixed
store = record {
  nodes = [];
  jobs = [];
  credits = some poor;
  assignment_started_at = [];
  assignment_hash_digests = [];
  assignment_hash_expires_at = [];
  job_started_at = [];
}

-- ann cannot pay
test_charge_refused :
    (charge_user_for_job fixed
      (charge_call fixed moment "j1" "ann")
      "ann"
      "j1"
      (estimate_job_cost fixed request.config)
      poor).0
    ≡ err (value_error "insufficient_credits")
unfolding charge_user_for_job transfer move estimate_job_cost get lower model_size ◌+ℤ◌ ◌-ℤ◌
test_charge_refused = refl

submit_job_unpaid_example :
    submit_job fixed cfg moment request "j1" store
    ≡ (err (value_error "insufficient_credits"), store)
submit_job_unpaid_example =
    submit_job_unpaid fixed fixed-FloatLaws cfg moment request "j1" store poor
      (value_error "insufficient_credits") refl test_charge_refused
