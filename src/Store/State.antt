-- ===== src/Store/State.antt =====
-- The fields of `InMemoryStateStore`, what it is built with, and its plain reads and writes. No
-- method waits for anything but its own locks, so each runs as one step of the event loop.
use hyper_looms.Prelude.{
  ℕ, ◌-◌, String, Bool, Option, List, string_eq, leb, ltb, if◌then◌else◌, sort_by,
}
use hyper_looms.Float.{FloatOps}
use hyper_looms.Dict.{Dict, get, put, values}
use hyper_looms.Text.{str_less}
use hyper_looms.Models.Node.{Node}
use hyper_looms.Models.Job.{Job}
use hyper_looms.Credits.{CreditLedger}
use hyper_looms.Verifier.{ResultVerifier}

-- What a call reads from outside: the clock in microseconds, `secrets.token_urlsafe`, the time that
-- the verifier took, and the `uuid4` of each payment, by its job and its account ("job:account").
pub record Moment (F : FloatOps) : Type 0 where
  pub now : ℕ
  pub nonce : String
  pub verification_ms : F.Float
  pub fresh : String → String

-- What the store is built with. `sign` is HMAC-SHA256 under the store's secret, base64url without
-- padding, and `sha256_hex` the digest in hexadecimal.
pub record StoreConfig (F : FloatOps) : Type 0 where
  pub verifier : ResultVerifier F
  pub sign : String → String
  pub sha256_hex : String → String
  pub assignment_hash_ttl_sec : ℕ
  pub enable_single_node_test_fallback : Bool

-- A pair of a job and a node.
abbrev pub Assignment : Type 0
Assignment = String × String

module _ (F : FloatOps) where
  open F use {Float, lit, sub, mul}

  pub record StoreState : Type 0 where
    pub nodes : Dict String (Node F)
    pub jobs : Dict String (Job F)
    pub credits : Option (CreditLedger F)
    pub assignment_started_at : Dict Assignment ℕ
    pub assignment_hash_digests : Dict Assignment String
    pub assignment_hash_expires_at : Dict Assignment ℕ
    pub job_started_at : Dict String ℕ

  -- (a - b).total_seconds() * 1000
  abbrev pub elapsed_ms : ℕ → ℕ → Float
  elapsed_ms a b =
      mul (if leb b a then lit (a - b) 6 else sub (lit 0 0) (lit (b - a) 6)) (lit 1000 0)

  unfoldable pub list_nodes : StoreState → List (Node F)
  list_nodes s = sort_by (λ a b. str_less a.id b.id) (values s.nodes)

  abbrev pub get_node : StoreState → String → Option (Node F)
  get_node s node_id = get s.nodes node_id

  abbrev pub update_node : Node F → StoreState → StoreState
  update_node node s = record s { nodes = put s.nodes node.id node }

  abbrev pub put_job : Job F → StoreState → StoreState
  put_job job s = record s { jobs = put s.jobs job.id job }

  abbrev pub get_job : StoreState → String → Option (Job F)
  get_job s job_id = get s.jobs job_id

  -- newest first
  unfoldable pub list_jobs : StoreState → List (Job F)
  list_jobs s = sort_by (λ a b. ltb b.created_at a.created_at) (values s.jobs)
