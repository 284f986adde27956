-- ===== src/Coordinator/Routes.antt =====
-- backend/app/api/routes/nodes.py and jobs.py: what the routes ask of the store and the orchestrator,
-- behind the checks of tokens. What they send to the WebSocket hub changes no state.
use hyper_looms.Prelude.{
  ℕ, String, ◌≡◌, ◌≢◌, ◌⊎◌, inl, inr, refl, true, Option, none, some, List, [], ◌∷◌, ◌==◌,
  string_eq, filter, if◌then◌else◌,
}
use hyper_looms.Float.{FloatOps}
use hyper_looms.Dict.{get}
use hyper_looms.Result.{Result, ok, err, value_error, key_error, runtime_error, type_error, concat}
use hyper_looms.Models.Node.{Node, NodeRegisterRequest, NodeHeartbeatRequest}
use hyper_looms.Models.Job.{Job, JobStatus, job_status_eq, JobCreateRequest}
use hyper_looms.Credits.Routes.{Response, replied, http_exception, raised, respond}
use hyper_looms.NodeAuth.{
  Access, AuthSettings, NodeTokenManager, TokenPayload, issue_token, require_node_join_token,
  require_node_token, presented_token,
}
use hyper_looms.NodeAuth.Tokens.{Authentic, require_node_token_granted}
use hyper_looms.Store.State.{Moment, StoreConfig, StoreState, list_jobs}
use hyper_looms.Store.Nodes.{register_node, heartbeat}
use hyper_looms.Store.Claim.{claim_next_job}
use hyper_looms.Store.Submit.{Report, result_report, failure_report, submit_replica}
use hyper_looms.Store.Authority.{Authorised, submit_replica-Authorised}
use hyper_looms.Orchestrator.{submit_job, retry_job}

-- str(exc) of a `KeyError`: its message, which has single quotes, in double ones
abbrev pub key_detail : String → String
key_detail e = concat ("\"" ∷ e ∷ "\"" ∷ [])

-- A `KeyError` becomes 404, and a `ValueError` the status.
abbrev pub respond_or_missing : {A : Type 0} → ℕ → Result A → Response A
respond_or_missing status (ok a) = replied a
respond_or_missing status (err (key_error e)) = http_exception 404 (key_detail e)
respond_or_missing status (err (value_error e)) = http_exception status e
respond_or_missing status (err (runtime_error e)) = raised (runtime_error e)
respond_or_missing status (err (type_error e)) = raised (type_error e)

-- A `KeyError` becomes 404.
abbrev pub or_missing : {A : Type 0} → Result A → Response A
or_missing (ok a) = replied a
or_missing (err (key_error e)) = http_exception 404 (key_detail e)
or_missing (err (value_error e)) = raised (value_error e)
or_missing (err (runtime_error e)) = raised (runtime_error e)
or_missing (err (type_error e)) = raised (type_error e)

-- `Depends(check)`: the route runs only where the check lets the request pass
unfoldable pub guarded : {A S : Type 0} → Access → S → Response A × S → Response A × S
guarded Access.granted s ran = ran
guarded (Access.refused status detail) s ran = (http_exception status detail, s)
guarded (Access.raised e) s ran = (raised e, s)

guarded_ind :
    {A S : Type 0} (P : S → Type 0) (access : Access) (s : S) (ran : Response A × S)
    → P s
    → (access ≡ Access.granted → P ran.1)
    → P (guarded access s ran).1
unfolding guarded
guarded_ind P Access.granted s ran kept passed = passed refl
guarded_ind P (Access.refused status detail) s ran kept passed = kept
guarded_ind P (Access.raised e) s ran kept passed = kept

module _ (F : FloatOps) (cfg : StoreConfig F) (settings : AuthSettings)
    (manager : NodeTokenManager) where
  open F use {Float}

  pub register_node_route :
      Moment F
      → NodeRegisterRequest F
      → Option String
      → StoreState F
      → Response (Node F × Option (String × ℕ)) × StoreState F
  unfolding guarded register_node issue_token
  register_node_route m payload x_node_join_token s =
      let (node, s1) = register_node F m payload s in
      let token =
        if settings.node_auth_enabled then some (issue_token manager m.now node.id) else none in
      guarded (require_node_join_token settings x_node_join_token) s (replied (node, token), s1)

  pub node_heartbeat :
      Moment F
      → String
      → NodeHeartbeatRequest F
      → Option String
      → Option String
      → StoreState F
      → Response (Node F) × StoreState F
  unfolding guarded heartbeat require_node_token
  node_heartbeat m node_id payload authorization x_node_token s =
      let (node, s1) = heartbeat F m node_id payload s in
      guarded (require_node_token settings manager m.now node_id authorization x_node_token) s
        (or_missing node, s1)

  -- None is the reply 204.
  pub claim_next_job_route :
      Moment F
      → String
      → Option String
      → Option String
      → StoreState F
      → Response (Option (Job F × String × ℕ)) × StoreState F
  unfolding guarded claim_next_job require_node_token
  claim_next_job_route m node_id authorization x_node_token s =
      let (claim, s1) = claim_next_job F cfg m node_id s in
      guarded (require_node_token settings manager m.now node_id authorization x_node_token) s
        (or_missing claim, s1)

  -- The two routes for reports, a result and a failure, differ in the report alone.
  unfoldable pub submit_report_route :
      Moment F
      → Report F
      → Option String
      → Option String
      → StoreState F
      → Response (Job F) × StoreState F
  unfolding guarded submit_replica require_node_token
  submit_report_route m r authorization x_node_token s =
      let (job, s1) = submit_replica F cfg m r s in
      guarded (require_node_token settings manager m.now r.node_id authorization x_node_token) s
        (respond_or_missing 409 job, s1)

  pub submit_job_result_route :
      Moment F
      → String
      → String
      → String
      → Option Float
      → Option String
      → Option String
      → Option String
      → StoreState F
      → Response (Job F) × StoreState F
  unfolding submit_report_route
  submit_job_result_route m node_id job_id output latency_ms key =
      submit_report_route m (result_report F node_id job_id output latency_ms key)

  pub submit_job_failure_route :
      Moment F
      → String
      → String
      → String
      → Option String
      → Option String
      → Option String
      → StoreState F
      → Response (Job F) × StoreState F
  unfolding submit_report_route
  submit_job_failure_route m node_id job_id error key =
      submit_report_route m (failure_report F node_id job_id error key)

  pub submit_job_route :
      Moment F → JobCreateRequest F → String → StoreState F → Response (Job F) × StoreState F
  unfolding submit_job
  submit_job_route m payload job_id s =
      let (job, s1) = submit_job F cfg m payload job_id s in (respond 402 job, s1)

  pub retry_job_route : Moment F → String → String → StoreState F → Response (Job F) × StoreState F
  unfolding retry_job
  retry_job_route m job_id fresh_id s =
      let (job, s1) = retry_job F cfg m job_id fresh_id s in (respond_or_missing 402 job, s1)

  pub get_job_route : String → StoreState F → Response (Job F)
  unfolding get
  get_job_route job_id s = elim (get s.jobs job_id) [
    | none ↦ http_exception 404 "Job not found"
    | some job ↦ replied job
  ]

  pub list_jobs_route : Option JobStatus → StoreState F → List (Job F)
  unfolding list_jobs
  list_jobs_route none s = list_jobs F s
  list_jobs_route (some wanted) s = filter (λ job. job.status == wanted) (list_jobs F s)

  -- Where node tokens are required, a report over HTTP either leaves the whole store as it was, or
  -- came with a token that is signed for its node and has not expired, and with the key on record for
  -- its claim, not yet expired.
  pub submit_report_route-Authorised :
      (m : Moment F) (r : Report F) (authorization x_node_token : Option String) (s : StoreState F)
      → settings.node_auth_enabled ≡ true
      → r.node_id ≢ ""
      → ((submit_report_route m r authorization x_node_token s).1 ≡ s)
        ⊎ (((token : String) × (p : TokenPayload) × (presented_token authorization x_node_token
                ≡ some token)
              × Authentic manager m.now token (some r.node_id) p
              × (p.node_id ≡ r.node_id))
            × Authorised F cfg m r.job_id r.node_id r.assignment_hash_key s)
  unfolding submit_report_route
  submit_report_route-Authorised m r authorization x_node_token s enabled some_node =
      guarded_ind
        (λ (t : StoreState F).
          (t ≡ s)
          ⊎ (((token : String) × (p : TokenPayload) × (presented_token authorization x_node_token
                  ≡ some token)
                × Authentic manager m.now token (some r.node_id) p
                × (p.node_id ≡ r.node_id))
              × Authorised F cfg m r.job_id r.node_id r.assignment_hash_key s))
        (require_node_token settings manager m.now r.node_id authorization x_node_token) s
        (respond_or_missing 409 (submit_replica F cfg m r s).0, (submit_replica F cfg m r s).1)
        (inl refl)
        (λ passed. elim (submit_replica-Authorised F cfg m r s) [
          | inl same ↦ inl same
          | inr authorised ↦ inr (
            require_node_token_granted manager settings m.now r.node_id authorization x_node_token
                enabled some_node passed,
            authorised,
          )
        ])
