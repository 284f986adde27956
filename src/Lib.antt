-- ===== src/Lib.antt =====
-- The coordinator of HyperLooms: the services of backend/app/services that share out jobs over
-- nodes, check the results, and keep the credits.
--
-- Parts and files:
-- * Credits (services/credit_ledger.py): `CreditLedger`, its accounts, transactions and idempotency
--   keys. Balances, Idempotent, Conservation and History hold its theorems; Routes is
--   api/routes/credits.py.
-- * Overlay (services/p2p_overlay.py): `P2POverlayService`. Overlay/Decide is
--   `decide_job_assignment`, with the votes in Overlay/Decide/Votes; Gossip, Decision and Merging
--   hold the theorems.
-- * Scheduler (services/scheduler.py): `WeightedScheduler`, with Ranking and Scores.
-- * Verifier (services/verifier.py): `ResultVerifier`, its vectors in Verifier/Vectors, its theorems
--   in Majority.
-- * Store (services/state_store.py): `InMemoryStateStore`. State holds its fields and plain reads,
--   Nodes the operations on nodes, Planning the number and the choice of replicas, Keys the
--   assignment hash keys, Jobs the creation of jobs, Claim `claim_next_job`, Submit `_submit_replica`,
--   Evaluate `_evaluate_job`, Expire the watchdog, Stats the reports. Authority, Grants, Verdicts and
--   Health hold theorems; Lifecycle has the phases of a job, the invariant on jobs and claims, and
--   that every operation keeps it, a file for each group of operations.
-- * Orchestrator (services/orchestrator.py): `JobOrchestrator`; Charges and Queueing hold its theorems.
-- * NodeAuth (services/node_auth.py, core/security.py): `NodeTokenManager` and the checks of keys and
--   tokens; Tokens holds the theorems.
-- * Coordinator (main.py and the routes): all operations on the store as one step relation, with its
--   reachable states; Soundness and Progress hold the theorems on them. Routes is api/routes/nodes.py
--   and jobs.py, which bring the tokens, the store and the orchestrator together.
-- * Training (services/training_metadata_store.py, services/training_orchestrator.py): Rows and Metadata
--   are the store of training runs over the database of Tables, Estimate and Runs the orchestrator.
--   Effects says what each operation makes of the rows, Ticks and Progress what ticks lead to,
--   Lifecycle and Reachable how a run may move, Requests what the service promises. Routes is
--   api/routes/training.py, and RowTables a database on which the laws hold.
-- * Models (backend/app/models): the records and enumerations, a file for each file there.
-- Prelude, Dict, Result, Text and Float stand for the parts of Python that the program uses.
--
-- How they interact: the orchestrator charges the ledger and puts a job in the store; a node claims
-- it, for which the store asks the scheduler for a ranking; its report makes the store evaluate the
-- job, ask the verifier for a verdict, adjust trust, and pay rewards or a refund from the ledger.
-- The training service reads the nodes of the store, charges its ledger, and keeps its runs in a
-- database of its own. The overlay stands beside them.
--
-- How the code is modelled:
-- * An object is a record, and a method a function from it to its result and the new record. What a
--   method raises is the value `err` of `Result`, beside the state it leaves behind. The methods are
--   `async`; the services wait for their own locks, and each call is one step. `submit_job` and
--   `retry_job` of the orchestrator wait for the sockets of the hub as well: `retry_job` does so before
--   it appends its log entry, and the interleavings of that wait are those of a submission and a later
--   append of a log entry, which the step relation of Coordinator has as two steps.
-- * `float` is the parameter `FloatOps`, with the laws in `FloatLaws` where a theorem needs them.
--   `fixed` of Float/Fixed is an instance with eight decimal digits that has all these laws.
-- * Times are naturals in microseconds, and a call reads the clock once (`Call`, `Moment`). The
--   `uuid4`, the nonce, SHA-256 and HMAC are parameters as well. Whether
--   a time carries its zone is kept for `last_seen` of a peer (`has_zone`), which the code compares with
--   what a sender gives. That SQLite gives times back without their zone is not modelled: the time of
--   a row is its instant.
-- * SQLAlchemy's tables are the parameter `TableOps`, with the documented behaviour of a table under
--   its primary key in `TableLaws`. That the database raises is modelled for the insert of a training
--   run (`database_error`), which follows a charge; the other sessions are modelled where they commit.
--   The enumerations of the training models are texts (`StrEnum`), so a column holds the member.
--   `random()` and the format `.1f` are parameters.
-- * base64 with its padding, HMAC-SHA256 and JSON are the parameter `TokenCrypto`; what a theorem needs of
--   base64 is `Encodes`.
-- * A `CreditTransaction` is checked where it is built, after the accounts are written: an amount that
--   rounds to zero raises a `value_error` there (`record_transaction`).
-- * A request that reaches a service satisfies the bounds of its model. Where a theorem needs one it
--   is a hypothesis; the `JobConfig` that `estimate_compute` builds itself is checked in the model.
-- * The number of steps per epoch is a quotient of naturals rounded up, which is what Python's `ceil`
--   of the float gives below 2^53 samples.
-- * Text operations are those of ASCII text, and `int()` of a key's expiry reads unsigned digits.
-- * Of the metadata of a transaction its reason is kept, of `verification_details` the majority
--   nodes. A Python set that is gone through in a loop is gone through in order of insertion.
-- * Loops are structural recursion over the list that the code goes through, so there is no fuel.
--   The bisection of the square root in `fixed` takes 40 steps.
-- * The `RuntimeError` of `claim_next_job` for a key that was not issued cannot be raised, as the key
--   is never empty, and is left out.
--
-- Not modelled: the other HTTP routes, the WebSocket hub, the set-up of the database,
-- the node agent in Hyperlooms_Node and the frontend.
pub mod Prelude
pub mod Float
pub mod Dict
pub mod Result
pub mod Text
pub mod Models
pub mod Credits
pub mod Overlay
pub mod Scheduler
pub mod Verifier
pub mod Store
pub mod Orchestrator
pub mod NodeAuth
pub mod Coordinator
pub mod Training
