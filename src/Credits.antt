-- ===== src/Credits.antt =====
-- backend/app/services/credit_ledger.py: the accounts, the transactions and the operations of
-- `CreditLedger`. An operation returns its result, or what it raises, beside the ledger it leaves.
-- Each runs under the one lock, so it is one step.
pub mod Balances
pub mod Idempotent
pub mod Conservation
pub mod History
pub mod Routes
mod Examples
use hyper_looms.Prelude.{
  ℕ, String, Bool, ◌&&◌, ◌||◌, not, true, false, Option, none, some, List, [], ◌∷◌, ◌++◌, reverse,
  ◌==◌, string_eq, pair_eq, option_eq, if◌then◌else◌, or_else, take, filter, max, min,
}
use hyper_looms.Float.{FloatOps, max_float, min_float}
use hyper_looms.Dict.{Dict, get, put}
use hyper_looms.Result.{Result, ok, err, value_error, key_error, concat}
use hyper_looms.Text.{lower, model_size}
use hyper_looms.Models.Job.{JobConfig}
use hyper_looms.Models.Credits.{
  CreditAccountType, user, node, platform, account_type_eq, account_type_value,
  CreditTransactionType, CreditAccount, CreditTransaction,
}

-- What a call reads from outside: the clock and a fresh `uuid4`.
pub record Call : Type 0 where
  pub now : ℕ
  pub uuid : String

abbrev pub platform_account_id : String
platform_account_id = "platform-reserve"

module _ (F : FloatOps) where
  open F use {Float, lit, add, sub, mul, div, lt, le, round}

  pub record CreditLedger : Type 0 where
    pub accounts : Dict (CreditAccountType × String) (CreditAccount F)
    pub transactions : List (CreditTransaction F)
    pub idempotency : Dict String (CreditTransaction F)
    pub bootstrap_user_credits : Float

  -- The keyword arguments of `transfer`.
  pub record TransferArgs : Type 0 where
    pub from_account_type : CreditAccountType
    pub from_account_id : String
    pub to_account_type : CreditAccountType
    pub to_account_id : String
    pub amount : Float
    pub txn_type : CreditTransactionType
    pub reason : String
    pub reference_id : Option String
    pub idempotency_key : Option String
    pub allow_negative_source : Bool

  abbrev pub source_key : TransferArgs → CreditAccountType × String
  source_key a = (a.from_account_type, a.from_account_id)

  abbrev pub target_key : TransferArgs → CreditAccountType × String
  target_key a = (a.to_account_type, a.to_account_id)

  -- `CreditLedger.__init__`
  pub new_ledger : Float → CreditLedger
  new_ledger bootstrap = record {
    accounts = [];
    transactions = [];
    idempotency = [];
    bootstrap_user_credits = max_float F (lit 0 0) bootstrap;
  }

  unfoldable pub estimate_job_cost : JobConfig F → Float
  unfolding lower model_size
  estimate_job_cost config =
      let size_hint : Float = elim (model_size (lower config.model)) [
        | some n ↦ lit n 0
        | none ↦ lit 130 1
      ] in
      let token_factor =
        max_float F (lit 5 1)
          (min_float F (lit 40 1) (div (lit config.max_tokens 0) (lit 1024 0))) in
      let replica_factor = max 1 config.replicas in
      let base = add (add (lit 35 2) (mul size_hint (lit 28 3))) (mul token_factor (lit 22 2)) in
      round (max_float F (lit 25 2) (mul base (lit replica_factor 0))) 4

  -- the balance of an account that is opened on first use
  abbrev pub seed : CreditLedger → CreditAccountType → Float
  seed led t = if t == user then led.bootstrap_user_credits else lit 0 0

  abbrev pub new_account : Call → CreditLedger → CreditAccountType → String → CreditAccount F
  new_account call led t i = record {
    account_type = t;
    account_id = i;
    balance = seed led t;
    created_at = call.now;
    updated_at = call.now;
  }

  -- `self._accounts.get(…)`, or a new account that is not yet stored
  abbrev pub account_or_new : Call → CreditLedger → CreditAccountType → String → CreditAccount F
  account_or_new call led t i = or_else (get led.accounts (t, i)) (new_account call led t i)

  abbrev pub set_balance : Call → CreditAccount F → Float → CreditAccount F
  set_balance call a b = record a { balance = b; updated_at = call.now }

  pub get_account :
      Call
      → CreditAccountType
      → String
      → Bool
      → CreditLedger
      → Result (CreditAccount F) × CreditLedger
  get_account call t i create_if_missing led = elim (get led.accounts (t, i)) [
    | some a ↦ (ok a, led)
    | none ↦
        if create_if_missing
        then (
          ok (new_account call led t i),
          record led { accounts = put led.accounts (t, i) (new_account call led t i) },
        )
        else (
          err (key_error (concat ("account_not_found: " ∷ account_type_value t ∷ ":" ∷ i ∷ []))),
          led,
        )
  ]

  -- the transaction that `idempotency_key` stands for already; an empty key counts as none
  abbrev pub replayed : CreditLedger → Option String → Option (CreditTransaction F)
  replayed led none = none
  replayed led (some k) = if k == "" then none else get led.idempotency k

  abbrev pub remember :
      Option String
      → CreditTransaction F
      → Dict String (CreditTransaction F)
      → Dict String (CreditTransaction F)
  remember none txn d = d
  remember (some k) txn d = if k == "" then d else put d k txn

  abbrev pub append_transaction : Option String → CreditTransaction F → CreditLedger → CreditLedger
  append_transaction key txn led = record led {
    transactions = led.transactions ++ txn ∷ [];
    idempotency = remember key txn led.idempotency;
  }

  -- A transaction is built, which raises pydantic's `ValidationError` (a `ValueError`, whose text is
  -- pydantic's) unless its amount is above 0, and is then appended and remembered. What was written
  -- to the accounts before stays written.
  abbrev pub record_transaction :
      Option String
      → CreditTransaction F
      → CreditLedger
      → Result (CreditTransaction F) × CreditLedger
  record_transaction key txn led =
      if lt (lit 0 0) txn.amount
      then (ok txn, append_transaction key txn led)
      else (err (value_error "CreditTransaction"), led)

  pub mint :
      Call
      → CreditAccountType
      → String
      → Float
      → String
      → Option String
      → Option String
      → CreditLedger
      → Result (CreditTransaction F) × CreditLedger
  mint call t i amount reason reference_id key led =
      if le amount (lit 0 0)
      then (err (value_error "mint_amount_must_be_positive"), led)
      else elim (replayed led key) [
        | some txn ↦ (ok txn, led)
        | none ↦
            let account = account_or_new call led t i in
            let account' = set_balance call account (round (add account.balance amount) 4) in
            let txn : CreditTransaction F = record {
              id = concat ("txn-" ∷ call.uuid ∷ []);
              type = CreditTransactionType.mint;
              amount = round amount 4;
              from_account_type = none;
              from_account_id = none;
              to_account_type = some t;
              to_account_id = some i;
              reference_id = reference_id;
              reason = reason;
              created_at = call.now;
            } in
            record_transaction key txn (record led { accounts = put led.accounts (t, i) account' })
      ]

  -- the fields of the transaction of a transfer, before they are checked
  abbrev pub transfer_txn : Call → TransferArgs → CreditTransaction F
  transfer_txn call a = record {
    id = concat ("txn-" ∷ call.uuid ∷ []);
    type = a.txn_type;
    amount = round a.amount 4;
    from_account_type = some a.from_account_type;
    from_account_id = some a.from_account_id;
    to_account_type = some a.to_account_type;
    to_account_id = some a.to_account_id;
    reference_id = a.reference_id;
    reason = a.reason;
    created_at = call.now;
  }

  -- `transfer` behind its two early returns: both accounts are read before either is written, and
  -- both are written before the transaction is checked.
  unfoldable pub move :
      Call → TransferArgs → CreditLedger → Result (CreditTransaction F) × CreditLedger
  move call a led =
      let source = account_or_new call led a.from_account_type a.from_account_id in
      let target = account_or_new call led a.to_account_type a.to_account_id in
      let next_source_balance = round (sub source.balance a.amount) 4 in
      if not a.allow_negative_source && lt next_source_balance (lit 0 0)
      then (err (value_error "insufficient_credits"), led)
      else (let source' = set_balance call source (max_float F (lit 0 0) next_source_balance) in
          let target' = set_balance call target (round (add target.balance a.amount) 4) in
          let debited = put led.accounts (source_key a) source' in
          let credited = put debited (target_key a) target' in
          record_transaction a.idempotency_key (transfer_txn call a)
            (record led { accounts = credited }))

  unfoldable pub transfer :
      Call → TransferArgs → CreditLedger → Result (CreditTransaction F) × CreditLedger
  unfolding move
  transfer call a led =
      if le a.amount (lit 0 0)
      then (err (value_error "transfer_amount_must_be_positive"), led)
      else elim (replayed led a.idempotency_key) [
        | some txn ↦ (ok txn, led)
        | none ↦ move call a led
      ]

  abbrev pub charge_args : String → String → Float → TransferArgs
  charge_args user_id job_id amount = record {
    from_account_type = user;
    from_account_id = user_id;
    to_account_type = platform;
    to_account_id = platform_account_id;
    amount = amount;
    txn_type = CreditTransactionType.debit;
    reason = "job_charge";
    reference_id = some job_id;
    idempotency_key = some (concat ("charge:" ∷ job_id ∷ ":" ∷ user_id ∷ []));
    allow_negative_source = false;
  }

  unfoldable pub charge_user_for_job :
      Call → String → String → Float → CreditLedger → Result (CreditTransaction F) × CreditLedger
  unfolding transfer
  charge_user_for_job call user_id job_id amount = transfer call (charge_args user_id job_id amount)

  abbrev pub reward_args : String → String → Float → String → TransferArgs
  reward_args node_id job_id amount reason = record {
    from_account_type = platform;
    from_account_id = platform_account_id;
    to_account_type = node;
    to_account_id = node_id;
    amount = amount;
    txn_type = CreditTransactionType.reward;
    reason = reason;
    reference_id = some job_id;
    idempotency_key = some (concat ("reward:" ∷ job_id ∷ ":" ∷ node_id ∷ ":" ∷ reason ∷ []));
    allow_negative_source = true;
  }

  pub reward_node :
      Call
      → String
      → String
      → Float
      → String
      → CreditLedger
      → Result (CreditTransaction F) × CreditLedger
  unfolding transfer
  reward_node call node_id job_id amount reason =
      transfer call (reward_args node_id job_id amount reason)

  abbrev pub refund_args : String → String → Float → TransferArgs
  refund_args user_id job_id amount = record {
    from_account_type = platform;
    from_account_id = platform_account_id;
    to_account_type = user;
    to_account_id = user_id;
    amount = amount;
    txn_type = CreditTransactionType.refund;
    reason = "job_refund";
    reference_id = some job_id;
    idempotency_key = some (concat ("refund:" ∷ job_id ∷ ":" ∷ user_id ∷ []));
    allow_negative_source = true;
  }

  pub refund_user :
      Call → String → String → Float → CreditLedger → Result (CreditTransaction F) × CreditLedger
  unfolding transfer
  refund_user call user_id job_id amount = transfer call (refund_args user_id job_id amount)

  -- A transaction that debits or credits the account.
  abbrev pub touches : CreditAccountType → String → CreditTransaction F → Bool
  touches t i txn =
      (txn.from_account_type == some t && txn.from_account_id == some i)
      || (txn.to_account_type == some t && txn.to_account_id == some i)

  -- `limit` below 1 counts as 1, so a natural number stands for it.
  pub list_transactions :
      Option CreditAccountType → Option String → ℕ → CreditLedger → List (CreditTransaction F)
  list_transactions (some t) (some i) limit led =
      let items = reverse led.transactions in
      take (max 1 (min 500 limit)) (if i == "" then items else filter (touches t i) items)
  list_transactions _ _ limit led = take (max 1 (min 500 limit)) (reverse led.transactions)
