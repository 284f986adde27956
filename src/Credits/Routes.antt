-- ===== src/Credits/Routes.antt =====
-- backend/app/api/routes/credits.py: what the HTTP routes ask of the ledger, and the status that a
-- `ValueError` becomes. The API key of the administrator is checked before.
use hyper_looms.Prelude.{
  ℕ, String, true, false, Option, none, some, List, [], ◌∷◌, ◌==◌, string_eq, if◌then◌else◌,
}
use hyper_looms.Float.{FloatOps}
use hyper_looms.Result.{Result, Error, ok, err, value_error, concat}
use hyper_looms.Models.Credits.{
  CreditAccountType, user, platform, account_type_value, CreditTransactionType, CreditAccount,
  CreditTransaction, CreditMintRequest, CreditSpendRequest, CreditRewardRequest,
  CreditTransferRequest,
}
use hyper_looms.Credits.{
  Call, CreditLedger, TransferArgs, platform_account_id, get_account, mint, transfer, reward_node,
  list_transactions,
}

-- The reply of a route: its value, an `HTTPException`, or an exception that the route lets through.
pub data Response {ℓ} (A : Type ℓ) : Type ℓ where
  replied : A → Response A
  http_exception : ℕ → String → Response A
  raised : Error → Response A

-- a result whose `ValueError` becomes the status
abbrev pub respond {ℓ} : {A : Type ℓ} → ℕ → Result A → Response A
respond status (ok a) = replied a
respond status (err (value_error e)) = http_exception status e
respond status (err e) = raised e

abbrev pub let_through {ℓ} : {A : Type ℓ} → Result A → Response A
let_through (ok a) = replied a
let_through (err e) = raised e

module _ (F : FloatOps) where
  pub account_balance :
      Call
      → CreditAccountType
      → String
      → CreditLedger F
      → Response (CreditAccount F × List (CreditTransaction F)) × CreditLedger F
  account_balance call t i led =
      let (account, led') = get_account F call t i true led in
      let recent = list_transactions F (some t) (some i) 50 led' in
      (let_through (elim account [ ok a ↦ ok (a, recent) | err e ↦ err e ]), led')

  pub list_credit_transactions :
      Option CreditAccountType
      → Option String
      → ℕ
      → CreditLedger F
      → Response (List (CreditTransaction F))
  list_credit_transactions (some t) (some i) limit led =
      replied (list_transactions F (some t) (some i) limit led)
  list_credit_transactions none none limit led = replied (list_transactions F none none limit led)
  list_credit_transactions _ _ limit led =
      http_exception 422 "account_type and account_id must be used together"

  pub mint_credits :
      Call → CreditMintRequest F → CreditLedger F → Response (CreditTransaction F) × CreditLedger F
  mint_credits call payload led =
      let reference =
        concat
          ("mint:" ∷ account_type_value payload.account_type ∷ ":" ∷ payload.account_id ∷ []) in
      let (result, led') =
        mint F call payload.account_type payload.account_id payload.amount payload.reason
          (some reference) none led in
      (let_through result, led')

  abbrev pub spend_args : CreditSpendRequest F → TransferArgs F
  spend_args payload = record {
    from_account_type = user;
    from_account_id = payload.user_id;
    to_account_type = platform;
    to_account_id = platform_account_id;
    amount = payload.amount;
    txn_type = CreditTransactionType.debit;
    reason = payload.reason;
    reference_id = some payload.reference_id;
    idempotency_key =
        some (concat ("manual-spend:" ∷ payload.reference_id ∷ ":" ∷ payload.user_id ∷ []));
    allow_negative_source = false;
  }

  pub spend_credits :
      Call → CreditSpendRequest F → CreditLedger F → Response (CreditTransaction F) × CreditLedger F
  spend_credits call payload led =
      let (result, led') = transfer F call (spend_args payload) led in (respond 402 result, led')

  pub reward_credits :
      Call
      → CreditRewardRequest F
      → CreditLedger F
      → Response (CreditTransaction F) × CreditLedger F
  reward_credits call payload led =
      let (result, led') =
        reward_node F call payload.node_id payload.reference_id payload.amount payload.reason led in
      (let_through result, led')

  abbrev pub manual_transfer_args : CreditTransferRequest F → TransferArgs F
  manual_transfer_args payload = record {
    from_account_type = payload.from_account_type;
    from_account_id = payload.from_account_id;
    to_account_type = payload.to_account_type;
    to_account_id = payload.to_account_id;
    amount = payload.amount;
    txn_type = CreditTransactionType.transfer;
    reason = payload.reason;
    reference_id = if payload.reference_id == "" then none else some payload.reference_id;
    idempotency_key = some (
        concat (
          "manual-transfer:"
          ∷ payload.reference_id
          ∷ ":"
          ∷ account_type_value payload.from_account_type
          ∷ ":"
          ∷ payload.from_account_id
          ∷ []));
    allow_negative_source = false;
  }

  unfoldable pub transfer_credits :
      Call
      → CreditTransferRequest F
      → CreditLedger F
      → Response (CreditTransaction F) × CreditLedger F
  transfer_credits call payload led =
      let (result, led') = transfer F call (manual_transfer_args payload) led in
      (respond 409 result, led')
