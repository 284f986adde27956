-- ===== src/Credits/Examples.antt =====
-- Tests of the credit ledger, and its theorems at concrete ledgers and transfers. Amounts are in
-- `fixed`, where one credit is 10^8.
use mathlib.Core.Option
use hyper_looms.Prelude.{
  ◌⊎◌, ℕ, List, filter, min, max, reverse, is_some, if◌then◌else◌, String, ◌≡◌, refl, false, none,
  some, [], ◌∷◌, ◌++◌, length, arith, string_eq, pair_eq, ne_of_beq,
}
use hyper_looms.Prelude.Int.{ℤ, ◌+ℤ◌, ◌-ℤ◌}
use hyper_looms.Float.Fixed.{fixed, fixed-FloatLaws}
use hyper_looms.Dict.{get, put}
use hyper_looms.Result.{ok, err, value_error}
use hyper_looms.Text.{lower, model_size}
use hyper_looms.Models.Credits.{
  CreditAccountType, user, node, account_type_eq, CreditTransactionType, CreditAccount,
  CreditTransaction,
}
use hyper_looms.Credits.{
  Call, CreditLedger, TransferArgs, new_ledger, estimate_job_cost, move, transfer, transfer_txn,
  list_transactions, charge_user_for_job, reward_node, reward_args, replayed,
}
use hyper_looms.Credits.Routes.{transfer_credits}
use hyper_looms.Models.Credits.{CreditTransferRequest}
use hyper_looms.Credits.Balances.{IsValid, transfer-IsValid, new_ledger-IsValid}
use hyper_looms.Credits.Idempotent.{
  LedgerStep, LedgerSteps, transfer_atomic, transfer_replay, self_transfer_credits,
}
use hyper_looms.Credits.Conservation.{supply, transfer_conserves}
use hyper_looms.Credits.History.{is_listed, transfer_appends, list_transactions_lem}

abbrev first_call : Call
first_call = record { now = 1000; uuid = "a1" }

abbrev second_call : Call
second_call = record { now = 2000; uuid = "b2" }

abbrev credits : ℕ → ℤ
credits n = fixed.lit n 0

abbrev account : CreditAccountType → String → ℕ → CreditAccount fixed
account t i n = record {
  account_type = t;
  account_id = i;
  balance = credits n;
  created_at = 0;
  updated_at = 0;
}

-- ann has 10 credits, node n1 has 2
abbrev ledger : CreditLedger fixed
ledger = record {
  accounts = ((user, "ann"), account user "ann" 10) ∷ ((node, "n1"), account node "n1" 2) ∷ [];
  transactions = [];
  idempotency = [];
  bootstrap_user_credits = credits 5;
}

abbrev pay : CreditAccountType → String → ℕ → TransferArgs fixed
pay t i n = record {
  from_account_type = user;
  from_account_id = "ann";
  to_account_type = t;
  to_account_id = i;
  amount = credits n;
  txn_type = CreditTransactionType.transfer;
  reason = "gift";
  reference_id = none;
  idempotency_key = some "k1";
  allow_negative_source = false;
}

seed_ledger-IsValid : IsValid fixed fixed-FloatLaws (new_ledger fixed (credits 5))
seed_ledger-IsValid = new_ledger-IsValid fixed fixed-FloatLaws (credits 5)

transfer-IsValid_example :
    IsValid fixed fixed-FloatLaws
      (transfer fixed first_call (pay node "n1" 4) (new_ledger fixed (credits 5))).1
transfer-IsValid_example =
    transfer-IsValid fixed fixed-FloatLaws first_call (pay node "n1" 4)
      (new_ledger fixed (credits 5)) seed_ledger-IsValid

-- 0.00004, which rounds to zero, is refused after both accounts are written
abbrev dust_args : TransferArgs fixed
dust_args = record (pay node "n1" 4) { amount = fixed.lit 4 5 }

test_transfer_tiny : transfer fixed first_call dust_args ledger ≡ (
  err (value_error "CreditTransaction"),
  record ledger {
    accounts =
        ((user, "ann"), record (account user "ann" 10) { updated_at = 1000 })
        ∷ ((node, "n1"), record (account node "n1" 2) { updated_at = 1000 })
        ∷ [];
  },
)
unfolding transfer move get put ◌+ℤ◌ ◌-ℤ◌
test_transfer_tiny = refl

transfer_atomic_example :
    ((transfer fixed first_call dust_args ledger).1 ≡ ledger)
    ⊎ ((fixed.lt (fixed.lit 0 0) (fixed.round dust_args.amount 4) ≡ false)
        × ((transfer fixed first_call dust_args ledger).1.transactions ≡ ledger.transactions)
        × ((transfer fixed first_call dust_args ledger).1.idempotency ≡ ledger.idempotency))
unfolding transfer move get ◌+ℤ◌ ◌-ℤ◌
transfer_atomic_example =
    transfer_atomic fixed first_call dust_args ledger (value_error "CreditTransaction") refl

-- ann pays n1 under "k1", and then gets a reward under another key
abbrev paid_ledger : CreditLedger fixed
paid_ledger = (transfer fixed first_call (pay node "n1" 4) ledger).1

abbrev later_args : TransferArgs fixed
later_args = reward_args fixed "n1" "j1" (credits 3) "job_execution"

abbrev later_ledger : CreditLedger fixed
later_ledger = (transfer fixed first_call later_args paid_ledger).1

transfer_replay_example :
    transfer fixed second_call (pay user "bob" 7) later_ledger
    ≡ (ok (transfer_txn fixed first_call (pay node "n1" 4)), later_ledger)
unfolding transfer move get ◌+ℤ◌ ◌-ℤ◌
transfer_replay_example =
    transfer_replay fixed first_call second_call (pay node "n1" 4) (pay user "bob" 7) ledger
      later_ledger "k1" (transfer_txn fixed first_call (pay node "n1" 4)) refl refl
      (ne_of_beq "k1" "" refl) refl refl
      (LedgerSteps.next LedgerSteps.here (LedgerStep.transfers first_call later_args paid_ledger))

self_transfer_credits_example :
    Option.map
      (λ (x : CreditAccount fixed). x.balance)
      (get (transfer fixed first_call (pay user "ann" 4) ledger).1.accounts (user, "ann"))
    ≡ some (credits 14)
unfolding transfer move get ◌+ℤ◌ ◌-ℤ◌
self_transfer_credits_example =
    self_transfer_credits fixed first_call (pay user "ann" 4) ledger (account user "ann" 10)
      (transfer_txn fixed first_call (pay user "ann" 4)) refl refl refl refl refl

transfer_conserves_example :
    ((transfer fixed first_call (pay node "n1" 4) ledger).0
      ≡ ok (transfer_txn fixed first_call (pay node "n1" 4)))
    × (supply (transfer fixed first_call (pay node "n1" 4) ledger).1.accounts
        ≡ supply ledger.accounts)
unfolding get ◌+ℤ◌ ◌-ℤ◌
transfer_conserves_example =
    transfer_conserves first_call (pay node "n1" 4) ledger (account user "ann" 10)
      (account node "n1" 2) 1000000000 200000000 400000000 (λ e. ground arith) refl refl refl refl
      refl refl refl refl (λ e. ground arith) (omega arith) (omega arith)

transfer_appends_example :
    (transfer fixed first_call (pay node "n1" 4) ledger).1.transactions
    ≡ elim (transfer fixed first_call (pay node "n1" 4) ledger).0 [
      | err e ↦ []
      | ok txn ↦ if is_some (replayed fixed ledger (some "k1")) then [] else [] ++ txn ∷ []
    ]
transfer_appends_example = transfer_appends fixed first_call (pay node "n1" 4) ledger

list_transactions_lem_example :
    let selected = filter (is_listed fixed (some node) (some "n1")) paid_ledger.transactions in
    (length (list_transactions fixed (some node) (some "n1") 600 paid_ledger)
      ≡ min (max 1 (min 500 600)) (length selected))
    × ((older : List (CreditTransaction fixed)) × (reverse selected
          ≡ list_transactions fixed (some node) (some "n1") 600 paid_ledger ++ older))
list_transactions_lem_example = list_transactions_lem fixed (some node) (some "n1") 600 paid_ledger

-- a 7b model, 2048 tokens, two replicas: 2 × (0.35 + 7 × 0.028 + 2 × 0.22)
test_estimate_job_cost :
    estimate_job_cost fixed (record {
      model = "llama-7B";
      replicas = 2;
      max_tokens = 2048;
      temperature = credits 0;
      provider = "";
      preferred_region = none;
    })
    ≡ fixed.lit 1972 3
unfolding estimate_job_cost lower model_size ◌+ℤ◌ ◌-ℤ◌
test_estimate_job_cost = refl

-- a reward from an empty reserve is paid all the same
test_reward_node :
    get
      (reward_node fixed first_call "n1" "j1" (credits 3) "job_execution" ledger).1.accounts
      (node, "n1")
    ≡ some (record (account node "n1" 5) { updated_at = 1000 })
unfolding reward_node transfer move get put ◌+ℤ◌ ◌-ℤ◌
test_reward_node = refl

-- a user who is new to the ledger is charged from the bootstrap balance
test_charge_user_for_job :
    (charge_user_for_job fixed first_call "bob" "j1" (credits 6) ledger).0
    ≡ err (value_error "insufficient_credits")
unfolding charge_user_for_job transfer move get ◌+ℤ◌ ◌-ℤ◌
test_charge_user_for_job = refl

abbrev manual : String → CreditTransferRequest fixed
manual target = record {
  from_account_type = user;
  from_account_id = "ann";
  to_account_type = user;
  to_account_id = target;
  amount = credits 4;
  reference_id = "";
  reason = "gift";
}

-- a second transfer without a reference, to another user, returns the first and moves nothing
test_transfer_credits :
    transfer_credits fixed second_call
      (manual "cid")
      (transfer_credits fixed first_call (manual "bob") ledger).1
    ≡ transfer_credits fixed first_call (manual "bob") ledger
unfolding transfer_credits transfer move get put ◌+ℤ◌ ◌-ℤ◌
test_transfer_credits = refl
