-- ===== src/Models/Credits.antt =====
-- backend/app/models/credits.py
use hyper_looms.Prelude.{ℕ, String, ◌≡◌, ◌↔◌, Bool, true, false, Option, arith, Eq}
use hyper_looms.Float.{FloatOps}

pub data CreditAccountType : Type 0 where
  user node platform : CreditAccountType

abbrev pub account_type_beq : CreditAccountType → CreditAccountType → Bool
account_type_beq user user = true
account_type_beq node node = true
account_type_beq platform platform = true
account_type_beq _ _ = false

pub account_type_beq_iff : (a b : CreditAccountType) → (account_type_beq a b ≡ true) ↔ (a ≡ b)
account_type_beq_iff a b = ground arith

instance abbrev pub account_type_eq : Eq CreditAccountType
account_type_eq = record { beq = account_type_beq; beq_iff = account_type_beq_iff }

-- the text of a member of the `StrEnum`
abbrev pub account_type_value : CreditAccountType → String
account_type_value user = "user"
account_type_value node = "node"
account_type_value platform = "platform"

pub data CreditTransactionType : Type 0 where
  mint debit reward transfer refund : CreditTransactionType

module _ (F : FloatOps) where
  open F use {Float}

  pub record CreditAccount : Type 0 where
    pub account_type : CreditAccountType
    pub account_id : String
    pub balance : Float
    pub created_at : ℕ
    pub updated_at : ℕ

  -- `metadata` holds the one key "reason", so it is that text. That the amount
  -- is above 0 is checked where a transaction is built (`record_transaction`).
  pub record CreditTransaction : Type 0 where
    pub id : String
    pub type : CreditTransactionType
    pub amount : Float
    pub from_account_type : Option CreditAccountType
    pub from_account_id : Option String
    pub to_account_type : Option CreditAccountType
    pub to_account_id : Option String
    pub reference_id : Option String
    pub reason : String
    pub created_at : ℕ

  -- The bounds on the fields of requests are those of the model: texts of 1 to 200 characters (a
  -- `reference_id` of a transfer may be empty) and amounts above 0 and up to a million.
  pub record CreditMintRequest : Type 0 where
    pub account_type : CreditAccountType
    pub account_id : String
    pub amount : Float
    pub reason : String

  pub record CreditSpendRequest : Type 0 where
    pub user_id : String
    pub amount : Float
    pub reference_id : String
    pub reason : String

  pub record CreditRewardRequest : Type 0 where
    pub node_id : String
    pub amount : Float
    pub reference_id : String
    pub reason : String

  pub record CreditTransferRequest : Type 0 where
    pub from_account_type : CreditAccountType
    pub from_account_id : String
    pub to_account_type : CreditAccountType
    pub to_account_id : String
    pub amount : Float
    pub reference_id : String
    pub reason : String
