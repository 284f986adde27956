-- ===== src/Credits/Balances.antt =====
-- No balance of the ledger is ever negative, whatever is minted and transferred.
use hyper_looms.Prelude.{
  String, ◌≡◌, true, false, Bool, ◌&&◌, not, Option, some, arith, string_eq, pair_eq, Option-cases,
  inl, inr, if_ind, option_ind,
}
use hyper_looms.Float.{FloatOps, FloatLaws}
use hyper_looms.Float.Clamp.{le-max_left}
use hyper_looms.Dict.{Dict, get, put, get-put, get-empty}
use hyper_looms.Result.{Result}
use hyper_looms.Models.Credits.{
  CreditAccountType, account_type_eq, CreditAccount, CreditTransaction,
}
use hyper_looms.Credits.{
  Call, CreditLedger, TransferArgs, new_account, account_or_new, set_balance, get_account, mint,
  move, transfer, new_ledger, append_transaction, record_transaction, transfer_txn, replayed,
}

module _ (F : FloatOps) (laws : FloatLaws F) where
  open F use {Float, lit, le, add, round}

  -- The account holds zero or more.
  abbrev pub IsNonneg : CreditAccount F → Type 0
  IsNonneg a = le (lit 0 0) a.balance ≡ true

  abbrev Accounts : Type 0
  Accounts = Dict (CreditAccountType × String) (CreditAccount F)

  -- Every account of the ledger holds zero or more, and so does one that is yet to be opened.
  pub record IsValid (led : CreditLedger F) : Type 0 where
    pub at_key :
        (k : CreditAccountType × String) (a : CreditAccount F)
        → get led.accounts k ≡ some a
        → IsNonneg a
    pub bootstrap : le (lit 0 0) led.bootstrap_user_credits ≡ true

  abbrev After {ℓ} : {A : Type ℓ} → Result A × CreditLedger F → Type 0
  After r = IsValid r.1

  put-IsNonneg :
      (d : Accounts) (k : CreditAccountType × String) (b : CreditAccount F)
      → ((j : CreditAccountType × String) (a : CreditAccount F) → get d j ≡ some a → IsNonneg a)
      → IsNonneg b
      → (j : CreditAccountType × String) (a : CreditAccount F) → get (put d k b) j ≡ some a
      → IsNonneg a
  put-IsNonneg d k b h hb j a e = ground (arith, get-put d k j b, h j a)

  seed-IsNonneg :
      (call : Call) (led : CreditLedger F) (t : CreditAccountType) (i : String)
      → IsValid led
      → IsNonneg (new_account F call led t i)
  seed-IsNonneg call led t i v = ground (arith, v.bootstrap, laws.le_refl (lit 0 0))

  account_or_new-IsNonneg :
      (call : Call) (led : CreditLedger F) (t : CreditAccountType) (i : String)
      → IsValid led
      → IsNonneg (account_or_new F call led t i)
  account_or_new-IsNonneg call led t i v = elim (Option-cases (get led.accounts (t, i))) [
    | inl e ↦ ground (arith, v.bootstrap, laws.le_refl (lit 0 0))
    | inr (a, e) ↦ ground (arith, v.at_key (t, i) a)
  ]

  -- A write of a non-negative balance keeps the ledger valid, whatever else of it changes.
  put-IsValid :
      (led : CreditLedger F) (k : CreditAccountType × String) (b : CreditAccount F)
      → IsValid led
      → IsNonneg b
      → IsValid (record led { accounts = put led.accounts k b })
  put-IsValid led k b v hb = record {
    at_key = put-IsNonneg led.accounts k b v.at_key hb;
    bootstrap = v.bootstrap;
  }

  append-IsValid :
      (key : Option String) (txn : CreditTransaction F) (led : CreditLedger F)
      → IsValid led
      → IsValid (append_transaction F key txn led)
  append-IsValid key txn led v = record { at_key = v.at_key; bootstrap = v.bootstrap }

  record_transaction-IsValid :
      (key : Option String) (txn : CreditTransaction F) (led : CreditLedger F)
      → IsValid led
      → IsValid (record_transaction F key txn led).1
  record_transaction-IsValid key txn led v =
      if_ind After (F.lt (lit 0 0) txn.amount) (λ _. append-IsValid key txn led v) (λ _. v)

  -- Opening an account, or not finding one, keeps every balance at zero or more.
  pub get_account-IsValid :
      (call : Call) (t : CreditAccountType) (i : String) (create : Bool) (led : CreditLedger F)
      → IsValid led
      → IsValid (get_account F call t i create led).1
  unfolding get_account
  get_account-IsValid call t i create led v =
      option_ind After (get led.accounts (t, i))
        (λ _.
          if_ind After create
            (λ _.
              put-IsValid led (t, i) (new_account F call led t i) v (seed-IsNonneg call led t i v))
            (λ _. v))
        (λ _ _. v)

  -- A credit: the balance read, plus a non-negative amount, rounded.
  credit-IsNonneg :
      (call : Call) (a : CreditAccount F) (amount : Float)
      → IsNonneg a
      → le amount (lit 0 0) ≡ false
      → IsNonneg (set_balance F call a (round (add a.balance amount) 4))
  credit-IsNonneg call a amount ha pos =
      laws.round_nonneg _ 4
        (laws.add_nonneg a.balance amount ha (laws.le_total amount (lit 0 0) pos))

  -- Minting, also a refused or a repeated one, keeps every balance at zero or more.
  pub mint-IsValid :
      (call : Call) (t : CreditAccountType) (i : String) (amount : Float) (reason : String)
      (ref key : Option String) (led : CreditLedger F)
      → IsValid led
      → IsValid (mint F call t i amount reason ref key led).1
  unfolding mint
  mint-IsValid call t i amount reason ref key led v =
      if_ind After (le amount (lit 0 0)) (λ _. v)
        (λ pos.
          option_ind After (replayed F led key)
            (λ _. record_transaction-IsValid key _ _ (
              put-IsValid led (t, i) _ v
                (credit-IsNonneg call (account_or_new F call led t i) amount
                  (account_or_new-IsNonneg call led t i v) pos)))
            (λ _ _. v))

  move-IsValid :
      (call : Call) (a : TransferArgs F) (led : CreditLedger F)
      → IsValid led
      → le a.amount (lit 0 0) ≡ false
      → IsValid (move F call a led).1
  unfolding move
  move-IsValid call a led v pos =
      if_ind After (not a.allow_negative_source && F.lt _ (lit 0 0)) (λ _. v)
        (λ _. record_transaction-IsValid a.idempotency_key (transfer_txn F call a) _ (
          put-IsValid
            (record led { accounts = put led.accounts (a.from_account_type, a.from_account_id) _ })
            (a.to_account_type, a.to_account_id) _
            (put-IsValid led (a.from_account_type, a.from_account_id) _ v (le-max_left F laws _ _))
            (credit-IsNonneg call (account_or_new F call led a.to_account_type a.to_account_id)
              a.amount (account_or_new-IsNonneg call led a.to_account_type a.to_account_id v) pos)))

  -- A transfer, also a refused or a repeated one, keeps every balance at zero or more, even where
  -- the source may be overdrawn.
  pub transfer-IsValid :
      (call : Call) (a : TransferArgs F) (led : CreditLedger F)
      → IsValid led
      → IsValid (transfer F call a led).1
  unfolding transfer
  transfer-IsValid call a led v =
      if_ind After (le a.amount (lit 0 0)) (λ _. v)
        (λ pos.
          option_ind After (replayed F led a.idempotency_key) (λ _. move-IsValid call a led v pos)
            (λ _ _. v))

  -- A new ledger has no accounts, and its bootstrap balance is not negative.
  pub new_ledger-IsValid : (bootstrap : Float) → IsValid (new_ledger F bootstrap)
  unfolding new_ledger
  new_ledger-IsValid bootstrap = record {
    at_key = λ k a e. cc (get-empty {V = CreditAccount F} k);
    bootstrap = le-max_left F laws (lit 0 0) bootstrap;
  }
