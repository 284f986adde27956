-- ===== src/Credits/Idempotent.antt =====
-- What a transfer does when it raises, when it is repeated, and to other accounts.
use hyper_looms.Prelude.{
  ◌⊎◌, inl, inr, Bool-cases, String, Bool, Option, ◌≡◌, ◌≢◌, ◌∙◌, ap, true, false, none, some,
  arith, ◌==◌, string_eq, pair_eq, beq_ne, not, ◌&&◌, if_ind, option_ind,
}
use mathlib.Core.Option
use hyper_looms.Float.{FloatOps, max_float}
use hyper_looms.Dict.{Dict, get, put, get-put_self, get-put_ne}
use hyper_looms.Result.{Error, Result, ok, err}
use hyper_looms.Models.Credits.{
  CreditAccountType, account_type_eq, CreditAccount, CreditTransaction,
}
use hyper_looms.Credits.{
  Call, CreditLedger, TransferArgs, charge_args, charge_user_for_job, move, transfer, replayed,
  remember, record_transaction, get_account, mint, source_key, target_key, transfer_txn,
  set_balance,
}

module _ (F : FloatOps) where
  open F use {Float, lit, le, lt, add, sub, round}

  -- A transfer that raises leaves the whole ledger as it was, unless its amount does not round to
  -- more than zero: then it may raise after both accounts are written, and leaves the transactions
  -- and the keys as they were.
  pub transfer_atomic :
      (call : Call) (a : TransferArgs F) (led : CreditLedger F) (e : Error)
      → (transfer F call a led).0 ≡ err e
      → ((transfer F call a led).1 ≡ led)
        ⊎ ((lt (lit 0 0) (round a.amount 4) ≡ false)
            × ((transfer F call a led).1.transactions ≡ led.transactions)
            × ((transfer F call a led).1.idempotency ≡ led.idempotency))
  unfolding transfer move
  transfer_atomic call a led e h = elim (Bool-cases (lt (lit 0 0) (round a.amount 4))) [
    | inl recorded ↦ inl (ground arith)
    | inr unrecorded ↦ inr (unrecorded, ground arith, ground arith)
  ]

  -- A charge of an amount that does not round to zero, and that raises, leaves the whole ledger as
  -- it was.
  pub charge_user_for_job_atomic :
      (call : Call) (user_id job_id : String) (amount : Float) (led : CreditLedger F) (e : Error)
      → lt (lit 0 0) (round amount 4) ≡ true
      → (charge_user_for_job F call user_id job_id amount led).0 ≡ err e
      → (charge_user_for_job F call user_id job_id amount led).1 ≡ led
  unfolding charge_user_for_job
  charge_user_for_job_atomic call user_id job_id amount led e recorded h =
      elim (transfer_atomic call (charge_args F user_id job_id amount) led e h) [
        | inl same ↦ same
        | inr (unrecorded, _, _) ↦ absurd (ground arith)
      ]

  -- A stored key keeps its transaction when another is recorded.
  get-remember :
      (d : Dict String (CreditTransaction F)) (key : Option String) (k : String)
      (txn other : CreditTransaction F)
      → key ≢ some k
      → get d k ≡ some txn
      → get (remember F key other d) k ≡ some txn
  get-remember d none k txn other apart found = found
  get-remember d (some j) k txn other apart found =
      let ne : j ≢ k = λ e. apart (ap some e) in
      if_ind (λ (t : Dict String (CreditTransaction F)). get t k ≡ some txn) (j == "") (λ _. found)
        (λ _. get-put_ne d j k other ne ∙ found)

  -- One call of the ledger, whatever its outcome. `charge_user_for_job`, `reward_node` and
  -- `refund_user` are transfers.
  pub data LedgerStep : CreditLedger F → CreditLedger F → Type 0 where
    reads :
        (call : Call) (t : CreditAccountType) (i : String) (create : Bool) (led : CreditLedger F)
        → LedgerStep led (get_account F call t i create led).1
    mints :
        (call : Call) (t : CreditAccountType) (i : String) (amount : Float) (reason : String)
        (ref key : Option String) (led : CreditLedger F)
        → LedgerStep led (mint F call t i amount reason ref key led).1
    transfers :
        (call : Call) (a : TransferArgs F) (led : CreditLedger F)
        → LedgerStep led (transfer F call a led).1

  pub data LedgerSteps (led : CreditLedger F) : CreditLedger F → Type 0 where
    here : LedgerSteps led led
    next : {b c : CreditLedger F} → LedgerSteps led b → LedgerStep b c → LedgerSteps led c

  -- The key is on record for the transaction.
  abbrev pub Remembers : String → CreditTransaction F → CreditLedger F → Type 0
  Remembers k txn led = replayed F led (some k) ≡ some txn

  record_transaction-Remembers :
      (key : Option String) (k : String) (txn other : CreditTransaction F) (led : CreditLedger F)
      → replayed F led key ≡ none
      → Remembers k txn led
      → Remembers k txn (record_transaction F key other led).1
  record_transaction-Remembers key k txn other led fresh kept =
      let apart : key ≢ some k = λ e. absurd (ground arith) in
      let named : (k == "") ≡ false = ground arith in
      let found : get led.idempotency k ≡ some txn = ground arith in
      let still = get-remember led.idempotency key k txn other apart found in
      if_ind (λ (t : Result (CreditTransaction F) × CreditLedger F). Remembers k txn t.1)
        (lt (lit 0 0) other.amount) (λ _. rw named still) (λ _. kept)

  move-Remembers :
      (call : Call) (a : TransferArgs F) (led : CreditLedger F) (k : String)
      (txn : CreditTransaction F)
      → replayed F led a.idempotency_key ≡ none
      → Remembers k txn led
      → Remembers k txn (move F call a led).1
  unfolding move
  move-Remembers call a led k txn fresh kept =
      if_ind (λ (t : Result (CreditTransaction F) × CreditLedger F). Remembers k txn t.1)
        (not a.allow_negative_source && lt _ (lit 0 0)) (λ _. kept)
        (λ _.
          record_transaction-Remembers a.idempotency_key k txn (transfer_txn F call a)
            (record led { accounts = _ }) fresh kept)

  -- No call of the ledger forgets a key or changes what it stands for.
  pub LedgerStep-Remembers :
      {b c : CreditLedger F} (k : String) (txn : CreditTransaction F)
      → LedgerStep b c
      → Remembers k txn b
      → Remembers k txn c
  unfolding get_account mint transfer
  LedgerStep-Remembers k txn (reads call t i create led) kept =
      let P : Result (CreditAccount F) × CreditLedger F → Type 0 = λ r. Remembers k txn r.1 in
      option_ind P (get led.accounts (t, i)) (λ _. if_ind P create (λ _. kept) (λ _. kept))
        (λ _ _. kept)
  LedgerStep-Remembers k txn (mints call t i amount reason ref key led) kept =
      let P : Result (CreditTransaction F) × CreditLedger F → Type 0 = λ r. Remembers k txn r.1 in
      if_ind P (le amount (lit 0 0)) (λ _. kept)
        (λ _.
          option_ind P (replayed F led key)
            (λ fresh.
              record_transaction-Remembers key k txn _ (record led { accounts = _ }) fresh kept)
            (λ _ _. kept))
  LedgerStep-Remembers k txn (transfers call a led) kept =
      let P : Result (CreditTransaction F) × CreditLedger F → Type 0 = λ r. Remembers k txn r.1 in
      if_ind P (le a.amount (lit 0 0)) (λ _. kept)
        (λ _.
          option_ind P (replayed F led a.idempotency_key)
            (λ fresh. move-Remembers call a led k txn fresh kept) (λ _ _. kept))

  pub LedgerSteps-Remembers :
      {b c : CreditLedger F} (k : String) (txn : CreditTransaction F)
      → LedgerSteps b c
      → Remembers k txn b
      → Remembers k txn c
  LedgerSteps-Remembers k txn here kept = kept
  LedgerSteps-Remembers k txn (next steps step) kept =
      LedgerStep-Remembers k txn step (LedgerSteps-Remembers k txn steps kept)

  transfer_again :
      (call : Call) (a : TransferArgs F) (led : CreditLedger F) (txn : CreditTransaction F)
      → le a.amount (lit 0 0) ≡ false
      → replayed F led a.idempotency_key ≡ some txn
      → transfer F call a led ≡ (ok txn, led)
  unfolding transfer
  transfer_again call a led txn pos kept = ground arith

  replayed-transfer :
      (call : Call) (a : TransferArgs F) (led : CreditLedger F) (k : String)
      (txn : CreditTransaction F)
      → a.idempotency_key ≡ some k
      → k ≢ ""
      → (transfer F call a led).0 ≡ ok txn
      → Remembers k txn (transfer F call a led).1
  unfolding transfer move
  replayed-transfer call a led k txn ek nk h =
      ground (arith, beq_ne k "" nk, get-put_self led.idempotency k txn)

  -- Once a transfer under a non-empty key has returned a transaction, every later transfer of a
  -- positive amount under that key returns the same transaction and changes nothing, whatever its
  -- other arguments are and whatever the ledger did in between.
  pub transfer_replay :
      (call later : Call) (a b : TransferArgs F) (led led' : CreditLedger F) (k : String)
      (txn : CreditTransaction F)
      → a.idempotency_key ≡ some k
      → b.idempotency_key ≡ some k
      → k ≢ ""
      → le b.amount (lit 0 0) ≡ false
      → (transfer F call a led).0 ≡ ok txn
      → LedgerSteps (transfer F call a led).1 led'
      → transfer F later b led' ≡ (ok txn, led')
  transfer_replay call later a b led led' k txn ea eb nk pos h steps =
      let kept = LedgerSteps-Remembers k txn steps (replayed-transfer call a led k txn ea nk h) in
      transfer_again later b led' txn pos (rw eb kept)

  -- A transfer touches no third account.
  pub transfer_others :
      (call : Call) (a : TransferArgs F) (led : CreditLedger F) (k : CreditAccountType × String)
      → (a.from_account_type, a.from_account_id) ≢ k
      → (a.to_account_type, a.to_account_id) ≢ k
      → get (transfer F call a led).1.accounts k ≡ get led.accounts k
  unfolding transfer move
  transfer_others call a led k nf nt = grind (arith, get-put_ne)

  -- A transfer from a stored account to itself leaves it with its balance plus the amount, rounded:
  -- the debit is overwritten by the credit, which was computed from the balance before it.
  pub self_transfer_credits :
      (call : Call) (a : TransferArgs F) (led : CreditLedger F) (acct : CreditAccount F)
      (txn : CreditTransaction F)
      → a.to_account_type ≡ a.from_account_type
      → a.to_account_id ≡ a.from_account_id
      → get led.accounts (a.from_account_type, a.from_account_id) ≡ some acct
      → replayed F led a.idempotency_key ≡ none
      → (transfer F call a led).0 ≡ ok txn
      → Option.map
          (λ (x : CreditAccount F). x.balance)
          (get (transfer F call a led).1.accounts (a.from_account_type, a.from_account_id))
        ≡ some (round (add acct.balance a.amount) 4)
  unfolding transfer move
  self_transfer_credits call a led acct txn et ei e fresh h = grind (arith, get-put_self)

  -- The accounts after a new transfer that goes through between two stored accounts.
  pub transfer_accounts :
      (call : Call) (a : TransferArgs F) (led : CreditLedger F) (source target : CreditAccount F)
      (debited credited : Float)
      → get led.accounts (source_key F a) ≡ some source
      → get led.accounts (target_key F a) ≡ some target
      → replayed F led a.idempotency_key ≡ none
      → le a.amount (lit 0 0) ≡ false
      → round (sub source.balance a.amount) 4 ≡ debited
      → round (add target.balance a.amount) 4 ≡ credited
      → lt debited (lit 0 0) ≡ false
      → lt (lit 0 0) (round a.amount 4) ≡ true
      → ((transfer F call a led).0 ≡ ok (transfer_txn F call a))
        × ((transfer F call a led).1.accounts
            ≡ put
                (put led.accounts
                  (source_key F a)
                  (set_balance F call source (max_float F (lit 0 0) debited)))
                (target_key F a)
                (set_balance F call target credited))
  unfolding transfer move
  transfer_accounts call a led source target debited credited es et fresh pos rd rc covered
        recorded =
      ground arith
