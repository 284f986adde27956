-- ===== src/Credits/Conservation.antt =====
-- The supply of credits under transfers, in exact decimal arithmetic.
use hyper_looms.Prelude.{
  Eq, Bool-cases, inl, inr, ℕ, ◌+◌, ◌-◌, ◌%◌, ◌≤◌, ◌<◌, String, ◌≡◌, ap, ◌∙◌, ◌≢◌, none, some, [],
  ◌∷◌, arith, ◌==◌, string_eq, pair_eq,
}
use hyper_looms.Prelude.Int.{ℤ, pos, pos_part, neg_part, ◌+ℤ◌, ◌-ℤ◌, int_laws}
use hyper_looms.Float.Fixed.{fixed, round_to}
use hyper_looms.Float.{max_float}
use hyper_looms.Credits.Idempotent.{transfer_accounts}
use hyper_looms.Dict.{Dict, get, put, get-put_ne}
use hyper_looms.Models.Credits.{CreditAccountType, account_type_eq, CreditAccount}
use hyper_looms.Result.{ok}
use hyper_looms.Credits.{
  Call, CreditLedger, TransferArgs, transfer, replayed, transfer_txn, source_key, target_key,
}

module _ {K : Type 0} ⦃e : Eq K⦄ where
  -- The sum of all balances.
  abbrev pub supply : Dict K (CreditAccount fixed) → ℤ
  supply [] = pos 0
  supply ((_, a) ∷ d) = a.balance +ℤ supply d

  supply-put :
      (d : Dict K (CreditAccount fixed)) (k : K) (a b : CreditAccount fixed)
      → get d k ≡ some a
      → supply (put d k b) +ℤ a.balance ≡ supply d +ℤ b.balance
  unfolding get put
  supply-put [] k a b h = cc
  supply-put ((j, c) ∷ d) k a b h = elim (Bool-cases (j == k)) [
    | inl same ↦
        let e : c ≡ a = ground arith in
        rw same (
          omega (
            int_laws,
            ap (λ (x : CreditAccount fixed). pos_part x.balance) e,
            ap (λ (x : CreditAccount fixed). neg_part x.balance) e,
          ))
    | inr other ↦
        let ih = supply-put d k a b (ground arith) in
        rw other (omega (int_laws, ap pos_part ih, ap neg_part ih))
  ]

-- A debit and a credit of the same amount, not halfway between two multiples of 1e-4, round to
-- opposite changes of balances that are such multiples.
round_opposite :
    (s t a : ℕ)
    → s % 10000 ≡ 0
    → t % 10000 ≡ 0
    → a % 10000 ≢ 5000
    → a ≤ s
    → round_to 10000 (s - a) + round_to 10000 (t + a) ≡ s + t
round_opposite s t a hs ht ha le = ground arith

debit_fixed : (s n : ℕ) → n ≤ s → fixed.round (pos s -ℤ pos n) 4 ≡ pos (round_to 10000 (s - n))
unfolding ◌-ℤ◌
debit_fixed s n h = ground arith

credit_fixed : (t n : ℕ) → fixed.round (pos t +ℤ pos n) 4 ≡ pos (round_to 10000 (t + n))
unfolding ◌+ℤ◌
credit_fixed t n = ground arith

max_fixed : (s : ℕ) → max_float fixed (pos 0) (pos s) ≡ pos s
max_fixed s = ground arith

supply-put_two :
    (d : Dict (CreditAccountType × String) (CreditAccount fixed)) (j k : CreditAccountType × String)
    (a b a' b' : CreditAccount fixed)
    → j ≢ k
    → get d j ≡ some a
    → get d k ≡ some b
    → a'.balance +ℤ b'.balance ≡ a.balance +ℤ b.balance
    → supply (put (put d j a') k b') ≡ supply d
supply-put_two d j k a b a' b' ne ea eb same =
    let one = supply-put d j a a' ea in
    let two = supply-put (put d j a') k b b' (get-put_ne d j k a' ne ∙ eb) in
    omega (
      int_laws,
      ap pos_part one,
      ap neg_part one,
      ap pos_part two,
      ap neg_part two,
      ap pos_part same,
      ap neg_part same,
    )

-- In exact decimal arithmetic, a new transfer between two stored accounts whose balances are
-- multiples of 1e-4, of an amount that the source covers, that is more than half of 1e-4 and not
-- halfway between two such multiples, goes through and leaves the sum of all balances as it was.
pub transfer_conserves :
    (call : Call) (a : TransferArgs fixed) (led : CreditLedger fixed)
    (source target : CreditAccount fixed) (s t n : ℕ)
    → source_key fixed a ≢ target_key fixed a
    → get led.accounts (source_key fixed a) ≡ some source
    → get led.accounts (target_key fixed a) ≡ some target
    → replayed fixed led a.idempotency_key ≡ none
    → source.balance ≡ pos s
    → target.balance ≡ pos t
    → a.amount ≡ pos n
    → s % 10000 ≡ 0
    → t % 10000 ≡ 0
    → n % 10000 ≢ 5000
    → 5000 < n
    → n ≤ s
    → ((transfer fixed call a led).0 ≡ ok (transfer_txn fixed call a))
      × (supply (transfer fixed call a led).1.accounts ≡ supply led.accounts)
transfer_conserves call a led source target s t n ne es et fresh hs ht hn ms mt half pos_n cover =
    let s' = round_to 10000 (s - n) in
    let t' = round_to 10000 (t + n) in
    let (done, accounts) =
      transfer_accounts fixed call a led source target (pos s') (pos t') es et fresh
        (rw hn (ground arith)) (rw (hs, hn) (debit_fixed s n cover))
        (rw (ht, hn) (credit_fixed t n)) (ground arith) (rw hn (ground arith)) in
    (
      done,
      rw (accounts, max_fixed s')
          (supply-put_two led.accounts (source_key fixed a) (target_key fixed a) source target _ _
            ne es et (rw (hs, ht) (omega (int_laws, round_opposite s t n ms mt half cover)))),
    )
