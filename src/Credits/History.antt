-- ===== src/Credits/History.antt =====
-- The list of transactions: it only grows, and it is listed newest first.
use mathlib.Core.List.{reverse-append, reverse-cons, append-nil}
use native.Mathlib.Numerals.{sub-one}
use hyper_looms.Prelude.{
  ℕ, zero, suc, ◌-◌, ◌<◌, refl, String, ◌≡◌, true, Bool, none, some, List, [], ◌∷◌, ◌++◌, reverse,
  arith, Option, ◌||◌, if◌then◌else◌, is_some, ap, sym, ◌∙◌, inl, inr, Bool-cases, drop,
  take-append-drop, length-take, length-append, take, filter, length, max, min, ◌==◌, string_eq,
  pair_eq,
}
use hyper_looms.Float.{FloatOps}
use hyper_looms.Result.{ok, err}
use hyper_looms.Models.Credits.{CreditAccountType, account_type_eq, CreditTransaction}
use hyper_looms.Credits.{
  Call, CreditLedger, TransferArgs, move, transfer, replayed, touches, list_transactions,
}

module _ {ℓ} {A : Type ℓ} where
  filter_all : (p : A → Bool) (xs : List A) → ((x : A) → p x ≡ true) → filter p xs ≡ xs
  filter_all p [] h = refl
  filter_all p (x ∷ xs) h = rw (h x, filter_all p xs h) refl

  filter_same : (p q : A → Bool) (xs : List A) → ((x : A) → p x ≡ q x) → filter p xs ≡ filter q xs
  filter_same p q [] h = refl
  filter_same p q (x ∷ xs) h = rw (h x, filter_same p q xs h) refl

  filter-append : (p : A → Bool) (xs ys : List A) → filter p (xs ++ ys) ≡ filter p xs ++ filter p ys
  filter-append p [] ys = refl
  filter-append p (x ∷ xs) ys = ground (arith, filter-append p xs ys)

  filter-reverse : (p : A → Bool) (xs : List A) → filter p (reverse xs) ≡ reverse (filter p xs)
  filter-reverse p [] = refl
  filter-reverse p (x ∷ xs) = elim (Bool-cases (p x)) [
    | inl kept ↦
        rw (reverse-cons, filter-append p (reverse xs) (x ∷ []), filter-reverse p xs, kept)
          (sym (reverse-cons x (filter p xs)))
    | inr gone ↦
        rw (reverse-cons, filter-append p (reverse xs) (x ∷ []), filter-reverse p xs, gone)
          (append-nil (reverse (filter p xs)))
  ]

  length-reverse : (xs : List A) → length (reverse xs) ≡ length xs
  length-reverse [] = refl
  length-reverse (x ∷ xs) =
      rw reverse-cons (omega (arith, length-append (reverse xs) (x ∷ []), length-reverse xs))

  -- The first n of a list that is `selected` in reverse.
  take-reverse :
      (n : ℕ) (selected items : List A)
      → items ≡ reverse selected
      → (length (take n items) ≡ min n (length selected))
        × ((older : List A) × (reverse selected ≡ take n items ++ older))
  take-reverse n selected items e = (
    omega (arith, length-take n items, ap length e, length-reverse selected),
    (drop n items, sym e ∙ sym (take-append-drop n items)),
  )

take_newest {ℓ} :
    {A : Type ℓ} (x : A) (xs ys : List A) (n : ℕ)
    → ys ≡ xs ++ x ∷ []
    → 0 < n
    → take n (reverse ys) ≡ x ∷ take (n - 1) (reverse xs)
take_newest x xs ys zero e h = absurd (omega arith)
take_newest x xs ys (suc n) e h = rw (e, reverse-append) (rw sub-one refl)

module _ (F : FloatOps) where
  open F use {Float, lit, le}

  -- A call of `transfer` adds the transaction that it returns at the end of the list when its key
  -- was not on record; a call that raises, or that repeats a key, leaves the list as it was.
  pub transfer_appends :
      (call : Call) (a : TransferArgs F) (led : CreditLedger F)
      → (transfer F call a led).1.transactions ≡ elim (transfer F call a led).0 [
        | err e ↦ led.transactions
        | ok txn ↦
            if is_some (replayed F led a.idempotency_key)
            then led.transactions
            else led.transactions ++ txn ∷ []
      ]
  unfolding transfer move
  transfer_appends call a led = ground arith

  -- A new transfer that returns a transaction makes it the first of the listed ones, before those
  -- that were listed.
  pub transfer_listed_first :
      (call : Call) (a : TransferArgs F) (led : CreditLedger F) (txn : CreditTransaction F)
      (limit : ℕ)
      → replayed F led a.idempotency_key ≡ none
      → (transfer F call a led).0 ≡ ok txn
      → list_transactions F none none limit (transfer F call a led).1
        ≡ txn ∷ take (max 1 (min 500 limit) - 1) (reverse led.transactions)
  unfolding transfer move list_transactions
  transfer_listed_first call a led txn limit fresh h =
      let grown : (transfer F call a led).1.transactions ≡ led.transactions ++ txn ∷ [] =
        ground arith in
      take_newest txn led.transactions _ (max 1 (min 500 limit)) grown (omega arith)

  -- A listing selects by account where a type and a non-empty id are given.
  abbrev pub is_listed : Option CreditAccountType → Option String → CreditTransaction F → Bool
  is_listed (some t) (some i) txn = i == "" || touches F t i txn
  is_listed _ _ txn = true

  -- A listing in any of its forms begins the list, newest first, of the transactions that debit or
  -- credit the account, or of all where none is named, and it has all of these up to `limit`,
  -- which counts as 1 at least and 500 at most.
  pub list_transactions_lem :
      (t : Option CreditAccountType) (i : Option String) (limit : ℕ) (led : CreditLedger F)
      → let selected = filter (is_listed t i) led.transactions in
        (length (list_transactions F t i limit led) ≡ min (max 1 (min 500 limit)) (length selected))
        × ((older : List (CreditTransaction F)) × (reverse selected
              ≡ list_transactions F t i limit led ++ older))
  unfolding list_transactions
  list_transactions_lem (some t) (some i) limit led = elim (Bool-cases (i == "")) [
    | inl unnamed ↦
        let p = is_listed (some t) (some i) in
        let all = filter_all p led.transactions (λ x. rw unnamed refl) in
        take-reverse (max 1 (min 500 limit)) (filter p led.transactions)
          (if i == ""
            then reverse led.transactions
            else filter (touches F t i) (reverse led.transactions))
          (rw (unnamed, all) refl)
    | inr named ↦
        let p = is_listed (some t) (some i) in
        let same = filter_same p (touches F t i) led.transactions (λ x. rw named refl) in
        take-reverse (max 1 (min 500 limit)) (filter p led.transactions)
          (if i == ""
            then reverse led.transactions
            else filter (touches F t i) (reverse led.transactions))
          (rw (named, same) (filter-reverse (touches F t i) led.transactions))
  ]
  list_transactions_lem none i limit led =
      let all = filter_all (is_listed none i) led.transactions (λ x. refl) in
      take-reverse (max 1 (min 500 limit)) (filter (is_listed none i) led.transactions)
        (reverse led.transactions) (ap reverse (sym all))
  list_transactions_lem (some t) none limit led =
      let all = filter_all (is_listed (some t) none) led.transactions (λ x. refl) in
      take-reverse (max 1 (min 500 limit)) (filter (is_listed (some t) none) led.transactions)
        (reverse led.transactions) (ap reverse (sym all))
