-- ===== src/MockPg/Charge/Ledger.antt =====
-- The ledger that a client of the mock PG sees: what is answered under each idempotency key.
use car_pay_in.Base.{
  Bool, Option, String, [], ap, arith, eq_iff, eq_refl, false, if◌then◌else◌, map_option, none,
  refl, some, true, ◌++◌, ◌==◌, ◌∙◌, ◌∷◌, ◌≡◌,
}
use car_pay_in.Exec.{Exception, Result, err, ok}
use car_pay_in.MockPg.{
  Approval, BillingKey, Env, IsLawful, PgTransaction, State, failed, has_key, pending,
}
use car_pay_in.MockPg.Charge.{
  ChargeBillingKeyCommand, ChargeBillingKeyResult, charge_billing_key, result_of, status_or_success,
}
use car_pay_in.MockPg.Charge.Ends.{
  Run, answer_at, asked, asked_state, clash, decided, numbered, repeated, transaction_of, unknown,
  unusable,
}
use car_pay_in.MockPg.Charge.Runs.{charge-Run}
use car_pay_in.MockPg.Repositories.{change_transaction, get_by_idempotency_key, with_status}
use car_pay_in.Table.{amend-append_new, first-append}

-- the answer that is kept under a key
abbrev pub Ledger : Type 0
Ledger = String → Option ChargeBillingKeyResult

-- What a charge under `key` may do to a ledger: the first answer that is kept stays.
pub data Charged (key : String) (l : Ledger) : ChargeBillingKeyResult → Ledger → Type 0 where
  same_answer :
      {r : ChargeBillingKeyResult} {m : Ledger}
      → l key ≡ some r
      → ((k : String) → m k ≡ l k)
      → Charged key l r m
  new_answer :
      {r : ChargeBillingKeyResult} {m : Ledger}
      → l key ≡ none
      → ((k : String) → m k ≡ (if key == k then some r else l k))
      → Charged key l r m
  -- an unknown billing key: failed, and nothing is kept
  no_answer :
      {r : ChargeBillingKeyResult} {m : Ledger}
      → l key ≡ none
      → r.status ≡ failed
      → ((k : String) → m k ≡ l k)
      → Charged key l r m

module _ (E : Env) where
  unfoldable pub ledger : State E → Ledger
  ledger s k = map_option result_of (get_by_idempotency_key E k s)

  -- a return does what `Charged` allows, a raise leaves the ledger as it was
  pub data Refines (key : String) (s : State E)
      : Result ChargeBillingKeyResult × State E → Type 0 where
    returns_with :
        {r : ChargeBillingKeyResult} {t : State E}
        → Charged key (ledger s) r (ledger t)
        → Refines key s (ok r, t)
    raises_only :
        {e : Exception} {t : State E}
        → ((k : String) → ledger t k ≡ ledger s k)
        → Refines key s (err e, t)

module _ (E : Env) where
  -- a decision changes neither the key nor the amount nor the card token
  pub decided-same :
      (a : Result Approval) (x : PgTransaction)
      → ((decided E a x).idempotency_key ≡ x.idempotency_key)
        × ((decided E a x).amount ≡ x.amount)
        × ((decided E a x).card_token ≡ x.card_token)
  unfolding decided
  decided-same (err e) x = (refl, refl, refl)
  decided-same (ok a) x = by_test (status_or_success a.status == "success") a.approval_no
    where
      by_test :
          (d : Bool) (o : Option (Option String))
          → let z =
              if d
              then numbered a.tx_id o x
              else with_status failed none a.tx_id (some "card_payment_failed") x in
            (z.idempotency_key ≡ x.idempotency_key)
            × (z.amount ≡ x.amount)
            × (z.card_token ≡ x.card_token)
      by_test false o = (refl, refl, refl)
      by_test true none = (refl, refl, refl)
      by_test true (some n) = (refl, refl, refl)

module _ {E : Env} (L : IsLawful E) where
  module _ (tx_hex : String) (c : ChargeBillingKeyCommand) (b : BillingKey) (s : State E)
      (new : get_by_idempotency_key E c.idempotency_key s ≡ none) where
    -- asking the card company leaves one more row, with its decision
    pub asked-rows :
        E.transactions.rows (asked_state E tx_hex c b s).transactions
        ≡ E.transactions.rows s.transactions
          ++ decided E (answer_at E tx_hex c b s) (transaction_of tx_hex c b pending none) ∷ []
    unfolding change_transaction get_by_idempotency_key
    asked-rows =
        let before =
          rw (L.transactions.scalar-rows (has_key c.idempotency_key) s.transactions) at new in
        rw (L.transactions.rows-update, L.transactions.rows-insert)
          (amend-append_new (has_key c.idempotency_key) _ _ _ before (eq_refl c.idempotency_key))

  -- one more row, under a new key
  pub appended-found :
      (x : PgTransaction) (s t : State E)
      → get_by_idempotency_key E x.idempotency_key s ≡ none
      → E.transactions.rows t.transactions ≡ E.transactions.rows s.transactions ++ x ∷ []
      → (k : String)
      → get_by_idempotency_key E k t
        ≡ (if x.idempotency_key == k then some x else get_by_idempotency_key E k s)
  unfolding get_by_idempotency_key
  appended-found x s t new rows k =
      rw (L.transactions.scalar-rows, L.transactions.scalar-rows, rows, first-append)
        (ground (
          arith,
          rw (L.transactions.scalar-rows (has_key x.idempotency_key) s.transactions) at new,
          eq_iff x.idempotency_key k,
        ))

  appended-ledger :
      (x : PgTransaction) (s t : State E)
      → get_by_idempotency_key E x.idempotency_key s ≡ none
      → E.transactions.rows t.transactions ≡ E.transactions.rows s.transactions ++ x ∷ []
      → (k : String)
      → ledger E t k ≡ (if x.idempotency_key == k then some (result_of x) else ledger E s k)
  unfolding ledger
  appended-ledger x s t new rows k =
      rw (appended-found x s t new rows k) (by_test (x.idempotency_key == k))
    where
      by_test :
          (d : Bool)
          → map_option result_of (if d then some x else get_by_idempotency_key E k s) ≡ (
              if d then some (result_of x) else map_option result_of (get_by_idempotency_key E k s))
      by_test true = refl
      by_test false = refl

  ledger-known :
      (k : String) (s : State E) {o : Option PgTransaction}
      → get_by_idempotency_key E k s ≡ o
      → ledger E s k ≡ map_option result_of o
  unfolding ledger
  ledger-known k s found = rw found refl

  Run-Refines :
      (tx_hex : String) (c : ChargeBillingKeyCommand) (s : State E)
      {e : Result ChargeBillingKeyResult × State E}
      → Run E tx_hex c s e
      → Refines E c.idempotency_key s e
  Run-Refines tx_hex c s (repeated x found) =
      returns_with (same_answer (ledger-known c.idempotency_key s found) (λ k. refl))
  Run-Refines tx_hex c s (unknown new missing) =
      returns_with (no_answer (ledger-known c.idempotency_key s new) refl (λ k. refl))
  Run-Refines tx_hex c s (clash b status reason new fails) = raises_only (λ k. refl)
  Run-Refines tx_hex c s (unusable b new found idle fits) = returns_with (
      new_answer (ledger-known c.idempotency_key s new)
        (appended-ledger _ s _ new (L.transactions.rows-insert _ _)))
  Run-Refines tx_hex c s (asked b new found usable fits) =
      let x = decided E (answer_at E tx_hex c b s) (transaction_of tx_hex c b pending none) in
      let same =
        (decided-same E (answer_at E tx_hex c b s) (transaction_of tx_hex c b pending none)).0 in
      returns_with (
        new_answer (ledger-known c.idempotency_key s new) (λ k.
          appended-ledger x s _ (rw same new) (asked-rows tx_hex c b s new) k
          ∙ ap (λ j. if j == k then some (result_of x) else ledger E s k) same))

  -- A charge of a billing key, from any state, with any amount and whatever the card company
  -- answers: it gives the answer that its idempotency key has in the ledger and leaves the ledger
  -- alone; or the key has none, and the answer is entered there and nothing else changes; or the
  -- key has none, the answer is a failure, and the ledger is left alone. If it raises, the ledger
  -- is as before.
  pub charge_billing_key-Refines :
      (tx_hex : String) (c : ChargeBillingKeyCommand) (s : State E)
      → Refines E c.idempotency_key s (charge_billing_key E tx_hex c s)
  charge_billing_key-Refines tx_hex c s = Run-Refines tx_hex c s (charge-Run L tx_hex c s)
