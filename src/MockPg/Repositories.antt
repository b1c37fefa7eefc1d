-- ===== src/MockPg/Repositories.antt =====
-- services/mock-pg/app/infra/repositories: billing_key_repository.py and transaction_repository.py.
use car_pay_in.Base.{Option, String, none, not, some}
use car_pay_in.Exec.{
  Exec, gets, integrity_error, lookup_error, modify, or_raise, pure, raise_if, ◌>>=◌, ◌>>◌,
}
use car_pay_in.Integer.{ℤ}
use car_pay_in.MockPg.{
  BillingKey, Env, PgTransaction, State, TxStatus, active, has_billing_key, has_key, has_order_id,
  key_fits, tx_fits,
}

-- the object that is added; no caller gives an approval number
abbrev pub new_transaction :
    String → String → BillingKey → ℤ → String → TxStatus → Option String → PgTransaction
new_transaction tx_id key key_record amount currency status failed_reason = record {
  pg_tx_id = tx_id;
  billing_key = key_record.billing_key;
  card_token = key_record.card_token;
  card_tx_id = none;
  amount = amount;
  currency = currency;
  approval_no = none;
  status = status;
  idempotency_key = key;
  failed_reason = failed_reason;
}

abbrev pub with_status :
    TxStatus → Option String → Option String → Option String → PgTransaction → PgTransaction
with_status status approval_no card_tx_id failed_reason x = record x {
  status = status;
  approval_no = approval_no;
  card_tx_id = card_tx_id;
  failed_reason = failed_reason;
}

module _ (E : Env) where
  unfoldable pub get_billing_key : String → State E → Option BillingKey
  get_billing_key b s = E.billing_keys.scalar (has_billing_key b) s.billing_keys

  unfoldable pub get_by_order_id : String → State E → Option BillingKey
  get_by_order_id i s = E.billing_keys.scalar (has_order_id i) s.billing_keys

  unfoldable pub add_billing_key : BillingKey → Option BillingKey → Exec (State E) BillingKey
  add_billing_key r (some existing) = pure existing
  add_billing_key r none = do
    fits ← gets (λ s. key_fits (E.billing_keys.rows s.billing_keys) r)
    raise_if (not fits) integrity_error
    modify (λ s. record s { billing_keys = E.billing_keys.insert r s.billing_keys })
    pure r

  unfoldable pub save_billing_key : String → String → String → String → Exec (State E) BillingKey
  save_billing_key order_id billing_key card_token last_four = do
    existing ← gets (get_by_order_id order_id)
    add_billing_key
        (record {
          billing_key = billing_key;
          order_id = order_id;
          card_token = card_token;
          card_last_four = last_four;
          status = active;
        })
        existing

  unfoldable pub get_by_idempotency_key : String → State E → Option PgTransaction
  get_by_idempotency_key k s = E.transactions.scalar (has_key k) s.transactions

  unfoldable pub store_transaction : PgTransaction → Exec (State E) PgTransaction
  store_transaction x = do
    fits ← gets (λ s. tx_fits (E.transactions.rows s.transactions) x)
    raise_if (not fits) integrity_error
    modify (λ s. record s { transactions = E.transactions.insert x s.transactions })
    pure x

  unfoldable pub add_transaction :
      String
      → String
      → String
      → ℤ
      → String
      → TxStatus
      → Option String
      → Option PgTransaction
      → Exec (State E) PgTransaction
  add_transaction tx_id key billing_key amount currency status failed_reason (some existing) =
      pure existing
  add_transaction tx_id key billing_key amount currency status failed_reason none = do
    found ← gets (get_billing_key billing_key)
    key_record ← or_raise found (lookup_error "billing_key_not_found")
    store_transaction (new_transaction tx_id key key_record amount currency status failed_reason)

  unfoldable pub create_transaction :
      String
      → String
      → String
      → ℤ
      → String
      → TxStatus
      → Option String
      → Exec (State E) PgTransaction
  create_transaction tx_id key billing_key amount currency status failed_reason = do
    existing ← gets (get_by_idempotency_key key)
    add_transaction tx_id key billing_key amount currency status failed_reason existing

  unfoldable pub change_transaction : String → (PgTransaction → PgTransaction) → State E → State E
  change_transaction key f s = record s {
    transactions = E.transactions.update (has_key key) f s.transactions;
  }

  unfoldable pub update_transaction_status :
      String → TxStatus → Option String → Option String → Option String → Exec (State E) (Unit {0})
  update_transaction_status key status approval_no card_tx_id failed_reason = do
    transaction ← gets (get_by_idempotency_key key)
    or_raise transaction (lookup_error "transaction_not_found")
    modify (change_transaction key (with_status status approval_no card_tx_id failed_reason))
