-- ===== src/Backend/Transactions.antt =====
-- services/carpayin-backend/app/infra/repositories/transaction_repository.py, and the methods of
-- parking_session_repository.py and billing_key_repository.py beside it that payment uses.
use car_pay_in.Backend.Env.{Env, State, parse_uuid}
use car_pay_in.Backend.Models.{
  ParkingSession, PaymentNotification, PaymentNotificationOutbox, SessionStatus, Transaction,
  TransactionStatus, VehicleBillingKey, completed, has_car, has_key, has_session_id, is_usable,
  notifies, pending, success, transaction_fits, waiting,
}
use car_pay_in.Base.{Option, String, if◌then◌else◌, none, not, or_else, some, ℕ}
use car_pay_in.DateTime.{utc_now}
use car_pay_in.Exec.{
  Exec, gets, integrity_error, lift, lookup_error, modify, or_raise, pure, raise_if, ◌>>=◌, ◌>>◌,
}

-- the object that `create_pending_transaction` adds
abbrev pub pending_transaction :
    String → String → ParkingSession → ℕ → String → String → Transaction
pending_transaction tx_id key parking_session amount currency billing_key = record {
  tx_id = tx_id;
  session_id = parking_session.session_id;
  car_id = parking_session.car_id;
  billing_key = billing_key;
  pg_tx_id = none;
  amount = amount;
  currency = currency;
  status = pending;
  approval_no = none;
  idempotency_key = key;
  failed_reason = none;
}

-- the object that `mark_success_and_enqueue_payment_notification` adds
abbrev pub new_notification :
    ℕ → String → Transaction → String → PaymentNotification → PaymentNotificationOutbox
new_notification now notification_id transaction destination payload = record {
  notification_id = notification_id;
  tx_id = transaction.tx_id;
  session_id = transaction.session_id;
  car_id = transaction.car_id;
  event_type = "payment.completed";
  destination = destination;
  payload = payload;
  status = waiting;
  attempts = 0;
  max_attempts = 5;
  next_attempt_at = utc_now now;
  published_at = none;
  failed_reason = none;
  created_at = utc_now now;
}

-- the columns that a change of the status writes
abbrev pub with_status :
    TransactionStatus → Option String → Option String → Option String → Transaction → Transaction
with_status status pg_tx_id approval_no failed_reason r = record r {
  status = status;
  pg_tx_id = pg_tx_id;
  approval_no = approval_no;
  failed_reason = failed_reason;
}

-- `exit_time` is set once
abbrev pub with_session_status : ℕ → SessionStatus → ParkingSession → ParkingSession
with_session_status now completed r = record r {
  status = completed;
  exit_time = or_else r.exit_time (some (utc_now now));
}
with_session_status now status r = record r { status = status }

module _ (E : Env) where
  unfoldable pub find_session : String → State E → Option ParkingSession
  find_session i s = E.sessions.scalar (has_session_id i) s.sessions

  unfoldable pub get_session_by_id : String → Exec (State E) (Option ParkingSession)
  get_session_by_id session_id = do i ← lift (parse_uuid E session_id); gets (find_session i)

  -- Only a change to `active` could break a constraint, and no caller makes one.
  unfoldable pub update_session_status : ℕ → String → SessionStatus → Exec (State E) (Unit {0})
  update_session_status now session_id status = do
    i ← lift (parse_uuid E session_id)
    found ← gets (find_session i)
    or_raise found (lookup_error "session_not_found")
    modify (λ s. record s {
      sessions = E.sessions.update (has_session_id i) (with_session_status now status) s.sessions;
    })

  abbrev pub when_usable : Option VehicleBillingKey → Option VehicleBillingKey
  when_usable none = none
  when_usable (some r) = if is_usable r.status then some r else none

  unfoldable pub get_active_billing_key : String → State E → Option VehicleBillingKey
  get_active_billing_key car s = when_usable (E.billing_keys.scalar (has_car car) s.billing_keys)

  unfoldable pub get_transaction_by_idempotency_key : String → State E → Option Transaction
  get_transaction_by_idempotency_key k s = E.transactions.scalar (has_key k) s.transactions

  unfoldable pub add_transaction : Transaction → Exec (State E) (Unit {0})
  add_transaction transaction = do
    fits ← gets (λ s. transaction_fits (E.transactions.rows s.transactions) transaction)
    raise_if (not fits) integrity_error
    modify (λ s. record s { transactions = E.transactions.insert transaction s.transactions })

  unfoldable pub create_pending_transaction :
      String → String → String → ℕ → String → String → Exec (State E) (Unit {0})
  create_pending_transaction tx_id key session_id amount currency billing_key = do
    parking_session_id ← lift (parse_uuid E session_id)
    found ← gets (find_session parking_session_id)
    parking_session ← or_raise found (lookup_error "session_not_found")
    i ← lift (parse_uuid E tx_id)
    add_transaction (pending_transaction i key parking_session amount currency billing_key)

  abbrev pub change_transaction : String → (Transaction → Transaction) → State E → State E
  change_transaction key f s = record s {
    transactions = E.transactions.update (has_key key) f s.transactions;
  }

  unfoldable pub require_transaction : String → Exec (State E) Transaction
  require_transaction key = do
    transaction ← gets (get_transaction_by_idempotency_key key)
    or_raise transaction (lookup_error "transaction_not_found")

  unfoldable pub update_transaction_status :
      String
      → TransactionStatus
      → Option String
      → Option String
      → Option String
      → Exec (State E) (Unit {0})
  update_transaction_status key status pg_tx_id approval_no failed_reason = do
    require_transaction key
    modify (change_transaction key (with_status status pg_tx_id approval_no failed_reason))

  -- one notification for each transaction and event
  unfoldable pub add_notification :
      PaymentNotificationOutbox → Option PaymentNotificationOutbox → Exec (State E) (Unit {0})
  add_notification notification (some known) = pure tt
  add_notification notification none =
      modify (λ s. record s { outbox = E.outbox.insert notification s.outbox })

  unfoldable pub mark_success_and_enqueue_payment_notification :
      ℕ
      → String
      → String
      → Option String
      → String
      → String
      → PaymentNotification
      → Exec (State E) (Unit {0})
  mark_success_and_enqueue_payment_notification now notification_id key pg_tx_id approval_no
        destination payload =
      do
        transaction ← require_transaction key
        modify (change_transaction key (with_status success pg_tx_id (some approval_no) none))
        existing_notification ←
            gets (λ s. E.outbox.scalar (notifies transaction.tx_id "payment.completed") s.outbox)
        add_notification (new_notification now notification_id transaction destination payload)
            existing_notification
