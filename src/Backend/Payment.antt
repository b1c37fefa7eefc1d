-- ===== src/Backend/Payment.antt =====
-- services/carpayin-backend/app/application/payment/process_payment.py, wired as in
-- services/carpayin-backend/app/api/deps.py, with the stores of
-- services/carpayin-backend/app/infra/redis/stores.py that it uses.
pub mod Keeps
pub mod OneCharge
pub mod Runs
pub mod Accept
pub mod Outcomes
pub mod Atomic
pub mod Again
use car_pay_in.Backend.Models.{all_of}
use car_pay_in.Backend.Env.{Env, State, charge, notify_pms, publish_payment, record_call, text_of}
use car_pay_in.Backend.Models.{
  FeeQuote, ParkingSession, PaymentNotification, PaymentRetry, PmsPayment, Transaction,
  TransactionStatus, VehicleBillingKey, completed, failed, success,
}
use car_pay_in.Backend.Transactions.{
  create_pending_transaction, get_active_billing_key, get_session_by_id,
  get_transaction_by_idempotency_key, mark_success_and_enqueue_payment_notification,
  update_session_status, update_transaction_status,
}
use car_pay_in.Base.{
  Bool, Option, String, false, if◌then◌else◌, none, not, some, suc, true, zero, ℕ, ◌&&◌, ◌*◌, ◌<>◌,
  ◌==◌,
}
use car_pay_in.Exec.{
  Exec, Result, catch, err, gets, lift, modify, ok, or_raise, pure, raise, raise_if, value_error,
  ◌>>=◌, ◌>>◌,
}
use car_pay_in.Integer.{int_beq, negsuc, pos, str, ℤ}

abbrev pub payment_notify_retry_ttl_seconds : ℕ
payment_notify_retry_ttl_seconds = 7 * 24 * 60 * 60

pub record ProcessPaymentCommand : Type 0 where
  pub access_token : String
  pub session_id : String
  pub amount : ℤ
  pub currency : String

pub record ProcessPaymentResult : Type 0 where
  pub status : TransactionStatus
  pub tx_id : String
  pub session_id : Option String
  pub approval_no : Option String
  pub failed_reason : Option String
  pub amount : Option ℤ
  pub currency : Option String

-- what `charge_billing_key` returns: a reason of the refusal, or `pg_tx_id` and `approval_no`
pub data ChargeAnswer : Type 0 where
  refused : String → ChargeAnswer
  approved : Option String → String → ChargeAnswer

-- How the calls of other processes end, the text of `uuid4()`, and the id of a new outbox row.
pub record PaymentOutcome : Type 0 where
  pub pg : Result ChargeAnswer
  pub pms : Result (Unit {0})
  pub publisher : Result (Unit {0})
  pub tx_uuid : String
  pub notification_id : String

abbrev pub answer :
    TransactionStatus → String → Option String → Option String → ProcessPaymentResult
answer status tx_id approval_no failed_reason = record {
  status = status;
  tx_id = tx_id;
  session_id = none;
  approval_no = approval_no;
  failed_reason = failed_reason;
  amount = none;
  currency = none;
}

abbrev pub quote_key : String → String
quote_key session_id = "parking_fee_quote:" <> session_id

abbrev pub payment_retry_key : String → String
payment_retry_key tx_id = "pms_payment_retry:" <> tx_id

module _ (E : Env) where
  unfoldable pub get_quote : ℕ → String → State E → Option FeeQuote
  get_quote now session_id s = E.quotes.get now (quote_key session_id) s.quotes

  unfoldable pub idempotency_key_of : ProcessPaymentCommand → String → String
  idempotency_key_of c car_id = E.sha256 (c.session_id <> car_id <> str c.amount <> c.currency)

  -- `RedisPaymentNotifyRetryStore.record_retry_event` and `clear_retry_event`; a connection to Redis
  -- that fails is left out, here and in every store
  unfoldable pub record_retry_event : ℕ → PaymentRetry → Exec (State E) (Unit {0})
  record_retry_event now event = modify (λ s. record s {
    payment_retries =
        E.payment_retries.set now (payment_retry_key event.tx_id) event
          (some payment_notify_retry_ttl_seconds) s.payment_retries;
  })

  unfoldable pub clear_retry_event : String → Exec (State E) (Unit {0})
  clear_retry_event tx_id = modify (λ s. record s {
    payment_retries = E.payment_retries.delete (payment_retry_key tx_id) s.payment_retries;
  })

  module _ (now : ℕ) (out : PaymentOutcome) (c : ProcessPaymentCommand) where
    abbrev pub pms_payload : ParkingSession → String → Option String → String → PmsPayment
    pms_payload session tx_id approval_no key = record {
      pms_session_id = session.pms_session_id;
      carpay_parking_session_id = c.session_id;
      carpay_tx_id = tx_id;
      amount = c.amount;
      currency = c.currency;
      approval_no = approval_no;
      idempotency_key = key;
    }

    -- a notification that fails is kept for the retry worker, one that succeeds is forgotten
    unfoldable pub after_notify : PmsPayment → Result (Unit {0}) → Exec (State E) (Unit {0})
    after_notify payload (ok _) = clear_retry_event payload.carpay_tx_id
    after_notify payload (err e) = record_retry_event now (record {
      event_type = "pms_payment_notify";
      tx_id = payload.carpay_tx_id;
      payload = all_of payload;
      reason = text_of E e;
    })

    unfoldable pub notify_pms_payment_complete :
        ParkingSession → String → Option String → String → Exec (State E) (Unit {0})
    notify_pms_payment_complete session tx_id approval_no key = do
      let payload = pms_payload session tx_id approval_no key
      record_call E (notify_pms payload)
      after_notify payload out.pms

    abbrev pub build_payment_notification_payload :
        ParkingSession → String → String → String → PaymentNotification
    build_payment_notification_payload session tx_id car_id approval_no = record {
      event_type = "payment.completed";
      tx_id = tx_id;
      session_id = c.session_id;
      car_id = car_id;
      lot_id = session.lot_id;
      amount = c.amount;
      currency = c.currency;
      approval_no = approval_no;
    }

    unfoldable pub publish_payment_notification_best_effort :
        PaymentNotification → Exec (State E) (Unit {0})
    publish_payment_notification_best_effort payload =
        catch (do record_call E (publish_payment payload); lift out.publisher) (λ _. pure tt)

    -- the repository in use has the method that enqueues, so the answer is `True`
    unfoldable pub mark_payment_success :
        String → Option String → String → PaymentNotification → Exec (State E) Bool
    mark_payment_success key pg_tx_id approval_no payload = do
      mark_success_and_enqueue_payment_notification E now out.notification_id key pg_tx_id
          approval_no ("payment/complete/" <> payload.car_id) payload
      pure true

    -- what a free payment and an approved charge have in common
    unfoldable pub complete_payment :
        ParkingSession
        → String
        → String
        → String
        → Option String
        → String
        → Exec (State E) ProcessPaymentResult
    complete_payment session tx_id car_id key pg_tx_id approval_no = do
      let payload = build_payment_notification_payload session tx_id car_id approval_no
      notification_enqueued ← mark_payment_success key pg_tx_id approval_no payload
      update_session_status E now c.session_id completed
      notify_pms_payment_complete session tx_id (some approval_no) key
      if notification_enqueued then pure tt else publish_payment_notification_best_effort payload
      pure (answer success tx_id (some approval_no) none)

    unfoldable pub pay_free : ParkingSession → String → String → Exec (State E) ProcessPaymentResult
    pay_free session car_id key = do
      let tx_id = E.uuid5 key
      create_pending_transaction E tx_id key c.session_id 0 c.currency "FREE"
      complete_payment session tx_id car_id key none "FREE"

    unfoldable pub fail_payment : String → String → String → Exec (State E) ProcessPaymentResult
    fail_payment tx_id key reason = do
      update_transaction_status E key failed none none (some reason)
      pure (answer failed tx_id none (some reason))

    unfoldable pub after_charge :
        ParkingSession → String → String → ChargeAnswer → Exec (State E) ProcessPaymentResult
    after_charge session car_id key (refused reason) = fail_payment out.tx_uuid key reason
    after_charge session car_id key (approved pg_tx_id approval_no) =
        complete_payment session out.tx_uuid car_id key pg_tx_id approval_no

    -- the `try` block around the charge
    unfoldable pub charge_and_complete :
        ParkingSession
        → String
        → String
        → ℕ
        → VehicleBillingKey
        → Exec (State E) ProcessPaymentResult
    charge_and_complete session car_id key amount billing_key_data =
        catch
          (do
            record_call E (charge billing_key_data.billing_key amount c.currency key)
            pg_result ← lift out.pg
            after_charge session car_id key pg_result)
          (λ e. fail_payment out.tx_uuid key (text_of E e))

    unfoldable pub pay_charged :
        ParkingSession
        → String
        → String
        → ℕ
        → Option VehicleBillingKey
        → Exec (State E) ProcessPaymentResult
    pay_charged session car_id key amount none = raise (value_error "no_active_billing_key")
    pay_charged session car_id key amount (some billing_key_data) = do
      create_pending_transaction E out.tx_uuid key c.session_id amount c.currency
          billing_key_data.billing_key
      charge_and_complete session car_id key amount billing_key_data

    -- a payment that is not known by its key
    unfoldable pub pay_new :
        ParkingSession → String → String → ℤ → Exec (State E) ProcessPaymentResult
    pay_new session car_id key (negsuc _) = raise (value_error "invalid_amount")
    pay_new session car_id key (pos zero) = pay_free session car_id key
    pay_new session car_id key (pos (suc n)) = do
      billing_key_data ← gets (get_active_billing_key E car_id)
      pay_charged session car_id key (suc n) billing_key_data

    abbrev pub is_success : TransactionStatus → Bool
    is_success success = true
    is_success _ = false

    -- the parking lot is told again of a payment that succeeded
    unfoldable pub pay_once :
        ParkingSession → String → String → Option Transaction → Exec (State E) ProcessPaymentResult
    pay_once session car_id key (some existing_tx) = do
      if is_success existing_tx.status
          then notify_pms_payment_complete session existing_tx.tx_id existing_tx.approval_no key
          else pure tt
      pure (
          answer existing_tx.status existing_tx.tx_id existing_tx.approval_no
            existing_tx.failed_reason)
    pay_once session car_id key none = pay_new session car_id key c.amount

    -- the checks before the idempotency key: the session that is paid
    unfoldable pub check_request : String → Exec (State E) ParkingSession
    check_request car_id = do
      quote ← (do or_raise (← gets (get_quote now c.session_id)) (value_error "quote_not_found"))
      raise_if (not (int_beq quote.amount c.amount && quote.currency == c.currency))
          (value_error "amount_currency_mismatch")
      session ← (do or_raise (← get_session_by_id E c.session_id) (value_error "session_not_found"))
      raise_if (not (session.car_id == car_id)) (value_error "session_car_id_mismatch")
      pure session

    unfoldable pub pay_as : String → Exec (State E) ProcessPaymentResult
    pay_as car_id = do
      session ← check_request car_id
      let key = idempotency_key_of c car_id
      existing_tx ← gets (get_transaction_by_idempotency_key E key)
      pay_once session car_id key existing_tx

    unfoldable pub process_payment : Exec (State E) ProcessPaymentResult
    process_payment =
        if c.session_id == "sess_dev_001"
        then pure (record {
          status = success;
          tx_id = out.tx_uuid;
          session_id = some c.session_id;
          approval_no = some "DEV-APPROVED";
          failed_reason = none;
          amount = some c.amount;
          currency = some c.currency;
        })
        else do token_data ← lift (E.token_validator now c.access_token); pay_as token_data.car_id
