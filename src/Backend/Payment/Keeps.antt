-- ===== src/Backend/Payment/Keeps.antt =====
-- What `process_payment` keeps, from what its changes of the state keep one by one.
use car_pay_in.Backend.Env.{Call, Env, State, record_call}
use car_pay_in.Backend.Models.{
  ParkingSession, PaymentNotification, PaymentNotificationOutbox, PmsPayment, SessionStatus,
  Transaction, TransactionStatus, VehicleBillingKey, has_session_id, success,
}
use car_pay_in.Backend.Payment.{
  ChargeAnswer, PaymentOutcome, ProcessPaymentCommand, after_charge, after_notify, approved,
  charge_and_complete, check_request, clear_retry_event, complete_payment, fail_payment,
  mark_payment_success, notify_pms_payment_complete, pay_as, pay_charged, pay_free, pay_new,
  pay_once, payment_retry_key, process_payment, publish_payment_notification_best_effort,
  record_retry_event, refused,
}
use car_pay_in.Backend.Transactions.{
  add_notification, add_transaction, change_transaction, create_pending_transaction,
  get_session_by_id, mark_success_and_enqueue_payment_notification, new_notification,
  require_transaction, update_session_status, update_transaction_status, with_session_status,
  with_status,
}
use car_pay_in.Base.{Option, String, none, some, suc, zero, ℕ}
use car_pay_in.Exec.{Result, err, modify, ok}
use car_pay_in.Exec.Keeps.{Keeps, Keeps-bind, Keeps-gets, Keeps-lift, Keeps-or_raise, keeps_rules}
use car_pay_in.Integer.{negsuc, pos, ℤ}

module _ {E : Env} (P : State E → Type 0)
    (store : (tx : Transaction) → Keeps P (add_transaction E tx))
    (change_tx : (key : String) (f : Transaction → Transaction)
      → Keeps P (modify (change_transaction E key f)))
    (enqueue : (now : ℕ) (i : String) (x : Transaction) (d : String) (m : PaymentNotification)
        (o : Option PaymentNotificationOutbox)
      → Keeps P (add_notification E (new_notification now i x d m) o))
    (change_sessions : (g : E.sessions.State → E.sessions.State)
      → Keeps P (modify (λ (s : State E). record s { sessions = g s.sessions })))
    (change_retries : (g : E.payment_retries.State → E.payment_retries.State)
      → Keeps P (modify (λ (s : State E). record s { payment_retries = g s.payment_retries })))
    (make_call : (x : Call) → Keeps P (record_call E x)) where
  require : (key : String) → Keeps P (require_transaction E key)
  unfolding require_transaction
  require key = search keeps_rules

  create :
      (tx_id key i : String) (n : ℕ) (currency b : String)
      → Keeps P (create_pending_transaction E tx_id key i n currency b)
  unfolding create_pending_transaction
  create tx_id key i n currency b = search (keeps_rules, store) depth 12

  update_status :
      (key : String) (status : TransactionStatus) (p a f : Option String)
      → Keeps P (update_transaction_status E key status p a f)
  unfolding update_transaction_status
  update_status key status p a f =
      Keeps-bind _ _ (require key) (λ _. change_tx key (with_status status p a f))

  mark_and_enqueue :
      (now : ℕ) (i key : String) (p : Option String) (a d : String) (m : PaymentNotification)
      → Keeps P (mark_success_and_enqueue_payment_notification E now i key p a d m)
  unfolding mark_success_and_enqueue_payment_notification
  mark_and_enqueue now i key p a d m = Keeps-bind _ _ (require key) (λ x.
      Keeps-bind _ _ (change_tx key (with_status success p (some a) none))
        (λ _. Keeps-bind _ _ (Keeps-gets _) (enqueue now i x d m)))

  update_session :
      (now : ℕ) (i : String) (status : SessionStatus)
      → Keeps P (update_session_status E now i status)
  unfolding update_session_status
  update_session now i status = Keeps-bind _ _ (Keeps-lift _) (λ u.
      Keeps-bind _ _ (Keeps-gets _) (λ o. Keeps-bind _ _ (Keeps-or_raise _ _) (λ _.
        change_sessions (E.sessions.update (has_session_id u) (with_session_status now status)))))

  module _ (now : ℕ) (out : PaymentOutcome) (c : ProcessPaymentCommand) where
    after : (p : PmsPayment) (o : Result (Unit {0})) → Keeps P (after_notify E now out c p o)
    unfolding after_notify record_retry_event clear_retry_event
    after p (ok _) = change_retries (E.payment_retries.delete (payment_retry_key p.carpay_tx_id))
    after p (err e) =
        change_retries (E.payment_retries.set now (payment_retry_key p.carpay_tx_id) _ _)

    notify :
        (r : ParkingSession) (i : String) (a : Option String) (key : String)
        → Keeps P (notify_pms_payment_complete E now out c r i a key)
    unfolding notify_pms_payment_complete
    notify r i a key = search (keeps_rules, make_call, after)

    complete :
        (r : ParkingSession) (i car key : String) (p : Option String) (a : String)
        → Keeps P (complete_payment E now out c r i car key p a)
    unfolding complete_payment mark_payment_success publish_payment_notification_best_effort
    complete r i car key p a =
        search (keeps_rules, mark_and_enqueue, update_session, notify, make_call) depth 14

    fail : (i key t : String) → Keeps P (fail_payment E now out c i key t)
    unfolding fail_payment
    fail i key t = search (keeps_rules, update_status)

    after_answer :
        (r : ParkingSession) (car key : String) (a : ChargeAnswer)
        → Keeps P (after_charge E now out c r car key a)
    unfolding after_charge
    after_answer r car key (refused t) = fail _ key t
    after_answer r car key (approved p a) = complete r _ car key p a

    pay_some :
        (r : ParkingSession) (car key : String) (n : ℕ) (o : Option VehicleBillingKey)
        → Keeps P (pay_charged E now out c r car key n o)
    unfolding pay_charged charge_and_complete
    pay_some r car key n none = search keeps_rules
    pay_some r car key n (some b) =
        search (keeps_rules, create, make_call, after_answer, fail) depth 12

    pay_any :
        (r : ParkingSession) (car key : String) (n : ℤ) → Keeps P (pay_new E now out c r car key n)
    unfolding pay_new pay_free
    pay_any r car key (negsuc _) = search keeps_rules
    pay_any r car key (pos zero) = search (keeps_rules, create, complete)
    pay_any r car key (pos (suc n)) = search (keeps_rules, pay_some)

    known_or_new :
        (r : ParkingSession) (car key : String) (o : Option Transaction)
        → Keeps P (pay_once E now out c r car key o)
    unfolding pay_once
    known_or_new r car key (some x) = search (keeps_rules, notify)
    known_or_new r car key none = pay_any r car key c.amount

    check : (car : String) → Keeps P (check_request E now out c car)
    unfolding check_request get_session_by_id
    check car = search keeps_rules depth 14

    pub payment-Keeps : Keeps P (process_payment E now out c)
    unfolding process_payment pay_as
    payment-Keeps = search (keeps_rules, check, known_or_new) depth 12
