-- ===== src/Backend/Payment/OneCharge/Service.antt =====
-- `process_payment` keeps the charges covered by transactions.
use car_pay_in.Backend.Env.{Env, IsLawful, State, charge, record_call, text_of}
use car_pay_in.Backend.Models.{
  ParkingSession, PaymentNotification, PmsPayment, Transaction, VehicleBillingKey,
}
use car_pay_in.Backend.Payment.{
  ChargeAnswer, PaymentOutcome, ProcessPaymentCommand, after_charge, after_notify, approved,
  charge_and_complete, check_request, clear_retry_event, complete_payment, fail_payment,
  mark_payment_success, notify_pms_payment_complete, pay_as, pay_charged, pay_free, pay_new,
  pay_once, process_payment, publish_payment_notification_best_effort, record_retry_event, refused,
}
use car_pay_in.Backend.Payment.OneCharge.{
  IsCharged, IsReady, charge-AreCharged, create_pending-Ends, create_pending-Keeps, enqueue-Keeps,
  notify_call-Keeps, publish_call-Keeps, update_session-Keeps, update_status-Keeps,
}
use car_pay_in.Backend.Transactions.{get_session_by_id}
use car_pay_in.Base.{Option, String, [], none, some, suc, zero, ℕ, ◌++◌, ◌∷◌}
use car_pay_in.Exec.{Result, catch, err, lift, ok, ◌>>=◌}
use car_pay_in.Exec.Keeps.{
  Keeps, Keeps-bind, Keeps-catch, Keeps-lift, Keeps-modify, Keeps-through, keeps_rules,
}
use car_pay_in.Integer.{negsuc, pos, ℤ}

module _ {E : Env} (L : IsLawful E) where
  module _ (now : ℕ) (out : PaymentOutcome) (c : ProcessPaymentCommand) where
    after_notify-Keeps :
        (p : PmsPayment) (o : Result (Unit {0}))
        → Keeps (IsCharged L) (after_notify E now out c p o)
    unfolding after_notify record_retry_event clear_retry_event
    after_notify-Keeps p (ok _) = Keeps-modify _ (λ s v. v)
    after_notify-Keeps p (err e) = Keeps-modify _ (λ s v. v)

    notify-Keeps :
        (r : ParkingSession) (i : String) (a : Option String) (key : String)
        → Keeps (IsCharged L) (notify_pms_payment_complete E now out c r i a key)
    unfolding notify_pms_payment_complete
    notify-Keeps r i a key = search (keeps_rules, notify_call-Keeps L, after_notify-Keeps)

    publish-Keeps :
        (p : PaymentNotification)
        → Keeps (IsCharged L) (publish_payment_notification_best_effort E now out c p)
    unfolding publish_payment_notification_best_effort
    publish-Keeps p = search (keeps_rules, publish_call-Keeps L)

    mark-Keeps :
        (key : String) (p : Option String) (a : String) (m : PaymentNotification)
        → Keeps (IsCharged L) (mark_payment_success E now out c key p a m)
    unfolding mark_payment_success
    mark-Keeps key p a m = search (keeps_rules, enqueue-Keeps L)

    complete-Keeps :
        (r : ParkingSession) (i car key : String) (p : Option String) (a : String)
        → Keeps (IsCharged L) (complete_payment E now out c r i car key p a)
    unfolding complete_payment
    complete-Keeps r i car key p a =
        search (keeps_rules, mark-Keeps, update_session-Keeps L, notify-Keeps, publish-Keeps) depth
          12

    fail-Keeps : (i key t : String) → Keeps (IsCharged L) (fail_payment E now out c i key t)
    unfolding fail_payment
    fail-Keeps i key t = search (keeps_rules, update_status-Keeps L)

    after_charge-Keeps :
        (r : ParkingSession) (car key : String) (a : ChargeAnswer)
        → Keeps (IsCharged L) (after_charge E now out c r car key a)
    unfolding after_charge
    after_charge-Keeps r car key (refused t) = fail-Keeps _ key t
    after_charge-Keeps r car key (approved p a) = complete-Keeps r _ car key p a

    -- from a transaction of the key without a charge, to one with its charge
    charge_and_complete-IsCharged :
        (r : ParkingSession) (car key : String) (n : ℕ) (b : VehicleBillingKey) (s : State E)
        → IsReady L key s
        → (IsCharged L) (charge_and_complete E now out c r car key n b s).1
    unfolding charge_and_complete record_call catch
    charge_and_complete-IsCharged r car key n b s v =
        (Keeps-catch (lift out.pg >>= after_charge E now out c r car key)
            (λ e. fail_payment E now out c out.tx_uuid key (text_of E e))
            (Keeps-bind _ _ (Keeps-lift _) (after_charge-Keeps r car key))
            (λ e. fail-Keeps _ key _)).at
          (record s { calls = s.calls ++ charge b.billing_key n c.currency key ∷ [] })
          (charge-AreCharged b.billing_key n c.currency key _ _ v)

    pay_charged-Keeps :
        (r : ParkingSession) (car key : String) (n : ℕ) (o : Option VehicleBillingKey)
        → Keeps (IsCharged L) (pay_charged E now out c r car key n o)
    unfolding pay_charged
    pay_charged-Keeps r car key n none = search keeps_rules
    pay_charged-Keeps r car key n (some b) =
        Keeps-through (IsCharged L) (IsReady L key) _ _
          (create_pending-Ends L out.tx_uuid key c.session_id n c.currency b.billing_key)
          (λ _. charge_and_complete-IsCharged r car key n b)

    pay_new-Keeps :
        (r : ParkingSession) (car key : String) (n : ℤ)
        → Keeps (IsCharged L) (pay_new E now out c r car key n)
    unfolding pay_new pay_free
    pay_new-Keeps r car key (negsuc _) = search keeps_rules
    pay_new-Keeps r car key (pos zero) =
        search (keeps_rules, create_pending-Keeps L, complete-Keeps)
    pay_new-Keeps r car key (pos (suc n)) = search (keeps_rules, pay_charged-Keeps)

    pay_once-Keeps :
        (r : ParkingSession) (car key : String) (o : Option Transaction)
        → Keeps (IsCharged L) (pay_once E now out c r car key o)
    unfolding pay_once
    pay_once-Keeps r car key (some x) = search (keeps_rules, notify-Keeps)
    pay_once-Keeps r car key none = pay_new-Keeps r car key c.amount

    check-Keeps : (car : String) → Keeps (IsCharged L) (check_request E now out c car)
    unfolding check_request get_session_by_id
    check-Keeps car = search keeps_rules depth 14

    pay_as-Keeps : (car : String) → Keeps (IsCharged L) (pay_as E now out c car)
    unfolding pay_as
    pay_as-Keeps car = search (keeps_rules, check-Keeps, pay_once-Keeps)

    pub process_payment-Keeps : Keeps (IsCharged L) (process_payment E now out c)
    unfolding process_payment
    process_payment-Keeps = search (keeps_rules, pay_as-Keeps)
