-- ===== src/Backend/Payment/Runs.antt =====
-- What the parts of a payment leave behind.
use car_pay_in.Backend.Models.{all_of}
use car_pay_in.Backend.Env.{
  Env, State, charge, notify_pms, parse_uuid, record_call, text_of, uuid_or_error,
}
use car_pay_in.Backend.Models.{
  ParkingSession, PaymentNotification, PaymentNotificationOutbox, PmsPayment, Transaction,
  VehicleBillingKey, completed, failed, has_key, has_session_id, notifies, success,
}
use car_pay_in.Backend.Payment.{
  ChargeAnswer, PaymentOutcome, ProcessPaymentCommand, ProcessPaymentResult, after_charge,
  after_notify, answer, approved, build_payment_notification_payload, charge_and_complete,
  clear_retry_event, complete_payment, fail_payment, mark_payment_success,
  notify_pms_payment_complete, payment_notify_retry_ttl_seconds, payment_retry_key, pms_payload,
  record_retry_event, refused,
}
use car_pay_in.Backend.Transactions.{
  add_notification, change_transaction, find_session, get_transaction_by_idempotency_key,
  mark_success_and_enqueue_payment_notification, new_notification, require_transaction,
  update_session_status, update_transaction_status, with_session_status, with_status,
}
use car_pay_in.Base.{Option, String, [], ap, none, refl, some, true, ℕ, ◌++◌, ◌<>◌, ◌∙◌, ◌∷◌, ◌≡◌}
use car_pay_in.Exec.{Exception, Result, err, ok, ◌>>=◌}
use car_pay_in.Exec.Run.{bind-err, bind-ok, catch-err, catch-ok, run-lift, run-pure}

module _ (E : Env) where
  pub parse_uuid-some : (t : String) {u : String} → E.uuid t ≡ some u → parse_uuid E t ≡ ok u
  unfolding parse_uuid
  parse_uuid-some t known = ap (uuid_or_error E) known

  -- the outbox after `add_notification`
  abbrev pub enqueued :
      PaymentNotificationOutbox → Option PaymentNotificationOutbox → E.outbox.State → E.outbox.State
  enqueued n (some known) o = o
  enqueued n none o = E.outbox.insert n o

  add_notification-run :
      (n : PaymentNotificationOutbox) (known : Option PaymentNotificationOutbox) (s : State E)
      → add_notification E n known s ≡ (ok tt, record s { outbox = enqueued n known s.outbox })
  unfolding add_notification ◌>>=◌
  add_notification-run n none s = refl
  add_notification-run n (some known) s = refl

  module _ (now : ℕ) (out : PaymentOutcome) (c : ProcessPaymentCommand) where
    -- the retries after a notification of the parking lot that ends in a way
    abbrev pub retried :
        PmsPayment → Result (Unit {0}) → E.payment_retries.State → E.payment_retries.State
    retried p (ok _) q = E.payment_retries.delete (payment_retry_key p.carpay_tx_id) q
    retried p (err e) q =
        E.payment_retries.set now (payment_retry_key p.carpay_tx_id)
          (record {
            event_type = "pms_payment_notify";
            tx_id = p.carpay_tx_id;
            payload = all_of p;
            reason = text_of E e;
          })
          (some payment_notify_retry_ttl_seconds) q

    after_notify-run :
        (p : PmsPayment) (o : Result (Unit {0})) (s : State E)
        → after_notify E now out c p o s
          ≡ (ok tt, record s { payment_retries = retried p o s.payment_retries })
    unfolding after_notify record_retry_event clear_retry_event ◌>>=◌
    after_notify-run p (ok tt) s = refl
    after_notify-run p (err e) s = refl

    pub notify-run :
        (r : ParkingSession) (i : String) (a : Option String) (key : String) (s : State E)
        → notify_pms_payment_complete E now out c r i a key s ≡ (
          ok tt,
          record s {
            payment_retries = retried (pms_payload E now out c r i a key) out.pms s.payment_retries;
            calls = s.calls ++ notify_pms (pms_payload E now out c r i a key) ∷ [];
          },
        )
    unfolding notify_pms_payment_complete record_call ◌>>=◌
    notify-run r i a key s = after_notify-run _ out.pms _

    -- the state after a payment of a stored transaction `x` that went through
    abbrev pub paid_state :
        ParkingSession
        → String
        → String
        → String
        → String
        → Option String
        → String
        → Transaction
        → State E
        → State E
    paid_state r u i car key pg approval x s = record s {
      transactions =
          E.transactions.update (has_key key) (with_status success pg (some approval) none)
            s.transactions;
      outbox =
          enqueued
            (new_notification now out.notification_id x ("payment/complete/" <> car)
              (build_payment_notification_payload E now out c r i car approval))
            (E.outbox.scalar (notifies x.tx_id "payment.completed") s.outbox) s.outbox;
      sessions =
          E.sessions.update (has_session_id u) (with_session_status now completed) s.sessions;
      payment_retries =
          retried (pms_payload E now out c r i (some approval) key) out.pms s.payment_retries;
      calls = s.calls ++ notify_pms (pms_payload E now out c r i (some approval) key) ∷ [];
    }

    enqueue-run :
        (key : String) (pg : Option String) (approval d : String) (m : PaymentNotification)
        (x : Transaction) (s : State E)
        → get_transaction_by_idempotency_key E key s ≡ some x
        → mark_success_and_enqueue_payment_notification E now out.notification_id key pg approval d
            m s
          ≡ (
            ok tt,
            record s {
              transactions =
                  E.transactions.update
                    (has_key key)
                    (with_status success pg (some approval) none)
                    s.transactions;
              outbox =
                  enqueued
                    (new_notification now out.notification_id x d m)
                    (E.outbox.scalar (notifies x.tx_id "payment.completed") s.outbox)
                    s.outbox;
            },
          )
    unfolding mark_success_and_enqueue_payment_notification require_transaction ◌>>=◌
    enqueue-run key pg approval d m x s found = rw found (add_notification-run _ _ _)

    update_session-run :
        (i u : String) (r : ParkingSession) (s : State E)
        → E.uuid i ≡ some u
        → find_session E u s ≡ some r
        → update_session_status E now i completed s ≡ (
          ok tt,
          record s {
            sessions =
                E.sessions.update (has_session_id u) (with_session_status now completed) s.sessions;
          },
        )
    unfolding update_session_status ◌>>=◌
    update_session-run i u r s known found =
        let parsed = parse_uuid-some i known in rw (parsed, found)

    pub complete-run :
        (r : ParkingSession) (u i car key : String) (pg : Option String) (approval : String)
        (x : Transaction) (s : State E)
        → get_transaction_by_idempotency_key E key s ≡ some x
        → E.uuid c.session_id ≡ some u
        → find_session E u s ≡ some r
        → complete_payment E now out c r i car key pg approval s
          ≡ (ok (answer success i (some approval) none), paid_state r u i car key pg approval x s)
    unfolding complete_payment mark_payment_success find_session
    complete-run r u i car key pg approval x s stored known found =
        bind-ok _ _ s (bind-ok _ _ s (enqueue-run key pg approval _ _ x s stored) ∙ run-pure true _)
        ∙ bind-ok _ _ _ (update_session-run c.session_id u r _ known found)
        ∙ bind-ok _ _ _ (notify-run r i (some approval) key _)
        ∙ bind-ok _ _ _ (run-pure tt _)
        ∙ run-pure _ _

    pub fail-run :
        (i key reason : String) (x : Transaction) (s : State E)
        → get_transaction_by_idempotency_key E key s ≡ some x
        → fail_payment E now out c i key reason s ≡ (
          ok (answer failed i none (some reason)),
          change_transaction E key (with_status failed none none (some reason)) s,
        )
    unfolding fail_payment update_transaction_status require_transaction ◌>>=◌
    fail-run i key reason x s found = rw found

    -- the state after the PG was asked for a charge
    abbrev pub charged : VehicleBillingKey → ℕ → String → State E → State E
    charged b n key s = record s { calls = s.calls ++ charge b.billing_key n c.currency key ∷ [] }

    module _ (r : ParkingSession) (car key : String) (n : ℕ) (b : VehicleBillingKey)
        (s : State E) where
      pg-ok :
          {a : ChargeAnswer} {p : ProcessPaymentResult} {t : State E}
          → out.pg ≡ ok a
          → after_charge E now out c r car key a (charged b n key s) ≡ (ok p, t)
          → charge_and_complete E now out c r car key n b s ≡ (ok p, t)
      unfolding charge_and_complete record_call
      pg-ok answered rest =
          catch-ok _ _ s
            (bind-ok _ _ s refl ∙ bind-ok _ _ (charged b n key s) (run-lift _ _ answered) ∙ rest)

      pg-err :
          {e : Exception} {p : ProcessPaymentResult} {t : State E}
          → out.pg ≡ err e
          → fail_payment E now out c out.tx_uuid key (text_of E e) (charged b n key s) ≡ (ok p, t)
          → charge_and_complete E now out c r car key n b s ≡ (ok p, t)
      unfolding charge_and_complete record_call
      pg-err raised rest =
          catch-err _ _ s
            (bind-ok _ _ s refl ∙ bind-err _ _ (charged b n key s) (run-lift _ _ raised))
          ∙ rest

      module _ {x : Transaction}
          (stored : get_transaction_by_idempotency_key E key s ≡ some x) where
        pub approved-run :
            {pg : Option String} {approval : String} {u : String}
            → E.uuid c.session_id ≡ some u
            → find_session E u s ≡ some r
            → out.pg ≡ ok (approved pg approval)
            → charge_and_complete E now out c r car key n b s ≡ (
              ok (answer success out.tx_uuid (some approval) none),
              paid_state r u out.tx_uuid car key pg approval x (charged b n key s),
            )
        unfolding after_charge find_session get_transaction_by_idempotency_key
        approved-run known found answered =
            pg-ok answered
              (complete-run r _ out.tx_uuid car key _ _ x (charged b n key s) stored known found)

        pub refused-run :
            {reason : String}
            → out.pg ≡ ok (refused reason)
            → charge_and_complete E now out c r car key n b s ≡ (
              ok (answer failed out.tx_uuid none (some reason)),
              change_transaction E key
                  (with_status failed none none (some reason))
                  (charged b n key s),
            )
        unfolding after_charge get_transaction_by_idempotency_key
        refused-run answered =
            pg-ok answered (fail-run out.tx_uuid key _ x (charged b n key s) stored)

        pub raised-run :
            {e : Exception}
            → out.pg ≡ err e
            → charge_and_complete E now out c r car key n b s ≡ (
              ok (answer failed out.tx_uuid none (some (text_of E e))),
              change_transaction E key
                  (with_status failed none none (some (text_of E e)))
                  (charged b n key s),
            )
        unfolding get_transaction_by_idempotency_key
        raised-run raised = pg-err raised (fail-run out.tx_uuid key _ x (charged b n key s) stored)
