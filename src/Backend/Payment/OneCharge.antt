-- ===== src/Backend/Payment/OneCharge.antt =====
-- The charges that the backend asks the PG for, against the transactions in its table.
pub mod Service
use car_pay_in.Backend.Env.{
  Call, Env, IsLawful, State, charge, notify_pms, publish_payment, record_call, text_of,
}
use car_pay_in.Backend.Models.{
  ParkingSession, PaymentNotification, PaymentNotificationOutbox, PmsPayment, SessionStatus,
  Transaction, TransactionStatus, VehicleBillingKey, has_key, transaction_fits,
}
use car_pay_in.Backend.Payment.{
  ChargeAnswer, PaymentOutcome, ProcessPaymentCommand, after_charge, after_notify, approved,
  charge_and_complete, check_request, clear_retry_event, complete_payment, fail_payment,
  mark_payment_success, notify_pms_payment_complete, pay_as, pay_charged, pay_free, pay_new,
  pay_once, process_payment, publish_payment_notification_best_effort, record_retry_event, refused,
}
use car_pay_in.Backend.Transactions.{
  add_notification, add_transaction, change_transaction, create_pending_transaction, find_session,
  get_session_by_id, mark_success_and_enqueue_payment_notification, pending_transaction,
  require_transaction, update_session_status, update_transaction_status, with_status,
}
use car_pay_in.Base.{
  Bool, List, Option, String, [], arith, eq_iff, false, if◌then◌else◌, none, not, refl, some, suc,
  true, zero, ℕ, ◌++◌, ◌+◌, ◌==◌, ◌∷◌, ◌≡◌, ◌≤◌,
}
use car_pay_in.Exec.{Result, catch, err, integrity_error, lift, modify, ok, ◌>>=◌}
use car_pay_in.Exec.Keeps.{
  Ends, Ends-gets, Ends-lift, Ends-or_raise, Ends-raise_if, Keeps, Keeps-bind, Keeps-catch,
  Keeps-gets, Keeps-lift, Keeps-modify, Keeps-or_raise, Keeps-through, keeps_rules,
}
use car_pay_in.Integer.{negsuc, pos, ℤ}
use car_pay_in.Table.{tally, tally-amend_same, tally-append, tally-zero_of_first}

-- the charges under an idempotency key
abbrev pub is_charge : String → Call → Bool
is_charge k (charge _ _ _ key) = key == k
is_charge k _ = false

-- Each charge has a transaction of its key, and a key has one transaction at most.
pub record AreCharged (calls : List Call) (rows : List Transaction) : Type 0 where
  pub covered : (k : String) → tally (is_charge k) calls ≤ tally (has_key k) rows
  pub one_key : (k : String) → tally (has_key k) rows ≤ 1

-- As above, and the transaction of one key has no charge yet.
pub record AreReady (key : String) (calls : List Call) (rows : List Transaction) : Type 0 where
  pub covered :
      (k : String)
      → tally (is_charge k) calls + (if key == k then 1 else 0) ≤ tally (has_key k) rows
  pub one_key : (k : String) → tally (has_key k) rows ≤ 1

append-AreReady :
    (calls : List Call) (rows : List Transaction) (r : Transaction)
    → transaction_fits rows r ≡ true
    → AreCharged calls rows
    → AreReady r.idempotency_key calls (rows ++ r ∷ [])
unfolding transaction_fits
append-AreReady calls rows r fits v = record {
  covered = λ k. rw tally-append (omega (arith, v.covered k));
  one_key = λ k. rw tally-append (
      ground
        (arith, v.one_key k, eq_iff r.idempotency_key k, tally-zero_of_first (has_key k) rows));
}

pub AreReady-AreCharged :
    (key : String) (calls : List Call) (rows : List Transaction)
    → AreReady key calls rows
    → AreCharged calls rows
AreReady-AreCharged key calls rows v = record {
  covered = λ k. omega (arith, v.covered k);
  one_key = v.one_key;
}

pub charge-AreCharged :
    (b : String) (n : ℕ) (u key : String) (calls : List Call) (rows : List Transaction)
    → AreReady key calls rows
    → AreCharged (calls ++ charge b n u key ∷ []) rows
charge-AreCharged b n u key calls rows v = record {
  covered = λ k. rw tally-append (v.covered k);
  one_key = v.one_key;
}

module _ {E : Env} (L : IsLawful E) where
  abbrev pub IsCharged : State E → Type 0
  IsCharged s = AreCharged s.calls (E.transactions.rows s.transactions)

  abbrev pub IsReady : String → State E → Type 0
  IsReady key s = AreReady key s.calls (E.transactions.rows s.transactions)

  abbrev with_transaction : Transaction → State E → State E
  with_transaction tx s = record s { transactions = E.transactions.insert tx s.transactions }

  insert-IsReady :
      (tx : Transaction) (s : State E)
      → not (transaction_fits (E.transactions.rows s.transactions) tx) ≡ false
      → IsCharged s
      → IsReady tx.idempotency_key (with_transaction tx s)
  insert-IsReady tx s fits v =
      rw L.transactions.rows-insert (append-AreReady _ _ tx (ground arith) v)

  add_transaction-Ends :
      (tx : Transaction) (s : State E)
      → IsCharged s
      → Ends (IsReady tx.idempotency_key) IsCharged (add_transaction E tx s)
  unfolding add_transaction ◌>>=◌
  add_transaction-Ends tx s v =
      Ends-raise_if (IsReady tx.idempotency_key) IsCharged
        (not (transaction_fits (E.transactions.rows s.transactions) tx)) integrity_error
        (modify (with_transaction tx)) s v (λ fits. insert-IsReady tx s fits v)

  pub create_pending-Ends :
      (tx_id key session_id : String) (amount : ℕ) (currency billing_key : String) (s : State E)
      → IsCharged s
      → Ends
          (IsReady key)
          IsCharged
          (create_pending_transaction E tx_id key session_id amount currency billing_key s)
  unfolding create_pending_transaction
  create_pending-Ends tx_id key session_id amount currency billing_key s v =
      let to = IsReady key in
      Ends-lift to IsCharged _ _ s v λ i _. Ends-gets to IsCharged (find_session E i) _ s (
        Ends-or_raise to IsCharged _ _ _ s v λ r _.
          Ends-lift to IsCharged _ _ s v λ u _.
            add_transaction-Ends (pending_transaction u key r amount currency billing_key) s v)

  pub create_pending-Keeps :
      (tx_id key session_id : String) (amount : ℕ) (currency billing_key : String)
      → Keeps IsCharged
          (create_pending_transaction E tx_id key session_id amount currency billing_key)
  create_pending-Keeps tx_id key session_id amount currency billing_key = record {
    at = λ s v.
        settle (create_pending_transaction E tx_id key session_id amount currency billing_key s)
          (create_pending-Ends tx_id key session_id amount currency billing_key s v);
  }
    where
      settle : (e : Result (Unit {0}) × State E) → Ends (IsReady key) IsCharged e → IsCharged e.1
      settle (ok _, t) ready = AreReady-AreCharged key _ _ ready
      settle (err _, t) v = v

  change_transaction-IsCharged :
      (key : String) (status : TransactionStatus) (p a f : Option String) (s : State E)
      → IsCharged s
      → IsCharged (change_transaction E key (with_status status p a f) s)
  change_transaction-IsCharged key status p a f s v = rw L.transactions.rows-update (record {
    covered = λ k.
        rw (tally-amend_same (has_key k) (has_key key) (with_status status p a f) _ (λ r _. refl))
          (v.covered k);
    one_key = λ k.
        rw (tally-amend_same (has_key k) (has_key key) (with_status status p a f) _ (λ r _. refl))
          (v.one_key k);
  })

  require-Keeps : (key : String) → Keeps IsCharged (require_transaction E key)
  unfolding require_transaction
  require-Keeps key = search keeps_rules

  pub update_status-Keeps :
      (key : String) (status : TransactionStatus) (p a f : Option String)
      → Keeps IsCharged (update_transaction_status E key status p a f)
  unfolding update_transaction_status
  update_status-Keeps key status p a f =
      Keeps-bind (λ _. modify (change_transaction E key (with_status status p a f)))
        (require_transaction E key) (require-Keeps key)
        (λ _. Keeps-modify _ (change_transaction-IsCharged key status p a f))

  change-Keeps :
      (key : String) (status : TransactionStatus) (p a f : Option String)
      → Keeps IsCharged (modify (change_transaction E key (with_status status p a f)))
  change-Keeps key status p a f = Keeps-modify _ (change_transaction-IsCharged key status p a f)

  add_notification-Keeps :
      (n : PaymentNotificationOutbox) (o : Option PaymentNotificationOutbox)
      → Keeps IsCharged (add_notification E n o)
  unfolding add_notification
  add_notification-Keeps n (some known) = search keeps_rules
  add_notification-Keeps n none = Keeps-modify _ (λ s v. v)

  pub enqueue-Keeps :
      (now : ℕ) (i key : String) (p : Option String) (a d : String) (m : PaymentNotification)
      → Keeps IsCharged (mark_success_and_enqueue_payment_notification E now i key p a d m)
  unfolding mark_success_and_enqueue_payment_notification
  enqueue-Keeps now i key p a d m =
      search (keeps_rules, require-Keeps, change-Keeps, add_notification-Keeps) depth 12

  pub update_session-Keeps :
      (now : ℕ) (i : String) (status : SessionStatus)
      → Keeps IsCharged (update_session_status E now i status)
  unfolding update_session_status
  update_session-Keeps now i status = Keeps-bind _ _ (Keeps-lift _) (λ i.
      Keeps-bind _ _ (Keeps-gets _)
        (λ o. Keeps-bind _ _ (Keeps-or_raise _ _) (λ _. Keeps-modify _ (λ s v. v))))

  pub notify_call-Keeps : (p : PmsPayment) → Keeps IsCharged (record_call E (notify_pms p))
  unfolding record_call
  notify_call-Keeps p = record {
    at = λ s v. record {
      covered = λ k. rw tally-append (omega (arith, v.covered k));
      one_key = v.one_key;
    };
  }

  pub publish_call-Keeps :
      (p : PaymentNotification) → Keeps IsCharged (record_call E (publish_payment p))
  unfolding record_call
  publish_call-Keeps p = record {
    at = λ s v. record {
      covered = λ k. rw tally-append (omega (arith, v.covered k));
      one_key = v.one_key;
    };
  }
