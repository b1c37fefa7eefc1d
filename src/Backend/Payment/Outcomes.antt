-- ===== src/Backend/Payment/Outcomes.antt =====
-- A payment that is charged: what it answers and what it leaves, by the answer of the PG.

use car_pay_in.Backend.Env.{Claims, Env, IsLawful, State, charge, notify_pms, text_of}
use car_pay_in.Backend.Models.{
  FeeQuote, ParkingSession, Transaction, VehicleBillingKey, completed, failed, has_tx_id, notifies,
  success,
}
use car_pay_in.Backend.Payment.{
  ChargeAnswer, PaymentOutcome, ProcessPaymentCommand, answer, approved,
  build_payment_notification_payload, charge_and_complete, get_quote, pay_charged, pay_new,
  pay_once, pms_payload, process_payment, refused,
}
use car_pay_in.Backend.Payment.Accept.{
  accept-run, changed-found, completed-found, create-run, insert-found, key_of, with_transaction,
}
use car_pay_in.Backend.Payment.Runs.{approved-run, charged, paid_state, raised-run, refused-run}
use car_pay_in.Backend.Transactions.{
  change_transaction, find_session, get_active_billing_key, get_transaction_by_idempotency_key,
  new_notification, pending_transaction, with_session_status, with_status,
}
use car_pay_in.Base.{
  Bool, Option, String, [], ap, arith, false, none, refl, some, suc, true, ℕ, ◌&&◌, ◌++◌, ◌<>◌,
  ◌==◌, ◌∙◌, ◌∷◌, ◌≡◌,
}
use car_pay_in.Exec.{Result, err, ok}
use car_pay_in.Exec.Run.{bind-ok, run-gets-bind}
use car_pay_in.Integer.{int_beq, pos}

-- the reason that is stored for a charge that did not go through
abbrev pub reason_of : (E : Env) → Result ChargeAnswer → String
reason_of E (ok (refused reason)) = reason
reason_of E (ok (approved _ _)) = ""
reason_of E (err e) = text_of E e

abbrev pub is_approved : Result ChargeAnswer → Bool
is_approved (ok (approved _ _)) = true
is_approved _ = false

module _ {E : Env} (L : IsLawful E) (now : ℕ) (out : PaymentOutcome) (c : ProcessPaymentCommand)
    (s : State E) (claims : Claims) (quote : FeeQuote) (session : ParkingSession)
    (b : VehicleBillingKey) (n : ℕ) (u t : String) where
  abbrev key : String
  key = key_of now out c s claims

  abbrev new_tx : Transaction
  new_tx = pending_transaction t key session (suc n) c.currency b.billing_key

  abbrev stored : State E
  stored = with_transaction L new_tx s

  -- the payment went through
  pub record Completed (pg : Option String) (approval : String) (z : State E) : Type 0 where
    pub answered :
        process_payment E now out c s ≡ (ok (answer success out.tx_uuid (some approval) none), z)
    pub transaction :
        get_transaction_by_idempotency_key E key z
        ≡ some (with_status success pg (some approval) none new_tx)
    pub completed_session : find_session E u z ≡ some (with_session_status now completed session)
    pub announced :
        E.outbox.rows z.outbox
        ≡ E.outbox.rows s.outbox
          ++ new_notification now out.notification_id new_tx
              ("payment/complete/" <> claims.car_id)
              (build_payment_notification_payload E now out c session out.tx_uuid claims.car_id
                approval)
            ∷ []
    pub called :
        z.calls
        ≡ (s.calls ++ charge b.billing_key (suc n) c.currency key ∷ [])
          ++ notify_pms (pms_payload E now out c session out.tx_uuid (some approval) key) ∷ []

  -- the payment did not go through
  pub record Declined (reason : String) (z : State E) : Type 0 where
    pub answered :
        process_payment E now out c s ≡ (ok (answer failed out.tx_uuid none (some reason)), z)
    pub transaction :
        get_transaction_by_idempotency_key E key z
        ≡ some (with_status failed none none (some reason) new_tx)
    pub same_sessions : z.sessions ≡ s.sessions
    pub same_outbox : z.outbox ≡ s.outbox
    pub same_retries : z.payment_retries ≡ s.payment_retries
    pub called : z.calls ≡ s.calls ++ charge b.billing_key (suc n) c.currency key ∷ []

  module _ (real : (c.session_id == "sess_dev_001") ≡ false)
      (valid : E.token_validator now c.access_token ≡ ok claims)
      (quoted : get_quote E now c.session_id s ≡ some quote)
      (same : (int_beq quote.amount c.amount && quote.currency == c.currency) ≡ true)
      (known : E.uuid c.session_id ≡ some u) (found : find_session E u s ≡ some session)
      (mine : (session.car_id == claims.car_id) ≡ true)
      (new_key : get_transaction_by_idempotency_key E key s ≡ none)
      (positive : c.amount ≡ pos (suc n))
      (usable_key : get_active_billing_key E claims.car_id s ≡ some b)
      (tx_known : E.uuid out.tx_uuid ≡ some t)
      (new_id : E.transactions.scalar (has_tx_id t) s.transactions ≡ none) where
    to_charge :
        process_payment E now out c s
        ≡ charge_and_complete E now out c session claims.car_id key (suc n) b stored
    unfolding pay_once pay_new pay_charged
    to_charge =
        accept-run now out c s real valid quoted same known found mine
        ∙ ap (λ o. pay_once E now out c session claims.car_id key o s) new_key
        ∙ ap (λ a. pay_new E now out c session claims.car_id key a s) positive
        ∙ run-gets-bind _ _ s
        ∙ ap (λ o. pay_charged E now out c session claims.car_id key (suc n) o s) usable_key
        ∙ bind-ok _ _ s (
            create-run L out.tx_uuid key c.session_id (suc n) c.currency b.billing_key s known found
              tx_known new_key new_id)

    stored-found : get_transaction_by_idempotency_key E key stored ≡ some new_tx
    stored-found = insert-found L new_tx s new_key

    -- A request with a valid token, a live quote of exactly its amount and currency, a session of
    -- that car other than the development session, a positive amount, a usable billing key, a key
    -- without a transaction, and a transaction id that is new and not announced, where the PG
    -- approves: it is answered with success and the approval number, the transaction is stored as
    -- success, the session is completed, the outbox has one more row, the notification of this
    -- payment, and the calls are one charge of that amount on that billing key and one notification
    -- of the parking lot.
    pub process_payment-Completed :
        {pg : Option String} {approval : String}
        → out.pg ≡ ok (approved pg approval)
        → E.outbox.scalar (notifies t "payment.completed") s.outbox ≡ none
        → (z : State E) × Completed pg approval z
    unfolding find_session get_transaction_by_idempotency_key
    process_payment-Completed {pg = pg} {approval = approval} approves unannounced =
        let before = charged E now out c b (suc n) key stored in
        let f = with_status success pg (some approval) none in
        (
          paid_state E now out c session u out.tx_uuid claims.car_id key pg approval new_tx before,
          record {
            answered =
                to_charge
                ∙ approved-run E now out c session claims.car_id key (suc n) b stored stored-found
                    known found approves;
            transaction = changed-found L key f before (λ _. refl) stored-found;
            completed_session = completed-found L now u before found;
            announced = rw (unannounced, L.outbox.rows-insert) refl;
            called = refl;
          },
        )

    -- A request with a valid token, a live quote of exactly its amount and currency, a session of
    -- that car other than the development session, a positive amount, a usable billing key, a key
    -- without a transaction, and a new transaction id, where the PG refuses or cannot be reached:
    -- it is answered with failed and the reason, the transaction is stored as failed with it, the
    -- charge is the only call, and no session, outbox row or retry is touched.
    pub process_payment-Declined :
        is_approved out.pg ≡ false → (z : State E) × Declined (reason_of E out.pg) z
    unfolding get_transaction_by_idempotency_key
    process_payment-Declined declines = by_answer out.pg refl declines
      where
        by_answer :
            (a : Result ChargeAnswer)
            → out.pg ≡ a
            → is_approved a ≡ false
            → (z : State E) × Declined (reason_of E a) z
        by_answer (ok (approved _ _)) answers clash = ground arith
        by_answer (ok (refused reason)) answers _ = (
          change_transaction E key (with_status failed none none (some reason))
              (charged E now out c b (suc n) key stored),
          record {
            answered =
                to_charge
                ∙ refused-run E now out c session claims.car_id key (suc n) b stored stored-found
                    answers;
            transaction =
                changed-found L key (with_status failed none none (some reason))
                  (charged E now out c b (suc n) key stored) (λ _. refl) stored-found;
            same_sessions = refl;
            same_outbox = refl;
            same_retries = refl;
            called = refl;
          },
        )
        by_answer (err e) answers _ = (
          change_transaction E key (with_status failed none none (some (text_of E e)))
              (charged E now out c b (suc n) key stored),
          record {
            answered =
                to_charge
                ∙ raised-run E now out c session claims.car_id key (suc n) b stored stored-found
                    answers;
            transaction =
                changed-found L key (with_status failed none none (some (text_of E e)))
                  (charged E now out c b (suc n) key stored) (λ _. refl) stored-found;
            same_sessions = refl;
            same_outbox = refl;
            same_retries = refl;
            called = refl;
          },
        )
