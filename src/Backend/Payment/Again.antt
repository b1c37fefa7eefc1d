-- ===== src/Backend/Payment/Again.antt =====
-- A payment request whose payment is known: the customer presses the button again.
use car_pay_in.Backend.Models.{all_of}
use car_pay_in.Backend.Env.{Claims, Env, IsLawful, State, notify_pms, text_of}
use car_pay_in.Backend.Models.{FeeQuote, ParkingSession, PaymentRetry, PmsPayment, Transaction}
use car_pay_in.Backend.Payment.{
  PaymentOutcome, ProcessPaymentCommand, answer, get_quote, is_success, notify_pms_payment_complete,
  pay_once, payment_notify_retry_ttl_seconds, payment_retry_key, pms_payload, process_payment,
}
use car_pay_in.Backend.Payment.Accept.{accept-run, key_of}
use car_pay_in.Backend.Payment.Runs.{notify-run, retried}
use car_pay_in.Backend.Transactions.{find_session, get_transaction_by_idempotency_key}
use car_pay_in.Base.{
  Bool, String, [], ap, append-nil, arith, eq_refl, false, if◌then◌else◌, ltb, none, refl, some,
  true, ℕ, ◌&&◌, ◌++◌, ◌+◌, ◌<◌, ◌==◌, ◌∙◌, ◌∷◌, ◌≡◌, ◌≤◌,
}
use car_pay_in.Exec.{Exception, Result, err, ok, pure}
use car_pay_in.Exec.Run.{bind-ok, run-pure}
use car_pay_in.Integer.{int_beq}

module _ {E : Env} (L : IsLawful E) (now : ℕ) (out : PaymentOutcome) (c : ProcessPaymentCommand)
    (s : State E) where
  -- the event that waits for the retry worker
  abbrev pub waiting_retry : PmsPayment → Exception → PaymentRetry
  waiting_retry p e = record {
    event_type = "pms_payment_notify";
    tx_id = p.carpay_tx_id;
    payload = all_of p;
    reason = text_of E e;
  }

  -- The retry of a notification that failed is kept for a week, that of one that succeeded is gone.
  retried-kept :
      (p : PmsPayment) (o : Result (Unit {0})) {e : Exception} (t : ℕ)
      → o ≡ err e
      → now ≤ t
      → t < now + payment_notify_retry_ttl_seconds
      → E.payment_retries.get t
          (payment_retry_key p.carpay_tx_id)
          (retried E now out c p o s.payment_retries)
        ≡ some (waiting_retry p e)
  retried-kept p (ok _) t went_wrong from until = ground arith
  retried-kept p (err x) {e} t went_wrong from until =
      let in_time : ltb t (now + payment_notify_retry_ttl_seconds) ≡ true = ground arith in
      let same : x ≡ e = ground arith in
      let k = payment_retry_key p.carpay_tx_id in
      rw
        (
          L.payment_retries.get-set t now k k (waiting_retry p x)
              (some payment_notify_retry_ttl_seconds) s.payment_retries from,
          eq_refl k,
          in_time,
        )
        (ap (λ (y : Exception). some (waiting_retry p y)) same)

  retried-cleared :
      (p : PmsPayment) (o : Result (Unit {0})) (t : ℕ)
      → o ≡ ok tt
      → E.payment_retries.get t
          (payment_retry_key p.carpay_tx_id)
          (retried E now out c p o s.payment_retries)
        ≡ none
  retried-cleared p (ok _) t went =
      rw (L.payment_retries.get-delete, eq_refl (payment_retry_key p.carpay_tx_id))
  retried-cleared p (err x) t went = ground arith

  module _ (claims : Claims) (quote : FeeQuote) (session : ParkingSession) (u : String)
      (x : Transaction) where
    -- what the parking lot is told again
    abbrev payload : PmsPayment
    payload = pms_payload E now out c session x.tx_id x.approval_no (key_of now out c s claims)

    pub record Known (z : State E) : Type 0 where
      pub answered :
          process_payment E now out c s
          ≡ (ok (answer x.status x.tx_id x.approval_no x.failed_reason), z)
      pub same_transactions : z.transactions ≡ s.transactions
      pub same_sessions : z.sessions ≡ s.sessions
      pub same_outbox : z.outbox ≡ s.outbox
      pub called :
          z.calls
          ≡ s.calls ++ (if is_success E now out c x.status then notify_pms payload ∷ [] else [])
      pub kept :
          {e : Exception} (t : ℕ)
          → is_success E now out c x.status ≡ true
          → out.pms ≡ err e
          → now ≤ t
          → t < now + payment_notify_retry_ttl_seconds
          → E.payment_retries.get t (payment_retry_key x.tx_id) z.payment_retries
            ≡ some (waiting_retry payload e)
      pub cleared :
          (t : ℕ)
          → is_success E now out c x.status ≡ true
          → out.pms ≡ ok tt
          → E.payment_retries.get t (payment_retry_key x.tx_id) z.payment_retries ≡ none

    abbrev told : State E
    told = record s {
      payment_retries = retried E now out c payload out.pms s.payment_retries;
      calls = s.calls ++ notify_pms payload ∷ [];
    }

    renotify-run :
        (b : Bool)
        → (if b
              then notify_pms_payment_complete E now out c session x.tx_id x.approval_no
                  (key_of now out c s claims)
              else pure tt)
            s
          ≡ (ok tt, if b then told else s)
    renotify-run true = notify-run E now out c session x.tx_id x.approval_no _ s
    renotify-run false = run-pure tt s

    -- A request with a valid token, a live quote of exactly its amount and currency and a session
    -- of that car other than the development session, whose key has a transaction: it is answered
    -- with what is stored there, and no transaction, session or outbox row is touched. If the payment had
    -- succeeded, the only call is one that tells the parking lot again: when that fails it is kept
    -- for the retry worker for a week, and when it succeeds no retry is left. Otherwise there is no
    -- call at all.
    pub process_payment-Known :
        (c.session_id == "sess_dev_001") ≡ false
        → E.token_validator now c.access_token ≡ ok claims
        → get_quote E now c.session_id s ≡ some quote
        → (int_beq quote.amount c.amount && quote.currency == c.currency) ≡ true
        → E.uuid c.session_id ≡ some u
        → find_session E u s ≡ some session
        → (session.car_id == claims.car_id) ≡ true
        → get_transaction_by_idempotency_key E (key_of now out c s claims) s ≡ some x
        → (z : State E) × Known z
    unfolding pay_once
    process_payment-Known real valid quoted same known found mine stored =
        let run =
          accept-run now out c s real valid quoted same known found mine
          ∙ ap (λ o. pay_once E now out c session claims.car_id (key_of now out c s claims) o s)
              stored
          ∙ bind-ok _ _ s (renotify-run (is_success E now out c x.status))
          ∙ run-pure _ _ in
        by_status (is_success E now out c x.status) refl run
      where
        by_status :
            (b : Bool)
            → is_success E now out c x.status ≡ b
            → process_payment E now out c s ≡ (
              ok (answer x.status x.tx_id x.approval_no x.failed_reason),
              if is_success E now out c x.status then told else s,
            )
            → (z : State E) × Known z
        by_status true is run = (
          told,
          record {
            answered = rw is at run;
            same_transactions = refl;
            same_sessions = refl;
            same_outbox = refl;
            called = rw is refl;
            kept =
                λ t _ went_wrong from until. retried-kept payload out.pms t went_wrong from until;
            cleared = λ t _ went. retried-cleared payload out.pms t went;
          },
        )
        by_status false is run = (
          s,
          record {
            answered = rw is at run;
            same_transactions = refl;
            same_sessions = refl;
            same_outbox = refl;
            called = rw is (append-nil s.calls);
            kept = λ t succeeded went_wrong from until. ground (arith, is, succeeded);
            cleared = λ t succeeded went. ground (arith, is, succeeded);
          },
        )
