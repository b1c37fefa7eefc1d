-- ===== src/Backend/Payment/Accept.antt =====
-- A payment request that passes the checks, up to the transaction that it stores.
use car_pay_in.Backend.Env.{Claims, Env, IsLawful, State}
use car_pay_in.Backend.Models.{
  FeeQuote, ParkingSession, Transaction, completed, has_key, has_session_id, has_tx_id,
  transaction_fits,
}
use car_pay_in.Backend.Payment.{
  PaymentOutcome, ProcessPaymentCommand, check_request, get_quote, idempotency_key_of, pay_as,
  pay_once, process_payment,
}
use car_pay_in.Backend.Payment.Runs.{parse_uuid-some}
use car_pay_in.Backend.Transactions.{
  add_transaction, change_transaction, create_pending_transaction, find_session, get_session_by_id,
  get_transaction_by_idempotency_key, pending_transaction, with_session_status,
}
use car_pay_in.Base.{String, ap, eq_refl, false, none, refl, some, true, ℕ, ◌&&◌, ◌==◌, ◌∙◌, ◌≡◌}
use car_pay_in.Exec.{ok, ◌>>=◌}
use car_pay_in.Exec.Run.{bind-ok, run-gets-bind, run-lift}
use car_pay_in.Integer.{int_beq}
use car_pay_in.Table.{first-amend, first-append, first_sound}

module _ {E : Env} (now : ℕ) (out : PaymentOutcome) (c : ProcessPaymentCommand) (s : State E) where
  pub check-run :
      (car : String) {quote : FeeQuote} {session : ParkingSession} {u : String}
      → get_quote E now c.session_id s ≡ some quote
      → (int_beq quote.amount c.amount && quote.currency == c.currency) ≡ true
      → E.uuid c.session_id ≡ some u
      → find_session E u s ≡ some session
      → (session.car_id == car) ≡ true
      → check_request E now out c car s ≡ (ok session, s)
  unfolding check_request get_session_by_id ◌>>=◌
  check-run car quoted same known found mine =
      let parsed = parse_uuid-some E c.session_id known in rw (quoted, same, parsed, found, mine)

  -- the idempotency key of the request
  abbrev pub key_of : Claims → String
  key_of claims = idempotency_key_of E c claims.car_id

  pub accept-run :
      {claims : Claims} {quote : FeeQuote} {session : ParkingSession} {u : String}
      → (c.session_id == "sess_dev_001") ≡ false
      → E.token_validator now c.access_token ≡ ok claims
      → get_quote E now c.session_id s ≡ some quote
      → (int_beq quote.amount c.amount && quote.currency == c.currency) ≡ true
      → E.uuid c.session_id ≡ some u
      → find_session E u s ≡ some session
      → (session.car_id == claims.car_id) ≡ true
      → process_payment E now out c s
        ≡ pay_once E now out c session claims.car_id
            (key_of claims)
            (get_transaction_by_idempotency_key E (key_of claims) s)
            s
  unfolding process_payment pay_as
  accept-run {claims = claims} real valid quoted same known found mine = rw real (
      bind-ok _ _ s (run-lift _ s valid)
      ∙ bind-ok _ _ s (check-run claims.car_id quoted same known found mine)
      ∙ run-gets-bind _ _ s)

module _ {E : Env} (L : IsLawful E) where
  abbrev pub with_transaction : Transaction → State E → State E
  with_transaction tx s = record s { transactions = E.transactions.insert tx s.transactions }

  pub create-run :
      (tx_id key i : String) (n : ℕ) (currency billing_key : String) (s : State E) {u t : String}
      {r : ParkingSession}
      → E.uuid i ≡ some u
      → find_session E u s ≡ some r
      → E.uuid tx_id ≡ some t
      → get_transaction_by_idempotency_key E key s ≡ none
      → E.transactions.scalar (has_tx_id t) s.transactions ≡ none
      → create_pending_transaction E tx_id key i n currency billing_key s
        ≡ (ok tt, with_transaction (pending_transaction t key r n currency billing_key) s)
  unfolding create_pending_transaction add_transaction get_transaction_by_idempotency_key
      transaction_fits ◌>>=◌
  create-run tx_id key i n currency billing_key s {u = u} {t = t} known found tx_known new_key
        new_id =
      let parsed = parse_uuid-some E i known in
      let tx_parsed = parse_uuid-some E tx_id tx_known in
      rw (
        parsed,
        found,
        tx_parsed,
        ← L.transactions.scalar-rows (has_tx_id t) s.transactions,
        ← L.transactions.scalar-rows (has_key key) s.transactions,
        new_id,
        new_key,
      )

  pub insert-found :
      (tx : Transaction) (s : State E)
      → get_transaction_by_idempotency_key E tx.idempotency_key s ≡ none
      → get_transaction_by_idempotency_key E tx.idempotency_key (with_transaction tx s) ≡ some tx
  unfolding get_transaction_by_idempotency_key
  insert-found tx s new =
      let none_before =
        rw (L.transactions.scalar-rows (has_key tx.idempotency_key) s.transactions) at new in
      rw (
        L.transactions.scalar-rows,
        L.transactions.rows-insert,
        first-append,
        none_before,
        eq_refl tx.idempotency_key,
      )

  pub changed-found :
      (key : String) (f : Transaction → Transaction) (s : State E) {x : Transaction}
      → ((y : Transaction) → (f y).idempotency_key ≡ y.idempotency_key)
      → get_transaction_by_idempotency_key E key s ≡ some x
      → get_transaction_by_idempotency_key E key (change_transaction E key f s) ≡ some (f x)
  unfolding get_transaction_by_idempotency_key
  changed-found key f s keeps found =
      let row = rw (L.transactions.scalar-rows (has_key key) s.transactions) at found in
      rw (
        L.transactions.scalar-rows (has_key key)
            (E.transactions.update (has_key key) f s.transactions),
        L.transactions.rows-update,
        first-amend (has_key key) (has_key key) f (E.transactions.rows s.transactions)
            (λ x _. ap (λ (t : String). t == key) (keeps x)),
        row,
        first_sound (has_key key) (E.transactions.rows s.transactions) row,
      )

  pub completed-found :
      (now : ℕ) (u : String) (s : State E) {r : ParkingSession}
      → find_session E u s ≡ some r
      → E.sessions.scalar
          (has_session_id u)
          (E.sessions.update (has_session_id u) (with_session_status now completed) s.sessions)
        ≡ some (with_session_status now completed r)
  unfolding find_session
  completed-found now u s found =
      let row = rw (L.sessions.scalar-rows (has_session_id u) s.sessions) at found in
      rw (
        L.sessions.scalar-rows,
        L.sessions.rows-update,
        first-amend (has_session_id u) (has_session_id u) (with_session_status now completed)
            (E.sessions.rows s.sessions) (λ _ _. refl),
        row,
        first_sound (has_session_id u) (E.sessions.rows s.sessions) row,
      )
