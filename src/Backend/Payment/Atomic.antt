-- ===== src/Backend/Payment/Atomic.antt =====
-- A payment request that raises, while the database and Redis do what they are asked: nothing was
-- changed before.
use car_pay_in.Backend.Env.{Env, IsLawful, State, parse_uuid}
use car_pay_in.Backend.Models.{
  FeeQuote, ParkingSession, Transaction, VehicleBillingKey, transaction_fits,
}
use car_pay_in.Backend.Payment.{
  ChargeAnswer, PaymentOutcome, ProcessPaymentCommand, ProcessPaymentResult, answer, approved,
  charge_and_complete, check_request, complete_payment, get_quote, idempotency_key_of, is_success,
  notify_pms_payment_complete, pay_as, pay_charged, pay_free, pay_new, pay_once, process_payment,
  refused,
}
use car_pay_in.Backend.Payment.Accept.{check-run, insert-found, with_transaction}
use car_pay_in.Backend.Payment.Runs.{
  approved-run, complete-run, notify-run, parse_uuid-some, raised-run, refused-run,
}
use car_pay_in.Backend.Transactions.{
  add_transaction, create_pending_transaction, find_session, get_active_billing_key,
  get_session_by_id, get_transaction_by_idempotency_key, pending_transaction,
}
use car_pay_in.Base.{
  Bool, Bool-cases, Option, Option-cases, String, arith, false, if◌then◌else◌, inl, inr, none, not,
  refl, some, suc, true, zero, ℕ, ◌&&◌, ◌==◌, ◌≡◌,
}
use car_pay_in.Exec.{Exception, Result, err, integrity_error, modify, ok, pure, value_error, ◌>>=◌}
use car_pay_in.Exec.Keeps.{Ends, Ends-bind, Ends-gets, Ends-lift, Ends-or_raise, Ends-raise_if}
use car_pay_in.Exec.Run.{bind-err, bind-ok, run-pure}
use car_pay_in.Integer.{int_beq, negsuc, pos, ℤ}

module _ {E : Env} (L : IsLawful E) (now : ℕ) (out : PaymentOutcome) (c : ProcessPaymentCommand)
    (s : State E) where
  abbrev Anything : State E → Type 0
  Anything _ = Unit

  abbrev Untouched : State E → Type 0
  Untouched t = t ≡ s

  Ends-returned :
      {A : Type 0} {a : A} {t : State E} (e : Result A × State E)
      → e ≡ (ok a, t)
      → Ends Anything Untouched e
  Ends-returned (ok _, t) h = tt
  Ends-returned (err e, t) h = ground arith

  -- the transaction of the key is stored, and the session can be completed
  record IsStored (key : String) (r : ParkingSession) (t : State E) : Type 0 where
    pub row : Transaction
    pub stored : get_transaction_by_idempotency_key E key t ≡ some row
    pub u : String
    pub known : E.uuid c.session_id ≡ some u
    pub found : find_session E u t ≡ some r

  add-Ends :
      (r : ParkingSession) (tx : Transaction) (u : String)
      → E.uuid c.session_id ≡ some u
      → find_session E u s ≡ some r
      → get_transaction_by_idempotency_key E tx.idempotency_key s ≡ none
      → Ends (IsStored tx.idempotency_key r) Untouched (add_transaction E tx s)
  unfolding add_transaction find_session ◌>>=◌
  add-Ends r tx u known found new =
      Ends-raise_if (IsStored tx.idempotency_key r) Untouched
        (not (transaction_fits (E.transactions.rows s.transactions) tx)) integrity_error
        (modify (with_transaction L tx)) s refl
        (λ _. record {
          row = tx;
          stored = insert-found L tx s new;
          u = u;
          known = known;
          found = found;
        })

  module _ (r : ParkingSession) (car key : String) where
    create-Ends :
        (tx_id : String) (n : ℕ) (billing_key : String) (u : String)
        → E.uuid c.session_id ≡ some u
        → find_session E u s ≡ some r
        → get_transaction_by_idempotency_key E key s ≡ none
        → Ends
            (IsStored key r)
            Untouched
            (create_pending_transaction E tx_id key c.session_id n c.currency billing_key s)
    unfolding create_pending_transaction find_session get_transaction_by_idempotency_key
    create-Ends tx_id n billing_key u known found new =
        let to = IsStored key r in
        Ends-lift to Untouched _ _ s refl λ i parsed.
          Ends-gets to Untouched (find_session E i) _ s (
            Ends-or_raise to Untouched _ _ _ s refl λ x there_is.
              Ends-lift to Untouched _ _ s refl λ t _.
                add-Ends r (pending_transaction t key x n c.currency billing_key) u known found new)

    after_store :
        (i : String) (pg : Option String) (a : String) (t : State E)
        → IsStored key r t
        → Ends Anything Untouched (complete_payment E now out c r i car key pg a t)
    after_store i pg a t S =
        Ends-returned _
          (complete-run E now out c r S.u i car key pg a S.row t S.stored S.known S.found)

    after_charged :
        (n : ℕ) (b : VehicleBillingKey) (t : State E)
        → IsStored key r t
        → Ends Anything Untouched (charge_and_complete E now out c r car key n b t)
    after_charged n b t S = by_answer out.pg refl
      where
        by_answer :
            (o : Result ChargeAnswer)
            → out.pg ≡ o
            → Ends Anything Untouched (charge_and_complete E now out c r car key n b t)
        by_answer (ok (approved pg a)) answers =
            Ends-returned _
              (approved-run E now out c r car key n b t S.stored S.known S.found answers)
        by_answer (ok (refused reason)) answers =
            Ends-returned _ (refused-run E now out c r car key n b t S.stored answers)
        by_answer (err e) answers =
            Ends-returned _ (raised-run E now out c r car key n b t S.stored answers)

    renotify-Ends :
        (x : Transaction) (b : Bool)
        → Ends Anything Untouched (
            (if b
                then notify_pms_payment_complete E now out c r x.tx_id x.approval_no key
                else pure tt)
              s)
    unfolding ◌>>=◌
    renotify-Ends x true = Ends-returned _ (notify-run E now out c r x.tx_id x.approval_no key s)
    renotify-Ends x false = tt

    Ends-pure : (p : ProcessPaymentResult) (t : State E) → Ends Anything Untouched (pure p t)
    unfolding ◌>>=◌
    Ends-pure p t = tt

    module _ (u : String) (known : E.uuid c.session_id ≡ some u)
        (found : find_session E u s ≡ some r) where
      pay_charged-Ends :
          (n : ℕ) (o : Option VehicleBillingKey)
          → get_transaction_by_idempotency_key E key s ≡ none
          → Ends Anything Untouched (pay_charged E now out c r car key n o s)
      unfolding pay_charged ◌>>=◌
      pay_charged-Ends n none new = refl
      pay_charged-Ends n (some b) new =
          Ends-bind (IsStored key r) Anything Untouched
            (create_pending_transaction E out.tx_uuid key c.session_id n c.currency b.billing_key)
            (λ _. charge_and_complete E now out c r car key n b) s
            (create-Ends out.tx_uuid n b.billing_key u known found new) (λ _. after_charged n b)

      pay_new-Ends :
          (a : ℤ)
          → get_transaction_by_idempotency_key E key s ≡ none
          → Ends Anything Untouched (pay_new E now out c r car key a s)
      unfolding pay_new pay_free ◌>>=◌
      pay_new-Ends (negsuc _) new = refl
      pay_new-Ends (pos zero) new =
          Ends-bind (IsStored key r) Anything Untouched
            (create_pending_transaction E (E.uuid5 key) key c.session_id 0 c.currency "FREE")
            (λ _. complete_payment E now out c r (E.uuid5 key) car key none "FREE") s
            (create-Ends (E.uuid5 key) 0 "FREE" u known found new)
            (λ _. after_store (E.uuid5 key) none "FREE")
      pay_new-Ends (pos (suc n)) new = pay_charged-Ends (suc n) (get_active_billing_key E car s) new

      pay_once-Ends :
          (o : Option Transaction)
          → get_transaction_by_idempotency_key E key s ≡ o
          → Ends Anything Untouched (pay_once E now out c r car key o s)
      unfolding pay_once
      pay_once-Ends none new = pay_new-Ends c.amount new
      pay_once-Ends (some x) stored =
          Ends-bind Anything Anything Untouched
            (if is_success E now out c x.status
              then notify_pms_payment_complete E now out c r x.tx_id x.approval_no key
              else pure tt)
            (λ _. pure (answer x.status x.tx_id x.approval_no x.failed_reason)) s
            (renotify-Ends x (is_success E now out c x.status)) (λ _ t _. Ends-pure _ t)

  stop :
      (car : String) {e : Exception}
      → check_request E now out c car s ≡ (err e, s)
      → Ends Anything Untouched (pay_as E now out c car s)
  unfolding pay_as
  stop car h = rw (bind-err _ _ s h) refl

  proceed :
      (car : String) {r : ParkingSession} {u : String}
      → E.uuid c.session_id ≡ some u
      → find_session E u s ≡ some r
      → check_request E now out c car s ≡ (ok r, s)
      → Ends Anything Untouched (pay_as E now out c car s)
  unfolding pay_as
  proceed car {r = r} {u = u} known found h =
      let key = idempotency_key_of E c car in
      rw (bind-ok _ _ s h) (
        Ends-gets Anything Untouched (get_transaction_by_idempotency_key E key)
          (pay_once E now out c r car key) s (pay_once-Ends r car key u known found _ refl))

  module _ (car : String) {quote : FeeQuote}
      (quoted : get_quote E now c.session_id s ≡ some quote) where
    abbrev quote_agrees : Bool
    quote_agrees = int_beq quote.amount c.amount && quote.currency == c.currency

    mismatch :
        quote_agrees ≡ false
        → check_request E now out c car s ≡ (err (value_error "amount_currency_mismatch"), s)
    unfolding check_request ◌>>=◌
    mismatch differs = rw (quoted, differs)

    bad_id :
        quote_agrees ≡ true
        → E.uuid c.session_id ≡ none
        → check_request E now out c car s
          ≡ (err (value_error "badly formed hexadecimal UUID string"), s)
    unfolding check_request get_session_by_id parse_uuid ◌>>=◌
    bad_id same bad = rw (quoted, same, bad)

    module _ (same : quote_agrees ≡ true) {u : String} (known : E.uuid c.session_id ≡ some u) where
      gone :
          find_session E u s ≡ none
          → check_request E now out c car s ≡ (err (value_error "session_not_found"), s)
      unfolding check_request get_session_by_id ◌>>=◌
      gone missing =
          let parsed = parse_uuid-some E c.session_id known in rw (quoted, same, parsed, missing)

      foreign :
          (r : ParkingSession)
          → find_session E u s ≡ some r
          → (r.car_id == car) ≡ false
          → check_request E now out c car s ≡ (err (value_error "session_car_id_mismatch"), s)
      unfolding check_request get_session_by_id ◌>>=◌
      foreign r found theirs =
          let parsed = parse_uuid-some E c.session_id known in
          rw (quoted, same, parsed, found, theirs)

      session-Ends : Ends Anything Untouched (pay_as E now out c car s)
      session-Ends = elim (Option-cases (find_session E u s)) [
        | inl missing ↦ stop car (gone missing)
        | inr (r, found) ↦ elim (Bool-cases (r.car_id == car)) [
          | inr theirs ↦ stop car (foreign r found theirs)
          | inl mine ↦
              proceed car known found (check-run now out c s car quoted same known found mine)
        ]
      ]

    quoted-Ends : Ends Anything Untouched (pay_as E now out c car s)
    quoted-Ends = elim (Bool-cases quote_agrees) [
      | inr differs ↦ stop car (mismatch differs)
      | inl same ↦ elim (Option-cases (E.uuid c.session_id)) [
        | inl bad ↦ stop car (bad_id same bad)
        | inr (u, known) ↦ session-Ends same known
      ]
    ]

  no_quote :
      (car : String)
      → get_quote E now c.session_id s ≡ none
      → check_request E now out c car s ≡ (err (value_error "quote_not_found"), s)
  unfolding check_request ◌>>=◌
  no_quote car missing = rw missing

  check-Ends : (car : String) → Ends Anything Untouched (pay_as E now out c car s)
  check-Ends car = elim (Option-cases (get_quote E now c.session_id s)) [
    | inl missing ↦ stop car (no_quote car missing)
    | inr (quote, quoted) ↦ quoted-Ends car quoted
  ]

  safe : Ends Anything Untouched (process_payment E now out c s)
  unfolding process_payment
  safe = elim (Bool-cases (c.session_id == "sess_dev_001")) [
    | inl dev ↦ rw dev (Ends-returned _ (run-pure _ s))
    | inr real ↦ rw real (Ends-lift Anything Untouched _ _ s refl (λ t _. check-Ends t.car_id))
  ]

  raised-Untouched :
      {e : Exception} (r : Result ProcessPaymentResult × State E)
      → Ends Anything Untouched r
      → r.0 ≡ err e
      → r.1 ≡ s
  raised-Untouched (ok _, t) h clash = ground arith
  raised-Untouched (err _, t) h _ = h

  -- While the database and Redis carry out what they are asked, as they always do in this model: a
  -- payment request that ends with an exception has changed nothing, no row and no Redis key, and
  -- has made no call to another process. A failure of the database or of Redis itself, after a
  -- part of the changes, is not covered.
  pub process_payment-Untouched :
      {e : Exception}
      → (process_payment E now out c s).0 ≡ err e
      → (process_payment E now out c s).1 ≡ s
  process_payment-Untouched = raised-Untouched (process_payment E now out c s) safe
