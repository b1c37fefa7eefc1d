-- ===== src/Pms/Payments/Idempotence.antt =====
-- A payment notification that arrives again: services/pms answers as before and changes nothing.
use car_pay_in.Base.{
  Bool-cases, Option, Option-cases, String, ap, eq_refl, inl, inr, none, refl, some, sym, ℕ, ◌∙◌,
  ◌≡◌, ◌⊎◌,
}
use car_pay_in.Exec.{
  Exception, Exec, Result, err, integrity_error, lookup_error, modify, ok, pure, ◌>>=◌,
}
use car_pay_in.Exec.Keeps.{Keeps, Keeps-bind, Keeps-modify, keeps_rules}
use car_pay_in.Exec.Run.{bind-err, bind-ok, ends-pure, run-gets-bind}
use car_pay_in.Pms.Models.{
  Call, Env, IsLawful, ParkingPayload, PaymentRequest, PmsParkingSession, RequestStatus,
  SessionStatus, State, has_key, paid, record_call, request_fits, success,
}
use car_pay_in.Pms.Payments.{
  RecordPaymentCompleteCommand, add_payment_request, completed_request, get_by_idempotency_key,
  pass_lookup_error, publish_paid, record_once, record_payment_complete, save_payment_request,
  settle_session, try_open_exit, update_status,
}
use car_pay_in.Pms.Sessions.{change, change_session, mark_paid, require_session}
use car_pay_in.Pms.Stores.{session_key, update_status, write_status}
use car_pay_in.Table.{first-append}

module _ {E : Env} where
  -- the table of payment requests is `q`
  abbrev HasRequests : E.payment_requests.State → State E → Type 0
  HasRequests q s = s.payment_requests ≡ q

  module _ (q : E.payment_requests.State) where
    record_call-requests : (c : Call) → Keeps (HasRequests q) (record_call E c)
    unfolding record_call
    record_call-requests c = record { at = λ s h. h }

    mark_paid-requests : (i : String) → Keeps (HasRequests q) (mark_paid E i)
    unfolding mark_paid change_session require_session
    mark_paid-requests i =
        Keeps-bind (λ _. modify (change E i (λ r. record r { status = paid })))
          (require_session E i) (search keeps_rules) (λ _. Keeps-modify _ (λ s h. h))

    write_status-requests :
        (now : ℕ) (key : String) (status : SessionStatus) (o : Option ParkingPayload)
        → Keeps (HasRequests q) (write_status E now key status o)
    unfolding write_status
    write_status-requests now key status none = record { at = λ s h. h }
    write_status-requests now key status (some p) = record { at = λ s h. h }

    update_status-requests :
        (now : ℕ) (lot plate : String) (status : SessionStatus)
        → Keeps (HasRequests q) (update_status E now lot plate status)
    unfolding update_status
    update_status-requests now lot plate status = record {
      at = λ s. (write_status-requests now (session_key lot plate) status _).at s;
    }

    publish_paid-requests :
        (now : ℕ) (o : Option PmsParkingSession) → Keeps (HasRequests q) (publish_paid E now o)
    unfolding publish_paid
    publish_paid-requests now none = search keeps_rules
    publish_paid-requests now (some r) = update_status-requests now r.lot_id r.plate paid

    pass_lookup_error-requests : (e : Exception) → Keeps (HasRequests q) (pass_lookup_error E e)
    pass_lookup_error-requests (lookup_error _) = search keeps_rules
    pass_lookup_error-requests _ = search keeps_rules

    settle_session-requests :
        (now : ℕ) (i : String) → Keeps (HasRequests q) (settle_session E now i)
    unfolding settle_session
    settle_session-requests now i =
        search (keeps_rules, mark_paid-requests, publish_paid-requests, pass_lookup_error-requests)

    try_open_exit-requests :
        (barrier : Result (Unit {0})) (i : String)
        → Keeps (HasRequests q) (try_open_exit E barrier i)
    unfolding try_open_exit
    try_open_exit-requests barrier i = search (keeps_rules, record_call-requests)

    finish-requests :
        (now : ℕ) (barrier : Result (Unit {0})) (i : String)
        → Keeps
            (HasRequests q)
            (settle_session E now i >>= λ _. try_open_exit E barrier i >>= λ _. pure success)
    finish-requests now barrier i =
        search (keeps_rules, settle_session-requests, try_open_exit-requests)

module _ {E : Env} (L : IsLawful E) where
  save_payment_request-cases :
      (now : ℕ) (c : RecordPaymentCompleteCommand) (s : State E)
      → get_by_idempotency_key E c.idempotency_key s ≡ none
      → (save_payment_request E now c s ≡ (err integrity_error, s))
        ⊎ (save_payment_request E now c s ≡ (
          ok (completed_request now c),
          record s {
            payment_requests =
                E.payment_requests.insert (completed_request now c) s.payment_requests;
          },
        ))
  unfolding save_payment_request add_payment_request ◌>>=◌
  save_payment_request-cases now c s new =
      elim (Bool-cases (
        request_fits (E.sessions.rows s.sessions) (E.payment_requests.rows s.payment_requests)
          (completed_request now c))) [
            | inl fits ↦ inr (rw (new, fits))
            | inr clash ↦ inl (rw (new, clash))
          ]

  saved-known :
      (now : ℕ) (c : RecordPaymentCompleteCommand) (s t : State E)
      → get_by_idempotency_key E c.idempotency_key s ≡ none
      → t.payment_requests ≡ E.payment_requests.insert (completed_request now c) s.payment_requests
      → get_by_idempotency_key E c.idempotency_key t ≡ some (completed_request now c)
  unfolding get_by_idempotency_key
  saved-known now c s t new e =
      rw (e, L.payment_requests.scalar-rows, L.payment_requests.rows-insert, first-append)
        (rw (← L.payment_requests.scalar-rows (has_key c.idempotency_key) s.payment_requests, new)
          (rw (eq_refl c.idempotency_key)))

  module _ (now : ℕ) (barrier : Result (Unit {0})) (c : RecordPaymentCompleteCommand) where
    abbrev saved_state : State E → State E
    saved_state s = record s {
      payment_requests = E.payment_requests.insert (completed_request now c) s.payment_requests;
    }

    abbrev rest : Exec (State E) RequestStatus
    rest = settle_session E now c.pms_session_id >>= λ _.
        try_open_exit E barrier c.pms_session_id >>= λ _. pure success

    -- a run on a new key raises at the commit, or goes on from the stored request
    record_once-cases :
        (s : State E)
        → get_by_idempotency_key E c.idempotency_key s ≡ none
        → (record_once E now barrier c none s ≡ (err integrity_error, s))
          ⊎ (record_once E now barrier c none s ≡ rest (saved_state s))
    unfolding record_once
    record_once-cases s new = elim (save_payment_request-cases now c s new) [
      | inl clash ↦ inl (bind-err _ _ s clash)
      | inr saved ↦ inr (bind-ok _ _ s saved)
    ]

    rest-known :
        (s : State E) {st : RequestStatus}
        → get_by_idempotency_key E c.idempotency_key s ≡ none
        → (rest (saved_state s)).0 ≡ ok st
        → (st ≡ success)
          × (get_by_idempotency_key E c.idempotency_key (rest (saved_state s)).1
              ≡ some (completed_request now c))
    rest-known s new h = (
      ends-pure _ _ success _ h,
      saved-known now c s _ new
          ((finish-requests _ now barrier c.pms_session_id).at (saved_state s) refl),
    )

    -- a run on a new key that ends well has stored the request
    fresh-known :
        (s : State E) {st : RequestStatus}
        → get_by_idempotency_key E c.idempotency_key s ≡ none
        → (record_once E now barrier c none s).0 ≡ ok st
        → (st ≡ success)
          × (get_by_idempotency_key E c.idempotency_key (record_once E now barrier c none s).1
              ≡ some (completed_request now c))
    fresh-known s new h = elim (record_once-cases s new) [
      | inl clash ↦ cc (clash, h)
      | inr went ↦ rw went (rest-known s new (rw went at h))
    ]

  known-again :
      (now : ℕ) (barrier : Result (Unit {0})) (c : RecordPaymentCompleteCommand)
      (r : PaymentRequest) (s : State E)
      → get_by_idempotency_key E c.idempotency_key s ≡ some r
      → record_payment_complete E now barrier c s ≡ (ok r.status, s)
  unfolding record_payment_complete record_once ◌>>=◌
  known-again now barrier c r s known = rw known

  new-run :
      (now : ℕ) (barrier : Result (Unit {0})) (c : RecordPaymentCompleteCommand) (s : State E)
      → get_by_idempotency_key E c.idempotency_key s ≡ none
      → record_payment_complete E now barrier c s ≡ record_once E now barrier c none s
  unfolding record_payment_complete
  new-run now barrier c s new = run-gets-bind _ _ s ∙ ap (λ o. record_once E now barrier c o s) new

  -- After a payment notification that was answered, the same notification at any later time is
  -- answered in the same way and changes nothing: no row, no Redis key, no call of the barrier.
  pub record_payment_complete-twice :
      (now later : ℕ) (barrier barrier' : Result (Unit {0})) (c : RecordPaymentCompleteCommand)
      (s : State E) {st : RequestStatus}
      → (record_payment_complete E now barrier c s).0 ≡ ok st
      → record_payment_complete E later barrier' c (record_payment_complete E now barrier c s).1
        ≡ (ok st, (record_payment_complete E now barrier c s).1)
  record_payment_complete-twice now later barrier barrier' c s {st} h =
      elim (Option-cases (get_by_idempotency_key E c.idempotency_key s)) [
        | inl new ↦
            let run = new-run now barrier c s new in
            let (e, stored) = fresh-known now barrier c s new (rw run at h) in
            rw run (
              known-again later barrier' c (completed_request now c) _ stored
              ∙ ap (λ (x : RequestStatus). (ok x, (record_once E now barrier c none s).1)) (sym e))
        | inr (r, known) ↦
            let run = known-again now barrier c r s known in
            rw run (
              known-again later barrier' c r s known
              ∙ ap (λ (x : Result RequestStatus). (x, s)) (rw run at h))
      ]
