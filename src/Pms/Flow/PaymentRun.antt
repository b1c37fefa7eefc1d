-- ===== src/Pms/Flow/PaymentRun.antt =====
-- What a payment notification of a known session leaves behind.
use car_pay_in.Base.{
  Option, String, [], ap, arith, eq_refl, if◌then◌else◌, ltb, none, refl, some, true, ℕ, ◌++◌, ◌+◌,
  ◌<◌, ◌==◌, ◌∙◌, ◌∷◌, ◌≡◌, ◌≤◌,
}
use car_pay_in.Exec.{Result, catch, err, ok, ◌>>=◌}
use car_pay_in.Exec.Run.{bind-ok, catch-ok, run-gets-bind, run-pure}
use car_pay_in.Pms.Models.{
  Env, IsLawful, ParkingPayload, PmsParkingSession, SessionStatus, State, has_id, has_key,
  open_exit, paid, record_call, request_fits, success,
}
use car_pay_in.Pms.Payments.{
  RecordPaymentCompleteCommand, add_payment_request, completed_request, get_by_idempotency_key,
  publish_paid, record_once, record_payment_complete, save_payment_request, settle_session,
  try_open_exit,
}
use car_pay_in.Pms.Sessions.{change, change_session, get_session_by_id, mark_paid, require_session}
use car_pay_in.Pms.Stores.{
  get_session, session_key, session_ttl_seconds, update_status, write_status,
}
use car_pay_in.Table.{first-amend, first_sound}

module _ {E : Env} (L : IsLawful E) where
  -- a change of the columns of a session that is there
  pub changed-by_id :
      (i : String) (f : PmsParkingSession → PmsParkingSession) (s : State E) {r : PmsParkingSession}
      → ((x : PmsParkingSession) → (f x).pms_session_id ≡ x.pms_session_id)
      → get_session_by_id E i s ≡ some r
      → get_session_by_id E i (change E i f s) ≡ some (f r)
  unfolding get_session_by_id
  changed-by_id i f s {r} keeps found =
      let row = rw (L.sessions.scalar-rows (has_id i) s.sessions) at found in
      rw (
        L.sessions.scalar-rows (has_id i) (E.sessions.update (has_id i) f s.sessions),
        L.sessions.rows-update,
        first-amend (has_id i) (has_id i) f (E.sessions.rows s.sessions)
            (λ x _. ap (λ (t : String). t == i) (keeps x)),
        row,
        first_sound (has_id i) (E.sessions.rows s.sessions) row,
      )

  pub change_session-run :
      (i : String) (f : PmsParkingSession → PmsParkingSession) (s : State E) {r : PmsParkingSession}
      → get_session_by_id E i s ≡ some r
      → change_session E i f s ≡ (ok tt, change E i f s)
  unfolding change_session require_session ◌>>=◌
  change_session-run i f s found = rw found

  write_status-ok :
      (now : ℕ) (key : String) (status : SessionStatus) (o : Option ParkingPayload) (s : State E)
      → (write_status E now key status o s ≡ (ok tt, (write_status E now key status o s).1))
        × ((write_status E now key status o s).1.sessions ≡ s.sessions)
  unfolding write_status
  write_status-ok now key status none s = (refl, refl)
  write_status-ok now key status (some p) s = (refl, refl)

  pub update_status-ok :
      (now : ℕ) (lot plate : String) (status : SessionStatus) (s : State E)
      → (update_status E now lot plate status s
          ≡ (ok tt, (update_status E now lot plate status s).1))
        × ((update_status E now lot plate status s).1.sessions ≡ s.sessions)
  unfolding update_status
  update_status-ok now lot plate status s = write_status-ok now (session_key lot plate) status _ s

  -- the rest of the entry's life, or three days where Redis does not know it
  status_ttl : ℕ → String → State E → ℕ
  status_ttl now k s =
      if ltb 0 (E.parking.ttl now k s.parking)
      then E.parking.ttl now k s.parking
      else session_ttl_seconds

  alive-later :
      (now later : ℕ) (k : String) (p : ParkingPayload) (s : State E)
      → now ≤ later
      → later < now + session_ttl_seconds
      → E.parking.get later k s.parking ≡ some p
      → ltb later (now + status_ttl now k s) ≡ true
  unfolding status_ttl
  alive-later now later k p s from until found =
      ground (arith, L.parking.get-ttl now later k s.parking)

  -- the entry of Redis is marked and lives on for what it had left
  pub update_status-cached :
      (now later : ℕ) (lot plate : String) (status : SessionStatus) (p : ParkingPayload)
      (s : State E)
      → now ≤ later
      → later < now + session_ttl_seconds
      → get_session E now lot plate s ≡ some p
      → get_session E later lot plate s ≡ some p
      → get_session E later lot plate (update_status E now lot plate status s).1
        ≡ some (record p { status = status })
  unfolding update_status write_status get_session status_ttl
  update_status-cached now later lot plate status p s from until cached lives = rw cached (
      rw (
        L.parking.get-set later now (session_key lot plate) (session_key lot plate) _ _ s.parking
            from,
        eq_refl (session_key lot plate),
        alive-later now later (session_key lot plate) p s from until lives,
      ))

pub try_open_exit-run :
    {E : Env} (barrier : Result (Unit {0})) (i : String) (s : State E)
    → try_open_exit E barrier i s ≡ (ok tt, record s { calls = s.calls ++ open_exit i ∷ [] })
unfolding try_open_exit record_call catch
try_open_exit-run (ok _) i s = refl
try_open_exit-run (err e) i s = refl

abbrev pub paid_session : PmsParkingSession → PmsParkingSession
paid_session r = record r { status = paid }

module _ {E : Env} (L : IsLawful E) (now : ℕ) (barrier : Result (Unit {0})) where
  module _ (c : RecordPaymentCompleteCommand) (s : State E) (r : PmsParkingSession) where
    abbrev stored : State E
    stored = record s {
      payment_requests = E.payment_requests.insert (completed_request now c) s.payment_requests;
    }

    abbrev settled : State E
    settled =
        (update_status E now r.lot_id r.plate paid
          (change E c.pms_session_id paid_session stored)).1

    new_request-fits :
        get_by_idempotency_key E c.idempotency_key s ≡ none
        → get_session_by_id E c.pms_session_id s ≡ some r
        → request_fits
            (E.sessions.rows s.sessions)
            (E.payment_requests.rows s.payment_requests)
            (completed_request now c)
          ≡ true
    unfolding request_fits get_by_idempotency_key get_session_by_id
    new_request-fits new found = rw (
      ← L.sessions.scalar-rows (has_id c.pms_session_id) s.sessions,
      ← L.payment_requests.scalar-rows (has_key c.idempotency_key) s.payment_requests,
      new,
      found,
    )

    save-run :
        get_by_idempotency_key E c.idempotency_key s ≡ none
        → get_session_by_id E c.pms_session_id s ≡ some r
        → save_payment_request E now c s ≡ (ok (completed_request now c), stored)
    unfolding save_payment_request add_payment_request ◌>>=◌
    save-run new found = let fits = new_request-fits new found in rw (new, fits)

    settle-run :
        get_session_by_id E c.pms_session_id s ≡ some r
        → settle_session E now c.pms_session_id stored ≡ (ok tt, settled)
    unfolding settle_session mark_paid publish_paid get_session_by_id
    settle-run found = catch-ok _ _ stored (
        run-gets-bind _ _ stored
        ∙ bind-ok _ _ stored (change_session-run L c.pms_session_id paid_session stored found)
        ∙ ap (λ o. publish_paid E now o (change E c.pms_session_id paid_session stored)) found
        ∙ (update_status-ok L now r.lot_id r.plate paid _).0)

    -- What a first notification of a payment for a session `r` leaves behind.
    pub record Settled (t : State E) : Type 0 where
      pub answer : record_payment_complete E now barrier c s ≡ (ok success, t)
      pub by_id : get_session_by_id E c.pms_session_id t ≡ some (paid_session r)
      pub cached :
          (later : ℕ) (p : ParkingPayload)
          → now ≤ later
          → later < now + session_ttl_seconds
          → get_session E now r.lot_id r.plate s ≡ some p
          → get_session E later r.lot_id r.plate s ≡ some p
          → get_session E later r.lot_id r.plate t ≡ some (record p { status = paid })
      pub opened : t.calls ≡ settled.calls ++ open_exit c.pms_session_id ∷ []

    settled-by_id :
        get_session_by_id E c.pms_session_id s ≡ some r
        → get_session_by_id E c.pms_session_id settled ≡ some (paid_session r)
    unfolding get_session_by_id
    settled-by_id found =
        ap (E.sessions.scalar (has_id c.pms_session_id))
          (update_status-ok L now r.lot_id r.plate paid
            (change E c.pms_session_id paid_session stored)).1
        ∙ changed-by_id L c.pms_session_id paid_session stored (λ _. refl) found

    pub payment-Settled :
        get_by_idempotency_key E c.idempotency_key s ≡ none
        → get_session_by_id E c.pms_session_id s ≡ some r
        → (t : State E) × Settled t
    unfolding record_payment_complete record_once get_session_by_id get_session
    payment-Settled new found = (
      record settled { calls = settled.calls ++ open_exit c.pms_session_id ∷ [] },
      record {
        answer =
            run-gets-bind _ _ s
            ∙ ap (λ o. record_once E now barrier c o s) new
            ∙ bind-ok _ _ s (save-run new found)
            ∙ bind-ok _ _ stored (settle-run found)
            ∙ bind-ok _ _ settled (try_open_exit-run barrier c.pms_session_id settled)
            ∙ run-pure success _;
        by_id = settled-by_id found;
        cached = λ later p from until here_now lives.
            update_status-cached L now later r.lot_id r.plate paid p
              (change E c.pms_session_id paid_session stored) from until here_now lives;
        opened = refl;
      },
    )
