-- ===== src/Pms/Sessions.antt =====
-- services/pms/app/infra/repositories/pms_session_repository.py
use car_pay_in.Base.{Option, String, is_some, none, not, some, ℕ, ◌&&◌}
use car_pay_in.DateTime.{DateTime, utc_now}
use car_pay_in.Exec.{
  Exec, gets, integrity_error, lookup_error, modify, or_raise, raise_if, value_error, ◌>>=◌, ◌>>◌,
}
use car_pay_in.Pms.Models.{
  Env, PmsParkingSession, SessionStatus, State, active, active_at, active_plate, cancelled, exited,
  has_id, is_active, paid, paid_at, session_fits,
}

-- the object that `create_session` adds
abbrev pub new_session : String → String → String → DateTime → PmsParkingSession
new_session i lot plate t = record {
  pms_session_id = i;
  lot_id = lot;
  plate = plate;
  entry_time = t;
  exit_time = none;
  status = active;
}

module _ (E : Env) where
  unfoldable pub get_session_by_id : String → State E → Option PmsParkingSession
  get_session_by_id i s = E.sessions.scalar (has_id i) s.sessions

  unfoldable pub get_active_session_by_plate : String → State E → Option PmsParkingSession
  get_active_session_by_plate plate s = E.sessions.scalar (active_plate plate) s.sessions

  unfoldable pub get_paid_session_by_lot_and_plate :
      String → String → State E → Option PmsParkingSession
  get_paid_session_by_lot_and_plate lot plate s = E.sessions.scalar (paid_at lot plate) s.sessions

  unfoldable pub get_active_session_by_lot_and_plate :
      String → String → State E → Option PmsParkingSession
  get_active_session_by_lot_and_plate lot plate s =
      E.sessions.scalar (active_at lot plate) s.sessions

  abbrev pub change : String → (PmsParkingSession → PmsParkingSession) → State E → State E
  change i f s = record s { sessions = E.sessions.update (has_id i) f s.sessions }

  -- A row that breaks a constraint is refused by the database at the commit.
  unfoldable pub create_session : String → String → String → String → Exec (State E) (Unit {0})
  create_session i lot plate entry_time = do
    t ← or_raise (E.iso.fromisoformat entry_time) (value_error "Invalid isoformat string")
    let obj = new_session i lot plate t
    fits ← gets (λ s. session_fits (E.sessions.rows s.sessions) obj)
    raise_if (not fits) integrity_error
    modify (λ s. record s { sessions = E.sessions.insert obj s.sessions })

  unfoldable pub require_session : String → Exec (State E) PmsParkingSession
  require_session i = do
    obj ← gets (get_session_by_id i)
    or_raise obj (lookup_error "session_not_found")

  -- what the `mark` methods share: the lookup, the assignment, the commit
  unfoldable pub change_session :
      String → (PmsParkingSession → PmsParkingSession) → Exec (State E) (Unit {0})
  change_session i f = do require_session i; modify (change i f)

  -- Only a change to `active` can break a constraint, the one on active plates.
  unfoldable pub update_status : String → SessionStatus → Exec (State E) (Unit {0})
  update_status i status = do
    obj ← require_session i
    taken ← gets (get_active_session_by_plate obj.plate)
    raise_if (is_active status && not (is_active obj.status) && is_some taken) integrity_error
    modify (change i (λ r. record r { status = status }))

  unfoldable pub mark_paid : String → Exec (State E) (Unit {0})
  mark_paid i = change_session i (λ r. record r { status = paid })

  unfoldable pub mark_exited : String → ℕ → Exec (State E) (Unit {0})
  mark_exited i now =
      change_session i (λ r. record r { status = exited; exit_time = some (utc_now now) })

  unfoldable pub mark_cancelled : String → ℕ → Exec (State E) (Unit {0})
  mark_cancelled i now =
      change_session i (λ r. record r { status = cancelled; exit_time = some (utc_now now) })
