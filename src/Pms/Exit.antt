-- ===== src/Pms/Exit.antt =====
-- services/pms/app/application/pms/handle_lpr_exit.py and
-- services/pms/app/application/pms/get_session_status.py, wired as in
-- services/pms/app/api/deps.py.
pub mod Cases
use car_pay_in.Base.{Bool, Option, String, false, if◌then◌else◌, none, some, true, ℕ}
use car_pay_in.Exec.{Exec, Result, gets, pure, ◌>>=◌, ◌>>◌}
use car_pay_in.Pms.Models.{Env, ParkingPayload, PmsParkingSession, SessionStatus, State, is_paid}
use car_pay_in.Pms.Payments.{try_open_exit}
use car_pay_in.Pms.Sessions.{get_paid_session_by_lot_and_plate, mark_exited}
use car_pay_in.Pms.Stores.{delete_session, get_session}

pub data ExitStatus : Type 0 where
  opened not_paid not_found : ExitStatus

module _ (E : Env) where
  unfoldable pub open_and_exit :
      ℕ
      → Result (Unit {0})
      → String
      → String
      → String
      → Bool
      → Exec (State E) (ExitStatus × Option String)
  open_and_exit now barrier i lot plate from_redis = do
    try_open_exit E barrier i
    if from_redis then delete_session E lot plate else pure tt
    mark_exited E i now
    pure (opened, some i)

  unfoldable pub exit_paid :
      ℕ
      → Result (Unit {0})
      → String
      → String
      → Option PmsParkingSession
      → Exec (State E) (ExitStatus × Option String)
  exit_paid now barrier lot plate (some r) =
      open_and_exit now barrier r.pms_session_id lot plate false
  exit_paid now barrier lot plate none = pure (not_found, none)

  -- the entry of Redis decides; without one, the database does
  unfoldable pub exit_cached :
      ℕ
      → Result (Unit {0})
      → String
      → String
      → Option ParkingPayload
      → Exec (State E) (ExitStatus × Option String)
  exit_cached now barrier lot plate (some payload) =
      if is_paid payload.status
      then open_and_exit now barrier payload.pms_session_id lot plate true
      else pure (not_paid, none)
  exit_cached now barrier lot plate none = do
    session ← gets (get_paid_session_by_lot_and_plate E lot plate)
    exit_paid now barrier lot plate session

  unfoldable pub handle_lpr_exit :
      ℕ → Result (Unit {0}) → String → String → Exec (State E) (ExitStatus × Option String)
  handle_lpr_exit now barrier lot plate = do
    cached ← gets (get_session E now lot plate)
    exit_cached now barrier lot plate cached

  -- what `GET /parking/session-status` shows: the status in Redis, or `none` for "not_found"
  unfoldable pub get_session_status : ℕ → String → String → State E → Option SessionStatus
  get_session_status now lot plate s = elim (get_session E now lot plate s) [
    | some payload ↦ some payload.status
    | none ↦ none
  ]
