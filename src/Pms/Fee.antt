-- ===== src/Pms/Fee.antt =====
-- services/pms/app/infra/fees/simple_fee_calculator.py and
-- services/pms/app/application/pms/calculate_fee.py
pub mod Bounds
use car_pay_in.Base.{
  Bool, Option, String, false, if◌then◌else◌, leb, ltb, none, not, some, suc, true, zero, ℕ, ◌&&◌,
  ◌*◌, ◌+◌, ◌-◌, ◌/◌, ◌==◌,
}
use car_pay_in.DateTime.{DateTime, Iso, micros, utc_now}
use car_pay_in.Exec.{
  Exec, Result, err, gets, lift, ok, or_raise, pure, raise, raise_if, value_error, ◌>>=◌, ◌>>◌,
}
use car_pay_in.Pms.Models.{Env, PmsParkingSession, State, is_active}
use car_pay_in.Pms.Sessions.{get_active_session_by_lot_and_plate, get_session_by_id}

pub record Fee : Type 0 where
  pub amount : ℕ
  pub duration_minutes : ℕ

-- a minute in microseconds
abbrev pub minute : ℕ
minute = 60 * 1000000

-- The calculation on two instants, both naive or both taken as UTC. `int(x / 60)` rounds towards
-- zero, so a current time less than a minute before the entry counts as no time at all. The division
-- is exact here and in floating point in the source, which could differ for extreme durations only.
unfoldable pub fee_between : ℕ → ℕ → ℕ → Result Fee
fee_between amount_per_30_minutes entry current =
    let duration_minutes = (current - entry) / minute in
    let blocks = (duration_minutes + 29) / 30 in
    if ltb 0 ((entry - current) / minute)
    then err (value_error "invalid_current_time")
    else ok
        (record { amount = blocks * amount_per_30_minutes; duration_minutes = duration_minutes })

unfoldable pub parse_time : Iso → String → Result ℕ
parse_time I text = elim (I.fromisoformat text) [
  | some t ↦ ok (micros t)
  | none ↦ err (value_error "Invalid isoformat string")
]

-- The fix of mixed naive and aware times reads the naive one as UTC, so the difference is that of
-- the counts.
unfoldable pub calculate : Iso → ℕ → String → String → Result Fee
unfolding fee_between parse_time
calculate I amount_per_30_minutes entry_time current_time = elim (parse_time I entry_time) [
  | err e ↦ err e
  | ok entry ↦ elim (parse_time I current_time) [
    | err e ↦ err e
    | ok current ↦ fee_between amount_per_30_minutes entry current
  ]
]

pub record CalculateFeeCommand : Type 0 where
  pub pms_session_id : Option String
  pub current_time : Option String
  pub lot_id : Option String
  pub plate : Option String

pub record CalculateFeeResult : Type 0 where
  pub fee : Fee
  pub currency : String
  pub session : PmsParkingSession
  pub calculated_at : String

-- Python's truth of an optional text
abbrev pub given : Option String → Option String
given none = none
given (some t) = if t == "" then none else some t

module _ (E : Env) where
  abbrev pub find_by_id : Option String → State E → Option PmsParkingSession
  find_by_id none s = none
  find_by_id (some i) s = get_session_by_id E i s

  abbrev pub find_at : Option String → Option String → State E → Option PmsParkingSession
  find_at (some lot) (some plate) s = get_active_session_by_lot_and_plate E lot plate s
  find_at _ _ s = none

  -- first by lot and plate, then by the session's id
  unfoldable pub find_session : CalculateFeeCommand → State E → Option PmsParkingSession
  find_session c s = elim (find_at (given c.lot_id) (given c.plate) s) [
    | some r ↦ some r
    | none ↦ find_by_id (given c.pms_session_id) s
  ]

  unfoldable pub current_time_of : ℕ → CalculateFeeCommand → String
  current_time_of now c = elim (given c.current_time) [
    | some t ↦ t
    | none ↦ E.iso.isoformat (utc_now now)
  ]

  unfoldable pub calculate_fee : ℕ → ℕ → CalculateFeeCommand → Exec (State E) CalculateFeeResult
  unfolding find_session current_time_of
  calculate_fee amount_per_30_minutes now c = do
    session ← (do or_raise (← gets (find_session c)) (value_error "session_not_found"))
    raise_if (not (is_active session.status)) (value_error "session_not_active")
    let current_time = current_time_of now c
    fee ←
        lift
          (calculate E.iso amount_per_30_minutes (E.iso.isoformat session.entry_time) current_time)
    pure (record { fee = fee; currency = "KRW"; session = session; calculated_at = current_time })
