-- ===== src/Pms/Models.antt =====
-- services/pms/app/infra/db/models.py and what services/pms/app/api/deps.py wires together: the
-- rows of the two tables with their constraints, the two Redis stores, and the calls to the
-- barrier and to the backend, kept in the order in which they are made.
use car_pay_in.Base.{
  Bool, List, Option, String, [], false, is_some, not, true, ℕ, ◌&&◌, ◌++◌, ◌==◌, ◌∷◌,
}
use car_pay_in.DateTime.{DateTime, IsIso, Iso}
use car_pay_in.Exec.{Exec, ok}
use car_pay_in.Redis.{IsRedis, Redis}
use car_pay_in.Table.{IsTable, Table, first}

-- `ck_pms_parking_sessions_status`
pub data SessionStatus : Type 0 where
  active paid exited cancelled : SessionStatus

abbrev pub is_active : SessionStatus → Bool
is_active active = true
is_active _ = false

abbrev pub is_paid : SessionStatus → Bool
is_paid paid = true
is_paid _ = false

pub record PmsParkingSession : Type 0 where
  pub pms_session_id : String
  pub lot_id : String
  pub plate : String
  pub entry_time : DateTime
  pub exit_time : Option DateTime
  pub status : SessionStatus

-- `ck_payment_requests_status`
pub data RequestStatus : Type 0 where
  pending success failed cancelled : RequestStatus

-- The check `amount >= 0` is the type of `amount`.
pub record PaymentRequest : Type 0 where
  pub pms_session_id : String
  pub carpay_parking_session_id : String
  pub carpay_tx_id : String
  pub amount : ℕ
  pub currency : String
  pub status : RequestStatus
  pub idempotency_key : String
  pub approval_no : String
  pub completed_at : DateTime

-- the JSON payload of `RedisParkingSessionStore`
pub record ParkingPayload : Type 0 where
  pub pms_session_id : String
  pub lot_id : String
  pub plate : String
  pub entry_time : String
  pub status : SessionStatus

-- a call to another process
pub data Call : Type 0 where
  open_entry open_exit : String → Call
  entry_webhook : String → String → String → String → Call

pub record Env : Type 1 where
  pub sessions : Table PmsParkingSession
  pub payment_requests : Table PaymentRequest
  pub pre_registration : Redis String
  pub parking : Redis ParkingPayload
  pub iso : Iso

pub record IsLawful (E : Env) : Type 0 where
  pub sessions : IsTable E.sessions
  pub payment_requests : IsTable E.payment_requests
  pub pre_registration : IsRedis E.pre_registration
  pub parking : IsRedis E.parking
  pub iso : IsIso E.iso

pub record State (E : Env) : Type 0 where
  pub sessions : E.sessions.State
  pub payment_requests : E.payment_requests.State
  pub pre_registration : E.pre_registration.State
  pub parking : E.parking.State
  pub calls : List Call

-- the tests of the `where` clauses
abbrev pub has_id : String → PmsParkingSession → Bool
has_id i r = r.pms_session_id == i

abbrev pub active_plate : String → PmsParkingSession → Bool
active_plate plate r = r.plate == plate && is_active r.status

abbrev pub active_at : String → String → PmsParkingSession → Bool
active_at lot plate r = r.lot_id == lot && (r.plate == plate && is_active r.status)

abbrev pub paid_at : String → String → PmsParkingSession → Bool
paid_at lot plate r = r.lot_id == lot && (r.plate == plate && is_paid r.status)

abbrev pub has_key : String → PaymentRequest → Bool
has_key k r = r.idempotency_key == k

-- The unique constraints on a new session: the primary key, and one active session per plate.
unfoldable pub session_fits : List PmsParkingSession → PmsParkingSession → Bool
session_fits rows r =
    not (is_some (first (has_id r.pms_session_id) rows))
    && not (is_active r.status && is_some (first (active_plate r.plate) rows))

-- The foreign key of a new payment request, and its unique key.
unfoldable pub request_fits : List PmsParkingSession → List PaymentRequest → PaymentRequest → Bool
request_fits sessions requests r =
    is_some (first (has_id r.pms_session_id) sessions)
    && not (is_some (first (has_key r.idempotency_key) requests))

module _ (E : Env) where
  unfoldable pub record_call : Call → Exec (State E) (Unit {0})
  record_call c s = (ok tt, record s { calls = s.calls ++ c ∷ [] })
