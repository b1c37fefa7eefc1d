-- ===== src/Backend/Models.antt =====
-- The rows of services/carpayin-backend/app/infra/db/models.py that payment and parking use, with
-- the declared constraints, and the JSON values of app/infra/redis/stores.py.
use car_pay_in.Base.{
  Bool, List, Option, String, false, is_some, none, not, some, true, ℕ, ◌&&◌, ◌==◌,
}
use car_pay_in.DateTime.{DateTime}
use car_pay_in.Integer.{ℤ}
use car_pay_in.Table.{first}

pub data SessionStatus : Type 0 where
  active completed cancelled : SessionStatus

abbrev pub is_active : SessionStatus → Bool
is_active active = true
is_active _ = false

pub record ParkingSession : Type 0 where
  pub session_id : String
  pub pms_session_id : Option String
  pub car_id : String
  pub lot_id : String
  pub plate : String
  pub entry_time : DateTime
  pub exit_time : Option DateTime
  pub status : SessionStatus

-- `usable` is the text 'active'
pub data KeyStatus : Type 0 where
  usable inactive : KeyStatus

abbrev pub is_usable : KeyStatus → Bool
is_usable usable = true
is_usable inactive = false

pub record VehicleBillingKey : Type 0 where
  pub car_id : String
  pub billing_key : String
  pub card_last_four : String
  pub status : KeyStatus

-- `revoked` is the text 'cancelled'
pub data TransactionStatus : Type 0 where
  pending success failed revoked : TransactionStatus

pub record Transaction : Type 0 where
  pub tx_id : String
  pub session_id : String
  pub car_id : String
  pub billing_key : String
  pub pg_tx_id : Option String
  pub amount : ℕ
  pub currency : String
  pub status : TransactionStatus
  pub approval_no : Option String
  pub idempotency_key : String
  pub failed_reason : Option String

-- what `_build_payment_notification_payload` builds
pub record PaymentNotification : Type 0 where
  pub event_type : String
  pub tx_id : String
  pub session_id : String
  pub car_id : String
  pub lot_id : String
  pub amount : ℤ
  pub currency : String
  pub approval_no : String

-- `waiting` is the text 'pending', and `retrying` is 'failed'
pub data OutboxStatus : Type 0 where
  waiting publishing published delivered retrying dead : OutboxStatus

pub record PaymentNotificationOutbox : Type 0 where
  pub notification_id : String
  pub tx_id : String
  pub session_id : String
  pub car_id : String
  pub event_type : String
  pub destination : String
  pub payload : PaymentNotification
  pub status : OutboxStatus
  pub attempts : ℕ
  pub max_attempts : ℕ
  pub next_attempt_at : DateTime
  pub published_at : Option DateTime
  pub failed_reason : Option String
  pub created_at : DateTime

pub record Vehicle : Type 0 where
  pub car_id : String
  pub user_id : String
  pub car_sellname : String
  pub plate : String

-- The value under `parking_fee_quote:…`. Here and below, a status that is only ever written with
-- one text, and the times that `_save` adds and nothing reads, are left out.
pub record FeeQuote : Type 0 where
  pub session_id : String
  pub lot_id : String
  pub amount : ℤ
  pub duration : ℤ
  pub currency : String
  pub entry_time : String

-- the arguments of `notify_payment_complete`
pub record PmsPayment : Type 0 where
  pub pms_session_id : Option String
  pub carpay_parking_session_id : String
  pub carpay_tx_id : String
  pub amount : ℤ
  pub currency : String
  pub approval_no : Option String
  pub idempotency_key : String

-- The `payload` of a retry: what process_payment.py writes, with all arguments of
-- `notify_payment_complete`, and what notify_pms_payment_complete.py writes, without `carpay_tx_id`:
-- `pms_session_id`, `carpay_parking_session_id`, `amount`, `currency`, `approval_no` and
-- `idempotency_key`.
pub data RetryPayload : Type 0 where
  all_of : PmsPayment → RetryPayload
  without_tx_id : String → String → ℤ → String → String → String → RetryPayload

-- the value under `pms_payment_retry:…`
pub record PaymentRetry : Type 0 where
  pub event_type : String
  pub tx_id : String
  pub payload : RetryPayload
  pub reason : String

-- the value under `parking_pre_notify:…`
pub record PreNotify : Type 0 where
  pub user_id : String
  pub car_id : String
  pub lot_id : String
  pub plate : String

-- the value under `entry_notify_retry:…`
pub record EntryRetry : Type 0 where
  pub car_id : String
  pub session_id : String
  pub lot_id : String
  pub entry_time : String

-- the tests of the `where` clauses and of the primary keys
abbrev pub has_session_id : String → ParkingSession → Bool
has_session_id i r = r.session_id == i

abbrev pub active_car : String → ParkingSession → Bool
active_car car r = r.car_id == car && is_active r.status

abbrev pub has_key : String → Transaction → Bool
has_key k r = r.idempotency_key == k

abbrev pub has_tx_id : String → Transaction → Bool
has_tx_id i r = r.tx_id == i

abbrev pub has_car : String → VehicleBillingKey → Bool
has_car car r = r.car_id == car

abbrev pub notifies : String → String → PaymentNotificationOutbox → Bool
notifies tx event r = r.tx_id == tx && r.event_type == event

abbrev pub has_pms_id : String → ParkingSession → Bool
has_pms_id i r = elim r.pms_session_id [ some j ↦ j == i | none ↦ false ]

abbrev pub is_car : String → Vehicle → Bool
is_car i r = r.car_id == i

-- The constraints on a new session of a session in the parking lot: the foreign key of its car, the
-- primary key, one active session per car, one session per lot and session in the lot.
unfoldable pub session_fits : List Vehicle → List ParkingSession → String → ParkingSession → Bool
session_fits vehicles rows pms_session_id r =
    is_some (first (is_car r.car_id) vehicles)
    && not (is_some (first (has_session_id r.session_id) rows))
    && not (is_active r.status && is_some (first (active_car r.car_id) rows))
    && not (is_some (first (λ x. x.lot_id == r.lot_id && has_pms_id pms_session_id x) rows))

-- The primary key of a new transaction, and its unique key. The caller has seen its session, and the
-- car that the session names; the check of the currency's form and the 32 bits of the amount are
-- left out.
unfoldable pub transaction_fits : List Transaction → Transaction → Bool
transaction_fits rows r =
    not (is_some (first (has_tx_id r.tx_id) rows))
    && not (is_some (first (has_key r.idempotency_key) rows))
