-- ===== src/Backend/Env.antt =====
-- The state of services/carpayin-backend, its tables and Redis keyspaces as in
-- services/carpayin-backend/app/api/deps.py, and what it takes from outside.
use car_pay_in.Backend.Accounts.{
  AppRefreshToken, CardOrder, LoginResult, OauthState, QrSession, User,
}
use car_pay_in.Backend.Models.{
  EntryRetry, FeeQuote, ParkingSession, PaymentNotification, PaymentNotificationOutbox,
  PaymentRetry, PmsPayment, PreNotify, Transaction, Vehicle, VehicleBillingKey,
}
use car_pay_in.Base.{Bool, List, Option, String, [], none, some, ℕ, ◌++◌, ◌∷◌, ◌≡◌}
use car_pay_in.DateTime.{IsIso, Iso}
use car_pay_in.Exec.{
  Exception, Exec, Result, err, integrity_error, lookup_error, ok, other, permission_error,
  runtime_error, value_error,
}
use car_pay_in.Redis.{IsRedis, Redis}
use car_pay_in.Table.{IsTable, Table}
use Prim.Native.Char.{Char}

-- what `validate_and_extract` gives for an app access token
pub record Claims : Type 0 where
  pub user_id : String
  pub car_id : String

-- a call to another process
pub data Call : Type 0 where
  -- `charge_billing_key`: billing key, amount, currency, idempotency key
  charge : String → ℕ → String → String → Call
  -- `notify_payment_complete`
  notify_pms : PmsPayment → Call
  -- `publish_payment_notification`
  publish_payment : PaymentNotification → Call
  -- `PmsClient.get_parking_fee`: lot, plate, session of the parking lot
  query_fee : String → String → Option String → Call
  -- `pre_register_plate`: lot, plate
  pre_register : String → String → Call
  -- `verify_owner`: plate, user, car
  verify_owner : String → String → String → Call
  -- `create_card_registration_url`: order, car, plate, bank
  create_url : String → String → String → String → Call
  -- `exchange_code`, `get_user_profile` and `get_vehicle_list`, with the code or the token
  exchange_code : String → Call
  get_profile : String → Call
  get_vehicles : String → Call
  -- `publish_entry_notification`: session, car, lot, entry time
  publish_entry : String → String → String → String → Call

pub record Env : Type 1 where
  pub sessions : Table ParkingSession
  pub vehicles : Table Vehicle
  pub users : Table User
  pub refresh_tokens : Table AppRefreshToken
  pub billing_keys : Table VehicleBillingKey
  pub transactions : Table Transaction
  pub outbox : Table PaymentNotificationOutbox
  pub quotes : Redis FeeQuote
  pub payment_retries : Redis PaymentRetry
  pub pre_notifies : Redis PreNotify
  pub entry_retries : Redis EntryRetry
  pub qr_sessions : Redis QrSession
  pub oauth_states : Redis OauthState
  pub oauth_results : Redis LoginResult
  pub login_results : Redis LoginResult
  pub card_orders : Redis CardOrder
  pub iso : Iso
  -- `str(UUID(text))`, for a text that `UUID` takes
  pub uuid : String → Option String
  -- `str(uuid5(UUID(int=0), text))`
  pub uuid5 : String → String
  -- `sha256(text.encode()).hexdigest()`
  pub sha256 : String → String
  -- the token validator that the services are given, at a time
  pub token_validator : ℕ → String → Result Claims
  -- whether a character matches `\d`, and whether `str.strip` takes it off
  pub is_digit : Char → Bool
  pub is_space : Char → Bool
  -- `str(exc)` of SQLAlchemy's IntegrityError
  pub integrity_text : String

pub record IsLawful (E : Env) : Type 0 where
  pub sessions : IsTable E.sessions
  pub vehicles : IsTable E.vehicles
  pub users : IsTable E.users
  pub refresh_tokens : IsTable E.refresh_tokens
  pub billing_keys : IsTable E.billing_keys
  pub transactions : IsTable E.transactions
  pub outbox : IsTable E.outbox
  pub quotes : IsRedis E.quotes
  pub payment_retries : IsRedis E.payment_retries
  pub pre_notifies : IsRedis E.pre_notifies
  pub entry_retries : IsRedis E.entry_retries
  pub qr_sessions : IsRedis E.qr_sessions
  pub oauth_states : IsRedis E.oauth_states
  pub oauth_results : IsRedis E.oauth_results
  pub login_results : IsRedis E.login_results
  pub card_orders : IsRedis E.card_orders
  pub iso : IsIso E.iso
  pub uuid-uuid : (t : String) {u : String} → E.uuid t ≡ some u → E.uuid u ≡ some u
  pub uuid-uuid5 : (t : String) → E.uuid (E.uuid5 t) ≡ some (E.uuid5 t)

pub record State (E : Env) : Type 0 where
  pub sessions : E.sessions.State
  pub vehicles : E.vehicles.State
  pub users : E.users.State
  pub refresh_tokens : E.refresh_tokens.State
  pub billing_keys : E.billing_keys.State
  pub transactions : E.transactions.State
  pub outbox : E.outbox.State
  pub quotes : E.quotes.State
  pub payment_retries : E.payment_retries.State
  pub pre_notifies : E.pre_notifies.State
  pub entry_retries : E.entry_retries.State
  pub qr_sessions : E.qr_sessions.State
  pub oauth_states : E.oauth_states.State
  pub oauth_results : E.oauth_results.State
  pub login_results : E.login_results.State
  pub card_orders : E.card_orders.State
  pub calls : List Call

module _ (E : Env) where
  unfoldable pub record_call : Call → Exec (State E) (Unit {0})
  record_call c s = (ok tt, record s { calls = s.calls ++ c ∷ [] })

  abbrev pub uuid_or_error : Option String → Result String
  uuid_or_error (some u) = ok u
  uuid_or_error none = err (value_error "badly formed hexadecimal UUID string")

  -- `UUID(text)`
  unfoldable pub parse_uuid : String → Result String
  parse_uuid text = uuid_or_error (E.uuid text)

  -- `str(exc)`
  abbrev pub text_of : Exception → String
  text_of (value_error t) = t
  text_of (lookup_error t) = t
  text_of (permission_error t) = t
  text_of (runtime_error t) = t
  text_of (other t) = t
  text_of integrity_error = E.integrity_text
