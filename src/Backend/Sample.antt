-- ===== src/Backend/Sample.antt =====
-- One vehicle at services/carpayin-backend, on tables and keyspaces in memory.
use car_pay_in.Backend.Env.{Claims, Env, IsLawful, State}
use car_pay_in.Backend.Models.{FeeQuote, ParkingSession, VehicleBillingKey, active, usable}
use car_pay_in.Backend.Payment.{
  ChargeAnswer, PaymentOutcome, ProcessPaymentCommand, approved, refused,
}
use car_pay_in.Base.{[], if◌then◌else◌, leb, nat_beq, none, refl, some, ◌&&◌, ◌<>◌, ◌==◌, ◌∷◌}
use car_pay_in.DateTime.{aware}
use car_pay_in.DateTime.Unary.{unary, unary-IsIso}
use car_pay_in.Exec.{Result, err, ok, value_error}
use car_pay_in.Integer.{pos}
use car_pay_in.Redis.Memory.{memory_redis, memory_redis-IsRedis}
use car_pay_in.Table.Memory.{memory_table, memory_table-IsTable}
use Prim.Native.Char.{code}

abbrev pub env : Env
env = record {
  sessions = memory_table;
  vehicles = memory_table;
  users = memory_table;
  refresh_tokens = memory_table;
  billing_keys = memory_table;
  transactions = memory_table;
  outbox = memory_table;
  quotes = memory_redis;
  payment_retries = memory_redis;
  pre_notifies = memory_redis;
  entry_retries = memory_redis;
  qr_sessions = memory_redis;
  oauth_states = memory_redis;
  oauth_results = memory_redis;
  login_results = memory_redis;
  card_orders = memory_redis;
  is_digit = λ c. leb b'0' (code c) && leb (code c) b'9';
  is_space = λ c. nat_beq (code c) b' ';
  iso = unary;
  uuid = some;
  uuid5 = λ t. "5:" <> t;
  sha256 = λ t. "sha:" <> t;
  token_validator = λ _ t.
      if t == "token"
      then ok (record { user_id = "user"; car_id = "car" })
      else err (value_error "invalid_token");
  integrity_text = "IntegrityError";
}

pub env-IsLawful : IsLawful env
env-IsLawful = record {
  sessions = memory_table-IsTable;
  vehicles = memory_table-IsTable;
  users = memory_table-IsTable;
  refresh_tokens = memory_table-IsTable;
  billing_keys = memory_table-IsTable;
  transactions = memory_table-IsTable;
  outbox = memory_table-IsTable;
  quotes = memory_redis-IsRedis;
  payment_retries = memory_redis-IsRedis;
  pre_notifies = memory_redis-IsRedis;
  entry_retries = memory_redis-IsRedis;
  qr_sessions = memory_redis-IsRedis;
  oauth_states = memory_redis-IsRedis;
  oauth_results = memory_redis-IsRedis;
  login_results = memory_redis-IsRedis;
  card_orders = memory_redis-IsRedis;
  iso = unary-IsIso;
  uuid-uuid = λ t h. refl;
  uuid-uuid5 = λ t. refl;
}

abbrev pub parked : ParkingSession
parked = record {
  session_id = "sess";
  pms_session_id = some "pms-sess-1";
  car_id = "car";
  lot_id = "LOT_1";
  plate = "12가3456";
  entry_time = aware 0;
  exit_time = none;
  status = active;
}

abbrev pub key_row : VehicleBillingKey
key_row = record { car_id = "car"; billing_key = "bk"; card_last_four = "1234"; status = usable }

abbrev pub quote : FeeQuote
quote = record {
  session_id = "sess";
  lot_id = "LOT_1";
  amount = pos 1000;
  duration = pos 31;
  currency = "KRW";
  entry_time = "a";
}

unfoldable pub start : State env
unfolding memory_redis
start = record {
  sessions = parked ∷ [];
  vehicles =
      record { car_id = "car"; user_id = "user"; car_sellname = "car"; plate = "12가3456" } ∷ [];
  users = record { user_id = "user"; name = "" } ∷ [];
  refresh_tokens = [];
  billing_keys = key_row ∷ [];
  transactions = [];
  outbox = [];
  quotes = ("parking_fee_quote:sess", quote, some 900) ∷ [];
  payment_retries = [];
  pre_notifies = [];
  entry_retries = [];
  qr_sessions = [];
  oauth_states = [];
  oauth_results = [];
  login_results = [];
  card_orders = [];
  calls = [];
}

abbrev pub outcome : Result ChargeAnswer → PaymentOutcome
outcome pg = record {
  pg = pg;
  pms = ok tt;
  publisher = ok tt;
  tx_uuid = "tx";
  notification_id = "n";
}

abbrev pub request : ProcessPaymentCommand
request = record {
  access_token = "token";
  session_id = "sess";
  amount = pos 1000;
  currency = "KRW";
}

abbrev pub claims : Claims
claims = record { user_id = "user"; car_id = "car" }

abbrev pub approves : PaymentOutcome
approves = outcome (ok (approved (some "pg-1") "CARD-1"))

abbrev pub refuses : PaymentOutcome
refuses = outcome (ok (refused "insufficient_balance"))
