-- ===== src/Backend/Fees.antt =====
-- services/carpayin-backend/app/application/payment/get_parking_fee.py
pub mod Quoted
use car_pay_in.Backend.Env.{Env, State, query_fee, record_call}
use car_pay_in.Backend.Models.{FeeQuote, ParkingSession, is_active}
use car_pay_in.Backend.Payment.{get_quote, quote_key}
use car_pay_in.Backend.Transactions.{get_session_by_id}
use car_pay_in.Base.{Option, String, if◌then◌else◌, none, not, some, ℕ, ◌*◌, ◌==◌}
use car_pay_in.Exec.{
  Exec, Result, gets, lift, modify, or_raise, pure, raise_if, value_error, ◌>>=◌, ◌>>◌,
}
use car_pay_in.Integer.{pos, ℤ}

abbrev pub fee_quote_ttl_seconds : ℕ
fee_quote_ttl_seconds = 15 * 60

pub record GetParkingFeeCommand : Type 0 where
  pub access_token : String
  pub session_id : String

-- what `PmsClient.get_parking_fee` returns
pub record FeeData : Type 0 where
  pub amount : ℤ
  pub duration : ℤ
  pub currency : String

-- the answer of the development session
abbrev pub dev_quote : FeeQuote
dev_quote = record {
  session_id = "sess_dev_001";
  lot_id = "LOT_GANGNAM_01";
  amount = pos 3000;
  duration = pos 60;
  currency = "KRW";
  entry_time = "2024-01-01T09:00:00";
}

module _ (E : Env) where
  -- the quote of a session that the parking lot has priced
  abbrev pub quote_of : String → ParkingSession → FeeData → FeeQuote
  quote_of session_id session fee_data = record {
    session_id = session_id;
    lot_id = session.lot_id;
    amount = fee_data.amount;
    duration = fee_data.duration;
    currency = fee_data.currency;
    entry_time = E.iso.isoformat session.entry_time;
  }

  unfoldable pub save_quote : ℕ → FeeQuote → Exec (State E) (Unit {0})
  save_quote now quote = modify (λ s. record s {
    quotes =
        E.quotes.set now (quote_key quote.session_id) quote (some fee_quote_ttl_seconds) s.quotes;
  })

  -- `pms` is how the query of the parking lot ends
  module _ (now : ℕ) (pms : Result FeeData) (c : GetParkingFeeCommand) where
    unfoldable pub price_session : ParkingSession → Exec (State E) FeeQuote
    price_session session = do
      record_call E (query_fee session.lot_id session.plate session.pms_session_id)
      fee_data ← lift pms
      save_quote now (quote_of c.session_id session fee_data)
      pure (quote_of c.session_id session fee_data)

    unfoldable pub quote_session : String → Exec (State E) FeeQuote
    quote_session car_id = do
      session ← (do or_raise (← get_session_by_id E c.session_id) (value_error "session_not_found"))
      raise_if (not (is_active session.status)) (value_error "session_not_active")
      raise_if (not (session.car_id == car_id)) (value_error "session_car_id_mismatch")
      price_session session

    -- a quote that is still there is answered again
    unfoldable pub quote_once : String → Option FeeQuote → Exec (State E) FeeQuote
    quote_once car_id (some cached_quote) = pure cached_quote
    quote_once car_id none = quote_session car_id

    -- the answer's status is always "active"
    unfoldable pub get_parking_fee : Exec (State E) FeeQuote
    get_parking_fee = if c.session_id == "sess_dev_001" then pure dev_quote else do
      token_data ← lift (E.token_validator now c.access_token)
      cached_quote ← gets (get_quote E now c.session_id)
      quote_once token_data.car_id cached_quote
