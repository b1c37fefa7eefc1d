-- ===== src/Backend/Confirm.antt =====
-- services/carpayin-backend/app/application/auth/confirm_vehicle.py.
pub mod Granted
use car_pay_in.Backend.Accounts.{Car, LoginResult, QrSession, QrStatus, qr_expired}
use car_pay_in.Backend.Env.{Env, State}
use car_pay_in.Backend.Refresh.{save_token_hash}
use car_pay_in.Backend.SignIn.{
  get_login_result, get_oauth_result, get_session, login_result_key, require_text,
}
use car_pay_in.Backend.Tokens.{Codec, issue_app, validate_temp}
use car_pay_in.Backend.Vehicles.{upsert_vehicle}
use car_pay_in.Base.{
  Bool, Option, String, false, if◌then◌else◌, none, not, or_else, some, true, ℕ, ◌==◌,
}
use car_pay_in.Exec.{
  Exec, gets, lift, modify, or_raise, other, pure, raise_if, value_error, ◌>>=◌, ◌>>◌,
}
use car_pay_in.Table.{first}

pub record ConfirmVehicleCommand : Type 0 where
  pub temp_access_token : String
  pub car_id : String
  pub vin_hash : String

pub record ConfirmVehicleResult : Type 0 where
  pub app_access_token : String
  pub app_refresh_token : String
  pub user_id : String
  pub name : String
  pub car_id : String
  pub car : Car

abbrev pub has_car_id : String → Car → Bool
has_car_id i car = is_id car.car_id
  where
    is_id : Option String → Bool
    is_id none = false
    is_id (some j) = j == i

abbrev pub is_live : QrStatus → Bool
is_live qr_expired = false
is_live _ = true

-- a session that has not expired
abbrev pub when_live : Option QrSession → Option QrSession
when_live none = none
when_live (some q) = if is_live q.status then some q else none

module _ (E : Env) (codec : Codec) (secret hash_secret : String) (now : ℕ) (refresh_token : String)
    (c : ConfirmVehicleCommand) where
  unfoldable pub find_login_result : String → State E → Option LoginResult
  find_login_result session_id s =
      or_else (get_oauth_result E now session_id s) (get_login_result E now session_id s)

  -- the state without the session's login result
  unfoldable pub mark_used : String → Exec (State E) (Unit {0})
  mark_used session_id = modify (λ s. record s {
    login_results = E.login_results.delete (login_result_key session_id) s.login_results;
  })

  -- from the choice of the car on; `refresh_token` is the text of `secrets.token_urlsafe(48)`
  unfoldable pub grant : String → String → LoginResult → Car → Exec (State E) ConfirmVehicleResult
  grant user_id session_id login_result selected_car = do
    upsert_vehicle E user_id c.car_id selected_car
    save_token_hash E now (codec.hmac hash_secret refresh_token) user_id c.car_id
    mark_used session_id
    pure (record {
      app_access_token = issue_app codec secret now user_id c.car_id;
      app_refresh_token = refresh_token;
      user_id = user_id;
      name = login_result.name;
      car_id = c.car_id;
      car = selected_car;
    })

  unfoldable pub confirm_session : String → String → Exec (State E) ConfirmVehicleResult
  confirm_session user_id session_id = do
    result ← gets (find_login_result session_id)
    login_result ← or_raise result (value_error "login_result_not_found")
    selected_car ←
        or_raise (first (has_car_id c.car_id) login_result.cars) (value_error "car_id_not_in_list")
    found ← gets (get_session E now session_id)
    qr_session ← or_raise (when_live found) (value_error "qr_session_expired")
    raise_if (not (qr_session.vin_hash == c.vin_hash)) (value_error "vin_hash_mismatch")
    grant user_id session_id login_result selected_car

  unfoldable pub confirm_vehicle : Exec (State E) ConfirmVehicleResult
  confirm_vehicle = do
    require_text E c.temp_access_token "temp_access_token is required"
    require_text E c.car_id "car_id is required"
    require_text E c.vin_hash "vin_hash is required"
    token_data ← lift (validate_temp codec secret now c.temp_access_token)
    user_id ← or_raise token_data.user_id (other "'user_id'")
    session_id ← or_raise token_data.session_id (other "'session_id'")
    confirm_session user_id session_id
