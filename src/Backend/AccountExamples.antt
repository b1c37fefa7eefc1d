-- ===== src/Backend/AccountExamples.antt =====
-- The theorems on sign-in, tokens and announcements at one user and one car.
use car_pay_in.Backend.Accounts.{Car, LoginResult, plate_fits, qr_pending, unused}
use car_pay_in.Backend.Confirm.{ConfirmVehicleCommand, ConfirmVehicleResult, find_login_result}
use car_pay_in.Backend.Confirm.Granted.{IsConfirmable, IsGranted, confirm-IsGranted}
use car_pay_in.Backend.Entry.{get_pre_notify}
use car_pay_in.Backend.Env.{State, pre_register}
use car_pay_in.Backend.Models.{Vehicle}
use car_pay_in.Backend.Plates.{lstrip, normalize, rstrip, strip, without}
use car_pay_in.Backend.PreNotifications.{register_pre_notify}
use car_pay_in.Backend.PreNotifications.Registered.{IsAnnounceable, register_pre_notify-found}
use car_pay_in.Backend.Sample.{env, env-IsLawful, key_row, start}
use car_pay_in.Backend.SignIn.{
  OauthOutcome, get_login_result, get_oauth_result, get_session, oauth_result_key, qr_key,
  state_key,
}
use car_pay_in.Backend.SignIn.Completed.{IsAnswered, IsSignedIn, callback-IsSignedIn}
use car_pay_in.Backend.Tokens.{
  Codec, IsCoded, Payload, app_access_token_ttl_seconds, app_claims, check_payload, is_dotless,
  issue, issue_temp, issued_payload, sign_payload, split_dot, temp_access_token_ttl_seconds,
  temp_claims, validate-issue, validate_parts, validate_temp, validate_token,
}
use car_pay_in.Backend.Transactions.{get_active_billing_key}
use car_pay_in.Backend.Vehicles.{get_vehicle_by_car_id}
use car_pay_in.Base.{
  Option, String, [], arith, if◌then◌else◌, none, refl, some, ◌++◌, ◌<>◌, ◌==◌, ◌∷◌, ◌≡◌,
}
use car_pay_in.Exec.{err, ok, runtime_error}
use car_pay_in.Redis.Memory.{memory_redis}
use car_pay_in.Table.{first}

abbrev temp_payload : Payload
temp_payload =
    issued_payload 1000 "temp_access" temp_access_token_ttl_seconds (temp_claims "user" "sid")

abbrev app_payload : Payload
app_payload =
    issued_payload 5000 "app_access" app_access_token_ttl_seconds (app_claims "user" "car")

abbrev type_text : Option String → String
type_text none = "none"
type_text (some t) = t

-- a codec that knows the two payloads
abbrev codec : Codec
codec = record {
  hmac = λ secret m. secret <> m;
  encode = λ p. type_text p.typ;
  decode = λ t.
      if t == "temp_access"
      then some temp_payload
      else if t == "app_access"
      then some app_payload
      else none;
}

temp-IsCoded : IsCoded codec temp_payload
unfolding is_dotless
temp-IsCoded = record { decode-encode = refl; encode-dotless = refl }

app-IsCoded : IsCoded codec app_payload
unfolding is_dotless
app-IsCoded = record { decode-encode = refl; encode-dotless = refl }

validate-issue_example :
    validate_token codec "k" 1200 "temp_access" "temp_token_expired"
      (issue codec "k" 1000 "temp_access" temp_access_token_ttl_seconds (temp_claims "user" "sid"))
    ≡ ok temp_payload
validate-issue_example =
    validate-issue codec "k" 1000 1200 "temp_access" "temp_access" "temp_token_expired"
      temp_access_token_ttl_seconds (temp_claims "user" "sid") temp-IsCoded

abbrev car : Car
car = record { car_id = some "car"; car_sellname = none; model = some "Ioniq 5"; plate = some "" }

-- a waiting session with its unused state
abbrev scanned : State env
scanned = record start {
  qr_sessions =
      env.qr_sessions.set 900 (qr_key "sid")
        (record { vin_hash = "vin"; status = qr_pending; debug_message = "" }) (some 900)
        start.qr_sessions;
  oauth_states =
      env.oauth_states.set 950 (state_key "st") (record { session_id = "sid"; status = unused })
        (some 900) start.oauth_states;
}

abbrev answered : OauthOutcome
answered = record {
  exchange = ok "hyundai";
  profile = ok ("user", "Kim");
  vehicles = ok (car ∷ []);
}

answerable :
    IsAnswered env-IsLawful codec "k" 1000 answered "code" "st" "sid" scanned "hyundai" "user" "Kim"
      (car ∷ [])
unfolding start memory_redis get_session
answerable = record {
  code_given = refl;
  state_given = refl;
  session_given = refl;
  state_unused = refl;
  waiting = (record { vin_hash = "vin"; status = qr_pending; debug_message = "" }, refl, refl);
  exchanged = refl;
  profiled = refl;
  listed = refl;
}

callback-IsSignedIn_example :
    (r : LoginResult) × (t : State env) × (r.cars ≡ car ∷ [])
    × IsSignedIn env-IsLawful codec "k" 1000 answered "code" "st" "sid" scanned 1200 answered
        "other" r t
callback-IsSignedIn_example =
    callback-IsSignedIn env-IsLawful codec "k" 1000 answered "code" "st" "sid" scanned "hyundai"
      "user" "Kim" (car ∷ []) 1200 answered "other" answerable temp-IsCoded (omega arith)
      (omega arith) refl

abbrev login_result : LoginResult
login_result = record {
  user_id = "user";
  name = "Kim";
  cars = car ∷ [];
  temp_access_token = issue_temp codec "k" 1000 "user" "sid";
}

abbrev confirmation : ConfirmVehicleCommand
confirmation = record {
  temp_access_token = "temp_access.ktemp_access";
  car_id = "car";
  vin_hash = "vin";
}

abbrev logged_in : State env
logged_in = record scanned {
  users = record { user_id = "user"; name = "Kim" } ∷ [];
  oauth_results =
      env.oauth_results.set 1000 (oauth_result_key "sid") login_result (some 900)
        start.oauth_results;
}

confirmable :
    IsConfirmable env-IsLawful codec "k" "h" 1100 "refresh" confirmation logged_in "user" "sid"
      login_result car
unfolding start memory_redis get_session find_login_result get_oauth_result get_login_result
    validate_temp validate_token validate_parts check_payload split_dot sign_payload first
    plate_fits
confirmable = record {
  token_given = refl;
  car_given = refl;
  vin_given = refl;
  refresh_given = refl;
  token = (temp_payload, refl, refl, refl);
  result = refl;
  listed = refl;
  session =
      (record { vin_hash = "vin"; status = qr_pending; debug_message = "" }, refl, refl, refl);
  user = (record { user_id = "user"; name = "Kim" }, refl);
  plate = refl;
  new_hash = refl;
}

confirm-IsGranted_example :
    (r : ConfirmVehicleResult) × (t : State env) × IsGranted env-IsLawful codec "k" "h" 1100
      "refresh" confirmation logged_in "user" "sid" login_result car 5000 r t
confirm-IsGranted_example =
    confirm-IsGranted env-IsLawful codec "k" "h" 1100 "refresh" confirmation logged_in "user" "sid"
      login_result car 5000 confirmable app-IsCoded (omega arith)

abbrev plated : Vehicle
plated = record { car_id = "car"; user_id = "user"; car_sellname = ""; plate = "12-가 3456" }

abbrev registered : State env
registered = record start { vehicles = plated ∷ []; billing_keys = key_row ∷ [] }

announceable :
    IsAnnounceable env-IsLawful 1000
      (err (runtime_error "pms_unavailable"))
      "token"
      "LOT_1"
      registered
      (record { user_id = "user"; car_id = "car" })
      plated
unfolding get_vehicle_by_car_id get_active_billing_key first
announceable = record { token = refl; vehicle = refl; plate = refl; key = refl }

register_pre_notify-found_example :
    (t : State env) × (register_pre_notify env 1000
        (err (runtime_error "pms_unavailable"))
        "token"
        "LOT_1"
        registered
      ≡ (err (runtime_error "pms_unavailable"), t))
    × (get_pre_notify env 2000 "LOT_1" "12가3456" t
        ≡ some (record { user_id = "user"; car_id = "car"; lot_id = "LOT_1"; plate = "12가3456" }))
    × (t.calls ≡ [] ++ pre_register "LOT_1" "12가3456" ∷ [])
unfolding start normalize strip lstrip rstrip without
register_pre_notify-found_example =
    register_pre_notify-found env-IsLawful 1000 (err (runtime_error "pms_unavailable")) "token"
      "LOT_1" registered (record { user_id = "user"; car_id = "car" }) plated 2000 announceable
      (omega arith) (omega arith)
