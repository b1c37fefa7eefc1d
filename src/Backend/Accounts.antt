-- ===== src/Backend/Accounts.antt =====
-- The rows of users and refresh tokens in services/carpayin-backend/app/infra/db/models.py, with the
-- declared constraints on vehicles and billing keys, and the JSON values of the sign-in and card
-- order stores of app/infra/redis/stores.py.
use car_pay_in.Base.{leb}
use car_pay_in.Base.{suc}
use car_pay_in.Base.{zero}
use car_pay_in.Base.{ℕ}
use car_pay_in.Backend.Models.{Vehicle, VehicleBillingKey}
use car_pay_in.Base.{Bool, List, Option, String, false, is_some, not, true, ◌&&◌, ◌==◌, ◌||◌}
use car_pay_in.DateTime.{DateTime}
use Prim.Native.Char.{code}
use car_pay_in.Table.{first}

pub record User : Type 0 where
  pub user_id : String
  pub name : String

pub data TokenStatus : Type 0 where
  valid revoked_token expired_token : TokenStatus

pub record AppRefreshToken : Type 0 where
  pub refresh_token_hash : String
  pub user_id : String
  pub car_id : String
  pub status : TokenStatus
  pub expires_at : DateTime

-- a car of the user's account at the manufacturer; a key that is missing is `none`
pub record Car : Type 0 where
  pub car_id : Option String
  pub car_sellname : Option String
  pub model : Option String
  pub plate : Option String

-- the texts 'pending', 'failed' and 'expired'
pub data QrStatus : Type 0 where
  qr_pending qr_failed qr_expired : QrStatus

pub record QrSession : Type 0 where
  pub vin_hash : String
  pub status : QrStatus
  pub debug_message : String

-- the texts 'pending' and 'used'
pub data StateStatus : Type 0 where
  unused used : StateStatus

pub record OauthState : Type 0 where
  pub session_id : String
  pub status : StateStatus

-- the value under `hyundai_oauth:…`, and under `app_login_result:…`, where the status is only ever
-- 'complete'
pub record LoginResult : Type 0 where
  pub user_id : String
  pub name : String
  pub cars : List Car
  pub temp_access_token : String

-- the texts 'pending' and 'complete'
pub data OrderStatus : Type 0 where
  ordered complete : OrderStatus

pub record CardOrder : Type 0 where
  pub order_id : String
  pub user_id : String
  pub car_id : String
  pub status : OrderStatus

abbrev pub is_ordered : OrderStatus → Bool
is_ordered ordered = true
is_ordered complete = false

abbrev pub has_user_id : String → User → Bool
has_user_id u r = r.user_id == u

abbrev pub has_hash : String → AppRefreshToken → Bool
has_hash h r = r.refresh_token_hash == h

abbrev pub is_car_of : String → String → Vehicle → Bool
is_car_of u i r = r.user_id == u && r.car_id == i

-- another car with the plate
abbrev pub takes_plate : String → String → Vehicle → Bool
takes_plate i plate r = not (r.car_id == i) && r.plate == plate

-- The unique index on the plates that are not empty, for a car that is given a plate.
unfoldable pub plate_fits : List Vehicle → String → String → Bool
plate_fits rows i plate = plate == "" || not (is_some (first (takes_plate i plate) rows))

-- another car with the billing key
abbrev pub takes_key : String → String → VehicleBillingKey → Bool
takes_key i b r = not (r.car_id == i) && r.billing_key == b

-- a number of digits `[0-9]` and nothing else
unfoldable pub are_digits : ℕ → String → Bool
are_digits zero String.[] = true
are_digits zero (String.◌∷◌ _ _) = false
are_digits (suc n) String.[] = false
are_digits (suc n) (String.◌∷◌ c t) =
    let rest = are_digits n t in (leb b'0' (code c) && leb (code c) b'9') && rest

-- The unique key on billing keys, and the check of the last four digits, for a car that is given
-- both.
unfoldable pub billing_key_fits : List VehicleBillingKey → String → String → String → Bool
billing_key_fits rows i b card_last_four =
    are_digits 4 card_last_four && not (is_some (first (takes_key i b) rows))
