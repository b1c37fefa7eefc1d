-- ===== src/Backend/PreNotifications.antt =====
-- services/carpayin-backend/app/application/parking/register_pre_notify.py.
pub mod Registered
use car_pay_in.Backend.Entry.{pre_notify_key}
use car_pay_in.Backend.Env.{Claims, Env, State, pre_register, record_call}
use car_pay_in.Backend.Models.{PreNotify}
use car_pay_in.Backend.Plates.{normalize}
use car_pay_in.Backend.Transactions.{get_active_billing_key}
use car_pay_in.Backend.Vehicles.{get_vehicle_by_car_id}
use car_pay_in.Base.{String, is_some, not, some, ℕ, ◌*◌, ◌==◌}
use car_pay_in.Exec.{
  Exec, Result, gets, lift, modify, or_raise, pure, raise_if, value_error, ◌>>=◌, ◌>>◌,
}

abbrev pub pre_notify_ttl_seconds : ℕ
pre_notify_ttl_seconds = 60 * 60

module _ (E : Env) (now : ℕ) where
  unfoldable pub save_incoming : PreNotify → Exec (State E) (Unit {0})
  save_incoming p = modify (λ s. record s {
    pre_notifies =
        E.pre_notifies.set now (pre_notify_key p.lot_id p.plate) p (some pre_notify_ttl_seconds)
          s.pre_notifies;
  })

  -- `pms` is how the call of the parking lot ends
  module _ (pms : Result (Unit {0})) where
    unfoldable pub announce : Claims → String → String → Exec (State E) PreNotify
    announce claims lot_id plate = do
      let entry : PreNotify = record {
        user_id = claims.user_id;
        car_id = claims.car_id;
        lot_id = lot_id;
        plate = plate;
      }
      save_incoming entry
      record_call E (pre_register lot_id plate)
      lift pms
      pure entry

    -- the answer has the car, the lot and the plate of the entry, and the status 'registered'
    unfoldable pub register_pre_notify : String → String → Exec (State E) PreNotify
    register_pre_notify access_token lot_id = do
      claims ← lift (E.token_validator now access_token)
      found ← gets (get_vehicle_by_car_id E claims.car_id)
      vehicle ← or_raise found (value_error "vehicle_not_found")
      raise_if (vehicle.plate == "") (value_error "plate_not_registered")
      usable_key ← gets (λ s. is_some (get_active_billing_key E claims.car_id s))
      raise_if (not usable_key) (value_error "no_active_billing_key")
      announce claims lot_id (normalize E vehicle.plate)
