-- ===== src/Backend/Vehicles.antt =====
-- services/carpayin-backend/app/infra/repositories/vehicle_repository.py and user_repository.py, and
-- `upsert` of billing_key_repository.py.
use car_pay_in.Backend.Models.{is_car}
use car_pay_in.Backend.Accounts.{Car, User, billing_key_fits, has_user_id, is_car_of, plate_fits}
use car_pay_in.Backend.Env.{Env, State}
use car_pay_in.Backend.Models.{Vehicle, VehicleBillingKey, has_car, usable}
use car_pay_in.Base.{Bool, Option, String, is_some, none, not, or_else, some}
use car_pay_in.Exec.{
  Exec, gets, integrity_error, lookup_error, modify, or_raise, raise_if, ◌>>=◌, ◌>>◌,
}

-- `car.get(key, "")`
abbrev pub text_or_empty : Option String → String
text_or_empty none = ""
text_or_empty (some t) = t

abbrev pub with_car : String → Car → Vehicle → Vehicle
with_car user_id car v = record v {
  user_id = user_id;
  car_sellname = text_or_empty (or_else car.car_sellname car.model);
  plate = text_or_empty car.plate;
}

abbrev pub with_key : String → String → VehicleBillingKey → VehicleBillingKey
with_key billing_key card_last_four r = record r {
  billing_key = billing_key;
  card_last_four = card_last_four;
  status = usable;
}

module _ (E : Env) where
  unfoldable pub get_vehicle_by_car_id : String → State E → Option Vehicle
  get_vehicle_by_car_id i s = E.vehicles.scalar (is_car i) s.vehicles

  unfoldable pub exists : String → String → State E → Bool
  exists user_id i s = is_some (E.vehicles.scalar (is_car_of user_id i) s.vehicles)

  unfoldable pub exists_by_car_id : String → State E → Bool
  exists_by_car_id i s = is_some (get_vehicle_by_car_id i s)

  unfoldable pub change_vehicle : String → (Vehicle → Vehicle) → State E → State E
  change_vehicle i f s = record s { vehicles = E.vehicles.update (is_car i) f s.vehicles }

  unfoldable pub update_plate : String → String → Exec (State E) (Unit {0})
  update_plate car_id plate = do
    vehicle ← gets (get_vehicle_by_car_id car_id)
    or_raise vehicle (lookup_error "vehicle_not_found")
    fits ← gets (λ s. plate_fits (E.vehicles.rows s.vehicles) car_id plate)
    raise_if (not fits) integrity_error
    modify (change_vehicle car_id (λ v. record v { plate = plate }))

  unfoldable pub write_vehicle :
      String → String → Car → Option Vehicle → E.vehicles.State → E.vehicles.State
  write_vehicle user_id i car (some _) rows =
      E.vehicles.update (is_car i) (with_car user_id car) rows
  write_vehicle user_id i car none rows =
      E.vehicles.insert
        (with_car user_id car
          (record { car_id = i; user_id = user_id; car_sellname = ""; plate = "" }))
        rows

  -- with the foreign key on users and the unique index on plates
  unfoldable pub upsert_vehicle : String → String → Car → Exec (State E) (Unit {0})
  upsert_vehicle user_id i car = do
    vehicle ← gets (get_vehicle_by_car_id i)
    user_known ← gets (λ s. is_some (E.users.scalar (has_user_id user_id) s.users))
    raise_if (not user_known) integrity_error
    fits ← gets (λ s. plate_fits (E.vehicles.rows s.vehicles) i (text_or_empty car.plate))
    raise_if (not fits) integrity_error
    modify (λ s. record s { vehicles = write_vehicle user_id i car vehicle s.vehicles })

  unfoldable pub write_user : String → String → Option User → E.users.State → E.users.State
  write_user user_id name (some _) rows =
      E.users.update (has_user_id user_id) (λ u. record u { name = name }) rows
  write_user user_id name none rows =
      E.users.insert (record { user_id = user_id; name = name }) rows

  unfoldable pub upsert_user : String → String → Exec (State E) (Unit {0})
  upsert_user user_id name = do
    user ← gets (λ s. E.users.scalar (has_user_id user_id) s.users)
    modify (λ s. record s { users = write_user user_id name user s.users })

  unfoldable pub write_billing_key :
      String → String → String → Option VehicleBillingKey → State E → State E
  write_billing_key i billing_key card_last_four (some _) s = record s {
    billing_keys =
        E.billing_keys.update (has_car i) (with_key billing_key card_last_four) s.billing_keys;
  }
  write_billing_key i billing_key card_last_four none s = record s {
    billing_keys =
        E.billing_keys.insert
          (record {
            car_id = i;
            billing_key = billing_key;
            card_last_four = card_last_four;
            status = usable;
          })
          s.billing_keys;
  }

  -- `SqlAlchemyBillingKeyRepository.upsert`, with the unique key on billing keys and the check
  -- of the last four digits; the caller has seen the car that the foreign key names
  unfoldable pub upsert : String → String → String → Exec (State E) (Unit {0})
  upsert i billing_key card_last_four = do
    row ← gets (λ s. E.billing_keys.scalar (has_car i) s.billing_keys)
    fits ←
        gets
          (λ s. billing_key_fits (E.billing_keys.rows s.billing_keys) i billing_key card_last_four)
    raise_if (not fits) integrity_error
    modify (write_billing_key i billing_key card_last_four row)
