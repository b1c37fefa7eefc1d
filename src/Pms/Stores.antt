-- ===== src/Pms/Stores.antt =====
-- services/pms/app/infra/redis/stores.py
use car_pay_in.Base.{Option, String, if◌then◌else◌, is_some, ltb, none, some, ℕ, ◌*◌, ◌<>◌}
use car_pay_in.Exec.{Exec, modify, ok, pure, ◌>>◌}
use car_pay_in.Pms.Models.{Env, ParkingPayload, SessionStatus, State, active}

abbrev pub pre_reg_ttl_seconds : ℕ
pre_reg_ttl_seconds = 60 * 60

abbrev pub session_ttl_seconds : ℕ
session_ttl_seconds = 72 * 60 * 60

unfoldable pub pre_reg_key : String → String → String
pre_reg_key lot plate = "pre_reg:" <> lot <> ":" <> plate

unfoldable pub session_key : String → String → String
session_key lot plate = "parking_session:" <> lot <> ":" <> plate

module _ (E : Env) where
  unfoldable pub save_pre_registration : ℕ → String → String → Exec (State E) (String × String)
  save_pre_registration now lot plate = do
    modify (λ s. record s {
      pre_registration =
          E.pre_registration.set now (pre_reg_key lot plate) "1" (some pre_reg_ttl_seconds)
            s.pre_registration;
    })
    pure (lot, plate)

  unfoldable pub get_active_pre_registration :
      ℕ → String → String → State E → Option (String × String)
  get_active_pre_registration now lot plate s =
      if is_some (E.pre_registration.get now (pre_reg_key lot plate) s.pre_registration)
      then some (lot, plate)
      else none

  unfoldable pub consume_pre_registration : String → String → Exec (State E) (Unit {0})
  consume_pre_registration lot plate = modify (λ s. record s {
    pre_registration = E.pre_registration.delete (pre_reg_key lot plate) s.pre_registration;
  })

  unfoldable pub save_session : ℕ → String → String → String → String → Exec (State E) (Unit {0})
  save_session now lot plate i entry_time =
      let payload : ParkingPayload = record {
        pms_session_id = i;
        lot_id = lot;
        plate = plate;
        entry_time = entry_time;
        status = active;
      } in
      modify (λ s. record s {
        parking =
            E.parking.set now (session_key lot plate) payload (some session_ttl_seconds) s.parking;
      })

  unfoldable pub get_session : ℕ → String → String → State E → Option ParkingPayload
  get_session now lot plate s = E.parking.get now (session_key lot plate) s.parking

  -- a key that is gone stays gone; the rest of the lifetime is kept
  unfoldable pub write_status :
      ℕ → String → SessionStatus → Option ParkingPayload → Exec (State E) (Unit {0})
  write_status now key status none s = (ok tt, s)
  write_status now key status (some payload) s =
      let ttl = E.parking.ttl now key s.parking in
      let ex = if ltb 0 ttl then ttl else session_ttl_seconds in
      (
        ok tt,
        record s {
          parking = E.parking.set now key (record payload { status = status }) (some ex) s.parking;
        },
      )

  unfoldable pub update_status : ℕ → String → String → SessionStatus → Exec (State E) (Unit {0})
  update_status now lot plate status s =
      let key = session_key lot plate in
      write_status now key status (E.parking.get now key s.parking) s

  unfoldable pub delete_session : String → String → Exec (State E) (Unit {0})
  delete_session lot plate =
      modify (λ s. record s { parking = E.parking.delete (session_key lot plate) s.parking })
