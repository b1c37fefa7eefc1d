-- ===== src/Backend/PreNotifications/Registered.antt =====
-- A car that has announced itself to a parking lot.
use car_pay_in.Backend.Entry.{get_pre_notify, pre_notify_key}
use car_pay_in.Backend.Env.{Claims, Env, IsLawful, State, pre_register, record_call}
use car_pay_in.Backend.Models.{PreNotify, Vehicle}
use car_pay_in.Backend.Plates.{normalize}
use car_pay_in.Backend.PreNotifications.{
  announce, pre_notify_ttl_seconds, register_pre_notify, save_incoming,
}
use car_pay_in.Backend.Transactions.{get_active_billing_key}
use car_pay_in.Backend.Vehicles.{get_vehicle_by_car_id}
use car_pay_in.Base.{
  String, [], arith, eq_refl, false, is_some, refl, some, true, ℕ, ◌++◌, ◌+◌, ◌<◌, ◌==◌, ◌∷◌, ◌≡◌,
  ◌≤◌,
}
use car_pay_in.Exec.{Result, err, ok, ◌>>=◌}

module _ {E : Env} (L : IsLawful E) (now : ℕ) (pms : Result (Unit {0}))
    (access_token lot_id : String) (s : State E) where
  -- what the announcement stores
  abbrev pub entry_of : Claims → Vehicle → PreNotify
  entry_of who v = record {
    user_id = who.user_id;
    car_id = who.car_id;
    lot_id = lot_id;
    plate = normalize E v.plate;
  }

  abbrev pub announced : PreNotify → State E
  announced p = record s {
    pre_notifies =
        E.pre_notifies.set now (pre_notify_key p.lot_id p.plate) p (some pre_notify_ttl_seconds)
          s.pre_notifies;
    calls = s.calls ++ pre_register p.lot_id p.plate ∷ [];
  }

  -- the parking lot's failure is passed on
  abbrev pub answer_of : Result (Unit {0}) → PreNotify → Result PreNotify
  answer_of (ok _) p = ok p
  answer_of (err e) p = err e

  announce-run :
      (who : Claims) (v : Vehicle) (r : Result (Unit {0}))
      → announce E now r who lot_id (normalize E v.plate) s
        ≡ (answer_of r (entry_of who v), announced (entry_of who v))
  unfolding announce save_incoming record_call ◌>>=◌
  announce-run who v (ok _) = refl
  announce-run who v (err e) = refl

  -- an announcement that every check lets through
  pub record IsAnnounceable (who : Claims) (v : Vehicle) : Type 0 where
    pub token : E.token_validator now access_token ≡ ok who
    pub vehicle : get_vehicle_by_car_id E who.car_id s ≡ some v
    pub plate : (v.plate == "") ≡ false
    pub key : is_some (get_active_billing_key E who.car_id s) ≡ true

  -- An announcement of the car of a valid token, which has a plate and a billing key, and any time
  -- within an hour from then on: the entry is found under the lot and the plate without its spaces
  -- and hyphens, and the parking lot has been told of it, whether that call succeeds, and the entry
  -- is answered, or fails, and the failure is passed on.
  pub register_pre_notify-found :
      (who : Claims) (v : Vehicle) (later : ℕ)
      → IsAnnounceable who v
      → now ≤ later
      → later < now + pre_notify_ttl_seconds
      → (t : State E) × (register_pre_notify E now pms access_token lot_id s
          ≡ (answer_of pms (entry_of who v), t))
        × (get_pre_notify E later lot_id (normalize E v.plate) t ≡ some (entry_of who v))
        × (t.calls ≡ s.calls ++ pre_register lot_id (normalize E v.plate) ∷ [])
  unfolding register_pre_notify get_pre_notify ◌>>=◌
  register_pre_notify-found who v later h after within = (
    announced (entry_of who v),
    rw (h.token, h.vehicle, h.plate, h.key) (announce-run who v pms),
    rw (L.pre_notifies.get-set, after, eq_refl (pre_notify_key lot_id (normalize E v.plate)))
        (ground arith),
    refl,
  )
