-- ===== src/Backend/Entry.antt =====
-- services/carpayin-backend/app/application/parking/handle_entry_webhook.py, with the store of
-- pre-notifications and `create_session` of parking_session_repository.py.
pub mod Again
use car_pay_in.Backend.Env.{Env, State, parse_uuid, publish_entry, record_call}
use car_pay_in.Backend.Models.{
  EntryRetry, ParkingSession, PreNotify, active, active_car, has_pms_id, session_fits,
}
use car_pay_in.Base.{Option, String, none, not, some, ℕ, ◌*◌, ◌<>◌}
use car_pay_in.DateTime.{DateTime}
use car_pay_in.Exec.{
  Exec, Result, err, gets, integrity_error, lift, modify, ok, or_raise, pure, raise_if, value_error,
  ◌>>=◌, ◌>>◌,
}

abbrev pub entry_retry_ttl_seconds : ℕ
entry_retry_ttl_seconds = 60 * 60

pub record HandleEntryWebhookCommand : Type 0 where
  pub pms_token : String
  pub pms_session_id : String
  pub lot_id : String
  pub plate : String
  pub entry_time : String
  pub signature_timestamp : String
  pub raw_body : String

pub data EntryStatus : Type 0 where
  confirmed not_registered : EntryStatus

-- How the publication ends, and the text of `uuid4()`.
pub record WebhookOutcome : Type 0 where
  pub publisher : Result (Unit {0})
  pub session_uuid : String

abbrev pub pre_notify_key : String → String → String
pre_notify_key lot plate = "parking_pre_notify:" <> lot <> ":" <> plate

abbrev pub entry_retry_key : String → String
entry_retry_key session_id = "entry_notify_retry:" <> session_id

-- the object that `create_session` adds
abbrev pub new_session : String → HandleEntryWebhookCommand → String → DateTime → ParkingSession
new_session i c car_id t = record {
  session_id = i;
  pms_session_id = some c.pms_session_id;
  car_id = car_id;
  lot_id = c.lot_id;
  plate = c.plate;
  entry_time = t;
  exit_time = none;
  status = active;
}

module _ (E : Env) where
  unfoldable pub get_session_by_pms_session_id : String → State E → Option ParkingSession
  get_session_by_pms_session_id i s = E.sessions.scalar (has_pms_id i) s.sessions

  unfoldable pub get_active_session_by_car_id : String → State E → Option ParkingSession
  get_active_session_by_car_id car s = E.sessions.scalar (active_car car) s.sessions

  unfoldable pub get_pre_notify : ℕ → String → String → State E → Option PreNotify
  get_pre_notify now lot plate s = E.pre_notifies.get now (pre_notify_key lot plate) s.pre_notifies

  unfoldable pub delete_pre_notify : String → String → Exec (State E) (Unit {0})
  delete_pre_notify lot plate = modify (λ s. record s {
    pre_notifies = E.pre_notifies.delete (pre_notify_key lot plate) s.pre_notifies;
  })

  module _ (now : ℕ) (out : WebhookOutcome) (c : HandleEntryWebhookCommand) where
    unfoldable pub create_session : String → Exec (State E) (Unit {0})
    create_session car_id = do
      i ← lift (parse_uuid E out.session_uuid)
      t ← or_raise (E.iso.fromisoformat c.entry_time) (value_error "Invalid isoformat string")
      let parking_session = new_session i c car_id t
      fits ← gets (λ s.
          session_fits (E.vehicles.rows s.vehicles) (E.sessions.rows s.sessions) c.pms_session_id
            parking_session)
      raise_if (not fits) integrity_error
      modify (λ s. record s { sessions = E.sessions.insert parking_session s.sessions })

    -- `RedisEntryNotifyRetryStore.clear_retry_event` and `record_retry_event`
    unfoldable pub after_publish_entry : String → Result (Unit {0}) → Exec (State E) (Unit {0})
    after_publish_entry car_id (ok _) = modify (λ s. record s {
      entry_retries = E.entry_retries.delete (entry_retry_key out.session_uuid) s.entry_retries;
    })
    after_publish_entry car_id (err _) =
        let event : EntryRetry = record {
          car_id = car_id;
          session_id = out.session_uuid;
          lot_id = c.lot_id;
          entry_time = c.entry_time;
        } in
        modify (λ s. record s {
          entry_retries =
              E.entry_retries.set now (entry_retry_key out.session_uuid) event
                (some entry_retry_ttl_seconds) s.entry_retries;
        })

    unfoldable pub open_session : String → Exec (State E) (EntryStatus × Option String)
    open_session car_id = do
      create_session car_id
      delete_pre_notify c.lot_id c.plate
      record_call E (publish_entry out.session_uuid car_id c.lot_id c.entry_time)
      after_publish_entry car_id out.publisher
      pure (confirmed, some out.session_uuid)

    -- a car that is parked already keeps its session
    unfoldable pub enter_car :
        String → Option ParkingSession → Exec (State E) (EntryStatus × Option String)
    enter_car car_id (some active_session) = pure (confirmed, some active_session.session_id)
    enter_car car_id none = open_session car_id

    unfoldable pub enter_registered :
        Option PreNotify → Exec (State E) (EntryStatus × Option String)
    enter_registered none = pure (not_registered, none)
    enter_registered (some pre_notify) = do
      active_session ← gets (get_active_session_by_car_id pre_notify.car_id)
      enter_car pre_notify.car_id active_session

    -- a webhook that comes again is answered again
    unfoldable pub enter_once : Option ParkingSession → Exec (State E) (EntryStatus × Option String)
    enter_once (some existing_session) = pure (confirmed, some existing_session.session_id)
    enter_once none = do
      pre_notify ← gets (get_pre_notify now c.lot_id c.plate)
      enter_registered pre_notify

    -- `validator` is `PmsAuthValidator.validate` with the secret of the parking lot
    unfoldable pub handle_entry_webhook :
        (ℕ → String → String → String → Result (Unit {0}))
        → Exec (State E) (EntryStatus × Option String)
    handle_entry_webhook validator = do
      lift (validator now c.signature_timestamp c.pms_token c.raw_body)
      or_raise (E.iso.fromisoformat c.entry_time) (value_error "invalid_entry_time_format")
      existing_session ← gets (get_session_by_pms_session_id c.pms_session_id)
      enter_once existing_session
