-- ===== src/Pms/Entry.antt =====
-- services/pms/app/application/pms/register_pre_notify.py and
-- services/pms/app/application/pms/handle_lpr_entry.py, wired as in services/pms/app/api/deps.py.
use car_pay_in.Base.{Option, String, none, some, ℕ, ◌<>◌}
use car_pay_in.Exec.{Exec, Result, catch, gets, lift, pure, ◌>>=◌, ◌>>◌}
use car_pay_in.Pms.Models.{Env, PmsParkingSession, State, entry_webhook, open_entry, record_call}
use car_pay_in.Pms.Sessions.{create_session, get_active_session_by_plate}
use car_pay_in.Pms.Stores.{
  consume_pre_registration, get_active_pre_registration, save_pre_registration, save_session,
}

pub record HandleLprEntryCommand : Type 0 where
  pub lot_id : String
  pub plate : String
  pub entry_time : String

pub data EntryStatus : Type 0 where
  existing created : EntryStatus

-- How the calls to other processes end, and the text that `uuid4().hex[:12]` gives.
pub record EntryOutcome : Type 0 where
  pub barrier : Result (Unit {0})
  pub webhook : Result (Unit {0})
  pub hex : String

module _ (E : Env) where
  unfoldable pub register_pre_notify : ℕ → String → String → Exec (State E) (String × String)
  register_pre_notify now lot plate = save_pre_registration E now lot plate

  unfoldable pub try_open_entry : Result (Unit {0}) → Exec (State E) (Unit {0})
  try_open_entry barrier = catch (do record_call E (open_entry ""); lift barrier) (λ _. pure tt)

  unfoldable pub try_entry_webhook :
      Result (Unit {0}) → String → HandleLprEntryCommand → Exec (State E) (Unit {0})
  try_entry_webhook webhook i c =
      catch (do record_call E (entry_webhook i c.lot_id c.plate c.entry_time); lift webhook)
        (λ _. pure tt)

  -- a pre-registered vehicle is reported to the backend, once
  unfoldable pub report_entry :
      EntryOutcome
      → String
      → HandleLprEntryCommand
      → Option (String × String)
      → Exec (State E) (Unit {0})
  report_entry out i c none = pure tt
  report_entry out i c (some _) = do
    consume_pre_registration E c.lot_id c.plate
    try_entry_webhook out.webhook i c

  unfoldable pub open_session :
      ℕ → EntryOutcome → HandleLprEntryCommand → Exec (State E) (EntryStatus × String)
  open_session now out c = do
    let i = "pms-sess-" <> out.hex
    create_session E i c.lot_id c.plate c.entry_time
    save_session E now c.lot_id c.plate i c.entry_time
    registration ← gets (get_active_pre_registration E now c.lot_id c.plate)
    report_entry out i c registration
    pure (created, i)

  -- an active session of the plate is answered again, and no second one is made
  unfoldable pub enter :
      ℕ
      → EntryOutcome
      → HandleLprEntryCommand
      → Option PmsParkingSession
      → Exec (State E) (EntryStatus × String)
  enter now out c (some session) = pure (existing, session.pms_session_id)
  enter now out c none = open_session now out c

  unfoldable pub handle_lpr_entry :
      ℕ → EntryOutcome → HandleLprEntryCommand → Exec (State E) (EntryStatus × String)
  handle_lpr_entry now out c = do
    try_open_entry out.barrier
    existing_session ← gets (get_active_session_by_plate E c.plate)
    enter now out c existing_session
