-- ===== src/Pms/Payments.antt =====
-- services/pms/app/infra/repositories/payment_request_repository.py and
-- services/pms/app/application/pms/record_payment_complete.py, with the service wired as in
-- services/pms/app/api/deps.py: every optional collaborator is there.
pub mod Idempotence
use car_pay_in.Base.{Option, String, none, not, some, ℕ}
use car_pay_in.DateTime.{utc_now}
use car_pay_in.Exec.{
  Exception, Exec, Result, catch, gets, integrity_error, lift, lookup_error, modify, pure, raise,
  raise_if, ◌>>=◌, ◌>>◌,
}
use car_pay_in.Pms.Models.{
  Env, PaymentRequest, PmsParkingSession, RequestStatus, State, has_key, open_exit, paid,
  record_call, request_fits, success,
}
use car_pay_in.Pms.Sessions.{get_session_by_id, mark_paid}
use car_pay_in.Pms.Stores.{update_status}

pub record RecordPaymentCompleteCommand : Type 0 where
  pub pms_session_id : String
  pub carpay_session_id : String
  pub tx_id : String
  pub amount : ℕ
  pub currency : String
  pub approval_no : String
  pub idempotency_key : String

-- the row that `save_payment_request` builds
abbrev pub completed_request : ℕ → RecordPaymentCompleteCommand → PaymentRequest
completed_request now c = record {
  pms_session_id = c.pms_session_id;
  carpay_parking_session_id = c.carpay_session_id;
  carpay_tx_id = c.tx_id;
  amount = c.amount;
  currency = c.currency;
  status = success;
  idempotency_key = c.idempotency_key;
  approval_no = c.approval_no;
  completed_at = utc_now now;
}

module _ (E : Env) where
  unfoldable pub get_by_idempotency_key : String → State E → Option PaymentRequest
  get_by_idempotency_key k s = E.payment_requests.scalar (has_key k) s.payment_requests

  -- an existing request of the key is returned as it is
  unfoldable pub add_payment_request :
      ℕ → RecordPaymentCompleteCommand → Option PaymentRequest → Exec (State E) PaymentRequest
  add_payment_request now c (some known) = pure known
  add_payment_request now c none = do
    let payment_request = completed_request now c
    fits ← gets (λ s.
        request_fits (E.sessions.rows s.sessions) (E.payment_requests.rows s.payment_requests)
          payment_request)
    raise_if (not fits) integrity_error
    modify (λ s. record s {
      payment_requests = E.payment_requests.insert payment_request s.payment_requests;
    })
    pure payment_request

  unfoldable pub save_payment_request :
      ℕ → RecordPaymentCompleteCommand → Exec (State E) PaymentRequest
  save_payment_request now c = do
    existing ← gets (get_by_idempotency_key c.idempotency_key)
    add_payment_request now c existing

  -- `except LookupError`
  abbrev pub pass_lookup_error : Exception → Exec (State E) (Unit {0})
  pass_lookup_error (lookup_error _) = pure tt
  pass_lookup_error e = raise e

  -- the store follows the session's own lot and plate
  unfoldable pub publish_paid : ℕ → Option PmsParkingSession → Exec (State E) (Unit {0})
  publish_paid now none = pure tt
  publish_paid now (some session) = update_status E now session.lot_id session.plate paid

  -- the `try` block around the session
  unfoldable pub settle_session : ℕ → String → Exec (State E) (Unit {0})
  settle_session now i =
      catch (do session ← gets (get_session_by_id E i); mark_paid E i; publish_paid now session)
        pass_lookup_error

  -- `barrier` is how the call of the barrier ends
  unfoldable pub try_open_exit : Result (Unit {0}) → String → Exec (State E) (Unit {0})
  try_open_exit barrier i = catch (do record_call E (open_exit i); lift barrier) (λ _. pure tt)

  -- a payment that is known by its key changes nothing
  unfoldable pub record_once :
      ℕ
      → Result (Unit {0})
      → RecordPaymentCompleteCommand
      → Option PaymentRequest
      → Exec (State E) RequestStatus
  record_once now barrier c (some known) = pure known.status
  record_once now barrier c none = do
    save_payment_request now c
    settle_session now c.pms_session_id
    try_open_exit barrier c.pms_session_id
    pure success

  unfoldable pub record_payment_complete :
      ℕ → Result (Unit {0}) → RecordPaymentCompleteCommand → Exec (State E) RequestStatus
  record_payment_complete now barrier c = do
    existing ← gets (get_by_idempotency_key c.idempotency_key)
    record_once now barrier c existing
