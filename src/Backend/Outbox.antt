-- ===== src/Backend/Outbox.antt =====
-- services/carpayin-backend/app/infra/repositories/payment_notification_outbox_repository.py and
-- services/carpayin-backend/app/infra/workers/payment_outbox_worker.py, without the thread that
-- calls `run_once` again and again.
pub mod Backoff
pub mod Attempts
pub mod Charges
use car_pay_in.Backend.Env.{Env, State, parse_uuid, publish_payment, record_call, text_of}
use car_pay_in.Backend.Models.{
  OutboxStatus, PaymentNotificationOutbox, dead, published, publishing, retrying, waiting,
}
use car_pay_in.Base.{
  Bool, List, String, [], false, if◌then◌else◌, leb, length, ltb, none, some, suc, true, ℕ, ◌&&◌,
  ◌*◌, ◌+◌, ◌-◌, ◌==◌, ◌^◌, ◌∷◌,
}
use car_pay_in.DateTime.{DateTime, micros, utc_now}
use car_pay_in.Exec.{
  Exec, Result, err, gets, lift, lookup_error, modify, ok, or_raise, pure, ◌>>=◌, ◌>>◌,
}
use car_pay_in.Table.{Batch}

abbrev pub has_notification_id : String → PaymentNotificationOutbox → Bool
has_notification_id i r = r.notification_id == i

abbrev pub is_open : OutboxStatus → Bool
is_open waiting = true
is_open retrying = true
is_open publishing = true
is_open _ = false

-- a number of seconds after a time
abbrev pub seconds_after : ℕ → ℕ → DateTime
seconds_after now seconds = utc_now (now + seconds)

-- the `where` of `claim_due`
unfoldable pub is_due : ℕ → PaymentNotificationOutbox → Bool
is_due now r =
    is_open r.status
    && leb (micros r.next_attempt_at) (micros (utc_now now))
    && ltb r.attempts r.max_attempts

-- the loaded object after the assignments of `claim_due`
abbrev pub claimed : ℕ → ℕ → PaymentNotificationOutbox → PaymentNotificationOutbox
claimed now lease_seconds r = record r {
  status = publishing;
  attempts = suc r.attempts;
  next_attempt_at = seconds_after now lease_seconds;
}

-- the columns of a loaded object that `claim_due` writes to its row
abbrev pub write_claim :
    PaymentNotificationOutbox → PaymentNotificationOutbox → PaymentNotificationOutbox
write_claim r row = record row {
  status = r.status;
  attempts = r.attempts;
  next_attempt_at = r.next_attempt_at;
}

-- the columns that `mark_failed` writes
abbrev pub write_failure : ℕ → String → ℕ → PaymentNotificationOutbox → PaymentNotificationOutbox
write_failure now reason retry_delay_seconds r =
    if leb r.max_attempts r.attempts
    then record r { failed_reason = some reason; status = dead }
    else record r {
      failed_reason = some reason;
      status = retrying;
      next_attempt_at = seconds_after now retry_delay_seconds;
    }

-- the columns that `mark_published` writes
abbrev pub write_success : ℕ → PaymentNotificationOutbox → PaymentNotificationOutbox
write_success now r = record r {
  status = published;
  published_at = some (utc_now now);
  failed_reason = none;
}

-- seconds until the next attempt, after a number of attempts
unfoldable pub retry_delay : ℕ → ℕ
retry_delay attempts = let delay = 5 * 2 ^ (attempts - 1) in if leb delay 300 then delay else 300

module _ {E : Env} (B : Batch E.outbox) where
  abbrev pub change_notification :
      String → (PaymentNotificationOutbox → PaymentNotificationOutbox) → State E → State E
  change_notification i f s = record s {
    outbox = E.outbox.update (has_notification_id i) f s.outbox;
  }

  -- the loop of `claim_due`
  unfoldable pub claim_rows :
      ℕ → ℕ → List PaymentNotificationOutbox → Exec (State E) (List PaymentNotificationOutbox)
  claim_rows now lease_seconds [] = pure []
  claim_rows now lease_seconds (r ∷ rs) = do
    let notification = claimed now lease_seconds r
    modify (change_notification r.notification_id (write_claim notification))
    notifications ← claim_rows now lease_seconds rs
    pure (notification ∷ notifications)

  unfoldable pub claim_due : ℕ → ℕ → ℕ → Exec (State E) (List PaymentNotificationOutbox)
  claim_due now limit lease_seconds = do
    notifications ← gets (λ s. B.scalars (is_due now) (λ r. r.created_at) limit s.outbox)
    claim_rows now lease_seconds notifications

  unfoldable pub get : String → Exec (State E) PaymentNotificationOutbox
  get notification_id = do
    i ← lift (parse_uuid E notification_id)
    notification ← gets (λ s. E.outbox.scalar (has_notification_id i) s.outbox)
    or_raise notification (lookup_error "payment_notification_not_found")

  unfoldable pub mark_published : ℕ → String → Exec (State E) (Unit {0})
  mark_published now notification_id = do
    notification ← get notification_id
    modify (change_notification notification.notification_id (write_success now))

  unfoldable pub mark_failed : ℕ → String → String → ℕ → Exec (State E) (Unit {0})
  mark_failed now notification_id reason retry_delay_seconds = do
    notification ← get notification_id
    modify (
        change_notification notification.notification_id
          (write_failure now reason retry_delay_seconds))

  unfoldable pub after_publish :
      ℕ → PaymentNotificationOutbox → Result (Unit {0}) → Exec (State E) (Unit {0})
  after_publish now notification (ok _) = mark_published now notification.notification_id
  after_publish now notification (err e) =
      mark_failed now notification.notification_id (text_of E e) (retry_delay notification.attempts)

  -- `publisher` is how the call for a notification ends
  unfoldable pub publish_one :
      ℕ → (String → Result (Unit {0})) → PaymentNotificationOutbox → Exec (State E) (Unit {0})
  publish_one now publisher notification = do
    record_call E (publish_payment notification.payload)
    after_publish now notification (publisher notification.notification_id)

  unfoldable pub publish_all :
      ℕ → (String → Result (Unit {0})) → List PaymentNotificationOutbox → Exec (State E) (Unit {0})
  publish_all now publisher [] = pure tt
  publish_all now publisher (r ∷ rs) = do publish_one now publisher r; publish_all now publisher rs

  unfoldable pub run_once : ℕ → ℕ → ℕ → (String → Result (Unit {0})) → Exec (State E) ℕ
  run_once now batch_size lease_seconds publisher = do
    notifications ← claim_due now batch_size lease_seconds
    publish_all now publisher notifications
    pure (length notifications)
