-- ===== src/Backend/Retries.antt =====
-- services/carpayin-backend/app/infra/workers/notify_retry_worker.py, without the thread that calls
-- it again and again. The keys that the pages of SCAN give are an argument. A value is always one
-- that was written as JSON, so the branch for a text that is not JSON is left out.
pub mod Step
pub mod Settled
use car_pay_in.Backend.Models.{RetryPayload}
use car_pay_in.Backend.Models.{all_of}
use car_pay_in.Exec.{other}
use car_pay_in.Exec.{raise}
use car_pay_in.Backend.Models.{without_tx_id}
use car_pay_in.Backend.Env.{Env, IsLawful, State, notify_pms, publish_entry, record_call}
use car_pay_in.Backend.Models.{EntryRetry, PaymentRetry}
use car_pay_in.Base.{
  All, Bool, List, Option, Option-cases, String, [], ap, eq_refl, false, if◌then◌else◌, inl, inr,
  none, refl, some, sym, true, ℕ, ◌++◌, ◌==◌, ◌∙◌, ◌∷◌, ◌≡◌, ◌≤◌,
}
use car_pay_in.Exec.{Exception, Exec, Result, catch, err, gets, lift, modify, ok, pure, ◌>>=◌, ◌>>◌}
use car_pay_in.Exec.Run.{
  bind-err, bind-ok, catch-err, catch-ok, run-gets-bind, run-lift, run-modify, run-pure,
}
use mathlib.Core.Path.{subst}

module _ (E : Env) (now : ℕ) (outcome : String → Result (Unit {0})) where
  -- a call that goes through removes the key, one that fails leaves it for the next scan
  unfoldable pub resend_entry : String → Option EntryRetry → Exec (State E) (Unit {0})
  resend_entry key none = pure tt
  resend_entry key (some event) =
      catch
        (do
          record_call E (publish_entry event.session_id event.car_id event.lot_id event.entry_time)
          lift (outcome key)
          modify (λ s. record s { entry_retries = E.entry_retries.delete key s.entry_retries }))
        (λ _. pure tt)

  unfoldable pub retry_entry : String → Exec (State E) (Unit {0})
  retry_entry key = do
    raw ← gets (λ s. E.entry_retries.get now key s.entry_retries)
    resend_entry key raw

  unfoldable pub process_entry_retries : List String → Exec (State E) (Unit {0})
  process_entry_retries [] = pure tt
  process_entry_retries (key ∷ keys) = do retry_entry key; process_entry_retries keys

  -- `notify_payment_complete(**payload)`: without an argument it is a TypeError, before any call
  unfoldable pub notify_with : String → RetryPayload → Exec (State E) (Unit {0})
  notify_with key (all_of payload) = do record_call E (notify_pms payload); lift (outcome key)
  notify_with key (without_tx_id _ _ _ _ _ _) = raise (other "missing argument: 'carpay_tx_id'")

  unfoldable pub resend_payment : String → Option PaymentRetry → Exec (State E) (Unit {0})
  resend_payment key none = pure tt
  resend_payment key (some event) =
      catch
        (do
          notify_with key event.payload
          modify
              (λ s. record s { payment_retries = E.payment_retries.delete key s.payment_retries }))
        (λ _. pure tt)

  unfoldable pub retry_payment : String → Exec (State E) (Unit {0})
  retry_payment key = do
    raw ← gets (λ s. E.payment_retries.get now key s.payment_retries)
    resend_payment key raw

  unfoldable pub process_payment_retries : List String → Exec (State E) (Unit {0})
  process_payment_retries [] = pure tt
  process_payment_retries (key ∷ keys) = do retry_payment key; process_payment_retries keys
