-- ===== src/Backend/System.antt =====
-- Any sequence of payment requests to services/carpayin-backend and of scans of its outbox worker.
use car_pay_in.Backend.Env.{Env, IsLawful, State}
use car_pay_in.Backend.Outbox.{run_once}
use car_pay_in.Backend.Outbox.Attempts.{AreBounded, process_payment-AreBounded, run_once-Keeps}
use car_pay_in.Backend.Outbox.Charges.{run_once-IsCharged}
use car_pay_in.Backend.Payment.{PaymentOutcome, ProcessPaymentCommand, process_payment}
use car_pay_in.Backend.Payment.OneCharge.{AreCharged, IsCharged, is_charge}
use car_pay_in.Backend.Payment.OneCharge.Service.{process_payment-Keeps}
use car_pay_in.Base.{String, arith, ℕ, ◌≤◌}
use car_pay_in.Exec.{Result}
use car_pay_in.Table.{Batch, IsBatch, tally}

-- one request or scan, at a time, with the way in which the calls to other processes end
pub data Step {E : Env} (B : Batch E.outbox) : State E → State E → Type 0 where
  pay :
      (now : ℕ) (out : PaymentOutcome) (c : ProcessPaymentCommand) (s : State E)
      → Step B s (process_payment E now out c s).1
  scan :
      (now batch_size lease_seconds : ℕ) (publisher : String → Result (Unit {0})) (s : State E)
      → Step B s (run_once B now batch_size lease_seconds publisher s).1

pub data Reach {E : Env} (B : Batch E.outbox) (s : State E) : State E → Type 0 where
  here : Reach B s s
  next : {t u : State E} → Reach B s t → Step B t u → Reach B s u

module _ {E : Env} (L : IsLawful E) {B : Batch E.outbox} where
  Reach-IsCharged : {s t : State E} → Reach B s t → IsCharged L s → IsCharged L t
  Reach-IsCharged here v = v
  Reach-IsCharged (next r (pay now out c s)) v =
      (process_payment-Keeps L now out c).at s (Reach-IsCharged r v)
  Reach-IsCharged (next r (scan now batch_size lease publisher s)) v =
      (run_once-IsCharged L B now batch_size lease publisher).at s (Reach-IsCharged r v)

  -- However many payment requests and scans of the outbox there are, in any order and with any
  -- outcome of the calls to other processes: if at first each charge had a transaction of its key
  -- and no key had two, then the PG has been asked at most once for a charge under each idempotency
  -- key.
  pub Reach-one_charge :
      {s t : State E}
      → Reach B s t
      → AreCharged s.calls (E.transactions.rows s.transactions)
      → (k : String) → tally (is_charge k) t.calls ≤ 1
  Reach-one_charge r v k = let w = Reach-IsCharged r v in omega (arith, w.covered k, w.one_key k)

  -- However many payment requests and scans of the outbox there are, in any order and with any
  -- outcome of the calls to other processes: if at first every notification of the outbox had a
  -- limit of five attempts and kept to it, every one still does, the new ones too.
  pub Reach-AreBounded : IsBatch B → {s t : State E} → Reach B s t → AreBounded E s → AreBounded E t
  Reach-AreBounded D here v = v
  Reach-AreBounded D (next r (pay now out c s)) v =
      (process_payment-AreBounded L D now out c).at s (Reach-AreBounded D r v)
  Reach-AreBounded D (next r (scan now batch_size lease publisher s)) v =
      (run_once-Keeps L D now batch_size lease publisher).at s (Reach-AreBounded D r v)
