-- ===== src/Backend/Examples.antt =====
-- The theorems on payments at one payment.
use car_pay_in.Backend.Env.{State}
use car_pay_in.Backend.Models.{Transaction, success}
use car_pay_in.Backend.Outbox.{retry_delay, run_once}
use car_pay_in.Backend.Outbox.Attempts.{AreBounded}
use car_pay_in.Backend.Outbox.Backoff.{retry_delay-bounds}
use car_pay_in.Backend.Payment.{
  ProcessPaymentCommand, get_quote, idempotency_key_of, process_payment,
}
use car_pay_in.Backend.Payment.Again.{Known, process_payment-Known}
use car_pay_in.Backend.Payment.Atomic.{process_payment-Untouched}
use car_pay_in.Backend.Payment.OneCharge.{AreCharged, is_charge}
use car_pay_in.Backend.Payment.Outcomes.{
  Completed, Declined, process_payment-Completed, process_payment-Declined,
}
use car_pay_in.Backend.Sample.{
  approves, claims, env, env-IsLawful, key_row, parked, quote, refuses, request, start,
}
use car_pay_in.Backend.System.{Reach, Reach-AreBounded, Reach-one_charge, here, next, pay, scan}
use car_pay_in.Backend.Transactions.{
  find_session, get_active_billing_key, get_transaction_by_idempotency_key,
}
use car_pay_in.Base.{String, [], arith, none, refl, some, ◌*◌, ◌<◌, ◌∷◌, ◌≡◌, ◌≤◌}
use car_pay_in.Exec.{Result, err, runtime_error, value_error, ◌>>=◌}
use car_pay_in.Integer.{decimal_on, pos, str}
use car_pay_in.Redis.Memory.{memory_redis}
use car_pay_in.Table.{first, tally}
use car_pay_in.Table.Memory.{memory_batch, memory_batch-IsBatch}

process_payment-Completed_example :
    (z : State env) × Completed env-IsLawful 10 approves request start claims quote parked key_row
      999 "sess" "tx"
      (some "pg-1")
      "CARD-1"
      z
unfolding start memory_redis get_quote find_session get_transaction_by_idempotency_key first
    get_active_billing_key idempotency_key_of str decimal_on
process_payment-Completed_example =
    process_payment-Completed env-IsLawful 10 approves request start claims quote parked key_row 999
      "sess" "tx" refl refl refl refl refl refl refl refl refl refl refl refl refl refl

process_payment-Declined_example :
    (z : State env) × Declined env-IsLawful 10 refuses request start claims quote parked key_row 999
      "sess" "tx" "insufficient_balance" z
unfolding start memory_redis get_quote find_session get_transaction_by_idempotency_key first
    get_active_billing_key idempotency_key_of str decimal_on
process_payment-Declined_example =
    process_payment-Declined env-IsLawful 10 refuses request start claims quote parked key_row 999
      "sess" "tx" refl refl refl refl refl refl refl refl refl refl refl refl refl

-- a request with a token that is not valid
abbrev stranger : ProcessPaymentCommand
stranger = record { access_token = "x"; session_id = "sess"; amount = pos 1000; currency = "KRW" }

stranger-refused :
    (process_payment env 10 approves stranger start).0 ≡ err (value_error "invalid_token")
unfolding process_payment start memory_redis ◌>>=◌
stranger-refused = refl

process_payment-Untouched_example : (process_payment env 10 approves stranger start).1 ≡ start
process_payment-Untouched_example =
    process_payment-Untouched env-IsLawful 10 approves stranger start stranger-refused

start-AreCharged : AreCharged start.calls (env.transactions.rows start.transactions)
unfolding start tally
start-AreCharged = record { covered = λ _. omega arith; one_key = λ _. omega arith }

-- one payment, and a scan of the outbox after it that cannot publish
abbrev unreachable : String → Result (Unit {0})
unreachable _ = err (runtime_error "sqs_unavailable")

abbrev after_scan : State env
unfolding start
after_scan =
    (run_once memory_batch 20 100 60 unreachable
      (process_payment env 10 approves request start).1).1

run : Reach memory_batch start after_scan
unfolding start
run =
    next (next here (pay 10 approves request start))
      (scan 20 100 60 unreachable (process_payment env 10 approves request start).1)

Reach-one_charge_example : tally (is_charge "k") after_scan.calls ≤ 1
Reach-one_charge_example = Reach-one_charge env-IsLawful run start-AreCharged "k"

Reach-AreBounded_example : AreBounded env after_scan
unfolding start
Reach-AreBounded_example = Reach-AreBounded env-IsLawful memory_batch-IsBatch run tt

retry_delay-bounds_example :
    (5 ≤ retry_delay 3)
    × (retry_delay 3 ≤ 300)
    × (retry_delay 3 ≤ retry_delay 4)
    × (retry_delay 5 < 300 → retry_delay 5 ≡ 2 * retry_delay 4)
retry_delay-bounds_example = retry_delay-bounds 3

-- the transaction of a payment that went through before
abbrev paid_tx : Transaction
paid_tx = record {
  tx_id = "tx";
  session_id = "sess";
  car_id = "car";
  billing_key = "bk";
  pg_tx_id = some "pg-1";
  amount = 1000;
  currency = "KRW";
  status = success;
  approval_no = some "CARD-1";
  idempotency_key = "sha:sesscar1000KRW";
  failed_reason = none;
}

abbrev paid_before : State env
unfolding start
paid_before = record start { transactions = paid_tx ∷ [] }

process_payment-Known_example :
    (z : State env) × Known env-IsLawful 20 approves request paid_before claims quote parked "sess"
      paid_tx z
unfolding start memory_redis get_quote find_session get_transaction_by_idempotency_key first
    idempotency_key_of str decimal_on
process_payment-Known_example =
    process_payment-Known env-IsLawful 20 approves request paid_before claims quote parked "sess"
      paid_tx refl refl refl refl refl refl refl refl
