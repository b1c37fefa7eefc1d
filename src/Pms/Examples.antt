-- ===== src/Pms/Examples.antt =====
-- services/pms on tables and keyspaces in memory: the theorems at one vehicle.
use car_pay_in.Pms.Paid.{IsPaidFor}
use car_pay_in.Pms.System.{Reach, Reach-IsPaidFor, here, lpr_entry, payment_complete}
use car_pay_in.Base.{String, [], arith, refl, some, ◌+◌, ◌↔◌, ◌∷◌, ◌≡◌, ◌≤◌, ◌⊎◌}
use car_pay_in.DateTime.{aware}
use car_pay_in.DateTime.Unary.{unary, unary-IsIso}
use car_pay_in.Exec.{catch, err, ok, value_error}
use car_pay_in.Pms.Entry.{EntryOutcome, HandleLprEntryCommand, handle_lpr_entry}
use car_pay_in.Pms.Exit.{handle_lpr_exit}
use car_pay_in.Pms.Exit.Cases.{PaidHere, exit_calls, exit_cases}
use car_pay_in.Pms.Fee.{Fee, fee_between, minute}
use car_pay_in.Pms.Fee.Bounds.{IsFee, fee_between-IsFee, fee_between-monotone, fee_between-rejects}
use car_pay_in.Pms.Flow.EntryRun.{entered_payload}
use car_pay_in.Pms.Flow.Visit.{Visit, visit}
use car_pay_in.Pms.Models.{
  Env, IsLawful, PmsParkingSession, State, open_entry, record_call, request_fits, success,
}
use car_pay_in.Pms.Payments.{
  RecordPaymentCompleteCommand, add_payment_request, get_by_idempotency_key, publish_paid,
  record_once, record_payment_complete, save_payment_request, settle_session, try_open_exit,
}
use car_pay_in.Pms.Payments.Idempotence.{record_payment_complete-twice}
use car_pay_in.Pms.Sessions.{
  change_session, get_active_session_by_plate, get_session_by_id, mark_paid, new_session,
  require_session,
}
use car_pay_in.Pms.Stores.{session_key, update_status, write_status}
use car_pay_in.Redis.Memory.{memory_redis, memory_redis-IsRedis}
use car_pay_in.Table.{amend, first}
use car_pay_in.Table.Memory.{memory_table, memory_table-IsTable}

abbrev env : Env
env = record {
  sessions = memory_table;
  payment_requests = memory_table;
  pre_registration = memory_redis;
  parking = memory_redis;
  iso = unary;
}

env-IsLawful : IsLawful env
env-IsLawful = record {
  sessions = memory_table-IsTable;
  payment_requests = memory_table-IsTable;
  pre_registration = memory_redis-IsRedis;
  parking = memory_redis-IsRedis;
  iso = unary-IsIso;
}

abbrev start : State env
unfolding memory_redis
start = record {
  sessions = [];
  payment_requests = [];
  pre_registration = [];
  parking = [];
  calls = [];
}

abbrev camera : EntryOutcome
camera = record { barrier = ok tt; webhook = ok tt; hex = "0123456789ab" }

abbrev arrival : HandleLprEntryCommand
arrival = record { lot_id = "LOT_1"; plate = "12가3456"; entry_time = "a111" }

abbrev payment : RecordPaymentCompleteCommand
payment = record {
  pms_session_id = "pms-sess-0123456789ab";
  carpay_session_id = "sess";
  tx_id = "tx";
  amount = 500;
  currency = "KRW";
  approval_no = "CARD-1";
  idempotency_key = "key";
}

visit_example : Visit env-IsLawful camera arrival (ok tt) payment start 10 20 30 (aware 3)
unfolding start memory_redis unary get_by_idempotency_key get_session_by_id
    get_active_session_by_plate first
visit_example =
    visit env-IsLawful camera arrival (ok tt) payment start 10 20 30 (aware 3) (omega arith)
      (omega arith) (omega arith) refl refl refl refl refl

-- the state after the arrival
abbrev row : PmsParkingSession
row = new_session "pms-sess-0123456789ab" "LOT_1" "12가3456" (aware 3)

abbrev parked : State env
unfolding memory_redis
parked = record {
  sessions = row ∷ [];
  payment_requests = [];
  pre_registration = [];
  parking = ("parking_session:LOT_1:12가3456", entered_payload camera arrival, some 259210) ∷ [];
  calls = open_entry "" ∷ [];
}

payment_runs : (record_payment_complete env 20 (ok tt) payment parked).0 ≡ ok success
unfolding record_payment_complete record_once get_by_idempotency_key save_payment_request
    add_payment_request settle_session mark_paid change_session require_session get_session_by_id
    publish_paid update_status write_status session_key try_open_exit record_call request_fits first
    amend memory_redis catch
payment_runs = refl

record_payment_complete-twice_example :
    record_payment_complete env 99
      (ok tt)
      payment
      (record_payment_complete env 20 (ok tt) payment parked).1
    ≡ (ok success, (record_payment_complete env 20 (ok tt) payment parked).1)
record_payment_complete-twice_example =
    record_payment_complete-twice env-IsLawful 20 99 (ok tt) (ok tt) payment parked payment_runs

fee_between-IsFee_example :
    (f : Fee) × (fee_between 500 0 1860000000 ≡ ok f) × IsFee 500 0 1860000000 f
fee_between-IsFee_example = fee_between-IsFee 500 0 1860000000 (omega arith)

fee_31_minutes : fee_between 500 0 1860000000 ≡ ok (record { amount = 1000; duration_minutes = 31 })
unfolding fee_between
fee_31_minutes = refl

fee_between-monotone_example : 1000 ≤ 1500
unfolding fee_between
fee_between-monotone_example =
    fee_between-monotone 500 0 1860000000 3660000000
      {f = record { amount = 1000; duration_minutes = 31 }}
      {g = record { amount = 1500; duration_minutes = 61 }} (omega arith) refl refl

fee_between-rejects_example :
    (fee_between 500 120000000 0 ≡ err (value_error "invalid_current_time"))
    ↔ (0 + minute ≤ 120000000)
fee_between-rejects_example = fee_between-rejects 500 120000000 0

exit_cases_example :
    ((handle_lpr_exit env 20 (ok tt) "LOT_1" "12가3456" parked).1 ≡ parked)
    ⊎ ((i : String) × PaidHere env 20 "LOT_1" "12가3456" parked i
        × ((handle_lpr_exit env 20 (ok tt) "LOT_1" "12가3456" parked).1.calls
            ≡ exit_calls parked.calls i))
exit_cases_example = exit_cases env 20 "LOT_1" "12가3456" parked (ok tt)

start-IsPaidFor : IsPaidFor env start
unfolding start
start-IsPaidFor = tt

Reach-IsPaidFor_example :
    IsPaidFor env
      (record_payment_complete env 20
        (ok tt)
        payment
        (handle_lpr_entry env 10 camera arrival start).1).1
Reach-IsPaidFor_example =
    Reach-IsPaidFor env-IsLawful
      (Reach.next (Reach.next here (lpr_entry 10 camera arrival start))
        (payment_complete 20 (ok tt) payment (handle_lpr_entry env 10 camera arrival start).1))
      start-IsPaidFor
