-- ===== src/Backend/ParkingExamples.antt =====
-- The theorems on fees, webhooks and entries at one vehicle.
use car_pay_in.Base.{List}
use car_pay_in.Backend.Models.{PmsPayment}
use car_pay_in.Backend.Models.{RetryPayload}
use car_pay_in.Base.{String}
use car_pay_in.Backend.Models.{all_of}
use car_pay_in.Backend.Retries.Step.{sent_for_all}
use car_pay_in.Backend.Models.{without_tx_id}
use car_pay_in.Backend.Signature.{IsNear}
use car_pay_in.Backend.Entry.{
  HandleEntryWebhookCommand, WebhookOutcome, get_active_session_by_car_id, get_pre_notify,
  get_session_by_pms_session_id,
}
use car_pay_in.Backend.Entry.Again.{Opened, handle_entry_webhook-Opened}
use car_pay_in.Backend.Env.{State}
use car_pay_in.Backend.Fees.{FeeData, GetParkingFeeCommand}
use car_pay_in.Backend.Models.{FeeQuote, PaymentRetry, PreNotify, session_fits}
use car_pay_in.Backend.Retries.{process_payment_retries}
use car_pay_in.Backend.Retries.Settled.{IsScanned, process_payment_retries-Settled}
use car_pay_in.Backend.Retries.Step.{event_at}
use car_pay_in.Backend.Env.{notify_pms}
use car_pay_in.Backend.Sample.{env, env-IsLawful, quote, start}
use car_pay_in.Backend.Signature.{Crypto, sign, validate, validate_iff, verify, verify_at}
use car_pay_in.Base.{[], if◌then◌else◌, none, refl, some, ◌<>◌, ◌==◌, ◌↔◌, ◌∷◌, ◌≡◌}
use car_pay_in.DateTime.{aware}
use car_pay_in.DateTime.Unary.{unary}
use car_pay_in.Exec.{Result, err, ok, runtime_error}
use car_pay_in.Integer.{pos, ℤ}
use car_pay_in.Redis.Memory.{memory_redis}
use car_pay_in.Table.{first}

abbrev unquoted : State env
unfolding start
unquoted = record start { quotes = [] }

abbrev fee_request : GetParkingFeeCommand
fee_request = record { access_token = "token"; session_id = "sess" }

abbrev priced : Result FeeData
priced = ok (record { amount = pos 1000; duration = pos 31; currency = "KRW" })

abbrev expected : FeeQuote
expected = record quote { entry_time = "a" }

abbrev crypto : Crypto
crypto = record {
  hmac = λ secret message. secret <> message;
  body_hash = λ body. body;
  int = λ t. if t == "100" then some (pos 100) else none;
}

validate_iff_example : (validate crypto "secret" 300 350 "100" "secret100.body" "body" ≡ ok tt) ↔ (
    (t : ℤ) × (crypto.int "100" ≡ some t)
    × IsNear crypto "secret" 300 350 t
    × ("secret100.body" ≡ crypto.hmac "secret" ("100" <> "." <> crypto.body_hash "body")))
validate_iff_example = validate_iff crypto "secret" 300 350 "100" "secret100.body" "body"

abbrev webhook : HandleEntryWebhookCommand
webhook = record {
  pms_token = "secret100.body";
  pms_session_id = "pms-sess-2";
  lot_id = "LOT_1";
  plate = "12가3456";
  entry_time = "a111";
  signature_timestamp = "100";
  raw_body = "body";
}

abbrev registration : PreNotify
registration = record { user_id = "user"; car_id = "car"; lot_id = "LOT_1"; plate = "12가3456" }

abbrev expecting : State env
unfolding start memory_redis
expecting = record start {
  sessions = [];
  pre_notifies = ("parking_pre_notify:LOT_1:12가3456", registration, some 3600) ∷ [];
}

abbrev offline : WebhookOutcome
offline = record { publisher = err (runtime_error "sqs_unavailable"); session_uuid = "new" }

handle_entry_webhook-Opened_example :
    (z : State env) × Opened env-IsLawful
      (validate crypto "secret" 300)
      webhook
      110
      offline
      expecting
      registration
      "new"
      (aware 3)
      z
unfolding start memory_redis unary validate verify verify_at sign get_session_by_pms_session_id
    get_pre_notify get_active_session_by_car_id session_fits first
handle_entry_webhook-Opened_example =
    handle_entry_webhook-Opened env-IsLawful (validate crypto "secret" 300) webhook 110 offline
      expecting registration "new" (aware 3) refl refl refl refl refl refl refl

abbrev sent : PmsPayment
sent = record {
  pms_session_id = some "pms-sess-1";
  carpay_parking_session_id = "sess";
  carpay_tx_id = "tx";
  amount = pos 1000;
  currency = "KRW";
  approval_no = some "CARD-1";
  idempotency_key = "key";
}

abbrev retry_of : String → RetryPayload → PaymentRetry
retry_of tx_id payload = record {
  event_type = "pms_payment_notify";
  tx_id = tx_id;
  payload = payload;
  reason = "pms_notify_failed";
}

-- an event that can be sent, and one without `carpay_tx_id`
abbrev pending_retries : State env
unfolding start memory_redis
pending_retries = record start {
  payment_retries =
      ("pms_payment_retry:tx", retry_of "tx" (all_of sent), some 604800)
      ∷ (
        "pms_payment_retry:other",
        retry_of "other" (without_tx_id "pms-sess-2" "sess-2" (pos 500) "KRW" "CARD-2" "key-2"),
        some 604800,
      )
      ∷ [];
}

-- SCAN may give a key twice
abbrev scanned_keys : List String
scanned_keys = "pms_payment_retry:tx" ∷ "pms_payment_retry:other" ∷ "pms_payment_retry:tx" ∷ []

sent_for_all-test :
    sent_for_all (λ k. event_at env-IsLawful 100 (λ _. ok tt) k pending_retries) scanned_keys
    ≡ notify_pms sent ∷ []
unfolding sent_for_all memory_redis pending_retries
sent_for_all-test = refl

process_payment_retries-Settled_example :
    IsScanned env-IsLawful 100
      (λ _. ok tt)
      (λ _. refl)
      scanned_keys
      pending_retries
      (process_payment_retries env 100 (λ _. ok tt) scanned_keys pending_retries)
process_payment_retries-Settled_example =
    process_payment_retries-Settled env-IsLawful 100 (λ _. ok tt) (λ _. refl) scanned_keys
      pending_retries
