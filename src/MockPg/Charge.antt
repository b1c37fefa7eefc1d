-- ===== src/MockPg/Charge.antt =====
-- services/mock-pg/app/application/pg/charge_billing_key.py.
use car_pay_in.Base.{Option, String, if◌then◌else◌, none, some, ◌<>◌, ◌==◌}
use car_pay_in.Exec.{Exception, Exec, catch, gets, other, pure, raise, ◌>>=◌, ◌>>◌}
use car_pay_in.Integer.{ℤ}
use car_pay_in.MockPg.{
  Approval, ApproveRequest, BillingKey, Env, PgTransaction, State, TxStatus, approve_payment,
  failed, is_active, pending, success, text_of,
}
use car_pay_in.MockPg.Repositories.{
  create_transaction, get_billing_key, get_by_idempotency_key, update_transaction_status,
}
pub mod Ends
pub mod Ledger
pub mod OneApproval
pub mod Runs

pub record ChargeBillingKeyCommand : Type 0 where
  pub billing_key : String
  pub amount : ℤ
  pub currency : String
  pub idempotency_key : String

pub record ChargeBillingKeyResult : Type 0 where
  pub status : TxStatus
  pub tx_id : String
  pub approval_no : Option String

abbrev pub result_of : PgTransaction → ChargeBillingKeyResult
result_of x = record { status = x.status; tx_id = x.pg_tx_id; approval_no = x.approval_no }

-- `approval_data.get("status", "success")`
abbrev pub status_or_success : Option String → String
status_or_success none = "success"
status_or_success (some t) = t

abbrev pub request_for : ChargeBillingKeyCommand → String → ApproveRequest
request_for c card_token = record {
  card_token = card_token;
  amount = c.amount;
  currency = c.currency;
  idempotency_key = c.idempotency_key;
}

-- with the text of `uuid.uuid4().hex[:12]`
module _ (E : Env) (tx_hex : String) (c : ChargeBillingKeyCommand) where
  abbrev pub failed_result : ChargeBillingKeyResult
  failed_result = record { status = failed; tx_id = "tx-" <> tx_hex; approval_no = none }

  -- the card company's approval number, once the payment is known to be a success
  unfoldable pub accept :
      Option String → Option (Option String) → Exec (State E) ChargeBillingKeyResult
  accept card_tx_id none = raise (other "'approval_no'")
  accept card_tx_id (some approval_no) = do
    update_transaction_status E c.idempotency_key success approval_no card_tx_id none
    pure (record { status = success; tx_id = "tx-" <> tx_hex; approval_no = approval_no })

  unfoldable pub decline : Option String → Exec (State E) ChargeBillingKeyResult
  decline card_tx_id = do
    update_transaction_status E c.idempotency_key failed none card_tx_id
        (some "card_payment_failed")
    pure failed_result

  unfoldable pub settle : Approval → Exec (State E) ChargeBillingKeyResult
  settle approval_data =
      if status_or_success approval_data.status == "success"
      then accept approval_data.tx_id approval_data.approval_no
      else decline approval_data.tx_id

  unfoldable pub abort : Exception → Exec (State E) ChargeBillingKeyResult
  abort e = do
    update_transaction_status E c.idempotency_key failed none none (some (text_of E e))
    pure failed_result

  unfoldable pub ask_card : String → Exec (State E) ChargeBillingKeyResult
  ask_card card_token =
      catch (do approval_data ← approve_payment E (request_for c card_token); settle approval_data)
        abort

  unfoldable pub create : TxStatus → Option String → Exec (State E) PgTransaction
  create status failed_reason =
      create_transaction E ("tx-" <> tx_hex) c.idempotency_key c.billing_key c.amount c.currency
        status failed_reason

  unfoldable pub charge_active : String → Exec (State E) ChargeBillingKeyResult
  charge_active card_token = do create pending none; ask_card card_token

  unfoldable pub charge_inactive : Exec (State E) ChargeBillingKeyResult
  charge_inactive = do create failed (some "inactive_billing_key"); pure failed_result

  unfoldable pub charge_known : Option BillingKey → Exec (State E) ChargeBillingKeyResult
  charge_known none = pure failed_result
  charge_known (some billing_key_data) =
      if is_active billing_key_data.status
      then charge_active billing_key_data.card_token
      else charge_inactive

  unfoldable pub charge_once : Option PgTransaction → Exec (State E) ChargeBillingKeyResult
  charge_once (some existing_tx) = pure (result_of existing_tx)
  charge_once none = do
    billing_key_data ← gets (get_billing_key E c.billing_key)
    charge_known billing_key_data

  unfoldable pub charge_billing_key : Exec (State E) ChargeBillingKeyResult
  charge_billing_key = do
    existing_tx ← gets (get_by_idempotency_key E c.idempotency_key)
    charge_once existing_tx
