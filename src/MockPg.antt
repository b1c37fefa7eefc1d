-- ===== src/MockPg.antt =====
-- services/mock-pg: the rows of app/infra/db/models.py, and what the service takes from outside.
pub mod Repositories
pub mod Charge
pub mod Registration
pub mod Settlement
mod Examples
use car_pay_in.Base.{
  Bool, List, Option, String, [], false, is_some, none, not, some, suc, true, zero, ℕ, ◌&&◌, ◌++◌,
  ◌==◌, ◌∷◌,
}
use car_pay_in.Exec.{
  Exception, Exec, Result, integrity_error, lookup_error, ok, other, permission_error,
  runtime_error, value_error,
}
use car_pay_in.Integer.{negsuc, pos, ℤ}
use car_pay_in.Table.{IsTable, Table, first}

pub data KeyStatus : Type 0 where
  active inactive : KeyStatus

abbrev pub is_active : KeyStatus → Bool
is_active active = true
is_active inactive = false

pub record BillingKey : Type 0 where
  pub billing_key : String
  pub order_id : String
  pub card_token : String
  pub card_last_four : String
  pub status : KeyStatus

pub data TxStatus : Type 0 where
  pending success failed cancelled : TxStatus

pub record PgTransaction : Type 0 where
  pub pg_tx_id : String
  pub billing_key : String
  pub card_token : String
  pub card_tx_id : Option String
  pub amount : ℤ
  pub currency : String
  pub approval_no : Option String
  pub status : TxStatus
  pub idempotency_key : String
  pub failed_reason : Option String

abbrev pub has_billing_key : String → BillingKey → Bool
has_billing_key b r = r.billing_key == b

abbrev pub has_order_id : String → BillingKey → Bool
has_order_id i r = r.order_id == i

abbrev pub has_tx_id : String → PgTransaction → Bool
has_tx_id i r = r.pg_tx_id == i

abbrev pub has_key : String → PgTransaction → Bool
has_key k r = r.idempotency_key == k

-- the check constraint on the amount
abbrev pub is_positive : ℤ → Bool
is_positive (pos zero) = false
is_positive (pos (suc _)) = true
is_positive (negsuc _) = false

-- The primary key of a new billing key, and the unique order id.
unfoldable pub key_fits : List BillingKey → BillingKey → Bool
key_fits rows r =
    not (is_some (first (has_billing_key r.billing_key) rows))
    && not (is_some (first (has_order_id r.order_id) rows))

-- The check, the primary key and the unique key of a new transaction. Its foreign key holds, since
-- the row of the billing key has just been read and none is ever deleted.
unfoldable pub tx_fits : List PgTransaction → PgTransaction → Bool
tx_fits rows r =
    is_positive r.amount
    && not (is_some (first (has_tx_id r.pg_tx_id) rows))
    && not (is_some (first (has_key r.idempotency_key) rows))

-- the JSON of a card approval; `none` is a key that is missing
pub record Approval : Type 0 where
  pub status : Option String
  pub tx_id : Option String
  pub approval_no : Option (Option String)

pub record ApproveRequest : Type 0 where
  pub card_token : String
  pub amount : ℤ
  pub currency : String
  pub idempotency_key : String

pub record VerifyRequest : Type 0 where
  pub user_id : String
  pub card_number : String
  pub expiry : String
  pub cvc : String

pub record CardData : Type 0 where
  pub card_token : String
  pub last_four : String

-- The card company behind `HttpxMockCardClient`, another process: its state, and how it answers.
pub record CardClient : Type 1 where
  pub State : Type 0
  pub approve : ApproveRequest → State → Result Approval × State
  pub verify : VerifyRequest → State → Result CardData × State

-- a call to another process
pub data Call : Type 0 where
  approve : ApproveRequest → Call
  verify : VerifyRequest → Call
  -- `send_card_registration_webhook`: order, billing key, last four digits
  webhook : String → String → String → Call

pub record Env : Type 1 where
  pub billing_keys : Table BillingKey
  pub transactions : Table PgTransaction
  pub card : CardClient
  -- `str(exc)` of SQLAlchemy's IntegrityError
  pub integrity_text : String

pub record IsLawful (E : Env) : Type 0 where
  pub billing_keys : IsTable E.billing_keys
  pub transactions : IsTable E.transactions

pub record State (E : Env) : Type 0 where
  pub billing_keys : E.billing_keys.State
  pub transactions : E.transactions.State
  pub card : E.card.State
  pub calls : List Call

module _ (E : Env) where
  unfoldable pub record_call : Call → Exec (State E) (Unit {0})
  record_call c s = (ok tt, record s { calls = s.calls ++ c ∷ [] })

  -- `HttpxMockCardClient.approve_payment`
  unfoldable pub approve_payment : ApproveRequest → Exec (State E) Approval
  approve_payment r s =
      let (answer, card) = E.card.approve r s.card in
      (answer, record s { card = card; calls = s.calls ++ approve r ∷ [] })

  -- `HttpxMockCardClient.verify_and_tokenize_card`
  unfoldable pub verify_and_tokenize_card : VerifyRequest → Exec (State E) CardData
  verify_and_tokenize_card r s =
      let (answer, card) = E.card.verify r s.card in
      (answer, record s { card = card; calls = s.calls ++ verify r ∷ [] })

  -- `str(exc)`
  abbrev pub text_of : Exception → String
  text_of (value_error t) = t
  text_of (lookup_error t) = t
  text_of (permission_error t) = t
  text_of (runtime_error t) = t
  text_of (other t) = t
  text_of integrity_error = E.integrity_text
