-- ===== src/MockCard.antt =====
-- services/mock-card: app/application/card/approve_card_payment.py, with the rows of
-- app/infra/db/models.py and the repository methods that it calls.
pub mod Approvals
pub mod Approved
pub mod Cards
pub mod Tokenization
pub mod Validator
mod CardExamples
mod Examples
use car_pay_in.Base.{
  Bool, List, Option, String, false, if◌then◌else◌, is_some, none, not, some, suc, true, zero, ℕ,
  ◌&&◌, ◌<>◌, ◌==◌,
}
use car_pay_in.Exec.{
  Exec, gets, integrity_error, modify, pure, raise, raise_if, value_error, ◌>>=◌, ◌>>◌,
}
use car_pay_in.Integer.{negsuc, pos, ℤ}
use car_pay_in.Table.{IsTable, Table, first}

pub data TokenStatus : Type 0 where
  active inactive : TokenStatus

abbrev pub is_active : TokenStatus → Bool
is_active active = true
is_active inactive = false

pub record CardToken : Type 0 where
  pub card_token : String
  pub card_id : String
  pub status : TokenStatus

pub data TxStatus : Type 0 where
  success failed cancelled : TxStatus

pub record Tx : Type 0 where
  pub tx_id : String
  pub card_token : String
  pub amount : ℕ
  pub currency : String
  pub approval_no : Option String
  pub status : TxStatus
  pub idempotency_key : String

abbrev pub has_token : String → CardToken → Bool
has_token t r = r.card_token == t

abbrev pub has_tx_id : String → Tx → Bool
has_tx_id i r = r.tx_id == i

abbrev pub has_key : String → Tx → Bool
has_key k r = r.idempotency_key == k

-- The primary key of a new transaction, its foreign key, and its unique key.
unfoldable pub tx_fits : List CardToken → List Tx → Tx → Bool
tx_fits tokens rows r =
    is_some (first (has_token r.card_token) tokens)
    && not (is_some (first (has_tx_id r.tx_id) rows))
    && not (is_some (first (has_key r.idempotency_key) rows))

pub record Env : Type 1 where
  pub tokens : Table CardToken
  pub txs : Table Tx

pub record IsLawful (E : Env) : Type 0 where
  pub tokens : IsTable E.tokens
  pub txs : IsTable E.txs

pub record State (E : Env) : Type 0 where
  pub tokens : E.tokens.State
  pub txs : E.txs.State

pub record ApproveCardPaymentCommand : Type 0 where
  pub card_token : String
  pub amount : ℤ
  pub currency : String
  pub idempotency_key : String

pub record ApproveCardPaymentResult : Type 0 where
  pub status : TxStatus
  pub tx_id : String
  pub approval_no : Option String

-- the texts of `uuid4().hex[:12]` and of `uuid4().hex[:8].upper()`
pub record Drawn : Type 0 where
  pub tx_hex : String
  pub approval_hex : String

abbrev pub result_of : Tx → ApproveCardPaymentResult
result_of x = record { status = x.status; tx_id = x.tx_id; approval_no = x.approval_no }

module _ (E : Env) where
  unfoldable pub get_card_token : String → State E → Option CardToken
  get_card_token t s = E.tokens.scalar (has_token t) s.tokens

  unfoldable pub get_by_idempotency_key : String → State E → Option Tx
  get_by_idempotency_key k s = E.txs.scalar (has_key k) s.txs

  unfoldable pub add_transaction : Tx → Option Tx → Exec (State E) Tx
  add_transaction x (some existing) = pure existing
  add_transaction x none = do
    fits ← gets (λ s. tx_fits (E.tokens.rows s.tokens) (E.txs.rows s.txs) x)
    raise_if (not fits) integrity_error
    modify (λ s. record s { txs = E.txs.insert x s.txs })
    pure x

  unfoldable pub create_transaction : Tx → Exec (State E) Tx
  create_transaction x = do
    existing ← gets (get_by_idempotency_key x.idempotency_key)
    add_transaction x existing

  module _ (drawn : Drawn) (c : ApproveCardPaymentCommand) where
    abbrev pub new_tx : ℕ → TxStatus → Option String → Tx
    new_tx amount status approval_no = record {
      tx_id = "card-tx-" <> drawn.tx_hex;
      card_token = c.card_token;
      amount = amount;
      currency = c.currency;
      approval_no = approval_no;
      status = status;
      idempotency_key = c.idempotency_key;
    }

    -- a token that is missing or inactive fails the payment
    abbrev pub decide : ℕ → Option CardToken → Tx
    decide amount none = new_tx amount failed none
    decide amount (some token) =
        if is_active token.status
        then new_tx amount success (some ("CARD-" <> drawn.approval_hex))
        else new_tx amount failed none

    unfoldable pub store_decision : Tx → Exec (State E) ApproveCardPaymentResult
    store_decision x = do create_transaction x; pure (result_of x)

    unfoldable pub approve_amount : ℤ → Exec (State E) ApproveCardPaymentResult
    approve_amount (negsuc _) = raise (value_error "invalid_amount")
    approve_amount (pos zero) = raise (value_error "invalid_amount")
    approve_amount (pos (suc n)) = do
      card_token_data ← gets (get_card_token c.card_token)
      store_decision (decide (suc n) card_token_data)

    unfoldable pub approve_once : Option Tx → Exec (State E) ApproveCardPaymentResult
    approve_once (some existing_tx) = pure (result_of existing_tx)
    approve_once none = approve_amount c.amount

    unfoldable pub approve_card_payment : Exec (State E) ApproveCardPaymentResult
    approve_card_payment = do
      existing_tx ← gets (get_by_idempotency_key c.idempotency_key)
      approve_once existing_tx
