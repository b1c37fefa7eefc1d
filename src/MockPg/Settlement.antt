-- ===== src/MockPg/Settlement.antt =====
-- services/mock-pg and services/mock-card together: the charges that the PG takes, with the
-- approvals that it asks the card company for.
pub mod Agreement
pub mod Agreed
pub mod Decisions
use car_pay_in.Base.{String, some, suc, ℕ}
use car_pay_in.Exec.{Result, err, ok, runtime_error}
use car_pay_in.MockPg.{
  Approval, ApproveRequest, BillingKey, CardClient, CardData, Env, PgTransaction, State,
  VerifyRequest,
}
use car_pay_in.Table.{Table}
use car_pay_in.MockCard

-- how the HTTP call of an approval goes
pub data Delivery : Type 0 where
  delivered : Delivery
  -- the card company has done its work, and the answer is lost
  answer_lost : Delivery
  request_lost : Delivery

abbrev pub status_text : MockCard.TxStatus → String
status_text MockCard.success = "success"
status_text MockCard.failed = "failed"
status_text MockCard.cancelled = "cancelled"

-- the JSON of `CardChargeResponse`
abbrev pub approval_of : MockCard.ApproveCardPaymentResult → Approval
approval_of r = record {
  status = some (status_text r.status);
  tx_id = some r.tx_id;
  approval_no = some r.approval_no;
}

-- what the PG's client makes of the answer to `POST /cards/charge`
abbrev pub heard : Result MockCard.ApproveCardPaymentResult → Result Approval
heard (ok r) = ok (approval_of r)
heard (err e) = err (runtime_error "mock_card_charge_failed")

abbrev pub command_of : ApproveRequest → MockCard.ApproveCardPaymentCommand
command_of r = record {
  card_token = r.card_token;
  amount = r.amount;
  currency = r.currency;
  idempotency_key = r.idempotency_key;
}

-- the PG's tables, and what is left open of the card company: the ids that it draws and how the
-- calls go, one after the other, and its verification of cards
module _ (C : MockCard.Env) (drawn : ℕ → MockCard.Drawn) (delivery : ℕ → Delivery)
    (verify : VerifyRequest → MockCard.State C → Result CardData × MockCard.State C) where
  abbrev pub approve_by :
      ℕ → Delivery → ApproveRequest → MockCard.State C → Result Approval × MockCard.State C
  approve_by n delivered r u =
      let (a, v) = MockCard.approve_card_payment C (drawn n) (command_of r) u in (heard a, v)
  approve_by n answer_lost r u =
      let (a, v) = MockCard.approve_card_payment C (drawn n) (command_of r) u in
      (err (runtime_error "mock_card_charge_failed"), v)
  approve_by n request_lost r u = (err (runtime_error "mock_card_charge_failed"), u)

  -- the card company as the PG's client meets it, with the number of the next call
  abbrev pub card_company : CardClient
  card_company = record {
    State = MockCard.State C × ℕ;
    approve = λ r (u, n). let (a, v) = approve_by n (delivery n) r u in (a, (v, suc n));
    verify = λ r (u, n). let (a, v) = verify r u in (a, (v, n));
  }

  abbrev pub pg_env : Table BillingKey → Table PgTransaction → String → Env
  pg_env keys transactions text = record {
    billing_keys = keys;
    transactions = transactions;
    card = card_company;
    integrity_text = text;
  }
