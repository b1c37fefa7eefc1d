-- ===== src/MockPg/Charge/Ends.antt =====
-- Every way in which a charge of a billing key ends.
use car_pay_in.Base.{
  Option, String, [], false, if◌then◌else◌, none, some, true, ◌++◌, ◌<>◌, ◌==◌, ◌∷◌, ◌≡◌,
}
use car_pay_in.Exec.{Result, err, integrity_error, ok}
use car_pay_in.MockPg.{
  Approval, BillingKey, Env, PgTransaction, State, TxStatus, approve, failed, is_active, pending,
  success, text_of, tx_fits,
}
use car_pay_in.MockPg.Charge.{
  ChargeBillingKeyCommand, ChargeBillingKeyResult, failed_result, request_for, result_of,
  status_or_success,
}
use car_pay_in.MockPg.Repositories.{
  change_transaction, get_billing_key, get_by_idempotency_key, new_transaction, with_status,
}

-- what the answer of the card company makes of a pending transaction
abbrev pub numbered : Option String → Option (Option String) → PgTransaction → PgTransaction
numbered card_tx_id none x = with_status failed none none (some "'approval_no'") x
numbered card_tx_id (some approval_no) x = with_status success approval_no card_tx_id none x

abbrev pub transaction_of :
    String → ChargeBillingKeyCommand → BillingKey → TxStatus → Option String → PgTransaction
transaction_of tx_hex c b status reason =
    new_transaction ("tx-" <> tx_hex) c.idempotency_key b c.amount c.currency status reason

module _ (E : Env) where
  unfoldable pub decided : Result Approval → PgTransaction → PgTransaction
  decided (err e) x = with_status failed none none (some (text_of E e)) x
  decided (ok a) x =
      if status_or_success a.status == "success"
      then numbered a.tx_id a.approval_no x
      else with_status failed none a.tx_id (some "card_payment_failed") x

  abbrev pub inserted : PgTransaction → State E → State E
  inserted x s = record s { transactions = E.transactions.insert x s.transactions }

  module _ (tx_hex : String) (c : ChargeBillingKeyCommand) where
    abbrev pub answer_at : BillingKey → State E → Result Approval
    answer_at b s = (E.card.approve (request_for c b.card_token) s.card).0

    -- the state after the card company has been asked
    abbrev pub called : BillingKey → State E → State E
    called b s = record s {
      card = (E.card.approve (request_for c b.card_token) s.card).1;
      calls = s.calls ++ approve (request_for c b.card_token) ∷ [];
    }

    abbrev pub asked_state : BillingKey → State E → State E
    asked_state b s =
        change_transaction E c.idempotency_key (decided (answer_at b s))
          (called b (inserted (transaction_of tx_hex c b pending none) s))

    -- the ends of `charge_billing_key` from a state
    pub data Run (s : State E) : Result ChargeBillingKeyResult × State E → Type 0 where
      repeated :
          (x : PgTransaction)
          → get_by_idempotency_key E c.idempotency_key s ≡ some x
          → Run s (ok (result_of x), s)
      unknown :
          get_by_idempotency_key E c.idempotency_key s ≡ none
          → get_billing_key E c.billing_key s ≡ none
          → Run s (ok (failed_result E tx_hex c), s)
      clash :
          (b : BillingKey) (status : TxStatus) (reason : Option String)
          → get_by_idempotency_key E c.idempotency_key s ≡ none
          → tx_fits (E.transactions.rows s.transactions) (transaction_of tx_hex c b status reason)
            ≡ false
          → Run s (err integrity_error, s)
      unusable :
          (b : BillingKey)
          → get_by_idempotency_key E c.idempotency_key s ≡ none
          → get_billing_key E c.billing_key s ≡ some b
          → is_active b.status ≡ false
          → tx_fits
              (E.transactions.rows s.transactions)
              (transaction_of tx_hex c b failed (some "inactive_billing_key"))
            ≡ true
          → Run s (
            ok (result_of (transaction_of tx_hex c b failed (some "inactive_billing_key"))),
            inserted (transaction_of tx_hex c b failed (some "inactive_billing_key")) s,
          )
      asked :
          (b : BillingKey)
          → get_by_idempotency_key E c.idempotency_key s ≡ none
          → get_billing_key E c.billing_key s ≡ some b
          → is_active b.status ≡ true
          → tx_fits (E.transactions.rows s.transactions) (transaction_of tx_hex c b pending none)
            ≡ true
          → Run s (
            ok (result_of (decided (answer_at b s) (transaction_of tx_hex c b pending none))),
            asked_state b s,
          )
