-- ===== src/MockCard/Examples.antt =====
-- The theorems on approvals at one card.
use car_pay_in.Base.{String, [], refl, some, ◌∷◌, ◌≡◌}
use car_pay_in.Exec.{err, integrity_error}
use car_pay_in.Integer.{pos}
use car_pay_in.MockCard.{
  ApproveCardPaymentCommand, Drawn, Env, IsLawful, State, active, approve_card_payment,
  get_by_idempotency_key, get_card_token, new_tx, success,
}
use car_pay_in.MockCard.Approvals.{Decided, approve-Decided, approve-Unstored}
use car_pay_in.Table.{first}
use car_pay_in.Table.Memory.{memory_table, memory_table-IsTable}

abbrev env : Env
env = record { tokens = memory_table; txs = memory_table }

env-IsLawful : IsLawful env
env-IsLawful = record { tokens = memory_table-IsTable; txs = memory_table-IsTable }

abbrev issued : State env
issued = record {
  tokens = record { card_token = "tok"; card_id = "card"; status = active } ∷ [];
  txs = [];
}

abbrev drawn : Drawn
drawn = record { tx_hex = "0123456789ab"; approval_hex = "01234567" }

abbrev request : String → ApproveCardPaymentCommand
request token = record {
  card_token = token;
  amount = pos 1000;
  currency = "KRW";
  idempotency_key = "key";
}

approve-Decided_example :
    (z : State env) × Decided env-IsLawful drawn
      (request "tok")
      issued
      999
      (new_tx env drawn (request "tok") 1000 success (some "CARD-01234567"))
      z
unfolding get_by_idempotency_key get_card_token first
approve-Decided_example =
    approve-Decided env-IsLawful drawn (request "tok") issued 999 refl refl refl refl

approve-Unstored_example :
    approve_card_payment env drawn (request "other") issued ≡ (err integrity_error, issued)
unfolding get_by_idempotency_key get_card_token first
approve-Unstored_example =
    approve-Unstored env-IsLawful drawn (request "other") issued 999 refl refl refl
