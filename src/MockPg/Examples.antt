-- ===== src/MockPg/Examples.antt =====
-- The theorems on the mock PG at one order, one billing key and one charge.
use car_pay_in.Base.{
  List, String, [], arith, false, map_option, none, some, suc, zero, ℕ, ◌∷◌, ◌≡◌, ◌≤◌,
}
use car_pay_in.Exec.{Result, catch, err, ok, runtime_error, ◌>>=◌}
use car_pay_in.Integer.{pos}
use car_pay_in.MockPg.{
  CardData, Env, IsLawful, State, VerifyRequest, approve_payment, failed, success, tx_fits,
}
use car_pay_in.MockPg.Charge.{
  ChargeBillingKeyCommand, abort, accept, ask_card, charge_active, charge_billing_key, charge_known,
  charge_once, create, decline, result_of, settle,
}
use car_pay_in.MockPg.Charge.Ledger.{Refines, charge_billing_key-Refines}
use car_pay_in.MockPg.Charge.OneApproval.{
  Charges, charges-one_approval, is_approval, no_charge, then_charge,
}
use car_pay_in.MockPg.Registration.{
  CompleteCardRegistrationCommand, Outcome, from_chars, last_four_or_default,
}
use car_pay_in.MockPg.Registration.LastFour.{AreFourDigits, last_four-AreFourDigits}
use car_pay_in.MockPg.Registration.Registered.{IsRegistered, complete-IsRegistered, key_of}
use car_pay_in.MockPg.Repositories.{
  add_transaction, change_transaction, create_transaction, get_billing_key, get_by_idempotency_key,
  get_by_order_id, store_transaction, update_transaction_status,
}
use car_pay_in.MockPg.Settlement.{Delivery, answer_lost, delivered, pg_env}
use car_pay_in.MockPg.Settlement.Agreed.{charges-Agree}
use car_pay_in.MockPg.Settlement.Agreement.{Agree}
use car_pay_in.Table.{amend, first, tally}
use car_pay_in.Table.Memory.{memory_table, memory_table-IsTable}
use Prim.Native.Char.{Char}
use mathlib.Core.Path.{refl}
use car_pay_in.MockCard

abbrev cards : MockCard.Env
cards = record { tokens = memory_table; txs = memory_table }

cards-IsLawful : MockCard.IsLawful cards
cards-IsLawful = record { tokens = memory_table-IsTable; txs = memory_table-IsTable }

abbrev drawn : ℕ → MockCard.Drawn
drawn zero = record { tx_hex = "0123456789ab"; approval_hex = "01234567" }
drawn (suc _) = record { tx_hex = "ba9876543210"; approval_hex = "76543210" }

abbrev delivery : ℕ → Delivery
delivery zero = delivered
delivery (suc _) = answer_lost

abbrev tokenize : VerifyRequest → MockCard.State cards → Result CardData × MockCard.State cards
tokenize r u = (ok (record { card_token = "tok"; last_four = "3456" }), u)

abbrev pg : Env
pg = pg_env cards drawn delivery tokenize memory_table memory_table "IntegrityError"

pg-IsLawful : IsLawful pg
pg-IsLawful = record { billing_keys = memory_table-IsTable; transactions = memory_table-IsTable }

abbrev start : State pg
start = record {
  billing_keys = [];
  transactions = [];
  card = (
    record {
      tokens = record { card_token = "tok"; card_id = "card"; status = MockCard.active } ∷ [];
      txs = [];
    },
    0,
  );
  calls = [];
}

abbrev registration : CompleteCardRegistrationCommand
registration = record {
  order_id = "order-1";
  card_number = "1234567890123456";
  expiry = "12/30";
  cvc = "123";
}

abbrev outcome : Outcome
outcome = record {
  token_hex = "000000000000";
  key_hex = "abcdef012345";
  webhook = err (runtime_error "carpayin_card_webhook_failed");
}

complete-IsRegistered_example :
    (t : State pg) × IsRegistered pg-IsLawful false outcome registration start
      (record { card_token = "tok"; last_four = "3456" })
      t
unfolding get_by_order_id get_billing_key first
complete-IsRegistered_example =
    complete-IsRegistered pg-IsLawful false outcome registration start
      (record { card_token = "tok"; last_four = "3456" }) _ refl refl refl

last_four-AreFourDigits_example :
    (cs : List Char) × (last_four_or_default "12-34 5" ≡ from_chars cs) × AreFourDigits cs
last_four-AreFourDigits_example = last_four-AreFourDigits "12-34 5"

abbrev with_key : State pg
with_key = record start {
  billing_keys =
      key_of outcome registration (record { card_token = "tok"; last_four = "3456" }) ∷ [];
}

abbrev charge : String → ChargeBillingKeyCommand
charge key = record {
  billing_key = "bk-abcdef012345";
  amount = pos 5000;
  currency = "KRW";
  idempotency_key = key;
}

charge_billing_key-Refines_example :
    Refines pg "k1" with_key (charge_billing_key pg "0123456789ab" (charge "k1") with_key)
charge_billing_key-Refines_example =
    charge_billing_key-Refines pg-IsLawful "0123456789ab" (charge "k1") with_key

-- a charge, the same again, and one whose answer is lost
abbrev two_charges :
    Charges with_key
      (charge_billing_key pg "cccccccccccc"
        (charge "k2")
        (charge_billing_key pg "bbbbbbbbbbbb"
          (charge "k1")
          (charge_billing_key pg "aaaaaaaaaaaa" (charge "k1") with_key).1).1).1
two_charges =
    then_charge "cccccccccccc" (charge "k2") (
      then_charge "bbbbbbbbbbbb" (charge "k1") (then_charge "aaaaaaaaaaaa" (charge "k1") no_charge))

abbrev after_charges : State pg
after_charges =
    (charge_billing_key pg "cccccccccccc" (charge "k2")
      (charge_billing_key pg "bbbbbbbbbbbb" (charge "k1")
        (charge_billing_key pg "aaaaaaaaaaaa" (charge "k1") with_key).1).1).1

charges-one_approval_example : tally (is_approval "k1") after_charges.calls ≤ 1
charges-one_approval_example = charges-one_approval pg-IsLawful refl two_charges "k1"

nothing-Agree :
    Agree
      (λ k. get_by_idempotency_key pg k with_key)
      (λ k. MockCard.get_by_idempotency_key cards k with_key.card.0)
unfolding get_by_idempotency_key MockCard.get_by_idempotency_key first
nothing-Agree = record {
  backed = λ k y taken. absurd (ground (arith, taken));
  paid = λ k x stored succeeded. absurd (ground (arith, stored));
}

charges-Agree_example :
    Agree
      (λ k. get_by_idempotency_key pg k after_charges)
      (λ k. MockCard.get_by_idempotency_key cards k after_charges.card.0)
charges-Agree_example =
    charges-Agree cards-IsLawful drawn delivery tokenize memory_table memory_table "IntegrityError"
      pg-IsLawful two_charges nothing-Agree

-- the first two are answered alike, and for the third the card company has taken the money of a
-- charge that the PG holds to have failed
answers :
    (map_option result_of (get_by_idempotency_key pg "k1" after_charges)
      ≡ some (record {
        status = success;
        tx_id = "tx-aaaaaaaaaaaa";
        approval_no = some "CARD-01234567";
      }))
    × (map_option result_of (get_by_idempotency_key pg "k2" after_charges)
        ≡ some (record { status = failed; tx_id = "tx-cccccccccccc"; approval_no = none }))
    × (map_option MockCard.result_of
          (MockCard.get_by_idempotency_key cards "k2" after_charges.card.0)
        ≡ some (record {
          status = MockCard.success;
          tx_id = "card-tx-ba9876543210";
          approval_no = some "CARD-76543210";
        }))
unfolding charge_billing_key charge_once charge_known charge_active create create_transaction
    add_transaction store_transaction tx_fits get_billing_key ask_card approve_payment settle accept
    decline abort update_transaction_status change_transaction get_by_idempotency_key first amend
    catch ◌>>=◌ MockCard.approve_card_payment MockCard.approve_once MockCard.approve_amount
    MockCard.store_decision MockCard.create_transaction MockCard.add_transaction MockCard.tx_fits
    MockCard.get_card_token MockCard.get_by_idempotency_key
answers = (refl, refl, refl)
