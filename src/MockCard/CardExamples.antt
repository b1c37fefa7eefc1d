-- ===== src/MockCard/CardExamples.antt =====
-- The theorem on the registration of a card at one card.
use car_pay_in.MockCard.Cards.{VerifyAndTokenizeCardCommand}
use car_pay_in.MockCard.Validator.{all_chars}
use car_pay_in.MockCard.Validator.{check_expiry}
use car_pay_in.MockCard.Tokenization.{get_by_user_and_encrypted_card}
use car_pay_in.MockCard.Validator.{has_slash}
use car_pay_in.MockCard.Validator.{int_of}
use car_pay_in.MockCard.Validator.{parse_expiry}
use car_pay_in.MockCard.Validator.{scan_digits}
use car_pay_in.MockCard.Validator.{signed_int}
use car_pay_in.MockCard.Validator.{split_first}
use car_pay_in.MockCard.Tokenization.{tokenized}
use car_pay_in.MockCard.Validator.{validate_card}
use car_pay_in.MockCard.Tokenization.{verify_and_tokenize_card}
use car_pay_in.MockCard.Tokenization.Tokenized.{verify_and_tokenize_card-IsPayable}
use car_pay_in.MockCard.Cards.{Drawn, Env, IsLawful, State}
use car_pay_in.Backend.Plates.{strip, lstrip, rstrip}
use Prim.Native.Char.{code}
use Prim.Native.Char.{Char}
use car_pay_in.MockCard.{ApproveCardPaymentCommand}
use car_pay_in.Base.{Option}
use car_pay_in.Base.{String}
use car_pay_in.Base.{[]}
use car_pay_in.MockCard.{approve_card_payment}
use car_pay_in.Exec.{err}
use car_pay_in.Base.{false}
use car_pay_in.Table.{first}
use car_pay_in.MockCard.{get_by_idempotency_key}
use car_pay_in.Base.{if◌then◌else◌}
use car_pay_in.Base.{is_some}
use car_pay_in.Base.{leb}
use car_pay_in.Table.Memory.{memory_table}
use car_pay_in.Table.Memory.{memory_table-IsTable}
use car_pay_in.Base.{nat_beq}
use car_pay_in.Base.{none}
use car_pay_in.Exec.{ok}
use car_pay_in.Exec.{other}
use car_pay_in.Integer.{pos}
use car_pay_in.Base.{refl}
use car_pay_in.Base.{some}
use car_pay_in.MockCard.{success}
use car_pay_in.Base.{true}
use car_pay_in.Base.{ℕ}
use car_pay_in.Base.{◌&&◌}
use car_pay_in.Base.{◌-◌}
use car_pay_in.Base.{◌<>◌}
use car_pay_in.Base.{◌≡◌}

abbrev plain_digit : Char → Option ℕ
plain_digit c = if leb b'0' (code c) && leb (code c) b'9' then some (code c - b'0') else none

abbrev env : Env
env = record {
  card = record { tokens = memory_table; txs = memory_table };
  users = memory_table;
  cards = memory_table;
  is_digit = λ c. is_some (plain_digit c);
  digit_value = plain_digit;
  is_space = λ c. nat_beq (code c) b' ';
  hmac = λ t. "hmac of " <> t;
  overflow_text = "signed_int integer is greater than maximum";
}

env-IsLawful : IsLawful env
env-IsLawful = record {
  card = record { tokens = memory_table-IsTable; txs = memory_table-IsTable };
  users = memory_table-IsTable;
  cards = memory_table-IsTable;
}

abbrev empty : State env
empty = record { card = record { tokens = []; txs = [] }; users = []; cards = [] }

abbrev drawn : ℕ → String → Drawn
drawn month token_hex = record {
  year = 2026;
  month = month;
  token_hex = token_hex;
  card_uuid = token_hex;
}

abbrev card_of : String → VerifyAndTokenizeCardCommand
card_of expiry = record {
  user_id = "order-1";
  card_number = "1234567812345678";
  expiry = expiry;
  cvc = "123";
}

abbrev payment : ApproveCardPaymentCommand
payment = record {
  card_token = "card-token-a";
  amount = pos 1000;
  currency = "KRW";
  idempotency_key = "key";
}

-- a card passes in the month of its expiry and not in the next, nor without a month
validate_card-test :
    (validate_card env (drawn 11 "a") (card_of "11/26") ≡ ok true)
    × (validate_card env (drawn 12 "a") (card_of "11/26") ≡ ok false)
    × (validate_card env (drawn 11 "a") (card_of "13/26") ≡ ok false)
    × (validate_card env (drawn 11 "a") (card_of "1126") ≡ ok false)
    × (validate_card env (drawn 11 "a") (card_of "1/9999999999")
        ≡ err (other "signed_int integer is greater than maximum"))
unfolding validate_card check_expiry parse_expiry int_of all_chars scan_digits signed_int has_slash
    split_first strip lstrip rstrip
validate_card-test = (refl, refl, refl, refl, refl)

verify_and_tokenize_card-IsPayable_example :
    (t : State env) × (verify_and_tokenize_card env (drawn 11 "a") (card_of "11/26") empty
      ≡ (ok (tokenized env (drawn 11 "a") (card_of "11/26") "card-token-a"), t))
    × (verify_and_tokenize_card env (drawn 11 "b") (card_of "11/26") t
        ≡ (ok (tokenized env (drawn 11 "a") (card_of "11/26") "card-token-a"), t))
    × ((approve_card_payment env.card
          (record { tx_hex = "0"; approval_hex = "1" })
          payment
          t.card).0
        ≡ ok (record { status = success; tx_id = "card-tx-0"; approval_no = some "CARD-1" }))
unfolding validate_card check_expiry parse_expiry int_of all_chars scan_digits signed_int has_slash
    split_first strip lstrip rstrip get_by_user_and_encrypted_card get_by_idempotency_key first
verify_and_tokenize_card-IsPayable_example =
    verify_and_tokenize_card-IsPayable env-IsLawful (drawn 11 "a") (card_of "11/26") empty
      (record {
        valid = refl;
        no_card = refl;
        unknown = refl;
        new_id = refl;
        unused = refl;
        fresh_token = refl;
      })
      (drawn 11 "b") refl (record { tx_hex = "0"; approval_hex = "1" }) payment 999 refl refl refl
      refl
