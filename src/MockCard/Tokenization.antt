-- ===== src/MockCard/Tokenization.antt =====
-- services/mock-card: app/application/card/verify_and_tokenize_card.py, MockCardEncryptor of
-- app/infra/security/card_security.py, and the methods of app/infra/repositories/card_repository.py
-- that the service calls.
pub mod Saved
pub mod Tokenized
use car_pay_in.MockPg.Registration.{last_four_of}
use car_pay_in.MockPg.Registration.{from_chars}
use car_pay_in.Backend.Plates.{chars}
use car_pay_in.MockCard.Cards.{Card}
use car_pay_in.MockCard.{CardToken}
use car_pay_in.Exec.{Exec}
use car_pay_in.Base.{Option}
use car_pay_in.Base.{String}
use car_pay_in.MockCard.Cards.{User}
use car_pay_in.MockCard.Cards.{VerifyAndTokenizeCardCommand}
use car_pay_in.MockCard.Cards.{VerifyAndTokenizeCardResult}
use car_pay_in.MockCard.{active}
use car_pay_in.MockCard.Cards.{card_active}
use car_pay_in.MockCard.Cards.{card_fits}
use car_pay_in.MockCard.Validator.{full_year}
use car_pay_in.Exec.{gets}
use car_pay_in.MockCard.Cards.{has_card_id}
use car_pay_in.MockCard.{has_token}
use car_pay_in.MockCard.Cards.{has_user}
use car_pay_in.Exec.{integrity_error}
use car_pay_in.MockCard.Cards.{is_card_of}
use car_pay_in.Base.{is_some}
use car_pay_in.Exec.{lift}
use car_pay_in.Exec.{modify}
use car_pay_in.MockCard.Validator.{month_of}
use car_pay_in.Base.{none}
use car_pay_in.Base.{not}
use car_pay_in.Exec.{or_raise}
use car_pay_in.MockCard.Validator.{parse_expiry}
use car_pay_in.Exec.{pure}
use car_pay_in.Exec.{raise_if}
use car_pay_in.Base.{some}
use car_pay_in.MockCard.Validator.{validate_card}
use car_pay_in.Exec.{value_error}
use car_pay_in.Integer.{ℤ}
use car_pay_in.Base.{◌&&◌}
use car_pay_in.Base.{◌<>◌}
use car_pay_in.Exec.{◌>>=◌}
use car_pay_in.Exec.{◌>>◌}
use car_pay_in.MockCard.Cards.{Drawn, Env, State}

module _ (E : Env) where
  abbrev pub encrypt_card_number : String → String
  encrypt_card_number card_number = E.hmac ("card-number:" <> card_number)

  abbrev pub hash_cvc : String → String
  hash_cvc cvc = E.hmac ("cvc:" <> cvc)

  -- the first token of a card of the user with the number
  unfoldable pub get_by_user_and_encrypted_card : String → String → State E → Option CardToken
  get_by_user_and_encrypted_card user_id encrypted s =
      E.card.tokens.scalar
        (λ token. is_some (
          E.cards.scalar
            (λ card. is_card_of user_id encrypted card && has_card_id token.card_id card) s.cards))
        s.card.tokens

  unfoldable pub add_user : String → Option User → Exec (State E) (Unit {0})
  add_user user_id (some user) = pure tt
  add_user user_id none =
      modify
        (λ s. record s { users = E.users.insert (record { user_id = user_id; name = "" }) s.users })

  unfoldable pub get_or_create_user : String → Exec (State E) (Unit {0})
  get_or_create_user user_id = do
    user ← gets (λ s. E.users.scalar (has_user user_id) s.users)
    add_user user_id user

  -- the card's row, added and flushed where it is new
  unfoldable pub flush_card : Card → Option Card → Exec (State E) Card
  flush_card new (some card) = pure card
  flush_card new none = do
    fits ← gets (λ s. card_fits (E.users.rows s.users) (E.cards.rows s.cards) new)
    raise_if (not fits) integrity_error
    modify (λ s. record s { cards = E.cards.insert new s.cards })
    pure new

  -- No constraint can refuse the token: its card is there, and it is not.
  unfoldable pub add_token : CardToken → Option CardToken → Exec (State E) (Unit {0})
  add_token new (some token) = pure tt
  add_token new none =
      modify
        (λ s. record s { card = record s.card { tokens = E.card.tokens.insert new s.card.tokens } })

  abbrev pub new_token : String → Card → CardToken
  new_token card_token card = record {
    card_token = card_token;
    card_id = card.card_id;
    status = active;
  }

  unfoldable pub save_card_with_token : Card → String → Exec (State E) (Unit {0})
  save_card_with_token new card_token = do
    found ← gets (λ s. E.cards.scalar (is_card_of new.user_id new.encrypted_card_num) s.cards)
    card ← flush_card new found
    token ← gets (λ s. E.card.tokens.scalar (has_token card_token) s.card.tokens)
    add_token (new_token card_token card) token

  module _ (drawn : Drawn) (c : VerifyAndTokenizeCardCommand) where
    abbrev pub tokenized : String → VerifyAndTokenizeCardResult
    tokenized card_token = record {
      card_token = card_token;
      last_four = from_chars (last_four_of (chars c.card_number));
    }

    abbrev pub new_card : ℤ × ℤ → Card
    new_card (month, year) = record {
      card_id = drawn.card_uuid;
      user_id = c.user_id;
      encrypted_card_num = encrypt_card_number c.card_number;
      cvc_hmac = hash_cvc c.cvc;
      exp_month = month_of month;
      exp_year = full_year year;
      status = card_active;
    }

    unfoldable pub tokenize_once : Option CardToken → Exec (State E) VerifyAndTokenizeCardResult
    tokenize_once (some existing) = pure (tokenized existing.card_token)
    tokenize_once none = do
      expiry ← or_raise (parse_expiry E c.expiry) (value_error "invalid expiry")
      let card_token = "card-token-" <> drawn.token_hex
      get_or_create_user c.user_id
      save_card_with_token (new_card expiry) card_token
      pure (tokenized card_token)

    unfoldable pub verify_and_tokenize_card : Exec (State E) VerifyAndTokenizeCardResult
    verify_and_tokenize_card = do
      valid ← lift (validate_card E drawn c)
      raise_if (not valid) (value_error "invalid_card")
      existing ← gets (get_by_user_and_encrypted_card c.user_id (encrypt_card_number c.card_number))
      tokenize_once existing
