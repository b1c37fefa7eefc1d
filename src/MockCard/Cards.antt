-- ===== src/MockCard/Cards.antt =====
-- services/mock-card: the rows of users and cards of app/infra/db/models.py, and what
-- app/application/card/verify_and_tokenize_card.py is given.
use Prim.Native.Char.{Char}
use car_pay_in.Base.{Bool}
use car_pay_in.Table.{IsTable}
use car_pay_in.Base.{List}
use car_pay_in.Base.{Option}
use car_pay_in.Base.{String}
use car_pay_in.Table.{Table}
use car_pay_in.Table.{first}
use car_pay_in.Base.{is_some}
use car_pay_in.Base.{leb}
use car_pay_in.Base.{not}
use car_pay_in.Base.{ℕ}
use car_pay_in.Base.{◌&&◌}
use car_pay_in.Base.{◌==◌}

pub record User : Type 0 where
  pub user_id : String
  pub name : String

pub data CardStatus : Type 0 where
  card_active card_inactive card_expired : CardStatus

pub record Card : Type 0 where
  pub card_id : String
  pub user_id : String
  pub encrypted_card_num : String
  pub cvc_hmac : String
  pub exp_month : ℕ
  pub exp_year : ℕ
  pub status : CardStatus

abbrev pub has_user : String → User → Bool
has_user u r = r.user_id == u

abbrev pub has_card_id : String → Card → Bool
has_card_id i r = r.card_id == i

abbrev pub is_card_of : String → String → Card → Bool
is_card_of u n r = (r.user_id == u) && (r.encrypted_card_num == n)

-- The foreign key of a new card, its primary key, its unique key, and the check of its month.
unfoldable pub card_fits : List User → List Card → Card → Bool
card_fits users rows r =
    is_some (first (has_user r.user_id) users)
    && not (is_some (first (has_card_id r.card_id) rows))
    && not (is_some (first (is_card_of r.user_id r.encrypted_card_num) rows))
    && leb 1 r.exp_month
    && leb r.exp_month 12

-- the tables, the characters that `str.isdigit`, `int` and `str.strip` know, and the keyed digest
-- `hmac.new(secret, text, sha256).hexdigest()`
pub record Env : Type 1 where
  pub card : car_pay_in.MockCard.Env
  pub users : Table User
  pub cards : Table Card
  pub is_digit : Char → Bool
  pub digit_value : Char → Option ℕ
  pub is_space : Char → Bool
  pub hmac : String → String
  -- `str(exc)` of the OverflowError that `datetime` raises
  pub overflow_text : String

pub record IsLawful (E : Env) : Type 0 where
  pub card : car_pay_in.MockCard.IsLawful E.card
  pub users : IsTable E.users
  pub cards : IsTable E.cards

pub record State (E : Env) : Type 0 where
  pub card : car_pay_in.MockCard.State E.card
  pub users : E.users.State
  pub cards : E.cards.State

pub record VerifyAndTokenizeCardCommand : Type 0 where
  pub user_id : String
  pub card_number : String
  pub expiry : String
  pub cvc : String

pub record VerifyAndTokenizeCardResult : Type 0 where
  pub card_token : String
  pub last_four : String

-- the year and month of `datetime.now`, the text of `uuid.uuid4().hex[:12]`, and a new card's id
pub record Drawn : Type 0 where
  pub year : ℕ
  pub month : ℕ
  pub token_hex : String
  pub card_uuid : String
