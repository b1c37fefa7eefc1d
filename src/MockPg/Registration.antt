-- ===== src/MockPg/Registration.antt =====
-- services/mock-pg/app/application/pg/complete_card_registration.py.
pub mod Registered
pub mod LastFour
use car_pay_in.Base.{
  Bool, List, Option, [], if◌then◌else◌, leb, length, none, some, suc, zero, ℕ, ◌&&◌, ◌++◌, ◌-◌,
  ◌<>◌, ◌∷◌,
}
use car_pay_in.Exec.{Exec, Result, catch, gets, lift, pure, ◌>>=◌, ◌>>◌}
use car_pay_in.MockPg.{
  BillingKey, CardData, Env, State, record_call, verify_and_tokenize_card, webhook,
}
use car_pay_in.MockPg.Repositories.{get_by_order_id, save_billing_key}
use Prim.Native.Char.{Char, code}
use Prim.Native.String.{String}

pub record CompleteCardRegistrationCommand : Type 0 where
  pub order_id : String
  pub card_number : String
  pub expiry : String
  pub cvc : String

pub data RegistrationStatus : Type 0 where
  success failed : RegistrationStatus

pub record CompleteCardRegistrationResult : Type 0 where
  pub status : RegistrationStatus
  pub billing_key : Option String

-- `ch in "0123456789"`
abbrev pub is_digit : Char → Bool
is_digit c = leb b'0' (code c) && leb (code c) b'9'

-- the digits of a text, in order
unfoldable pub digits_of : String → List Char
digits_of String.[] = []
digits_of (String.◌∷◌ c t) = let rest = digits_of t in if is_digit c then c ∷ rest else rest

unfoldable pub drop : {A : Type 0} → ℕ → List A → List A
drop zero xs = xs
drop (suc n) [] = []
drop (suc n) (_ ∷ xs) = drop n xs

-- `digits[-4:]`
unfoldable pub last_four_of : List Char → List Char
last_four_of ds = drop (length ds - 4) ds

unfoldable pub zeros : ℕ → List Char
zeros zero = []
zeros (suc n) = "0" ∷ zeros n

-- `rjust(4, "0")`
unfoldable pub rjust4 : List Char → List Char
rjust4 ds = zeros (4 - length ds) ++ ds

abbrev pub from_chars : List Char → String
from_chars [] = String.[]
from_chars (c ∷ cs) = String.◌∷◌ c (from_chars cs)

-- the two cases of the conditional expression
unfoldable pub four_of : List Char → List Char
four_of [] = rjust4 (zeros 4)
four_of (d ∷ ds) = rjust4 (last_four_of (d ∷ ds))

unfoldable pub last_four_or_default : String → String
last_four_or_default card_number = from_chars (four_of (digits_of card_number))

-- the texts of `uuid.uuid4().hex[:12]`, and how the call of the webhook ends
pub record Outcome : Type 0 where
  pub token_hex : String
  pub key_hex : String
  pub webhook : Result (Unit {0})

module _ (E : Env) (allow_local_fallback : Bool) (out : Outcome)
    (c : CompleteCardRegistrationCommand) where
  unfoldable pub send_card_registration_webhook : String → String → Exec (State E) (Unit {0})
  send_card_registration_webhook billing_key last_four = do
    record_call E (webhook c.order_id billing_key last_four)
    lift out.webhook

  abbrev pub succeeded : String → CompleteCardRegistrationResult
  succeeded billing_key = record { status = success; billing_key = some billing_key }

  abbrev pub local_card : CardData
  local_card = record {
    card_token = "local-card-token-" <> out.token_hex;
    last_four = last_four_or_default c.card_number;
  }

  unfoldable pub save_card : CardData → Exec (State E) CompleteCardRegistrationResult
  save_card card_data = do
    let billing_key = "bk-" <> out.key_hex
    save_billing_key E c.order_id billing_key card_data.card_token card_data.last_four
    catch (send_card_registration_webhook billing_key card_data.last_four) (λ _. pure tt)
    pure (succeeded billing_key)

  -- the card's data, `none` where the registration has failed
  unfoldable pub verify_card : Exec (State E) (Option CardData)
  verify_card =
      catch
        (do
          card_data ← verify_and_tokenize_card E (record {
            user_id = c.order_id;
            card_number = c.card_number;
            expiry = c.expiry;
            cvc = c.cvc;
          })
          pure (some card_data))
        (λ _. pure (if allow_local_fallback then some local_card else none))

  unfoldable pub save_verified : Option CardData → Exec (State E) CompleteCardRegistrationResult
  save_verified none = pure (record { status = failed; billing_key = none })
  save_verified (some card_data) = save_card card_data

  unfoldable pub register_once : Option BillingKey → Exec (State E) CompleteCardRegistrationResult
  register_once (some existing) = do
    send_card_registration_webhook existing.billing_key existing.card_last_four
    pure (succeeded existing.billing_key)
  register_once none = do card_data ← verify_card; save_verified card_data

  unfoldable pub complete_card_registration : Exec (State E) CompleteCardRegistrationResult
  complete_card_registration = do
    existing ← gets (get_by_order_id E c.order_id)
    register_once existing
