-- ===== src/Backend/Cards.antt =====
-- services/carpayin-backend/app/application/card: create_card_order.py and handle_card_webhook.py,
-- with the card order store of app/infra/redis/stores.py.
pub mod Ordered
pub mod Registered
pub mod Repeated
use car_pay_in.Backend.Accounts.{CardOrder, complete, is_ordered, ordered}
use car_pay_in.Backend.Env.{Env, State, create_url, record_call, verify_owner}
use car_pay_in.Backend.Plates.{is_last_four, is_plate, normalize_plate}
use car_pay_in.Backend.Signature.{Crypto, verify}
use car_pay_in.Backend.Vehicles.{exists, exists_by_car_id, update_plate, upsert}
use car_pay_in.Base.{
  Bool, Option, String, if◌then◌else◌, none, not, some, suc, zero, ℕ, ◌*◌, ◌<>◌, ◌==◌,
}
use car_pay_in.Exec.{
  Exec, Result, gets, lift, modify, pure, raise, raise_if, value_error, ◌>>=◌, ◌>>◌,
}

abbrev pub card_order_ttl_seconds : ℕ
card_order_ttl_seconds = 30 * 60

abbrev pub order_key : String → String
order_key order_id = "mock_pg_card_register:" <> order_id

-- the lifetime of a value that `_update` writes again
abbrev pub same_ttl : ℕ → Option ℕ
same_ttl zero = none
same_ttl (suc n) = some (suc n)

abbrev pub when_pending : Option CardOrder → Option CardOrder
when_pending none = none
when_pending (some order) = if is_ordered order.status then some order else none

pub record CreateCardOrderCommand : Type 0 where
  pub user_id : String
  pub car_id : String
  pub plate : String
  pub bank_name : String
  pub agree_terms : Bool

pub record CreateCardOrderResult : Type 0 where
  pub order_id : String
  pub pg_url : String

-- how the calls end, and the text of `uuid.uuid4().hex`
pub record OrderOutcome : Type 0 where
  pub molit : Result Bool
  pub order_hex : String
  pub pg : Result String

pub record HandleCardWebhookCommand : Type 0 where
  pub order_id : String
  pub billing_key : String
  pub card_last_four : String
  pub status : String
  pub signature : String
  pub signature_timestamp : String
  pub raw_body : String

module _ (E : Env) where
  unfoldable pub save_pending : ℕ → CardOrder → Exec (State E) (Unit {0})
  save_pending now order = modify (λ s. record s {
    card_orders =
        E.card_orders.set now (order_key order.order_id) order (some card_order_ttl_seconds)
          s.card_orders;
  })

  unfoldable pub get_order : ℕ → String → State E → Option CardOrder
  get_order now order_id s = E.card_orders.get now (order_key order_id) s.card_orders

  unfoldable pub get_pending : ℕ → String → State E → Option CardOrder
  get_pending now order_id s = when_pending (get_order now order_id s)

  unfoldable pub write_complete : ℕ → String → Option CardOrder → State E → State E
  write_complete now order_id none s = s
  write_complete now order_id (some order) s = record s {
    card_orders =
        E.card_orders.set now (order_key order_id) (record order { status = complete })
          (same_ttl (E.card_orders.ttl now (order_key order_id) s.card_orders)) s.card_orders;
  }

  unfoldable pub mark_complete : ℕ → String → Exec (State E) (Unit {0})
  mark_complete now order_id = do
    payload ← gets (get_order now order_id)
    modify (write_complete now order_id payload)

  module _ (now : ℕ) (out : OrderOutcome) (c : CreateCardOrderCommand) where
    abbrev pub new_order_id : String
    new_order_id = "order-" <> out.order_hex

    abbrev pub new_order : CardOrder
    new_order = record {
      order_id = new_order_id;
      user_id = c.user_id;
      car_id = c.car_id;
      status = ordered;
    }

    -- from the check of the owner on
    unfoldable pub order_for : String → Exec (State E) CreateCardOrderResult
    order_for plate = do
      record_call E (verify_owner plate c.user_id c.car_id)
      is_verified ← lift out.molit
      raise_if (not is_verified) (value_error "molit_verification_failed")
      update_plate E c.car_id plate
      save_pending now new_order
      record_call E (create_url new_order_id c.car_id plate c.bank_name)
      pg_url ← lift out.pg
      pure (record { order_id = new_order_id; pg_url = pg_url })

    unfoldable pub create_card_order : Exec (State E) CreateCardOrderResult
    create_card_order = do
      raise_if (not c.agree_terms) (value_error "agree_terms가 true여야 합니다.")
      found ← gets (exists E c.user_id c.car_id)
      raise_if (not found) (value_error ("vehicle을 찾을 수 없습니다. car_id=" <> c.car_id))
      let normalized_plate = normalize_plate E c.plate
      raise_if (not (is_plate E normalized_plate))
          (value_error ("plate 형식이 유효하지 않습니다: " <> normalized_plate))
      order_for normalized_plate

  module _ (now : ℕ) (c : HandleCardWebhookCommand) where
    -- no pending order: one that is complete is answered again
    unfoldable pub complete_or_unknown : Option CardOrder → Exec (State E) (Unit {0})
    complete_or_unknown (some existing) = pure tt
    complete_or_unknown none =
        raise (value_error ("order를 찾을 수 없거나 만료되었습니다. order_id=" <> c.order_id))

    unfoldable pub register_key : Option CardOrder → Exec (State E) (Unit {0})
    register_key none = do existing ← gets (get_order now c.order_id); complete_or_unknown existing
    register_key (some order) = do
      found ← gets (exists_by_car_id E order.car_id)
      raise_if (not found) (value_error ("vehicle을 찾을 수 없습니다. car_id=" <> order.car_id))
      upsert E order.car_id c.billing_key c.card_last_four
      mark_complete now c.order_id

    -- with the signature verifier that the service is given
    unfoldable pub handle_card_webhook : Crypto → String → ℕ → Exec (State E) (Unit {0})
    handle_card_webhook crypto secret tolerance_seconds = do
      raise_if
          (not (
            verify crypto secret tolerance_seconds now c.signature_timestamp c.signature
              c.raw_body))
          (value_error "invalid_signature")
      raise_if (not (is_last_four E c.card_last_four))
          (value_error ("card_last_four는 4자리 숫자여야 합니다: " <> c.card_last_four))
      raise_if (not (c.status == "active"))
          (value_error ("webhook status가 active가 아닙니다: " <> c.status))
      order ← gets (get_pending now c.order_id)
      register_key order
