-- ===== src/Backend/CardExamples.antt =====
-- The theorems on card registration at one car.
use car_pay_in.Backend.Cards.Repeated.{IsAccepted}
use car_pay_in.Backend.Accounts.{are_digits, billing_key_fits, plate_fits}
use car_pay_in.Backend.Cards.{
  CreateCardOrderCommand, HandleCardWebhookCommand, OrderOutcome, new_order,
}
use car_pay_in.Backend.Cards.Ordered.{IsOrderable, IsOrdered, order-webhook, ordered_state}
use car_pay_in.Backend.Cards.Registered.{IsUsable}
use car_pay_in.Backend.Env.{State}
use car_pay_in.Backend.Plates.{
  at_end, digits_then, is_last_four, is_plate, lstrip, normalize_plate, rstrip, strip,
  syllable_then, without,
}
use car_pay_in.Backend.Sample.{env, env-IsLawful, start}
use car_pay_in.Backend.Signature.{Crypto, sign, verify, verify_at}
use car_pay_in.Backend.Vehicles.{exists}
use car_pay_in.Base.{[], arith, refl, some, true, ◌<>◌, ◌∷◌}
use car_pay_in.Exec.{ok}
use car_pay_in.Integer.{pos}
use car_pay_in.Table.{first}

abbrev owned : State env
owned = record start {
  users = record { user_id = "user"; name = "Kim" } ∷ [];
  vehicles = record { car_id = "car"; user_id = "user"; car_sellname = "Ioniq"; plate = "" } ∷ [];
  billing_keys = [];
}

abbrev order : CreateCardOrderCommand
order = record {
  user_id = "user";
  car_id = "car";
  plate = " 12가 3456";
  bank_name = "";
  agree_terms = true;
}

abbrev order_outcome : OrderOutcome
order_outcome = record { molit = ok true; order_hex = "0f"; pg = ok "https://pg" }

abbrev crypto : Crypto
crypto = record { hmac = λ s m. s <> m; body_hash = λ t. t; int = λ _. some (pos 1100) }

abbrev webhook : HandleCardWebhookCommand
webhook = record {
  order_id = "order-0f";
  billing_key = "bk-1";
  card_last_four = "3456";
  status = "active";
  signature = "k1100.{}";
  signature_timestamp = "1100";
  raw_body = "{}";
}

orderable : IsOrderable env-IsLawful 1000 order_outcome order owned "https://pg"
unfolding exists first normalize_plate strip lstrip rstrip without is_plate digits_then
    syllable_then at_end plate_fits
orderable = record {
  agreed = refl;
  owned = refl;
  plate = refl;
  verified = refl;
  free = refl;
  url = refl;
}

accepted :
    IsAccepted env-IsLawful crypto "k" 300 1100 webhook
      (ordered_state env-IsLawful 1000 order_outcome order owned)
unfolding verify verify_at sign is_last_four digits_then at_end
accepted = record { signed = refl; digits = refl; is_active = refl }

order-webhook_example :
    (t : State env) × IsOrdered env-IsLawful 1000 order_outcome order owned "https://pg" t
    × ((u : State env) × IsUsable env-IsLawful crypto "k" 300 1100 webhook t
          (new_order env 1000 order_outcome order)
          u)
unfolding billing_key_fits are_digits first
order-webhook_example =
    order-webhook env-IsLawful 1000 order_outcome order owned "https://pg" 1100 crypto "k" 300
      webhook orderable (omega arith) (omega arith) accepted refl refl
