-- ===== src/Backend/Cards/Repeated.antt =====
-- The webhook of a card that comes again, once its order is complete.
use car_pay_in.Base.{Bool}
use car_pay_in.Base.{Bool-cases}
use car_pay_in.Backend.Accounts.{CardOrder}
use car_pay_in.Backend.Signature.{Crypto}
use car_pay_in.Backend.Env.{Env}
use car_pay_in.Backend.Cards.{HandleCardWebhookCommand}
use car_pay_in.Backend.Env.{IsLawful}
use car_pay_in.Backend.Env.{State}
use car_pay_in.Base.{String}
use car_pay_in.Redis.{alive}
use car_pay_in.Base.{ap}
use car_pay_in.Base.{arith}
use car_pay_in.Backend.Cards.{complete_or_unknown}
use car_pay_in.Base.{eq_refl}
use car_pay_in.Base.{false}
use car_pay_in.Backend.Cards.{get_order}
use car_pay_in.Backend.Cards.{get_pending}
use car_pay_in.Backend.Cards.{handle_card_webhook}
use car_pay_in.Base.{if◌then◌else◌}
use car_pay_in.Base.{inl}
use car_pay_in.Base.{inr}
use car_pay_in.Backend.Plates.{is_last_four}
use car_pay_in.Base.{none}
use car_pay_in.Exec.{ok}
use car_pay_in.Backend.Cards.{order_key}
use car_pay_in.Base.{refl}
use car_pay_in.Backend.Cards.{register_key}
use car_pay_in.Backend.Cards.{same_ttl}
use car_pay_in.Base.{some}
use car_pay_in.Base.{suc}
use car_pay_in.Base.{true}
use car_pay_in.Backend.Signature.{verify}
use car_pay_in.Backend.Cards.{write_complete}
use car_pay_in.Base.{zero}
use car_pay_in.Base.{ℕ}
use car_pay_in.Base.{◌==◌}
use car_pay_in.Exec.{◌>>=◌}
use car_pay_in.Base.{◌∙◌}
use car_pay_in.Base.{◌≡◌}
use car_pay_in.Base.{◌≤◌}
use car_pay_in.Backend.Accounts.{OrderStatus}

module _ {E : Env} (L : IsLawful E) (crypto : Crypto) (secret : String) (tolerance_seconds now : ℕ)
    (c : HandleCardWebhookCommand) (s : State E) where
  -- a webhook that passes the checks of its own fields
  pub record IsAccepted : Type 0 where
    pub signed :
        verify crypto secret tolerance_seconds now c.signature_timestamp c.signature c.raw_body
        ≡ true
    pub digits : is_last_four E c.card_last_four ≡ true
    pub is_active : (c.status == "active") ≡ true

  abbrev pub done : CardOrder → CardOrder
  done o = record o { status = OrderStatus.complete }

  -- when what `mark_complete` writes is still there
  abbrev pub lasts : ℕ → State E → Bool
  lasts later t =
      alive now (same_ttl (E.card_orders.ttl now (order_key c.order_id) t.card_orders)) later

  pub later_complete :
      (later : ℕ) (o : CardOrder) (t : State E)
      → now ≤ later
      → get_order E later c.order_id (write_complete E now c.order_id (some o) t)
        ≡ (if lasts later t then some (done o) else none)
  unfolding get_order write_complete
  later_complete later o t after =
      rw (L.card_orders.get-set, after, eq_refl (order_key c.order_id)) refl

  lasts-now : (t : State E) → lasts now t ≡ true
  lasts-now t = by_ttl (E.card_orders.ttl now (order_key c.order_id) t.card_orders)
    where
      by_ttl : (n : ℕ) → alive now (same_ttl n) now ≡ true
      by_ttl zero = refl
      by_ttl (suc n) = ground arith

  pub lasts-found :
      (later : ℕ) (o : CardOrder) (t : State E)
      → now ≤ later
      → get_order E later c.order_id t ≡ some o
      → lasts later t ≡ true
  unfolding get_order
  lasts-found later o t after found =
      by_ttl (E.card_orders.ttl now (order_key c.order_id) t.card_orders) refl
    where
      by_ttl :
          (n : ℕ)
          → E.card_orders.ttl now (order_key c.order_id) t.card_orders ≡ n
          → alive now (same_ttl n) later ≡ true
      by_ttl zero same = refl
      by_ttl (suc n) same =
          let law =
            L.card_orders.get-ttl now later (order_key c.order_id) t.card_orders after
              (omega (arith, same)) in
          ground (arith, law, found, same)

  pub order_complete :
      (o : CardOrder) (t : State E)
      → get_order E now c.order_id (write_complete E now c.order_id (some o) t) ≡ some (done o)
  order_complete o t =
      later_complete now o t (omega arith)
      ∙ ap (λ b. if b then some (done o) else none) (lasts-now t)

  -- at a later time: an order that is complete, or gone
  pub complete-run :
      (later : ℕ) (o : CardOrder) (t : State E)
      → get_order E later c.order_id t ≡ some (done o)
      → register_key E later c (get_pending E later c.order_id t) t ≡ (ok tt, t)
  unfolding get_pending register_key complete_or_unknown ◌>>=◌
  complete-run later o t complete_now = rw (complete_now, complete_now) refl

  gone-run :
      (later : ℕ) (t : State E)
      → get_order E later c.order_id t ≡ none
      → (register_key E later c (get_pending E later c.order_id t) t).1 ≡ t
  unfolding get_pending register_key complete_or_unknown ◌>>=◌
  gone-run later t gone = rw (gone, gone) refl

  pub checks-run :
      (later : ℕ) (t : State E)
      → IsAccepted
      → verify crypto secret tolerance_seconds later c.signature_timestamp c.signature c.raw_body
        ≡ true
      → handle_card_webhook E later c crypto secret tolerance_seconds t
        ≡ register_key E later c (get_pending E later c.order_id t) t
  unfolding handle_card_webhook ◌>>=◌
  checks-run later t accepted signed_later =
      rw (signed_later, accepted.digits, accepted.is_active) refl

  refused-run :
      (later : ℕ) (t : State E)
      → verify crypto secret tolerance_seconds later c.signature_timestamp c.signature c.raw_body
        ≡ false
      → (handle_card_webhook E later c crypto secret tolerance_seconds t).1 ≡ t
  unfolding handle_card_webhook ◌>>=◌
  refused-run later t forged = rw forged refl

  register-kept :
      (later : ℕ) (o : CardOrder) (t : State E) (b : Bool)
      → get_order E later c.order_id t ≡ (if b then some (done o) else none)
      → (register_key E later c (get_pending E later c.order_id t) t).1 ≡ t
  register-kept later o t true h = ap (λ r. r.1) (complete-run later o t h)
  register-kept later o t false h = gone-run later t h

  pub later-kept :
      (later : ℕ) (o : CardOrder) (t : State E)
      → IsAccepted
      → now ≤ later
      → (handle_card_webhook E later c crypto secret tolerance_seconds
          (write_complete E now c.order_id (some o) t)).1
        ≡ write_complete E now c.order_id (some o) t
  later-kept later o t accepted after =
      let z = write_complete E now c.order_id (some o) t in
      elim (Bool-cases (
        verify crypto secret tolerance_seconds later c.signature_timestamp c.signature
          c.raw_body)) [
            | inr forged ↦ refused-run later z forged
            | inl signed_later ↦
                ap (λ r. r.1) (checks-run later z accepted signed_later)
                ∙ register-kept later o z (lasts later t) (later_complete later o t after)
          ]
