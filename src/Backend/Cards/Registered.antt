-- ===== src/Backend/Cards/Registered.antt =====
-- A card order and its webhook, up to the billing key that a payment is charged to.
use car_pay_in.Backend.Cards.Repeated.{complete-run}
use car_pay_in.Backend.Cards.Repeated.{IsAccepted}
use car_pay_in.Backend.Cards.Repeated.{checks-run}
use car_pay_in.Backend.Cards.Repeated.{done}
use car_pay_in.Backend.Cards.Repeated.{lasts-found}
use car_pay_in.Backend.Cards.Repeated.{later-kept}
use car_pay_in.Backend.Cards.Repeated.{later_complete}
use car_pay_in.Backend.Cards.Repeated.{order_complete}
use car_pay_in.Backend.Accounts.{CardOrder, OrderStatus, billing_key_fits, is_ordered, ordered}
use car_pay_in.Backend.Cards.{
  HandleCardWebhookCommand, get_order, get_pending, handle_card_webhook, mark_complete, order_key,
  register_key, when_pending, write_complete,
}
use car_pay_in.Backend.Env.{Env, IsLawful, State}
use car_pay_in.Backend.Models.{VehicleBillingKey, has_car, usable}
use car_pay_in.Backend.Signature.{Crypto, verify}
use car_pay_in.Backend.Transactions.{get_active_billing_key, when_usable}
use car_pay_in.Backend.Vehicles.{exists_by_car_id, upsert, with_key, write_billing_key}
use car_pay_in.Base.{
  List, Option, String, ap, arith, eq_iff, eq_refl, if◌then◌else◌, map_option, none, not, refl,
  some, true, ℕ, ◌<>◌, ◌∙◌, ◌≡◌, ◌≤◌,
}
use car_pay_in.Exec.{ok, raise_if, value_error, ◌>>=◌}
use car_pay_in.Exec.Run.{bind-ok, run-gets-bind, run-modify}
use car_pay_in.Table.{amend, first, first-amend, first-append, first_sound}

first-amend_key :
    (i b t : String) (rs : List VehicleBillingKey) (r : VehicleBillingKey)
    → first (has_car i) rs ≡ some r
    → first (has_car i) (amend (has_car i) (with_key b t) rs) ≡ some (with_key b t r)
first-amend_key i b t rs r found =
    first-amend (has_car i) (has_car i) (with_key b t) rs (λ _ _. refl)
    ∙ ap (map_option (λ x. if has_car i x then with_key b t x else x)) found
    ∙ ap (λ d. some (if d then with_key b t r else r)) (first_sound (has_car i) rs found)

abbrev pub key_row_of : String → String → String → VehicleBillingKey
key_row_of car b t = record { car_id = car; billing_key = b; card_last_four = t; status = usable }

module _ {E : Env} (L : IsLawful E) where
  write_billing_key-active :
      (i b t : String) (o : Option VehicleBillingKey) (s : State E)
      → E.billing_keys.scalar (has_car i) s.billing_keys ≡ o
      → get_active_billing_key E i (write_billing_key E i b t o s) ≡ some (key_row_of i b t)
  unfolding get_active_billing_key write_billing_key
  write_billing_key-active i b t none s missing =
      let before = rw (L.billing_keys.scalar-rows (has_car i) s.billing_keys) at missing in
      rw (L.billing_keys.scalar-rows, L.billing_keys.rows-insert, first-append, before, eq_refl i)
  write_billing_key-active i b t (some r) s found =
      let before = rw (L.billing_keys.scalar-rows (has_car i) s.billing_keys) at found in
      let same = first_sound (has_car i) (E.billing_keys.rows s.billing_keys) before in
      rw (L.billing_keys.scalar-rows, L.billing_keys.rows-update, first-amend_key i b t _ r before)
        (ground (arith, eq_iff r.car_id i))

module _ {E : Env} (L : IsLawful E) (crypto : Crypto) (secret : String) (tolerance_seconds now : ℕ)
    (c : HandleCardWebhookCommand) (s : State E) where
  -- the state once the billing key is stored and the order is complete
  abbrev pub completed_state : CardOrder → State E
  completed_state o = write_complete E now c.order_id (some o) (
      write_billing_key E o.car_id c.billing_key c.card_last_four
        (E.billing_keys.scalar (has_car o.car_id) s.billing_keys) s)

  pub record IsUsable (o : CardOrder) (t : State E) : Type 0 where
    pub answers : handle_card_webhook E now c crypto secret tolerance_seconds s ≡ (ok tt, t)
    pub usable_key :
        get_active_billing_key E o.car_id t
        ≡ some (key_row_of o.car_id c.billing_key c.card_last_four)
    pub complete_order :
        get_order E now c.order_id t ≡ some (record o { status = OrderStatus.complete })
    -- the webhook at any later time, and at one where it is still in time for its order
    pub kept :
        (later : ℕ)
        → now ≤ later
        → (handle_card_webhook E later c crypto secret tolerance_seconds t).1 ≡ t
    pub again :
        (later : ℕ)
        → now ≤ later
        → verify crypto secret tolerance_seconds later c.signature_timestamp c.signature c.raw_body
          ≡ true
        → get_order E later c.order_id s ≡ some o
        → handle_card_webhook E later c crypto secret tolerance_seconds t ≡ (ok tt, t)

  upsert-run :
      (i b t : String)
      → billing_key_fits (E.billing_keys.rows s.billing_keys) i b t ≡ true
      → upsert E i b t s
        ≡ (ok tt, write_billing_key E i b t (E.billing_keys.scalar (has_car i) s.billing_keys) s)
  unfolding upsert ◌>>=◌
  upsert-run i b t fits = rw fits refl

  write_billing_key-orders :
      (i b t : String) (o : Option VehicleBillingKey)
      → (write_billing_key E i b t o s).card_orders ≡ s.card_orders
  unfolding write_billing_key
  write_billing_key-orders i b t none = refl
  write_billing_key-orders i b t (some r) = refl

  write_complete-keys :
      (o : Option CardOrder) (t : State E)
      → (write_complete E now c.order_id o t).billing_keys ≡ t.billing_keys
  unfolding write_complete
  write_complete-keys none t = refl
  write_complete-keys (some o) t = refl

  mark-run :
      (o : CardOrder) (t : State E)
      → get_order E now c.order_id t ≡ some o
      → mark_complete E now c.order_id t ≡ (ok tt, write_complete E now c.order_id (some o) t)
  unfolding mark_complete
  mark-run o t found =
      run-gets-bind _ _ t
      ∙ run-modify _ t
      ∙ ap (λ p. (ok tt, write_complete E now c.order_id p t)) found

  stored-later :
      (later : ℕ) (i b t : String) (k : Option VehicleBillingKey)
      → get_order E later c.order_id (write_billing_key E i b t k s)
        ≡ get_order E later c.order_id s
  unfolding get_order
  stored-later later i b t k =
      ap (λ m. E.card_orders.get later (order_key c.order_id) m) (write_billing_key-orders i b t k)

  pending-is :
      (o : CardOrder)
      → get_order E now c.order_id s ≡ some o
      → o.status ≡ ordered
      → get_pending E now c.order_id s ≡ some o
  unfolding get_pending
  pending-is o found fresh =
      ap when_pending found ∙ ap (λ d. if is_ordered d then some o else none) fresh

  known-run :
      (o : CardOrder)
      → exists_by_car_id E o.car_id s ≡ true
      → raise_if
          (not (exists_by_car_id E o.car_id s))
          (value_error ("vehicle을 찾을 수 없습니다. car_id=" <> o.car_id))
          s
        ≡ (ok tt, s)
  unfolding ◌>>=◌
  known-run o known = rw known refl

  pending-run :
      (o : CardOrder)
      → get_order E now c.order_id s ≡ some o
      → exists_by_car_id E o.car_id s ≡ true
      → billing_key_fits
          (E.billing_keys.rows s.billing_keys)
          o.car_id
          c.billing_key
          c.card_last_four
        ≡ true
      → register_key E now c (some o) s ≡ (ok tt, completed_state o)
  unfolding register_key
  pending-run o found known fits =
      run-gets-bind _ _ s
      ∙ bind-ok _ _ s (known-run o known)
      ∙ bind-ok _ _ s (upsert-run o.car_id c.billing_key c.card_last_four fits)
      ∙ mark-run o _ (stored-later now o.car_id c.billing_key c.card_last_four _ ∙ found)

  completed-key :
      (o : CardOrder)
      → get_active_billing_key E o.car_id (completed_state o)
        ≡ some (key_row_of o.car_id c.billing_key c.card_last_four)
  unfolding get_active_billing_key
  completed-key o =
      ap (λ m. when_usable E (E.billing_keys.scalar (has_car o.car_id) m))
        (write_complete-keys (some o) _)
      ∙ write_billing_key-active L o.car_id c.billing_key c.card_last_four _ s refl

  -- A webhook that is signed within the tolerance, gives four digits and the status 'active', and
  -- names a pending order of a known car with a billing key that no other car has: it is answered,
  -- the billing key is the one that a payment of that car is charged to from then on, in place of
  -- an earlier one, and the order is complete. The same webhook at any later time changes nothing, and
  -- is answered if its signature is still accepted and the order had not run out by then.
  pub webhook-IsUsable :
      (o : CardOrder)
      → IsAccepted L crypto secret tolerance_seconds now c s
      → get_order E now c.order_id s ≡ some o
      → o.status ≡ ordered
      → exists_by_car_id E o.car_id s ≡ true
      → billing_key_fits
          (E.billing_keys.rows s.billing_keys)
          o.car_id
          c.billing_key
          c.card_last_four
        ≡ true
      → (t : State E) × IsUsable o t
  webhook-IsUsable o accepted found fresh known fits = (
    completed_state o,
    record {
      answers =
          checks-run L crypto secret tolerance_seconds now c s now s accepted accepted.signed
          ∙ ap (λ p. register_key E now c p s) (pending-is o found fresh)
          ∙ pending-run o found known fits;
      usable_key = completed-key o;
      complete_order = order_complete L crypto secret tolerance_seconds now c s o _;
      kept = λ later after.
          later-kept L crypto secret tolerance_seconds now c s later o _ accepted after;
      again = λ later after signed_later in_time.
          checks-run L crypto secret tolerance_seconds now c s later (completed_state o) accepted
            signed_later
          ∙ complete-run L crypto secret tolerance_seconds now c s later o _ (
              later_complete L crypto secret tolerance_seconds now c s later o _ after
              ∙ ap
                  (λ b. if b then some (done L crypto secret tolerance_seconds now c s o) else none)
                  (lasts-found L crypto secret tolerance_seconds now c s later o _ after
                    (stored-later later o.car_id c.billing_key c.card_last_four _ ∙ in_time)));
    },
  )
