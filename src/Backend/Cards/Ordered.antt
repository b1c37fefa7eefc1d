-- ===== src/Backend/Cards/Ordered.antt =====
-- A card order from its creation to the billing key of the car.
use car_pay_in.Backend.Cards.Repeated.{IsAccepted}
use car_pay_in.Backend.Models.{is_car}
use car_pay_in.Backend.Accounts.{billing_key_fits, is_car_of, plate_fits}
use car_pay_in.Backend.Cards.{
  CreateCardOrderCommand, CreateCardOrderResult, HandleCardWebhookCommand, OrderOutcome,
  card_order_ttl_seconds, create_card_order, get_order, new_order, new_order_id, order_for,
  order_key, save_pending,
}
use car_pay_in.Backend.Cards.Registered.{IsUsable, webhook-IsUsable}
use car_pay_in.Backend.Env.{Call, Env, IsLawful, State, create_url, record_call, verify_owner}
use car_pay_in.Backend.Models.{Vehicle}
use car_pay_in.Backend.Plates.{is_plate, normalize_plate}
use car_pay_in.Backend.Signature.{Crypto}
use car_pay_in.Backend.Vehicles.{
  change_vehicle, exists, exists_by_car_id, get_vehicle_by_car_id, update_plate,
}
use car_pay_in.Base.{
  Bool, List, Option-cases, String, [], ap, arith, eq_refl, if◌then◌else◌, inl, inr, is_some,
  map_option, not, refl, some, true, ℕ, ◌++◌, ◌+◌, ◌<◌, ◌∙◌, ◌∷◌, ◌≡◌, ◌≤◌,
}
use car_pay_in.Exec.{Exec, lift, ok, pure, raise_if, value_error, ◌>>=◌}
use car_pay_in.Exec.Run.{bind-ok, run-modify}
use car_pay_in.Table.{amend, first, first-amend, first_sound}

first_some :
    {Row : Type 0} (p q : Row → Bool) (rs : List Row)
    → ((r : Row) → p r ≡ true → q r ≡ true)
    → is_some (first p rs) ≡ true
    → is_some (first q rs) ≡ true
unfolding first
first_some p q [] h found = found
first_some p q (r ∷ rs) h found = ground (arith, h r, first_some p q rs h)

-- the change of a plate keeps the car
first-amend_plate :
    (i plate : String) (rs : List Vehicle) (v : Vehicle)
    → first (is_car i) rs ≡ some v
    → first (is_car i) (amend (is_car i) (λ r. record r { plate = plate }) rs)
      ≡ some (record v { plate = plate })
first-amend_plate i plate rs v found =
    first-amend (is_car i) (is_car i) (λ r. record r { plate = plate }) rs (λ _ _. refl)
    ∙ ap (map_option (λ r. if is_car i r then record r { plate = plate } else r)) found
    ∙ ap (λ d. some (if d then record v { plate = plate } else v)) (first_sound (is_car i) rs found)

module _ {E : Env} (L : IsLawful E) (now : ℕ) (out : OrderOutcome) (c : CreateCardOrderCommand)
    (s : State E) where
  abbrev pub plate_of : String
  plate_of = normalize_plate E c.plate

  -- an order that every check lets through, and calls that succeed
  pub record IsOrderable (pg_url : String) : Type 0 where
    pub agreed : c.agree_terms ≡ true
    pub owned : exists E c.user_id c.car_id s ≡ true
    pub plate : is_plate E plate_of ≡ true
    pub verified : out.molit ≡ ok true
    pub free : plate_fits (E.vehicles.rows s.vehicles) c.car_id plate_of ≡ true
    pub url : out.pg ≡ ok pg_url

  abbrev pub made : String → CreateCardOrderResult
  made url = record { order_id = new_order_id E now out c; pg_url = url }

  -- the state that an accepted order leaves
  abbrev pub ordered_state : State E
  ordered_state = record s {
    vehicles = E.vehicles.update (is_car c.car_id) (λ v. record v { plate = plate_of }) s.vehicles;
    card_orders =
        E.card_orders.set now (order_key (new_order_id E now out c)) (new_order E now out c)
          (some card_order_ttl_seconds) s.card_orders;
    calls =
        (s.calls ++ verify_owner plate_of c.user_id c.car_id ∷ [])
        ++ create_url (new_order_id E now out c) c.car_id plate_of c.bank_name ∷ [];
  }

  car-known : exists E c.user_id c.car_id s ≡ true → exists_by_car_id E c.car_id s ≡ true
  unfolding exists exists_by_car_id get_vehicle_by_car_id
  car-known owned =
      let before = rw (L.vehicles.scalar-rows (is_car_of c.user_id c.car_id) s.vehicles) at owned in
      rw L.vehicles.scalar-rows (
        first_some (is_car_of c.user_id c.car_id) (is_car c.car_id) _
          (λ r both. ground (arith, both)) before)

  car-found :
      exists E c.user_id c.car_id s ≡ true
      → (v : Vehicle) × (get_vehicle_by_car_id E c.car_id s ≡ some v)
  unfolding exists_by_car_id
  car-found owned = elim (Option-cases (get_vehicle_by_car_id E c.car_id s)) [
    | inl missing ↦ absurd (ground (arith, car-known owned, missing))
    | inr found ↦ found
  ]

  plate-run :
      (v : Vehicle) (l : List Call)
      → get_vehicle_by_car_id E c.car_id s ≡ some v
      → plate_fits (E.vehicles.rows s.vehicles) c.car_id plate_of ≡ true
      → update_plate E c.car_id plate_of (record s { calls = l }) ≡ (
        ok tt,
        change_vehicle E c.car_id (λ r. record r { plate = plate_of }) (record s { calls = l }),
      )
  unfolding update_plate get_vehicle_by_car_id ◌>>=◌
  plate-run v l found free = rw (found, free) refl

  owner-run :
      {B : Type 0} (f : Bool → Exec (State E) B)
      → out.molit ≡ ok true
      → (record_call E (verify_owner plate_of c.user_id c.car_id) >>= λ _. lift out.molit >>= f) s
        ≡ f true (record s { calls = s.calls ++ verify_owner plate_of c.user_id c.car_id ∷ [] })
  unfolding record_call ◌>>=◌
  owner-run f verified = rw verified refl

  url-run :
      (pg_url : String) (t : State E)
      → out.pg ≡ ok pg_url
      → (record_call E (create_url (new_order_id E now out c) c.car_id plate_of c.bank_name)
            >>= λ _. lift out.pg >>= λ pg_url.
                pure (record { order_id = new_order_id E now out c; pg_url = pg_url }))
          t
        ≡ (
          ok (made pg_url),
          record t {
            calls =
                t.calls ++ create_url (new_order_id E now out c) c.car_id plate_of c.bank_name ∷ [];
          },
        )
  unfolding record_call ◌>>=◌
  url-run pg_url t url = rw url refl

  passed-run :
      (t : State E) → raise_if (not true) (value_error "molit_verification_failed") t ≡ (ok tt, t)
  unfolding ◌>>=◌
  passed-run t = refl

  order-run :
      (pg_url : String) (v : Vehicle)
      → IsOrderable pg_url
      → get_vehicle_by_car_id E c.car_id s ≡ some v
      → order_for E now out c plate_of s ≡ (ok (made pg_url), ordered_state)
  unfolding order_for save_pending change_vehicle
  order-run pg_url v h found =
      owner-run _ h.verified
      ∙ bind-ok _ _ _ (passed-run _)
      ∙ bind-ok _ _ _ (plate-run v _ found h.free)
      ∙ bind-ok _ _ _ (run-modify _ _)
      ∙ url-run pg_url _ h.url

  checks-run :
      (pg_url : String)
      → IsOrderable pg_url
      → create_card_order E now out c s ≡ order_for E now out c plate_of s
  unfolding create_card_order ◌>>=◌
  checks-run pg_url h = rw (h.agreed, h.owned, h.plate) refl

  saved-order :
      (t : ℕ)
      → now ≤ t
      → t < now + card_order_ttl_seconds
      → get_order E t (new_order_id E now out c) ordered_state ≡ some (new_order E now out c)
  unfolding get_order
  saved-order t later within =
      rw (L.card_orders.get-set, later, eq_refl (order_key (new_order_id E now out c)))
        (ground arith)

  saved-car :
      (v : Vehicle)
      → get_vehicle_by_car_id E c.car_id s ≡ some v
      → get_vehicle_by_car_id E c.car_id ordered_state ≡ some (record v { plate = plate_of })
  unfolding get_vehicle_by_car_id
  saved-car v found =
      let before = rw (L.vehicles.scalar-rows (is_car c.car_id) s.vehicles) at found in
      rw (L.vehicles.scalar-rows, L.vehicles.rows-update)
        (first-amend_plate c.car_id plate_of _ v before)

  -- what an accepted order leaves
  pub record IsOrdered (pg_url : String) (t : State E) : Type 0 where
    pub answers : create_card_order E now out c s ≡ (ok (made pg_url), t)
    pub order : get_order E now (new_order_id E now out c) t ≡ some (new_order E now out c)
    pub car : (v : Vehicle) × (get_vehicle_by_car_id E c.car_id t ≡ some v) × (v.plate ≡ plate_of)

  create-IsOrdered : (pg_url : String) → IsOrderable pg_url → IsOrdered pg_url ordered_state
  create-IsOrdered pg_url h =
      let (v, found) = car-found h.owned in
      record {
        answers = checks-run pg_url h ∙ order-run pg_url v h found;
        order = saved-order now (omega arith) (omega arith);
        car = (record v { plate = plate_of }, saved-car v found, refl);
      }

  ordered-car :
      (pg_url : String) → IsOrderable pg_url → exists_by_car_id E c.car_id ordered_state ≡ true
  unfolding exists_by_car_id
  ordered-car pg_url h =
      let (v, found) = car-found h.owned in ap (λ o. is_some o) (saved-car v found)

  -- A card order with the terms agreed to, of a car of the user, with a plate of the right form
  -- that no other car has, a confirmed owner and a page at the PG; and within half an hour a webhook
  -- for that order, which passes the checks of its fields, has a billing key of no other car, and
  -- gives four ASCII digits. The order is answered with its id and the page, is pending, and gives
  -- the car the plate without its spaces; the webhook is answered, completes the order and makes its
  -- billing key the one that a payment of the car is charged to. The same webhook at any later time
  -- changes nothing, and is answered if its signature is still accepted then and the order, had it
  -- stayed pending, would still be there.
  pub order-webhook :
      (pg_url : String) (later : ℕ) (crypto : Crypto) (secret : String) (tolerance_seconds : ℕ)
      (w : HandleCardWebhookCommand)
      → IsOrderable pg_url
      → now ≤ later
      → later < now + card_order_ttl_seconds
      → IsAccepted L crypto secret tolerance_seconds later w ordered_state
      → w.order_id ≡ new_order_id E now out c
      → billing_key_fits
          (E.billing_keys.rows s.billing_keys)
          c.car_id
          w.billing_key
          w.card_last_four
        ≡ true
      → (t : State E) × IsOrdered pg_url t
        × ((u : State E) × IsUsable L crypto secret tolerance_seconds later w t
              (new_order E now out c)
              u)
  order-webhook pg_url later crypto secret tolerance w h after within accepted same fits = (
    ordered_state,
    create-IsOrdered pg_url h,
    webhook-IsUsable L crypto secret tolerance later w ordered_state (new_order E now out c)
        accepted (ap (λ i. get_order E later i ordered_state) same ∙ saved-order later after within)
        refl (ordered-car pg_url h) fits,
  )
