-- ===== src/MockPg/Registration/Registered.antt =====
-- A card that has been registered at the mock PG.
use car_pay_in.Base.{Bool, [], ap, eq_refl, none, refl, some, ◌++◌, ◌<>◌, ◌∙◌, ◌∷◌, ◌≡◌}
use car_pay_in.Exec.{Result, catch, err, lift, ok, pure, ◌>>=◌}
use car_pay_in.Exec.Run.{bind-ok, run-gets-bind, run-pure}
use car_pay_in.MockPg.{
  BillingKey, CardData, Env, IsLawful, State, VerifyRequest, active, has_billing_key, has_order_id,
  key_fits, record_call, verify, verify_and_tokenize_card, webhook,
}
use car_pay_in.MockPg.Registration.{
  CompleteCardRegistrationCommand, CompleteCardRegistrationResult, Outcome,
  complete_card_registration, register_once, save_card, save_verified,
  send_card_registration_webhook, succeeded, verify_card,
}
use car_pay_in.MockPg.Repositories.{
  add_billing_key, get_billing_key, get_by_order_id, save_billing_key,
}
use car_pay_in.Table.{first-append}

-- the row that is stored
abbrev pub key_of : Outcome → CompleteCardRegistrationCommand → CardData → BillingKey
key_of out c d = record {
  billing_key = "bk-" <> out.key_hex;
  order_id = c.order_id;
  card_token = d.card_token;
  card_last_four = d.last_four;
  status = active;
}

abbrev pub verify_request : CompleteCardRegistrationCommand → VerifyRequest
verify_request c = record {
  user_id = c.order_id;
  card_number = c.card_number;
  expiry = c.expiry;
  cvc = c.cvc;
}

module _ {E : Env} (L : IsLawful E) (fallback : Bool) (out : Outcome)
    (c : CompleteCardRegistrationCommand) (s : State E) where
  -- the state after a verified card is stored and the webhook is sent
  abbrev pub registered : E.card.State → CardData → State E
  registered card d = record s {
    card = card;
    billing_keys = E.billing_keys.insert (key_of out c d) s.billing_keys;
    calls =
        (s.calls ++ verify (verify_request c) ∷ [])
        ++ webhook c.order_id ("bk-" <> out.key_hex) d.last_four ∷ [];
  }

  -- What a new registration leaves. The same order again, with whatever answer of the webhook and
  -- whatever is drawn, stores nothing.
  pub record IsRegistered (d : CardData) (t : State E) : Type 0 where
    pub answers :
        complete_card_registration E fallback out c s
        ≡ (ok (succeeded E fallback out c ("bk-" <> out.key_hex)), t)
    pub usable : get_billing_key E ("bk-" <> out.key_hex) t ≡ some (key_of out c d)
    pub by_order : get_by_order_id E c.order_id t ≡ some (key_of out c d)
    pub again :
        (fallback_then : Bool) (later : Outcome) (again : CompleteCardRegistrationCommand)
        → (complete_card_registration E fallback_then later
            (record again { order_id = c.order_id })
            t).1.billing_keys
          ≡ t.billing_keys

  saved-run :
      (d : CardData) (t : State E)
      → get_by_order_id E c.order_id t ≡ none
      → get_billing_key E ("bk-" <> out.key_hex) t ≡ none
      → save_billing_key E c.order_id ("bk-" <> out.key_hex) d.card_token d.last_four t ≡ (
        ok (key_of out c d),
        record t { billing_keys = E.billing_keys.insert (key_of out c d) t.billing_keys },
      )
  unfolding save_billing_key add_billing_key key_fits get_by_order_id get_billing_key ◌>>=◌
  saved-run d t new_order new_key =
      let o =
        rw (L.billing_keys.scalar-rows (has_order_id c.order_id) t.billing_keys) at new_order in
      let b =
        rw (L.billing_keys.scalar-rows (has_billing_key ("bk-" <> out.key_hex)) t.billing_keys) at
          new_key in
      rw (new_order, o, b) refl

  webhook-run :
      (d : CardData) (t : State E)
      → catch
          (send_card_registration_webhook E fallback out c ("bk-" <> out.key_hex) d.last_four)
          (λ _. pure tt)
          t
        ≡ (
          ok tt,
          record t {
            calls = t.calls ++ webhook c.order_id ("bk-" <> out.key_hex) d.last_four ∷ [];
          },
        )
  unfolding send_card_registration_webhook record_call catch ◌>>=◌
  webhook-run d t = by_end out.webhook
    where
      by_end :
          (r : Result (Unit {0}))
          → catch
              (lift r)
              (λ _. pure tt)
              (record t {
                calls = t.calls ++ webhook c.order_id ("bk-" <> out.key_hex) d.last_four ∷ [];
              })
            ≡ (
              ok tt,
              record t {
                calls = t.calls ++ webhook c.order_id ("bk-" <> out.key_hex) d.last_four ∷ [];
              },
            )
      by_end (ok _) = refl
      by_end (err e) = refl

  verified-run :
      (d : CardData) (card : E.card.State)
      → E.card.verify (verify_request c) s.card ≡ (ok d, card)
      → verify_card E fallback out c s
        ≡ (ok (some d), record s { card = card; calls = s.calls ++ verify (verify_request c) ∷ [] })
  unfolding verify_card verify_and_tokenize_card catch ◌>>=◌
  verified-run d card verifies = rw verifies refl

  repeat-run :
      (fallback_then : Bool) (later : Outcome) (again : CompleteCardRegistrationCommand)
      (b : BillingKey) (t : State E)
      → get_by_order_id E again.order_id t ≡ some b
      → (complete_card_registration E fallback_then later again t).1.billing_keys ≡ t.billing_keys
  unfolding complete_card_registration
  repeat-run fallback_then later again b t found =
      ap (λ (e : Result CompleteCardRegistrationResult × State E). e.1.billing_keys)
        (run-gets-bind _ _ t ∙ ap (λ o. register_once E fallback_then later again o t) found)
      ∙ by_end later.webhook
    where
      by_end :
          (r : Result (Unit {0}))
          → (register_once E fallback_then
              (record later { webhook = r })
              again
              (some b)
              t).1.billing_keys
            ≡ t.billing_keys
      by_end (ok _) = unfold register_once send_card_registration_webhook record_call ◌>>=◌ in refl
      by_end (err e) = unfold register_once send_card_registration_webhook record_call ◌>>=◌ in refl

  stored-run :
      (d : CardData) (card : E.card.State)
      → get_by_order_id E c.order_id s ≡ none
      → get_billing_key E ("bk-" <> out.key_hex) s ≡ none
      → save_card E fallback out c d
          (record s { card = card; calls = s.calls ++ verify (verify_request c) ∷ [] })
        ≡ (ok (succeeded E fallback out c ("bk-" <> out.key_hex)), registered card d)
  unfolding save_card get_by_order_id get_billing_key
  stored-run d card new_order new_key =
      bind-ok _ _ _ (saved-run d _ new_order new_key)
      ∙ bind-ok _ _ _ (webhook-run d _)
      ∙ run-pure _ _

  registered-by_order :
      (d : CardData) (card : E.card.State)
      → get_by_order_id E c.order_id s ≡ none
      → get_by_order_id E c.order_id (registered card d) ≡ some (key_of out c d)
  unfolding get_by_order_id
  registered-by_order d card new =
      let before =
        rw (L.billing_keys.scalar-rows (has_order_id c.order_id) s.billing_keys) at new in
      rw (
        L.billing_keys.scalar-rows,
        L.billing_keys.rows-insert,
        first-append,
        before,
        eq_refl c.order_id,
      )

  registered-usable :
      (d : CardData) (card : E.card.State)
      → get_billing_key E ("bk-" <> out.key_hex) s ≡ none
      → get_billing_key E ("bk-" <> out.key_hex) (registered card d) ≡ some (key_of out c d)
  unfolding get_billing_key
  registered-usable d card new =
      let before =
        rw (L.billing_keys.scalar-rows (has_billing_key ("bk-" <> out.key_hex)) s.billing_keys) at
          new in
      rw (
        L.billing_keys.scalar-rows,
        L.billing_keys.rows-insert,
        first-append,
        before,
        eq_refl ("bk-" <> out.key_hex),
      )

  -- A registration of an order that has no billing key yet, with a card that the card company
  -- verifies and a billing key that is new: it is answered with the billing key, whether or not the
  -- webhook to the backend gets through, and the key is then found, active and with the card's
  -- token, both by itself and by its order. After that a registration of the same order, with any
  -- card data, leaves the billing keys as they are.
  pub complete-IsRegistered :
      (d : CardData) (card : E.card.State)
      → get_by_order_id E c.order_id s ≡ none
      → get_billing_key E ("bk-" <> out.key_hex) s ≡ none
      → E.card.verify (verify_request c) s.card ≡ (ok d, card)
      → (t : State E) × IsRegistered d t
  unfolding complete_card_registration register_once save_verified
  complete-IsRegistered d card new_order new_key verifies = (
    registered card d,
    record {
      answers =
          run-gets-bind _ _ s
          ∙ ap (λ o. register_once E fallback out c o s) new_order
          ∙ bind-ok _ _ s (verified-run d card verifies)
          ∙ stored-run d card new_order new_key;
      usable = registered-usable d card new_key;
      by_order = registered-by_order d card new_order;
      again = λ fallback_then later again.
          repeat-run fallback_then later (record again { order_id = c.order_id }) (key_of out c d) _
            (registered-by_order d card new_order);
    },
  )
