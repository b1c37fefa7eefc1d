-- ===== src/MockPg/Charge/Runs.antt =====
-- A charge of a billing key ends in one of the ways of `Run`.
use mathlib.Core.Path.{subst⁻¹}
use car_pay_in.Base.{
  Bool, Bool-cases, Option, String, ap, eq_refl, false, if◌then◌else◌, inl, inr, none, refl, some,
  true, ◌<>◌, ◌==◌, ◌∙◌, ◌≡◌,
}
use car_pay_in.Exec.{Exception, Result, catch, err, integrity_error, ok, other, ◌>>=◌}
use car_pay_in.Exec.Run.{
  bind-err, bind-ok, catch-bind, catch-err, catch-ok, or_raise-some, run-gets-bind, run-modify,
  run-pure,
}
use car_pay_in.MockPg.{
  Approval, BillingKey, Env, IsLawful, PgTransaction, State, TxStatus, approve_payment, failed,
  has_key, is_active, pending, success, text_of, tx_fits,
}
use car_pay_in.MockPg.Charge.{
  ChargeBillingKeyCommand, abort, accept, ask_card, charge_active, charge_billing_key,
  charge_inactive, charge_known, charge_once, create, decline, request_for, result_of, settle,
  status_or_success,
}
use car_pay_in.MockPg.Charge.Ends.{
  Run, answer_at, asked, asked_state, called, clash, decided, inserted, numbered, repeated,
  transaction_of, unknown, unusable,
}
use car_pay_in.MockPg.Repositories.{
  add_transaction, change_transaction, create_transaction, get_billing_key, get_by_idempotency_key,
  store_transaction, update_transaction_status, with_status,
}
use car_pay_in.Table.{first-append}

module _ {E : Env} (L : IsLawful E) (tx_hex : String) (c : ChargeBillingKeyCommand) where
  inserted-found :
      (x : PgTransaction) (s : State E)
      → get_by_idempotency_key E x.idempotency_key s ≡ none
      → get_by_idempotency_key E x.idempotency_key (inserted E x s) ≡ some x
  unfolding get_by_idempotency_key
  inserted-found x s new =
      let before =
        rw (L.transactions.scalar-rows (has_key x.idempotency_key) s.transactions) at new in
      rw (
        L.transactions.scalar-rows,
        L.transactions.rows-insert,
        first-append,
        before,
        eq_refl x.idempotency_key,
      )

  called-found :
      (b : BillingKey) (k : String) (s : State E)
      → get_by_idempotency_key E k (called E tx_hex c b s) ≡ get_by_idempotency_key E k s
  unfolding get_by_idempotency_key
  called-found b k s = refl

  update-run :
      (status : TxStatus) (a t f : Option String) (x : PgTransaction) (s : State E)
      → get_by_idempotency_key E c.idempotency_key s ≡ some x
      → update_transaction_status E c.idempotency_key status a t f s
        ≡ (ok tt, change_transaction E c.idempotency_key (with_status status a t f) s)
  unfolding update_transaction_status
  update-run status a t f x s found =
      run-gets-bind _ _ s ∙ bind-ok _ _ s (or_raise-some _ s found) ∙ run-modify _ s

  create-run :
      (b : BillingKey) (status : TxStatus) (reason : Option String) (s : State E)
      → get_by_idempotency_key E c.idempotency_key s ≡ none
      → get_billing_key E c.billing_key s ≡ some b
      → create E tx_hex c status reason s
        ≡ store_transaction E (transaction_of tx_hex c b status reason) s
  unfolding create create_transaction add_transaction
  create-run b status reason s new found =
      run-gets-bind _ _ s
      ∙ ap
          (λ o.
            add_transaction E ("tx-" <> tx_hex) c.idempotency_key c.billing_key c.amount c.currency
              status reason o s)
          new
      ∙ run-gets-bind _ _ s
      ∙ bind-ok _ _ s (or_raise-some _ s found)

  store-fits :
      (x : PgTransaction) (s : State E)
      → tx_fits (E.transactions.rows s.transactions) x ≡ true
      → store_transaction E x s ≡ (ok x, inserted E x s)
  unfolding store_transaction ◌>>=◌
  store-fits x s fits = rw fits

  store-clash :
      (x : PgTransaction) (s : State E)
      → tx_fits (E.transactions.rows s.transactions) x ≡ false
      → store_transaction E x s ≡ (err integrity_error, s)
  unfolding store_transaction ◌>>=◌
  store-clash x s fails = rw fails

  abort-run :
      (b : BillingKey) (e : Exception) (s : State E)
      → get_by_idempotency_key E c.idempotency_key s ≡ some (transaction_of tx_hex c b pending none)
      → abort E tx_hex c e s ≡ (
        ok (
            result_of (
              with_status failed none none
                (some (text_of E e))
                (transaction_of tx_hex c b pending none))),
        change_transaction E c.idempotency_key
            (with_status failed none none (some (text_of E e)))
            s,
      )
  unfolding abort
  abort-run b e s found = bind-ok _ _ s (update-run failed none none _ _ s found) ∙ run-pure _ _

  no_number-run :
      (t : Option String) (s : State E)
      → accept E tx_hex c t none s ≡ (err (other "'approval_no'"), s)
  unfolding accept ◌>>=◌
  no_number-run t s = refl

  numbered-run :
      (b : BillingKey) (t : Option String) (o : Option (Option String)) (s : State E)
      → get_by_idempotency_key E c.idempotency_key s ≡ some (transaction_of tx_hex c b pending none)
      → catch (accept E tx_hex c t o) (abort E tx_hex c) s ≡ (
        ok (result_of (numbered t o (transaction_of tx_hex c b pending none))),
        change_transaction E c.idempotency_key (numbered t o) s,
      )
  unfolding accept
  numbered-run b t (some n) s found =
      catch-ok _ _ s (bind-ok _ _ s (update-run success n t none _ s found) ∙ run-pure _ _)
  numbered-run b t none s found =
      catch-err _ _ s (no_number-run t s) ∙ abort-run b (other "'approval_no'") s found

  decline-run :
      (b : BillingKey) (t : Option String) (s : State E)
      → get_by_idempotency_key E c.idempotency_key s ≡ some (transaction_of tx_hex c b pending none)
      → catch (decline E tx_hex c t) (abort E tx_hex c) s ≡ (
        ok (
            result_of (
              with_status failed none t
                (some "card_payment_failed")
                (transaction_of tx_hex c b pending none))),
        change_transaction E c.idempotency_key
            (with_status failed none t (some "card_payment_failed"))
            s,
      )
  unfolding decline
  decline-run b t s found =
      catch-ok _ _ s (bind-ok _ _ s (update-run failed none t _ _ s found) ∙ run-pure _ _)

  settle-by :
      (b : BillingKey) (a : Approval) (d : Bool) (s : State E)
      → get_by_idempotency_key E c.idempotency_key s ≡ some (transaction_of tx_hex c b pending none)
      → catch
          (if d then accept E tx_hex c a.tx_id a.approval_no else decline E tx_hex c a.tx_id)
          (abort E tx_hex c)
          s
        ≡ (
          ok (
              result_of (
                if d
                then numbered a.tx_id a.approval_no (transaction_of tx_hex c b pending none)
                else with_status failed none a.tx_id
                    (some "card_payment_failed")
                    (transaction_of tx_hex c b pending none))),
          change_transaction E c.idempotency_key
              (λ x.
                if d
                then numbered a.tx_id a.approval_no x
                else with_status failed none a.tx_id (some "card_payment_failed") x)
              s,
        )
  settle-by b a true s found = numbered-run b a.tx_id a.approval_no s found
  settle-by b a false s found = decline-run b a.tx_id s found

  ask-run :
      (b : BillingKey) (answer : Result Approval) (s t : State E)
      → approve_payment E (request_for c b.card_token) s ≡ (answer, t)
      → get_by_idempotency_key E c.idempotency_key t ≡ some (transaction_of tx_hex c b pending none)
      → ask_card E tx_hex c b.card_token s ≡ (
        ok (result_of (decided E answer (transaction_of tx_hex c b pending none))),
        change_transaction E c.idempotency_key (decided E answer) t,
      )
  unfolding ask_card
  ask-run b (ok a) s t answers found =
      catch-bind _ _ _ s answers
      ∙ unfold settle decided in settle-by b a (status_or_success a.status == "success") t found
  ask-run b (err e) s t answers found =
      catch-err _ _ s (bind-err _ _ s answers) ∙ unfold decided in abort-run b e t found

  asked-run :
      (b : BillingKey) (s : State E)
      → get_by_idempotency_key E c.idempotency_key s ≡ none
      → ask_card E tx_hex c b.card_token (inserted E (transaction_of tx_hex c b pending none) s) ≡ (
        ok (
            result_of
              (decided E (answer_at E tx_hex c b s) (transaction_of tx_hex c b pending none))),
        asked_state E tx_hex c b s,
      )
  asked-run b s new =
      let x = transaction_of tx_hex c b pending none in
      ask-run b _ (inserted E x s) _ (unfold approve_payment in refl)
        (called-found b c.idempotency_key (inserted E x s) ∙ inserted-found x s new)

  active-Run :
      (b : BillingKey) (s : State E)
      → get_by_idempotency_key E c.idempotency_key s ≡ none
      → get_billing_key E c.billing_key s ≡ some b
      → is_active b.status ≡ true
      → Run E tx_hex c s (charge_active E tx_hex c b.card_token s)
  unfolding charge_active
  active-Run b s new found usable =
      let x = transaction_of tx_hex c b pending none in
      elim (Bool-cases (tx_fits (E.transactions.rows s.transactions) x)) [
        | inl fits ↦
            subst⁻¹ (Run E tx_hex c s)
              (bind-ok _ _ s (create-run b pending none s new found ∙ store-fits x s fits)
                ∙ asked-run b s new)
              (asked b new found usable fits)
        | inr fails ↦
            subst⁻¹ (Run E tx_hex c s)
              (bind-err (create E tx_hex c pending none) _ s
                (create-run b pending none s new found ∙ store-clash x s fails))
              (clash b pending none new fails)
      ]

  inactive-Run :
      (b : BillingKey) (s : State E)
      → get_by_idempotency_key E c.idempotency_key s ≡ none
      → get_billing_key E c.billing_key s ≡ some b
      → is_active b.status ≡ false
      → Run E tx_hex c s (charge_inactive E tx_hex c s)
  unfolding charge_inactive
  inactive-Run b s new found usable =
      let why = some "inactive_billing_key" in
      let x = transaction_of tx_hex c b failed why in
      elim (Bool-cases (tx_fits (E.transactions.rows s.transactions) x)) [
        | inl fits ↦
            subst⁻¹ (Run E tx_hex c s)
              (bind-ok (create E tx_hex c failed why) _ s
                  (create-run b failed why s new found ∙ store-fits x s fits)
                ∙ run-pure _ _)
              (unusable b new found usable fits)
        | inr fails ↦
            subst⁻¹ (Run E tx_hex c s)
              (bind-err (create E tx_hex c failed why) _ s
                (create-run b failed why s new found ∙ store-clash x s fails))
              (clash b failed why new fails)
      ]

  known-Run :
      (o : Option BillingKey) (s : State E)
      → get_by_idempotency_key E c.idempotency_key s ≡ none
      → get_billing_key E c.billing_key s ≡ o
      → Run E tx_hex c s (charge_known E tx_hex c o s)
  unfolding charge_known
  known-Run none s new found = unfold ◌>>=◌ in unknown new found
  known-Run (some b) s new found = elim (Bool-cases (is_active b.status)) [
    | inl usable ↦ rw usable (active-Run b s new found usable)
    | inr idle ↦ rw idle (inactive-Run b s new found idle)
  ]

  once-Run :
      (o : Option PgTransaction) (s : State E)
      → get_by_idempotency_key E c.idempotency_key s ≡ o
      → Run E tx_hex c s (charge_once E tx_hex c o s)
  unfolding charge_once
  once-Run (some x) s found = unfold ◌>>=◌ in repeated x found
  once-Run none s new = rw run-gets-bind (known-Run _ s new refl)

  -- each run of the service is one of those
  pub charge-Run : (s : State E) → Run E tx_hex c s (charge_billing_key E tx_hex c s)
  unfolding charge_billing_key
  charge-Run s = rw run-gets-bind (once-Run _ s refl)
