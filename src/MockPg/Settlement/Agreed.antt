-- ===== src/MockPg/Settlement/Agreed.antt =====
-- Any sequence of charges at the mock PG, with the card company behind it.
use car_pay_in.Base.{String, ap, arith, if◌then◌else◌, none, refl, some, ℕ, ◌==◌, ◌∙◌, ◌≡◌}
use car_pay_in.Exec.{Result}
use car_pay_in.MockCard.Approved.{approve-Approved}
use car_pay_in.MockPg.{
  ApproveRequest, BillingKey, CardData, Env, IsLawful, PgTransaction, State, VerifyRequest, pending,
}
use car_pay_in.MockPg.Charge.{ChargeBillingKeyCommand, ChargeBillingKeyResult, request_for}
use car_pay_in.MockPg.Charge.Ends.{
  Run, answer_at, asked, asked_state, clash, decided, repeated, transaction_of, unknown, unusable,
}
use car_pay_in.MockPg.Charge.Ledger.{appended-found, asked-rows, decided-same}
use car_pay_in.MockPg.Charge.OneApproval.{Charges, no_charge, then_charge}
use car_pay_in.MockPg.Charge.Runs.{charge-Run}
use car_pay_in.MockPg.Repositories.{change_transaction, get_by_idempotency_key}
use car_pay_in.MockPg.Settlement.{
  Delivery, answer_lost, approve_by, command_of, delivered, pg_env, request_lost,
}
use car_pay_in.MockPg.Settlement.Agreement.{
  Agree, Consulted, heard-Consulted, payment_at, took_nothing, unbacked, unheard-Consulted,
  unpaid-Agree,
}
use car_pay_in.MockPg.Settlement.Decisions.{Consulted-Agree}
use car_pay_in.Table.{Table}
use mathlib.Core.Path.{fun_ext, subst⁻¹}
use car_pay_in.MockCard

module _ {C : MockCard.Env} (M : MockCard.IsLawful C) (drawn : ℕ → MockCard.Drawn)
    (delivery : ℕ → Delivery)
    (verify : VerifyRequest → MockCard.State C → Result CardData × MockCard.State C)
    (keys : Table BillingKey) (transactions : Table PgTransaction) (text : String) where
  abbrev E : Env
  E = pg_env C drawn delivery verify keys transactions text

  by-Consulted :
      (n : ℕ) (d : Delivery) (r : ApproveRequest) (u : MockCard.State C)
      → payment_at C r u u r.idempotency_key ≡ none
      → Consulted C r u (approve_by C drawn delivery verify n d r u)
  by-Consulted n delivered r u new =
      heard-Consulted C r u M (drawn n) new (approve-Approved M (drawn n) (command_of r) u)
  by-Consulted n answer_lost r u new =
      unheard-Consulted C r u M (drawn n) new (approve-Approved M (drawn n) (command_of r) u)
  by-Consulted n request_lost r u new = took_nothing _

  -- The PG's transactions agree with the card company's payments.
  abbrev pub AreSettled : State E → Type 0
  AreSettled s =
      Agree (λ k. get_by_idempotency_key E k s) (λ k. MockCard.get_by_idempotency_key C k s.card.0)

  module _ (L : IsLawful E) (tx_hex : String) (c : ChargeBillingKeyCommand) (s : State E) where
    asked-AreSettled :
        (b : BillingKey)
        → get_by_idempotency_key E c.idempotency_key s ≡ none
        → AreSettled s
        → AreSettled (asked_state E tx_hex c b s)
    unfolding change_transaction
    asked-AreSettled b new agree =
        let r = request_for c b.card_token in
        let x = transaction_of tx_hex c b pending none in
        let z = decided E (answer_at E tx_hex c b s) x in
        let same = (decided-same E (answer_at E tx_hex c b s) x).0 in
        let there =
          appended-found L z s (asked_state E tx_hex c b s)
            (ap (λ k. get_by_idempotency_key E k s) same ∙ new) (asked-rows L tx_hex c b s new) in
        subst⁻¹
          (λ p.
            Agree p (λ k. MockCard.get_by_idempotency_key C k (asked_state E tx_hex c b s).card.0))
          (fun_ext
            (λ k. there k ∙ ap (λ j. if j == k then some z else get_by_idempotency_key E k s) same))
          (Consulted-Agree E C c x s.card.0 (λ k. get_by_idempotency_key E k s) r refl refl new
            agree
            (by-Consulted s.card.1 (delivery s.card.1) r s.card.0
              (unbacked c.idempotency_key agree new)))

    Run-AreSettled :
        {e : Result ChargeBillingKeyResult × State E}
        → Run E tx_hex c s e
        → AreSettled s
        → AreSettled e.1
    Run-AreSettled (repeated x found) agree = agree
    Run-AreSettled (unknown new missing) agree = agree
    Run-AreSettled (clash b status reason new fails) agree = agree
    Run-AreSettled (unusable b new found idle fits) agree =
        subst⁻¹ (λ p. Agree p (λ k. MockCard.get_by_idempotency_key C k s.card.0))
          (fun_ext (appended-found L _ s _ new (L.transactions.rows-insert _ _)))
          (unpaid-Agree c.idempotency_key _ new (λ h. ground (arith, h)) agree)
    Run-AreSettled (asked b new found usable fits) agree = asked-AreSettled b new agree

  -- From tables in which the PG's transactions agree with the card company's payments, after any
  -- sequence of charges, with answers and requests between the two lost anywhere: each payment at
  -- the card company has a transaction of its key at the PG, of the same amount and card, and each
  -- transaction that is a success at the PG has a payment that is one, of the same amount, card and
  -- approval number.
  pub charges-Agree :
      (L : IsLawful E) {s t : State E}
      → Charges s t
      → Agree
          (λ k. get_by_idempotency_key E k s)
          (λ k. MockCard.get_by_idempotency_key C k s.card.0)
      → Agree
          (λ k. get_by_idempotency_key E k t)
          (λ k. MockCard.get_by_idempotency_key C k t.card.0)
  charges-Agree L no_charge agree = agree
  charges-Agree L (then_charge {t = t} tx_hex c before) agree =
      Run-AreSettled L tx_hex c t (charge-Run L tx_hex c t) (charges-Agree L before agree)
