-- ===== src/MockPg/Settlement/Decisions.antt =====
-- How a decision under a new key keeps the agreement.
use car_pay_in.Base.{
  Option, String, arith, eq_iff, if◌then◌else◌, inl, inr, none, refl, some, ◌==◌, ◌∙◌, ◌≡◌, ◌≢◌,
  ◌⊎◌,
}
use car_pay_in.Exec.{Exception, Result, err, ok, runtime_error}
use car_pay_in.MockPg.{Approval, ApproveRequest, Env, PgTransaction, failed, success}
use car_pay_in.MockPg.Charge.{ChargeBillingKeyCommand}
use car_pay_in.MockPg.Charge.Ends.{decided, numbered}
use car_pay_in.MockPg.Charge.Ledger.{decided-same}
use car_pay_in.MockPg.Registration.{succeeded}
use car_pay_in.MockPg.Repositories.{with_status}
use car_pay_in.MockPg.Settlement.{approval_of, status_text}
use car_pay_in.MockPg.Settlement.Agreement.{
  Agree, Consulted, IsPaid, Matches, entered-Agree, payment_at, took, took_nothing, unbacked,
}
use mathlib.Core.Path.{fun_ext}
use mathlib.Core.Path.{fun_ext}
use mathlib.Core.Option.{some-injective}
use mathlib.Core.Path.{subst, subst⁻¹}
use car_pay_in.MockCard

-- what a heard answer says of the payment
heard-paid :
    (E : Env) (y : MockCard.Tx) (x : PgTransaction)
    → (decided E (ok (approval_of (MockCard.result_of y))) x).status ≡ success
    → (y.status ≡ MockCard.success)
      × ((decided E (ok (approval_of (MockCard.result_of y))) x).approval_no ≡ y.approval_no)
unfolding decided
heard-paid E y x succeeded = by_status y.status succeeded
  where
    by_status :
        (st : MockCard.TxStatus)
        → let z =
            if status_text st == "success"
            then numbered (some y.tx_id) (some y.approval_no) x
            else with_status failed none (some y.tx_id) (some "card_payment_failed") x in
          z.status ≡ success → (st ≡ MockCard.success) × (z.approval_no ≡ y.approval_no)
    by_status MockCard.success h = (refl, refl)
    by_status MockCard.failed h = absurd (ground arith)
    by_status MockCard.cancelled h = absurd (ground arith)

unheard-failed :
    (E : Env) (e : Exception) (x : PgTransaction) → (decided E (err e) x).status ≢ success
unfolding decided
unheard-failed E e x h = ground arith

module _ (E : Env) (C : MockCard.Env) (c : ChargeBillingKeyCommand) (x : PgTransaction)
    (u : MockCard.State C) where
  heard-IsPaid :
      (y : MockCard.Tx) (a : Result Approval)
      → (a ≡ ok (approval_of (MockCard.result_of y)))
        ⊎ (a ≡ err (runtime_error "mock_card_charge_failed"))
      → Matches (decided E a x) y
      → (decided E a x).status ≡ success
      → IsPaid (some y) (decided E a x)
  heard-IsPaid y a (inl heard_it) matches succeeded =
      subst⁻¹ (λ b. IsPaid (some y) (decided E b x)) heard_it
        (let (paid, number) =
            heard-paid E y x (subst (λ b. (decided E b x).status ≡ success) heard_it succeeded) in
          record {
            payment = y;
            taken = refl;
            matches = subst (λ b. Matches (decided E b x) y) heard_it matches;
            status = paid;
            approval_no = number;
          })
  heard-IsPaid y a (inr lost) matches succeeded =
      absurd (unheard-failed E _ x (subst (λ b. (decided E b x).status ≡ success) lost succeeded))

  -- the agreement after a decision under a new key
  pub Consulted-Agree :
      (p : String → Option PgTransaction) (r : ApproveRequest)
      {e : Result Approval × MockCard.State C}
      → x.amount ≡ r.amount
      → x.card_token ≡ r.card_token
      → p r.idempotency_key ≡ none
      → Agree p (payment_at C r u u)
      → Consulted C r u e
      → Agree
          (λ k. if r.idempotency_key == k then some (decided E e.0 x) else p k)
          (payment_at C r u e.1)
  Consulted-Agree p r amount token new agree (took y v a amount_y token_y then_found answer) =
      let (_, same_amount, same_token) = decided-same E a x in
      let matches : Matches (decided E a x) y =
        (same_amount ∙ amount ∙ amount_y, same_token ∙ token ∙ token_y) in
      subst⁻¹ (Agree (λ k. if r.idempotency_key == k then some (decided E a x) else p k))
        (fun_ext then_found)
        (entered-Agree r.idempotency_key (decided E a x) (some y) agree
          (λ z same. subst (Matches (decided E a x)) (some-injective y z same) matches)
          (heard-IsPaid y a answer matches))
  Consulted-Agree p r amount token new agree (took_nothing e) =
      let none_there = unbacked r.idempotency_key agree new in
      subst (Agree (λ k. if r.idempotency_key == k then some (decided E (err e) x) else p k))
        (fun_ext (λ k. kept_none k none_there))
        (entered-Agree r.idempotency_key (decided E (err e) x) none agree
          (λ z same. absurd (ground (arith, same)))
          (λ succeeded. absurd (unheard-failed E e x succeeded)))
    where
      kept_none :
          (k : String)
          → payment_at C r u u r.idempotency_key ≡ none
          → (if r.idempotency_key == k then none else payment_at C r u u k) ≡ payment_at C r u u k
      kept_none k none_there = ground (arith, none_there, eq_iff r.idempotency_key k)
