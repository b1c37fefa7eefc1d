-- ===== src/Backend/Outbox/Charges.antt =====
-- The outbox worker asks for no charge and stores no transaction.
use car_pay_in.Backend.Env.{Env, IsLawful, publish_payment, record_call}
use car_pay_in.Backend.Models.{PaymentNotification, PaymentNotificationOutbox}
use car_pay_in.Backend.Outbox.{
  after_publish, claim_due, claim_rows, get, mark_failed, mark_published, publish_all, publish_one,
  run_once,
}
use car_pay_in.Backend.Payment.OneCharge.{IsCharged, publish_call-Keeps}
use car_pay_in.Base.{List, String, [], ℕ, ◌∷◌}
use car_pay_in.Exec.{Result, err, ok}
use car_pay_in.Exec.Keeps.{Keeps, Keeps-bind, Keeps-gets, Keeps-modify, Keeps-pure, keeps_rules}
use car_pay_in.Table.{Batch}

module _ {E : Env} (L : IsLawful E) (B : Batch E.outbox) where
  claim_all :
      (now lease : ℕ) (rs : List PaymentNotificationOutbox)
      → Keeps (IsCharged L) (claim_rows B now lease rs)
  unfolding claim_rows
  claim_all now lease [] = search keeps_rules
  claim_all now lease (r ∷ rs) =
      Keeps-bind _ _ (Keeps-modify _ (λ s v. v))
        (λ _. Keeps-bind _ _ (claim_all now lease rs) (λ _. Keeps-pure _))

  look_up : (i : String) → Keeps (IsCharged L) (get B i)
  unfolding get
  look_up i = search keeps_rules

  finish :
      (now : ℕ) (r : PaymentNotificationOutbox) (o : Result (Unit {0}))
      → Keeps (IsCharged L) (after_publish B now r o)
  unfolding after_publish mark_published mark_failed
  finish now r (ok _) = Keeps-bind _ _ (look_up _) (λ _. Keeps-modify _ (λ s v. v))
  finish now r (err e) = Keeps-bind _ _ (look_up _) (λ _. Keeps-modify _ (λ s v. v))

  announce : (p : PaymentNotification) → Keeps (IsCharged L) (record_call E (publish_payment p))
  announce p = publish_call-Keeps L p

  publish_each :
      (now : ℕ) (publisher : String → Result (Unit {0})) (rs : List PaymentNotificationOutbox)
      → Keeps (IsCharged L) (publish_all B now publisher rs)
  unfolding publish_all publish_one
  publish_each now publisher [] = search keeps_rules
  publish_each now publisher (r ∷ rs) =
      Keeps-bind _ _
        (Keeps-bind _ _ (announce r.payload) (λ _. finish now r (publisher r.notification_id)))
        (λ _. publish_each now publisher rs)

  pub run_once-IsCharged :
      (now batch_size lease : ℕ) (publisher : String → Result (Unit {0}))
      → Keeps (IsCharged L) (run_once B now batch_size lease publisher)
  unfolding run_once claim_due
  run_once-IsCharged now batch_size lease publisher =
      Keeps-bind _ _ (Keeps-bind _ _ (Keeps-gets _) (claim_all now lease))
        (λ rs. Keeps-bind _ _ (publish_each now publisher rs) (λ _. Keeps-pure _))
