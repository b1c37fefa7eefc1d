-- ===== src/Backend/Outbox/Attempts.antt =====
-- The number of attempts of each outbox notification.
use car_pay_in.Backend.Env.{Call, Env, IsLawful, State, publish_payment, record_call}
use car_pay_in.Backend.Models.{PaymentNotification, PaymentNotificationOutbox, Transaction}
use car_pay_in.Backend.Outbox.{
  after_publish, change_notification, claim_due, claim_rows, claimed, get, has_notification_id,
  is_due, mark_failed, mark_published, publish_all, publish_one, run_once, write_claim,
  write_failure, write_success,
}
use car_pay_in.Backend.Payment.{PaymentOutcome, ProcessPaymentCommand, process_payment}
use car_pay_in.Backend.Payment.Keeps.{payment-Keeps}
use car_pay_in.Backend.Transactions.{add_notification, add_transaction, new_notification}
use car_pay_in.Base.{
  All, Bool, Bool-cases, List, Option, String, [], arith, false, if◌then◌else◌, inl, inr, leb, none,
  refl, some, true, ℕ, ◌∷◌, ◌≡◌, ◌≤◌,
}
use car_pay_in.Exec.{Result, err, modify, ok, ◌>>=◌}
use car_pay_in.Exec.Keeps.{
  Keeps, Keeps-bind, Keeps-gets, Keeps-modify, Keeps-pure, Keeps-raise_if, keeps_rules,
}
use car_pay_in.Table.{All-append, Batch, IsBatch, amend}

-- The column default of `max_attempts`, and no more attempts than that.
pub record IsBounded (r : PaymentNotificationOutbox) : Type 0 where
  pub five : r.max_attempts ≡ 5
  pub within : r.attempts ≤ 5

abbrev pub AreBounded : (E : Env) → State E → Type 0
AreBounded E s = All IsBounded (E.outbox.rows s.outbox)

-- a change of rows that keeps a property of each
All-amend :
    {Row : Type 0} (P : Row → Type 0) (q : Row → Bool) (f : Row → Row) (rs : List Row)
    → ((r : Row) → P r → P (f r))
    → All P rs
    → All P (amend q f rs)
unfolding amend
All-amend P q f [] keeps h = tt
All-amend P q f (r ∷ rs) keeps h = (either (q r), All-amend P q f rs keeps h.1)
  where
    either : (b : Bool) → P (if b then f r else r)
    either true = keeps r h.0
    either false = h.0

claim-IsBounded :
    (now lease : ℕ) (r : PaymentNotificationOutbox)
    → IsBounded r
    → is_due now r ≡ true
    → (x : PaymentNotificationOutbox) → IsBounded x
    → IsBounded (write_claim (claimed now lease r) x)
unfolding is_due
claim-IsBounded now lease r v due x w = record {
  five = w.five;
  within = ground (arith, v.five, v.within, due);
}

failure-IsBounded :
    (now : ℕ) (reason : String) (delay : ℕ) (x : PaymentNotificationOutbox)
    → IsBounded x
    → IsBounded (write_failure now reason delay x)
failure-IsBounded now reason delay x v = elim (Bool-cases (leb x.max_attempts x.attempts)) [
  | inl last ↦ rw last (record { five = v.five; within = v.within })
  | inr more ↦ rw more (record { five = v.five; within = v.within })
]

module _ {E : Env} (L : IsLawful E) {B : Batch E.outbox} (D : IsBatch B) where
  change-Keeps :
      (i : String) (f : PaymentNotificationOutbox → PaymentNotificationOutbox)
      → ((r : PaymentNotificationOutbox) → IsBounded r → IsBounded (f r))
      → Keeps (AreBounded E) (modify (change_notification B i f))
  change-Keeps i f keeps =
      Keeps-modify _
        (λ s v. rw L.outbox.rows-update (All-amend IsBounded (has_notification_id i) f _ keeps v))

  claim_rows-Keeps :
      (now lease : ℕ) (rs : List PaymentNotificationOutbox)
      → All (λ r. IsBounded r × (is_due now r ≡ true)) rs
      → Keeps (AreBounded E) (claim_rows B now lease rs)
  unfolding claim_rows
  claim_rows-Keeps now lease [] h = search keeps_rules
  claim_rows-Keeps now lease (r ∷ rs) h =
      Keeps-bind _ _
        (change-Keeps r.notification_id (write_claim (claimed now lease r))
          (claim-IsBounded now lease r h.0.0 h.0.1))
        (λ _. Keeps-bind _ _ (claim_rows-Keeps now lease rs h.1) (λ _. Keeps-pure _))

  claim_due-Keeps : (now limit lease : ℕ) → Keeps (AreBounded E) (claim_due B now limit lease)
  unfolding claim_due ◌>>=◌
  claim_due-Keeps now limit lease = record {
    at = λ s v.
        (claim_rows-Keeps now lease _
            (D.scalars_sound IsBounded (is_due now) (λ r. r.created_at) limit s.outbox v)).at
          s v;
  }

  get-Keeps : (i : String) → Keeps (AreBounded E) (get B i)
  unfolding get
  get-Keeps i = search keeps_rules

  mark_published-Keeps : (now : ℕ) (i : String) → Keeps (AreBounded E) (mark_published B now i)
  unfolding mark_published
  mark_published-Keeps now i = Keeps-bind _ _ (get-Keeps i) (λ r.
      change-Keeps r.notification_id (write_success now)
        (λ x v. record { five = v.five; within = v.within }))

  mark_failed-Keeps :
      (now : ℕ) (i reason : String) (delay : ℕ)
      → Keeps (AreBounded E) (mark_failed B now i reason delay)
  unfolding mark_failed
  mark_failed-Keeps now i reason delay = Keeps-bind _ _ (get-Keeps i) (λ r.
      change-Keeps r.notification_id (write_failure now reason delay)
        (failure-IsBounded now reason delay))

  record_call-Keeps : (x : Call) → Keeps (AreBounded E) (record_call E x)
  unfolding record_call
  record_call-Keeps x = record { at = λ s v. v }

  after_publish-Keeps :
      (now : ℕ) (r : PaymentNotificationOutbox) (o : Result (Unit {0}))
      → Keeps (AreBounded E) (after_publish B now r o)
  unfolding after_publish
  after_publish-Keeps now r (ok _) = mark_published-Keeps now r.notification_id
  after_publish-Keeps now r (err e) = mark_failed-Keeps now r.notification_id _ _

  publish_all-Keeps :
      (now : ℕ) (publisher : String → Result (Unit {0})) (rs : List PaymentNotificationOutbox)
      → Keeps (AreBounded E) (publish_all B now publisher rs)
  unfolding publish_all publish_one
  publish_all-Keeps now publisher [] = search keeps_rules
  publish_all-Keeps now publisher (r ∷ rs) =
      Keeps-bind _ _
        (Keeps-bind _ _ (record_call-Keeps (publish_payment r.payload))
          (λ _. after_publish-Keeps now r (publisher r.notification_id)))
        (λ _. publish_all-Keeps now publisher rs)

  pub run_once-Keeps :
      (now batch_size lease : ℕ) (publisher : String → Result (Unit {0}))
      → Keeps (AreBounded E) (run_once B now batch_size lease publisher)
  unfolding run_once
  run_once-Keeps now batch_size lease publisher =
      Keeps-bind _ _ (claim_due-Keeps now batch_size lease)
        (λ rs. Keeps-bind _ _ (publish_all-Keeps now publisher rs) (λ _. Keeps-pure _))

  enqueue-Keeps :
      (now : ℕ) (i : String) (x : Transaction) (d : String) (m : PaymentNotification)
      (o : Option PaymentNotificationOutbox)
      → Keeps (AreBounded E) (add_notification E (new_notification now i x d m) o)
  unfolding add_notification
  enqueue-Keeps now i x d m (some known) = search keeps_rules
  enqueue-Keeps now i x d m none = Keeps-modify _ (λ s v. rw L.outbox.rows-insert (
      All-append IsBounded (new_notification now i x d m) _ v
        (record { five = refl; within = omega arith })))

  add_transaction-Keeps : (tx : Transaction) → Keeps (AreBounded E) (add_transaction E tx)
  unfolding add_transaction
  add_transaction-Keeps tx =
      Keeps-bind _ _ (Keeps-gets _)
        (λ fits. Keeps-bind _ _ (Keeps-raise_if _ _) (λ _. Keeps-modify _ (λ s v. v)))

  pub process_payment-AreBounded :
      (now : ℕ) (out : PaymentOutcome) (c : ProcessPaymentCommand)
      → Keeps (AreBounded E) (process_payment E now out c)
  process_payment-AreBounded now out c =
      payment-Keeps (AreBounded E) add_transaction-Keeps (λ key f. Keeps-modify _ (λ s v. v))
        enqueue-Keeps (λ g. Keeps-modify _ (λ s v. v)) (λ g. Keeps-modify _ (λ s v. v))
        record_call-Keeps now out c
