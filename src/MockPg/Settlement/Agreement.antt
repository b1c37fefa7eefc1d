-- ===== src/MockPg/Settlement/Agreement.antt =====
-- The transactions of the PG against the payments of the card company.
use car_pay_in.Base.{
  Bool, Option, Option-cases, String, ap, arith, eq_iff, false, if◌then◌else◌, inl, inr, none, refl,
  some, sym, true, ◌==◌, ◌∙◌, ◌≡◌, ◌≢◌, ◌⊎◌,
}
use car_pay_in.Exec.{Exception, Result, err, ok, runtime_error}
use car_pay_in.Integer.{pos}
use car_pay_in.MockCard.{success}
use car_pay_in.MockCard.Approved.{Approved, known_payment, new_payment, no_payment}
use car_pay_in.MockPg.{Approval, ApproveRequest, PgTransaction, success}
use car_pay_in.MockPg.Registration.{succeeded}
use car_pay_in.MockPg.Settlement.{approval_of, command_of, heard}
use mathlib.Core.Option.{some-injective}
use mathlib.Core.Path.{fun_ext, subst}
use car_pay_in.MockCard

-- the same amount, taken off the same card
abbrev pub Matches : PgTransaction → MockCard.Tx → Type 0
Matches x y = (x.amount ≡ pos y.amount) × (x.card_token ≡ y.card_token)

-- what the card company has taken for a transaction that is a success
pub record IsPaid (q : Option MockCard.Tx) (x : PgTransaction) : Type 0 where
  pub payment : MockCard.Tx
  pub taken : q ≡ some payment
  pub matches : Matches x payment
  pub status : payment.status ≡ MockCard.success
  pub approval_no : x.approval_no ≡ payment.approval_no

-- `p` gives the PG's transaction of an idempotency key, `q` the card company's payment. Each
-- payment has a transaction, and each transaction that is a success has been paid.
pub record Agree (p : String → Option PgTransaction) (q : String → Option MockCard.Tx)
    : Type 0 where
  pub backed :
      (k : String) (y : MockCard.Tx)
      → q k ≡ some y
      → (x : PgTransaction) × (p k ≡ some x) × Matches x y
  pub paid : (k : String) (x : PgTransaction) → p k ≡ some x → x.status ≡ success → IsPaid (q k) x

-- a new key on both sides
module _ {p : String → Option PgTransaction} {q : String → Option MockCard.Tx} (key : String)
    (x : PgTransaction) (o : Option MockCard.Tx) where
  pub entered-Agree :
      Agree p q
      → ((y : MockCard.Tx) → o ≡ some y → Matches x y)
      → (x.status ≡ success → IsPaid o x)
      → Agree (λ k. if key == k then some x else p k) (λ k. if key == k then o else q k)
  entered-Agree agree backed_now paid_now = record {
    backed = λ k y taken. by_key_backed k y (key == k) taken;
    paid = λ k z stored succeeded. by_key_paid k z (key == k) stored succeeded;
  }
    where
      by_key_backed :
          (k : String) (y : MockCard.Tx) (d : Bool)
          → (if d then o else q k) ≡ some y
          → (z : PgTransaction) × ((if d then some x else p k) ≡ some z) × Matches z y
      by_key_backed k y true taken = (x, refl, backed_now y taken)
      by_key_backed k y false taken = agree.backed k y taken

      by_key_paid :
          (k : String) (z : PgTransaction) (d : Bool)
          → (if d then some x else p k) ≡ some z
          → z.status ≡ success
          → IsPaid (if d then o else q k) z
      by_key_paid k z true stored succeeded =
          let same = some-injective x z stored in
          subst (IsPaid o) same (paid_now (ap (λ (w : PgTransaction). w.status) same ∙ succeeded))
      by_key_paid k z false stored succeeded = agree.paid k z stored succeeded

-- no payment without a transaction
pub unbacked :
    {p : String → Option PgTransaction} {q : String → Option MockCard.Tx} (k : String)
    → Agree p q
    → p k ≡ none
    → q k ≡ none
unbacked {q = q} k agree new = elim (Option-cases (q k)) [
  | inl missing ↦ missing
  | inr (y, taken) ↦
      let (x, there, _) = agree.backed k y taken in absurd (ground (arith, new, there))
]

-- What the card company does with a request whose key is new to it.
module _ (C : MockCard.Env) (r : ApproveRequest) (u : MockCard.State C) where
  abbrev pub payment_at : MockCard.State C → String → Option MockCard.Tx
  payment_at v k = MockCard.get_by_idempotency_key C k v

  pub data Consulted : Result Approval × MockCard.State C → Type 0 where
    took :
        (y : MockCard.Tx) (v : MockCard.State C) (a : Result Approval)
        → r.amount ≡ pos y.amount
        → r.card_token ≡ y.card_token
        → ((k : String)
            → payment_at v k ≡ (if r.idempotency_key == k then some y else payment_at u k))
        → (a ≡ ok (approval_of (MockCard.result_of y)))
          ⊎ (a ≡ err (runtime_error "mock_card_charge_failed"))
        → Consulted (a, v)
    took_nothing : (e : Exception) → Consulted (err e, u)

  module _ (L : MockCard.IsLawful C) (drawn : MockCard.Drawn)
      (new : payment_at u r.idempotency_key ≡ none) where
    pub heard-Consulted :
        {e : Result MockCard.ApproveCardPaymentResult × MockCard.State C}
        → Approved L drawn (command_of r) u e
        → Consulted (heard e.0, e.1)
    heard-Consulted (known_payment x found) = absurd (ground (arith, new, found))
    heard-Consulted (new_payment y v _ same amount token then_found) =
        took y v _ amount (sym token) then_found (inl refl)
    heard-Consulted (no_payment e) = took_nothing _

    pub unheard-Consulted :
        {e : Result MockCard.ApproveCardPaymentResult × MockCard.State C}
        → Approved L drawn (command_of r) u e
        → Consulted (err (runtime_error "mock_card_charge_failed"), e.1)
    unheard-Consulted (known_payment x found) = absurd (ground (arith, new, found))
    unheard-Consulted (new_payment y v _ same amount token then_found) =
        took y v _ amount (sym token) then_found (inr refl)
    unheard-Consulted (no_payment e) = took_nothing _

-- a transaction that has failed, under a new key and without a payment
pub unpaid-Agree :
    {p : String → Option PgTransaction} {q : String → Option MockCard.Tx} (key : String)
    (x : PgTransaction)
    → p key ≡ none
    → x.status ≢ success
    → Agree p q
    → Agree (λ k. if key == k then some x else p k) q
unpaid-Agree {p = p} {q = q} key x new unpaid agree =
    let missing = unbacked key agree new in
    subst (Agree (λ k. if key == k then some x else p k)) (fun_ext (λ k. nothing_new k missing)) (
      entered-Agree key x none agree (λ y same. absurd (ground (arith, same)))
        (λ succeeded. absurd (unpaid succeeded)))
  where
    nothing_new : (k : String) → q key ≡ none → (if key == k then none else q k) ≡ q k
    nothing_new k missing = ground (arith, missing, eq_iff key k)
