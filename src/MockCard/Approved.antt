-- ===== src/MockCard/Approved.antt =====
-- Every way in which the approval of a payment ends.
use car_pay_in.Base.{
  Bool-cases, Option, String, ap, arith, eq_iff, if◌then◌else◌, inl, inr, none, refl, some, suc,
  zero, ℕ, ◌==◌, ◌∙◌, ◌≡◌,
}
use car_pay_in.Exec.{Exception, Result, err, integrity_error, ok, ◌>>=◌}
use car_pay_in.Exec.Run.{bind-err, bind-ok, run-gets-bind, run-pure}
use car_pay_in.Integer.{negsuc, pos, ℤ}
use car_pay_in.MockCard.{
  ApproveCardPaymentCommand, ApproveCardPaymentResult, CardToken, Drawn, Env, IsLawful, State, Tx,
  approve_amount, approve_card_payment, approve_once, create_transaction, decide,
  get_by_idempotency_key, has_key, is_active, result_of, store_decision, tx_fits,
}
use car_pay_in.MockCard.Approvals.{create-run, create-unfit}
use car_pay_in.Table.{first-append}
use mathlib.Core.Path.{subst⁻¹}

module _ {E : Env} (L : IsLawful E) (drawn : Drawn) (c : ApproveCardPaymentCommand) where
  -- the ends of `approve_card_payment` from a state
  pub data Approved (s : State E) : Result ApproveCardPaymentResult × State E → Type 0 where
    known_payment :
        (x : Tx)
        → get_by_idempotency_key E c.idempotency_key s ≡ some x
        → Approved s (ok (result_of x), s)
    new_payment :
        (x : Tx) (t : State E)
        → get_by_idempotency_key E c.idempotency_key s ≡ none
        → x.idempotency_key ≡ c.idempotency_key
        → c.amount ≡ pos x.amount
        → x.card_token ≡ c.card_token
        → ((k : String)
            → get_by_idempotency_key E k t
              ≡ (if c.idempotency_key == k then some x else get_by_idempotency_key E k s))
        → Approved s (ok (result_of x), t)
    no_payment : (e : Exception) → Approved s (err e, s)

  inserted-found :
      (x : Tx) (s : State E)
      → x.idempotency_key ≡ c.idempotency_key
      → get_by_idempotency_key E c.idempotency_key s ≡ none
      → (k : String)
      → get_by_idempotency_key E k (record s { txs = E.txs.insert x s.txs })
        ≡ (if c.idempotency_key == k then some x else get_by_idempotency_key E k s)
  unfolding get_by_idempotency_key
  inserted-found x s same new k =
      rw (L.txs.scalar-rows, L.txs.scalar-rows, L.txs.rows-insert, first-append, same)
        (ground (
          arith,
          rw (L.txs.scalar-rows (has_key c.idempotency_key) s.txs) at new,
          eq_iff c.idempotency_key k,
        ))

  store-Approved :
      (x : Tx) (s : State E)
      → x.idempotency_key ≡ c.idempotency_key
      → c.amount ≡ pos x.amount
      → x.card_token ≡ c.card_token
      → get_by_idempotency_key E c.idempotency_key s ≡ none
      → Approved s (store_decision E drawn c x s)
  unfolding store_decision
  store-Approved x s same amount token new =
      let fresh = ap (λ k. get_by_idempotency_key E k s) same ∙ new in
      elim (Bool-cases (tx_fits (E.tokens.rows s.tokens) (E.txs.rows s.txs) x)) [
        | inl fits ↦
            subst⁻¹ (Approved s)
              (bind-ok (create_transaction E x) _ s (create-run L drawn c s 0 x fresh fits)
                ∙ run-pure _ _)
              (new_payment x _ new same amount token (inserted-found x s same new))
        | inr clash ↦
            subst⁻¹ (Approved s)
              (bind-err (create_transaction E x) _ s (create-unfit L drawn c s 0 x fresh clash))
              (no_payment integrity_error)
      ]

  decided-Approved :
      (n : ℕ) (o : Option CardToken) (s : State E)
      → c.amount ≡ pos n
      → get_by_idempotency_key E c.idempotency_key s ≡ none
      → Approved s (store_decision E drawn c (decide E drawn c n o) s)
  decided-Approved n none s amount new = store-Approved _ s refl amount refl new
  decided-Approved n (some token) s amount new = elim (Bool-cases (is_active token.status)) [
    | inl usable ↦ rw usable (store-Approved _ s refl amount refl new)
    | inr idle ↦ rw idle (store-Approved _ s refl amount refl new)
  ]

  amount-Approved :
      (a : ℤ) (s : State E)
      → c.amount ≡ a
      → get_by_idempotency_key E c.idempotency_key s ≡ none
      → Approved s (approve_amount E drawn c a s)
  unfolding approve_amount
  amount-Approved (negsuc n) s amount new = unfold ◌>>=◌ in no_payment _
  amount-Approved (pos zero) s amount new = unfold ◌>>=◌ in no_payment _
  amount-Approved (pos (suc n)) s amount new =
      rw run-gets-bind (decided-Approved (suc n) _ s amount new)

  once-Approved :
      (o : Option Tx) (s : State E)
      → get_by_idempotency_key E c.idempotency_key s ≡ o
      → Approved s (approve_once E drawn c o s)
  unfolding approve_once
  once-Approved (some x) s found = unfold ◌>>=◌ in known_payment x found
  once-Approved none s new = amount-Approved c.amount s refl new

  -- each run of the service is one of those
  pub approve-Approved : (s : State E) → Approved s (approve_card_payment E drawn c s)
  unfolding approve_card_payment
  approve-Approved s = rw run-gets-bind (once-Approved _ s refl)
