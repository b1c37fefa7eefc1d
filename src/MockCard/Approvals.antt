-- ===== src/MockCard/Approvals.antt =====
-- What the mock card company approves.
use car_pay_in.Base.{
  Bool, [], ap, eq_refl, false, if◌then◌else◌, none, refl, some, suc, true, ℕ, ◌++◌, ◌<>◌, ◌∙◌, ◌∷◌,
  ◌≡◌,
}
use car_pay_in.Exec.{err, integrity_error, ok, ◌>>=◌}
use car_pay_in.Exec.Run.{bind-err, bind-ok, run-gets-bind, run-pure}
use car_pay_in.Integer.{pos}
use car_pay_in.MockCard.{
  ApproveCardPaymentCommand, CardToken, Drawn, Env, IsLawful, State, Tx, add_transaction,
  approve_amount, approve_card_payment, approve_once, create_transaction, decide, failed,
  get_by_idempotency_key, get_card_token, has_key, has_token, has_tx_id, is_active, new_tx,
  result_of, store_decision, success, tx_fits,
}
use car_pay_in.Table.{first-append}

module _ {E : Env} (L : IsLawful E) (drawn : Drawn) (c : ApproveCardPaymentCommand) (s : State E)
    (n : ℕ) where
  abbrev stored : Tx → State E
  stored x = record s { txs = E.txs.insert x s.txs }

  to_store :
      get_by_idempotency_key E c.idempotency_key s ≡ none
      → c.amount ≡ pos (suc n)
      → approve_card_payment E drawn c s
        ≡ store_decision E drawn c (decide E drawn c (suc n) (get_card_token E c.card_token s)) s
  unfolding approve_card_payment approve_once approve_amount
  to_store new positive =
      run-gets-bind _ _ s
      ∙ ap (λ o. approve_once E drawn c o s) new
      ∙ ap (λ a. approve_amount E drawn c a s) positive
      ∙ run-gets-bind _ _ s

  pub create-run :
      (x : Tx)
      → get_by_idempotency_key E x.idempotency_key s ≡ none
      → tx_fits (E.tokens.rows s.tokens) (E.txs.rows s.txs) x ≡ true
      → create_transaction E x s ≡ (ok x, stored x)
  unfolding create_transaction add_transaction ◌>>=◌
  create-run x new fits = rw (new, fits)

  pub create-unfit :
      (x : Tx)
      → get_by_idempotency_key E x.idempotency_key s ≡ none
      → tx_fits (E.tokens.rows s.tokens) (E.txs.rows s.txs) x ≡ false
      → create_transaction E x s ≡ (err integrity_error, s)
  unfolding create_transaction add_transaction ◌>>=◌
  create-unfit x new clash = rw (new, clash)

  unknown-unfit :
      (x : Tx)
      → get_card_token E x.card_token s ≡ none
      → tx_fits (E.tokens.rows s.tokens) (E.txs.rows s.txs) x ≡ false
  unfolding tx_fits get_card_token
  unknown-unfit x unknown = rw (← L.tokens.scalar-rows (has_token x.card_token) s.tokens, unknown)

  known-fits :
      (x : Tx) {token : CardToken}
      → get_card_token E x.card_token s ≡ some token
      → get_by_idempotency_key E x.idempotency_key s ≡ none
      → E.txs.scalar (has_tx_id x.tx_id) s.txs ≡ none
      → tx_fits (E.tokens.rows s.tokens) (E.txs.rows s.txs) x ≡ true
  unfolding tx_fits get_card_token get_by_idempotency_key
  known-fits x found new_key new_id = rw (
    ← L.tokens.scalar-rows (has_token x.card_token) s.tokens,
    ← L.txs.scalar-rows (has_tx_id x.tx_id) s.txs,
    ← L.txs.scalar-rows (has_key x.idempotency_key) s.txs,
    found,
    new_id,
    new_key,
  )

  stored-found :
      (x : Tx)
      → get_by_idempotency_key E x.idempotency_key s ≡ none
      → get_by_idempotency_key E x.idempotency_key (stored x) ≡ some x
  unfolding get_by_idempotency_key
  stored-found x new =
      let none_before = rw (L.txs.scalar-rows (has_key x.idempotency_key) s.txs) at new in
      rw
        (L.txs.scalar-rows, L.txs.rows-insert, first-append, none_before, eq_refl x.idempotency_key)

  store-run :
      (x : Tx)
      → create_transaction E x s ≡ (ok x, stored x)
      → store_decision E drawn c x s ≡ (ok (result_of x), stored x)
  unfolding store_decision
  store-run x creates = bind-ok _ _ s creates ∙ run-pure _ _

  store-unfit :
      (x : Tx)
      → create_transaction E x s ≡ (err integrity_error, s)
      → store_decision E drawn c x s ≡ (err integrity_error, s)
  unfolding store_decision
  store-unfit x refused = bind-err _ _ s refused

  again-run :
      (later : Drawn) (x : Tx) (t : State E)
      → get_by_idempotency_key E c.idempotency_key t ≡ some x
      → approve_card_payment E later c t ≡ (ok (result_of x), t)
  unfolding approve_card_payment approve_once
  again-run later x t found =
      run-gets-bind _ _ t ∙ ap (λ o. approve_once E later c o t) found ∙ run-pure _ t

  -- the stored decision, and the same request again with whatever ids are drawn
  pub record Decided (x : Tx) (z : State E) : Type 0 where
    pub answered : approve_card_payment E drawn c s ≡ (ok (result_of x), z)
    pub rows : E.txs.rows z.txs ≡ E.txs.rows s.txs ++ x ∷ []
    pub again : (later : Drawn) → approve_card_payment E later c z ≡ (ok (result_of x), z)

  -- A payment of a positive amount on a known card token, with an idempotency key and a transaction
  -- id that are new: a success with an approval number if the token is active, a failure if it is
  -- not, is answered and stored as one more row. The same request again is answered with it,
  -- whatever ids are drawn then, and changes nothing.
  pub approve-Decided :
      {token : CardToken}
      → get_by_idempotency_key E c.idempotency_key s ≡ none
      → c.amount ≡ pos (suc n)
      → get_card_token E c.card_token s ≡ some token
      → E.txs.scalar (has_tx_id ("card-tx-" <> drawn.tx_hex)) s.txs ≡ none
      → (z : State E) × Decided
          (if is_active token.status
            then new_tx E drawn c (suc n) success (some ("CARD-" <> drawn.approval_hex))
            else new_tx E drawn c (suc n) failed none)
          z
  approve-Decided {token = token} new positive found new_id = by_status (is_active token.status) (
      to_store new positive
      ∙ ap (λ o. store_decision E drawn c (decide E drawn c (suc n) o) s) found)
    where
      finish :
          (x : Tx)
          → x.idempotency_key ≡ c.idempotency_key
          → create_transaction E x s ≡ (ok x, stored x)
          → get_by_idempotency_key E c.idempotency_key (stored x) ≡ some x
          → approve_card_payment E drawn c s ≡ store_decision E drawn c x s
          → (z : State E) × Decided x z
      finish x same creates there_is run = (
        stored x,
        record {
          answered = run ∙ store-run x creates;
          rows = L.txs.rows-insert x s.txs;
          again = λ later. again-run later x (stored x) there_is;
        },
      )

      by_status :
          (b : Bool)
          → approve_card_payment E drawn c s
            ≡ store_decision E drawn c
                (if b
                  then new_tx E drawn c (suc n) success (some ("CARD-" <> drawn.approval_hex))
                  else new_tx E drawn c (suc n) failed none)
                s
          → (z : State E) × Decided
              (if b
                then new_tx E drawn c (suc n) success (some ("CARD-" <> drawn.approval_hex))
                else new_tx E drawn c (suc n) failed none)
              z
      by_status true run =
          let x = new_tx E drawn c (suc n) success (some ("CARD-" <> drawn.approval_hex)) in
          finish x refl (create-run x new (known-fits x found new new_id)) (stored-found x new) run
      by_status false run =
          let x = new_tx E drawn c (suc n) failed none in
          finish x refl (create-run x new (known-fits x found new new_id)) (stored-found x new) run

  -- A payment of a positive amount, of a card token that is not known and with a new idempotency
  -- key, ends with a database error and stores nothing: no failed transaction is kept for it.
  pub approve-Unstored :
      get_by_idempotency_key E c.idempotency_key s ≡ none
      → c.amount ≡ pos (suc n)
      → get_card_token E c.card_token s ≡ none
      → approve_card_payment E drawn c s ≡ (err integrity_error, s)
  approve-Unstored new positive unknown =
      to_store new positive
      ∙ ap (λ o. store_decision E drawn c (decide E drawn c (suc n) o) s) unknown
      ∙ store-unfit (new_tx E drawn c (suc n) failed none)
          (create-unfit _ new (unknown-unfit _ unknown))
