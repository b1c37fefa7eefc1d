-- ===== src/MockCard/Tokenization/Tokenized.antt =====
-- A card that is registered and then charged: the tokens of
-- services/mock-card/app/application/card/verify_and_tokenize_card.py in
-- services/mock-card/app/application/card/approve_card_payment.py.
use car_pay_in.MockCard.{ApproveCardPaymentCommand}
use car_pay_in.MockCard.{CardToken}
use car_pay_in.Base.{Option}
use car_pay_in.Base.{String}
use car_pay_in.MockCard.Cards.{VerifyAndTokenizeCardCommand}
use car_pay_in.MockCard.Tokenization.Saved.{after_user}
use car_pay_in.Base.{ap}
use car_pay_in.MockCard.Approvals.{approve-Decided}
use car_pay_in.MockCard.{approve_card_payment}
use car_pay_in.Base.{arith}
use car_pay_in.Exec.Run.{bind-ok}
use car_pay_in.MockCard.Cards.{card_fits}
use car_pay_in.MockCard.Validator.{check_expiry}
use car_pay_in.MockCard.Tokenization.{encrypt_card_number}
use car_pay_in.Base.{eq_refl}
use car_pay_in.Table.{first}
use car_pay_in.Table.{first-append}
use car_pay_in.MockCard.Tokenization.Saved.{found-saved}
use car_pay_in.MockCard.{get_by_idempotency_key}
use car_pay_in.MockCard.Tokenization.{get_by_user_and_encrypted_card}
use car_pay_in.MockCard.{get_card_token}
use car_pay_in.MockCard.Cards.{has_card_id}
use car_pay_in.MockCard.{has_token}
use car_pay_in.MockCard.{has_tx_id}
use car_pay_in.MockCard.Cards.{is_card_of}
use car_pay_in.Base.{leb}
use car_pay_in.MockCard.Validator.{month_of}
use car_pay_in.MockCard.Tokenization.{new_card}
use car_pay_in.MockCard.Tokenization.{new_token}
use car_pay_in.Base.{none}
use car_pay_in.Base.{not}
use car_pay_in.Exec.{ok}
use car_pay_in.Exec.Run.{or_raise-some}
use car_pay_in.MockCard.Validator.{parse_expiry}
use car_pay_in.MockCard.Tokenization.Saved.{points_to}
use car_pay_in.Integer.{pos}
use car_pay_in.Exec.{raise_if}
use car_pay_in.Base.{refl}
use car_pay_in.Exec.Run.{run-gets-bind}
use car_pay_in.Exec.Run.{run-lift}
use car_pay_in.Exec.Run.{run-pure}
use car_pay_in.MockCard.Tokenization.Saved.{save-run}
use car_pay_in.MockCard.Tokenization.Saved.{saved}
use car_pay_in.Base.{some}
use car_pay_in.Base.{suc}
use car_pay_in.MockCard.{success}
use car_pay_in.Base.{sym}
use car_pay_in.MockCard.Tokenization.{tokenize_once}
use car_pay_in.MockCard.Tokenization.{tokenized}
use car_pay_in.Base.{true}
use car_pay_in.MockCard.Tokenization.Saved.{user-run}
use car_pay_in.MockCard.Validator.{validate_card}
use car_pay_in.Exec.{value_error}
use car_pay_in.MockCard.Tokenization.{verify_and_tokenize_card}
use car_pay_in.MockCard.Tokenization.Saved.{with_user-known}
use car_pay_in.Base.{ℕ}
use car_pay_in.Integer.{ℤ}
use car_pay_in.Base.{◌<>◌}
use car_pay_in.Exec.{◌>>=◌}
use car_pay_in.Base.{◌∙◌}
use car_pay_in.Base.{◌≡◌}
use car_pay_in.MockCard.Cards.{Drawn, Env, IsLawful, State}

module _ {E : Env} (L : IsLawful E) where
  check_expiry-month :
      (drawn : Drawn) (o : Option (ℤ × ℤ))
      → check_expiry E drawn o ≡ ok true
      → (p : ℤ × ℤ) × (o ≡ some p) × (leb 1 (month_of p.0) ≡ true) × (leb (month_of p.0) 12 ≡ true)
  unfolding check_expiry
  check_expiry-month drawn none h = ground arith
  check_expiry-month drawn (some p) h = (p, refl, ground arith, ground arith)

  valid-month :
      (drawn : Drawn) (c : VerifyAndTokenizeCardCommand)
      → validate_card E drawn c ≡ ok true
      → (p : ℤ × ℤ) × (parse_expiry E c.expiry ≡ some p)
        × (leb 1 (month_of p.0) ≡ true)
        × (leb (month_of p.0) 12 ≡ true)
  unfolding validate_card
  valid-month drawn c h = check_expiry-month drawn (parse_expiry E c.expiry) (ground arith)

  pub record IsNewCard (drawn : Drawn) (c : VerifyAndTokenizeCardCommand) (s : State E)
      : Type 0 where
    pub valid : validate_card E drawn c ≡ ok true
    pub no_card :
        E.cards.scalar (is_card_of c.user_id (encrypt_card_number E c.card_number)) s.cards ≡ none
    pub unknown :
        get_by_user_and_encrypted_card E c.user_id (encrypt_card_number E c.card_number) s ≡ none
    pub new_id : E.cards.scalar (has_card_id drawn.card_uuid) s.cards ≡ none
    pub unused : E.card.tokens.scalar (points_to drawn.card_uuid) s.card.tokens ≡ none
    pub fresh_token :
        E.card.tokens.scalar (has_token ("card-token-" <> drawn.token_hex)) s.card.tokens ≡ none

  module _ (drawn : Drawn) (c : VerifyAndTokenizeCardCommand) (s : State E) where
    fits-known :
        (p : ℤ × ℤ)
        → IsNewCard drawn c s
        → leb 1 (month_of p.0) ≡ true
        → leb (month_of p.0) 12 ≡ true
        → card_fits
            (E.users.rows (after_user E c.user_id s).users)
            (E.cards.rows s.cards)
            (new_card E drawn c p)
          ≡ true
    unfolding card_fits
    fits-known p h low high = rw (
      with_user-known L c.user_id _ s.users (sym (L.users.scalar-rows _ s.users)),
      ← L.cards.scalar-rows (has_card_id drawn.card_uuid) s.cards,
      ← L.cards.scalar-rows (is_card_of c.user_id (encrypt_card_number E c.card_number)) s.cards,
      h.new_id,
      h.no_card,
      low,
      high,
    )

    abbrev card_token : String
    card_token = "card-token-" <> drawn.token_hex

    abbrev after : ℤ × ℤ → State E
    after p =
        saved E (new_card E drawn c p) (new_token E card_token (new_card E drawn c p))
          (after_user E c.user_id s)

    raise_if-not : (t : State E) → raise_if (not true) (value_error "invalid_card") t ≡ (ok tt, t)
    unfolding ◌>>=◌
    raise_if-not t = refl

    tokenize-run :
        (p : ℤ × ℤ)
        → IsNewCard drawn c s
        → parse_expiry E c.expiry ≡ some p
        → leb 1 (month_of p.0) ≡ true
        → leb (month_of p.0) 12 ≡ true
        → verify_and_tokenize_card E drawn c s ≡ (ok (tokenized E drawn c card_token), after p)
    unfolding verify_and_tokenize_card tokenize_once
    tokenize-run p h parsed low high =
        bind-ok _ _ s (run-lift _ s h.valid)
        ∙ bind-ok _ _ s (raise_if-not s)
        ∙ run-gets-bind _ _ s
        ∙ ap (λ o. tokenize_once E drawn c o s) h.unknown
        ∙ bind-ok _ _ s (or_raise-some _ s parsed)
        ∙ bind-ok _ _ s (user-run L c.user_id s)
        ∙ bind-ok _ _ (after_user E c.user_id s) (
            save-run L _ card_token (after_user E c.user_id s) h.no_card (fits-known p h low high)
              h.fresh_token)
        ∙ run-pure _ _

    again-run :
        (later : Drawn) (token : CardToken) (t : State E)
        → validate_card E later c ≡ ok true
        → get_by_user_and_encrypted_card E c.user_id (encrypt_card_number E c.card_number) t
          ≡ some token
        → verify_and_tokenize_card E later c t ≡ (ok (tokenized E later c token.card_token), t)
    unfolding verify_and_tokenize_card tokenize_once ◌>>=◌
    again-run later token t valid known = rw (valid, known)

    token-found :
        (p : ℤ × ℤ)
        → IsNewCard drawn c s
        → get_card_token E.card card_token (after p).card
          ≡ some (new_token E card_token (new_card E drawn c p))
    unfolding get_card_token
    token-found p h =
        L.card.tokens.scalar-rows _ _
        ∙ ap (first (has_token card_token)) (L.card.tokens.rows-insert _ s.card.tokens)
        ∙ first-append _ _ (E.card.tokens.rows s.card.tokens)
        ∙ rw
            (
              ← L.card.tokens.scalar-rows (has_token card_token) s.card.tokens,
              h.fresh_token,
              eq_refl card_token,
            )
            refl

    -- A card that passes the check and is not known, with ids that are new: it is registered under a
    -- new token. As long as it passes the check, to register it again gives the same token and
    -- changes nothing. A payment of a positive amount with the token, of an idempotency key and a
    -- transaction id that are new, is a success with an approval number.
    pub verify_and_tokenize_card-IsPayable :
        IsNewCard drawn c s
        → (later : Drawn) → validate_card E later c ≡ ok true
        → (d : car_pay_in.MockCard.Drawn) (payment : ApproveCardPaymentCommand) (n : ℕ)
        → payment.card_token ≡ card_token
        → payment.amount ≡ pos (suc n)
        → get_by_idempotency_key E.card payment.idempotency_key s.card ≡ none
        → E.card.txs.scalar (has_tx_id ("card-tx-" <> d.tx_hex)) s.card.txs ≡ none
        → (t : State E) × (verify_and_tokenize_card E drawn c s
            ≡ (ok (tokenized E drawn c card_token), t))
          × (verify_and_tokenize_card E later c t ≡ (ok (tokenized E drawn c card_token), t))
          × ((approve_card_payment E.card d payment t.card).0
              ≡ ok (record {
                status = success;
                tx_id = "card-tx-" <> d.tx_hex;
                approval_no = some ("CARD-" <> d.approval_hex);
              }))
    unfolding get_by_idempotency_key get_by_user_and_encrypted_card
    verify_and_tokenize_card-IsPayable h later valid d payment n same positive new_key new_id =
        let (p, parsed, low, high) = valid-month drawn c h.valid in
        let token = new_token E card_token (new_card E drawn c p) in
        let found =
          found-saved L c.user_id (encrypt_card_number E c.card_number) (new_card E drawn c p) token
            (after_user E c.user_id s)
            (rw (eq_refl c.user_id, eq_refl (encrypt_card_number E c.card_number)) refl)
            (eq_refl drawn.card_uuid) h.unknown h.unused in
        let paid =
          approve-Decided L.card d payment (after p).card n new_key positive
            (ap (λ k. get_card_token E.card k (after p).card) same ∙ token-found p h) new_id in
        (
          after p,
          tokenize-run p h parsed low high,
          again-run later token (after p) valid found,
          ap (λ r. r.0) paid.1.answered,
        )
