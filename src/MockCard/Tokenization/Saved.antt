-- ===== src/MockCard/Tokenization/Saved.antt =====
-- What app/infra/repositories/card_repository.py of services/mock-card leaves behind.
use car_pay_in.Base.{Bool}
use car_pay_in.MockCard.Cards.{Card}
use car_pay_in.MockCard.{CardToken}
use car_pay_in.Base.{List}
use car_pay_in.Base.{Option}
use car_pay_in.Base.{String}
use car_pay_in.MockCard.Cards.{User}
use car_pay_in.Base.{[]}
use car_pay_in.MockCard.Tokenization.{add_token}
use car_pay_in.MockCard.Tokenization.{add_user}
use car_pay_in.Base.{ap}
use car_pay_in.Base.{arith}
use car_pay_in.MockCard.Cards.{card_fits}
use car_pay_in.Base.{eq_refl}
use car_pay_in.Table.{first}
use car_pay_in.Table.{first-append}
use car_pay_in.MockCard.Tokenization.{flush_card}
use car_pay_in.MockCard.Tokenization.{get_by_user_and_encrypted_card}
use car_pay_in.MockCard.Tokenization.{get_or_create_user}
use car_pay_in.MockCard.Cards.{has_card_id}
use car_pay_in.MockCard.{has_token}
use car_pay_in.MockCard.Cards.{has_user}
use car_pay_in.MockCard.Cards.{is_card_of}
use car_pay_in.Base.{is_some}
use car_pay_in.MockCard.Tokenization.{new_token}
use car_pay_in.Base.{none}
use car_pay_in.Exec.{ok}
use car_pay_in.Base.{refl}
use car_pay_in.Exec.Run.{run-gets-bind}
use car_pay_in.MockCard.Tokenization.{save_card_with_token}
use car_pay_in.Base.{some}
use car_pay_in.Base.{sym}
use car_pay_in.Base.{true}
use car_pay_in.Base.{◌&&◌}
use car_pay_in.Base.{◌==◌}
use car_pay_in.Exec.{◌>>=◌}
use car_pay_in.Base.{◌∙◌}
use car_pay_in.Base.{◌∷◌}
use car_pay_in.Base.{◌≡◌}
use car_pay_in.Base.{◌⊎◌}
use car_pay_in.MockCard.Cards.{Env, IsLawful, State}

abbrev pub points_to : String → CardToken → Bool
points_to i r = i == r.card_id

module _ {Row : Type 0} where
  -- a test that only passes rows that one of two others passes
  first-none_either :
      (p q r : Row → Bool) (rows : List Row)
      → ((x : Row) → r x ≡ true → (p x ≡ true) ⊎ (q x ≡ true))
      → first p rows ≡ none
      → first q rows ≡ none
      → first r rows ≡ none
  unfolding first
  first-none_either p q r [] h no_p no_q = refl
  first-none_either p q r (x ∷ rows) h no_p no_q =
      ground (arith, h x, first-none_either p q r rows h)

module _ (E : Env) where
  abbrev pub with_user : String → Option User → E.users.State → E.users.State
  with_user u (some x) q = q
  with_user u none q = E.users.insert (record { user_id = u; name = "" }) q

  abbrev pub after_user : String → State E → State E
  after_user u s = record s { users = with_user u (E.users.scalar (has_user u) s.users) s.users }

  -- the state once the card and its token are added
  abbrev pub saved : Card → CardToken → State E → State E
  saved card token s = record s {
    cards = E.cards.insert card s.cards;
    card = record s.card { tokens = E.card.tokens.insert token s.card.tokens };
  }

module _ {E : Env} (L : IsLawful E) where
  add_user-run :
      (u : String) (o : Option User) (s : State E)
      → add_user E u o s ≡ (ok tt, record s { users = with_user E u o s.users })
  unfolding add_user ◌>>=◌
  add_user-run u none s = refl
  add_user-run u (some x) s = refl

  pub user-run : (u : String) (s : State E) → get_or_create_user E u s ≡ (ok tt, after_user E u s)
  unfolding get_or_create_user
  user-run u s = run-gets-bind _ _ s ∙ add_user-run u _ s

  pub with_user-known :
      (u : String) (o : Option User) (q : E.users.State)
      → first (has_user u) (E.users.rows q) ≡ o
      → is_some (first (has_user u) (E.users.rows (with_user E u o q))) ≡ true
  with_user-known u (some x) q h = rw h
  with_user-known u none q h = rw (L.users.rows-insert, first-append, h, eq_refl u)

  flush-run :
      (new : Card) (s : State E)
      → card_fits (E.users.rows s.users) (E.cards.rows s.cards) new ≡ true
      → flush_card E new none s ≡ (ok new, record s { cards = E.cards.insert new s.cards })
  unfolding flush_card ◌>>=◌
  flush-run new s fits = rw fits

  pub save-run :
      (new : Card) (card_token : String) (s : State E)
      → E.cards.scalar (is_card_of new.user_id new.encrypted_card_num) s.cards ≡ none
      → card_fits (E.users.rows s.users) (E.cards.rows s.cards) new ≡ true
      → E.card.tokens.scalar (has_token card_token) s.card.tokens ≡ none
      → save_card_with_token E new card_token s
        ≡ (ok tt, saved E new (new_token E card_token new) s)
  unfolding save_card_with_token add_token flush_card ◌>>=◌
  save-run new card_token s no_card fits no_token = rw (no_card, fits, no_token)

  abbrev joins : String → String → CardToken → Card → Bool
  joins u n token card = is_card_of u n card && has_card_id token.card_id card

  abbrev owns : String → String → E.cards.State → CardToken → Bool
  owns u n q token = is_some (E.cards.scalar (joins u n token) q)

  owns-insert :
      (u n : String) (card : Card) (q : E.cards.State) (token : CardToken)
      → owns u n (E.cards.insert card q) token ≡ true
      → (owns u n q token ≡ true) ⊎ (points_to card.card_id token ≡ true)
  owns-insert u n card q token h =
      let h1 = rw (L.cards.scalar-rows (joins u n token), L.cards.rows-insert, first-append) at h in
      rw (L.cards.scalar-rows (joins u n token)) (ground (arith, h1))

  owns-own :
      (u n : String) (card : Card) (q : E.cards.State) (token : CardToken)
      → is_card_of u n card ≡ true
      → has_card_id token.card_id card ≡ true
      → owns u n (E.cards.insert card q) token ≡ true
  owns-own u n card q token fits same =
      rw (L.cards.scalar-rows (joins u n token), L.cards.rows-insert, first-append)
        (ground (arith, fits, same))

  pub found-saved :
      (u n : String) (card : Card) (token : CardToken) (s : State E)
      → is_card_of u n card ≡ true
      → has_card_id token.card_id card ≡ true
      → get_by_user_and_encrypted_card E u n s ≡ none
      → E.card.tokens.scalar (points_to card.card_id) s.card.tokens ≡ none
      → get_by_user_and_encrypted_card E u n (saved E card token s) ≡ some token
  unfolding get_by_user_and_encrypted_card
  found-saved u n card token s fits same unknown unused =
      let before =
        first-none_either (owns u n s.cards) (points_to card.card_id)
          (owns u n (E.cards.insert card s.cards)) (E.card.tokens.rows s.card.tokens)
          (owns-insert u n card s.cards) (sym (L.card.tokens.scalar-rows _ s.card.tokens) ∙ unknown)
          (sym (L.card.tokens.scalar-rows _ s.card.tokens) ∙ unused) in
      L.card.tokens.scalar-rows _ _
      ∙ ap (first (owns u n (E.cards.insert card s.cards)))
          (L.card.tokens.rows-insert token s.card.tokens)
      ∙ first-append _ token (E.card.tokens.rows s.card.tokens)
      ∙ rw (before, owns-own u n card s.cards token fits same) refl
