-- ===== src/Backend/Retries/Step.antt =====
-- What one key of a scan of the retries tells the parking lot, and what it leaves.
use car_pay_in.Exec.{Exception}
use car_pay_in.Base.{append-nil}
use car_pay_in.Base.{arith}
use car_pay_in.Exec.Run.{bind-err}
use car_pay_in.Exec.Run.{catch-err}
use car_pay_in.Base.{eq_iff}
use car_pay_in.Exec.{err}
use car_pay_in.Exec.Run.{run-pure}
use car_pay_in.Base.{sym}
use car_pay_in.Base.{Bool}
use car_pay_in.Backend.Env.{Call}
use car_pay_in.Base.{List}
use car_pay_in.Base.{Option}
use car_pay_in.Backend.Models.{PaymentRetry}
use car_pay_in.Backend.Models.{PmsPayment}
use car_pay_in.Exec.{Result}
use car_pay_in.Backend.Models.{RetryPayload}
use car_pay_in.Base.{String}
use car_pay_in.Base.{[]}
use car_pay_in.Backend.Models.{all_of}
use car_pay_in.Base.{ap}
use car_pay_in.Exec.{catch}
use car_pay_in.Base.{eq_refl}
use car_pay_in.Base.{false}
use car_pay_in.Base.{if◌then◌else◌}
use car_pay_in.Base.{none}
use car_pay_in.Backend.Env.{notify_pms}
use car_pay_in.Backend.Retries.{notify_with}
use car_pay_in.Exec.{ok}
use car_pay_in.Backend.Env.{record_call}
use car_pay_in.Base.{refl}
use car_pay_in.Backend.Retries.{resend_payment}
use car_pay_in.Backend.Retries.{retry_payment}
use car_pay_in.Exec.Run.{run-gets-bind}
use car_pay_in.Base.{some}
use car_pay_in.Base.{true}
use car_pay_in.Backend.Models.{without_tx_id}
use car_pay_in.Base.{ℕ}
use car_pay_in.Base.{◌&&◌}
use car_pay_in.Base.{◌++◌}
use car_pay_in.Base.{◌==◌}
use car_pay_in.Exec.{◌>>=◌}
use car_pay_in.Base.{◌∙◌}
use car_pay_in.Base.{◌∷◌}
use car_pay_in.Base.{◌≡◌}
use car_pay_in.Base.{◌≤◌}
use car_pay_in.Backend.Env.{Env, IsLawful, State}

-- whether an event has all arguments, and what the parking lot is told of it
abbrev pub is_sendable : RetryPayload → Bool
is_sendable (all_of _) = true
is_sendable (without_tx_id _ _ _ _ _ _) = false

abbrev pub sent_of : RetryPayload → List Call
sent_of (all_of p) = notify_pms p ∷ []
sent_of (without_tx_id _ _ _ _ _ _) = []

abbrev pub can_settle : Option PaymentRetry → Bool
can_settle none = true
can_settle (some event) = is_sendable event.payload

abbrev pub sent_for : Option PaymentRetry → List Call
sent_for none = []
sent_for (some event) = sent_of event.payload

-- the calls for a list of keys: those of the event under each key, the first time that it is listed
unfoldable pub sent_for_all : (String → Option PaymentRetry) → List String → List Call
sent_for_all look [] = []
sent_for_all look (key ∷ keys) =
    sent_for (look key) ++ sent_for_all (λ k. if key == k then none else look k) keys

module _ {E : Env} (L : IsLawful E) (now : ℕ) (outcome : String → Result (Unit {0})) where
  abbrev pub told : List Call → State E → State E
  told cs s = record s { calls = s.calls ++ cs }

  abbrev pub forgot : String → State E → State E
  forgot key s = record s { payment_retries = E.payment_retries.delete key s.payment_retries }

  abbrev pub event_at : String → State E → Option PaymentRetry
  event_at key s = E.payment_retries.get now key s.payment_retries

  -- no event waits under the key from now on
  abbrev pub Settled : String → State E → Type 0
  Settled key s = (t : ℕ) → now ≤ t → E.payment_retries.get t key s.payment_retries ≡ none

  forgot-Settled : (key : String) (s : State E) → Settled key (forgot key s)
  forgot-Settled key s t later = rw (L.payment_retries.get-delete, eq_refl key)

  abbrev no_retry : Option PaymentRetry
  no_retry = none

  either-none : (b : Bool) → (if b then no_retry else no_retry) ≡ no_retry
  either-none true = refl
  either-none false = refl

  other-Settled : (k key : String) (s : State E) → Settled k s → Settled k (forgot key s)
  other-Settled k key s settled t later =
      rw (L.payment_retries.get-delete, settled t later) (either-none (key == k))

  abbrev pub Fate : Bool → String → State E → State E → Type 0
  Fate true key s z = Settled key z
  Fate false key s z = event_at key z ≡ event_at key s

  -- what one key of a scan does
  pub record IsStep (key : String) (s z : State E) : Type 0 where
    pub run : retry_payment E now outcome key s ≡ (ok tt, z)
    pub calls : z.calls ≡ s.calls ++ sent_for (event_at key s)
    pub own : Fate (can_settle (event_at key s)) key s z
    pub keeps : (k : String) → Settled k s → Settled k z
    pub others :
        (k : String)
        → event_at k z ≡ (if key == k && can_settle (event_at key s) then none else event_at k s)

  sent-run :
      (key : String) (event : PaymentRetry) (p : PmsPayment) (s : State E)
      → outcome key ≡ ok tt
      → event.payload ≡ all_of p
      → resend_payment E now outcome key (some event) s
        ≡ (ok tt, forgot key (told (notify_pms p ∷ []) s))
  unfolding resend_payment notify_with record_call catch ◌>>=◌
  sent-run key event p s reached full = rw (full, reached)

  short-run :
      (key : String) (q : RetryPayload) (s : State E)
      → is_sendable q ≡ false
      → (e : Exception) × (notify_with E now outcome key q s ≡ (err e, s))
  unfolding notify_with ◌>>=◌
  short-run key (all_of p) s short = ground arith
  short-run key (without_tx_id a b n c d k) s short = (_, refl)

  stuck-run :
      (key : String) (event : PaymentRetry) (s : State E)
      → is_sendable event.payload ≡ false
      → resend_payment E now outcome key (some event) s ≡ (ok tt, s)
  unfolding resend_payment
  stuck-run key event s short =
      let (e, raises) = short-run key event.payload s short in
      catch-err _ _ s (bind-err (notify_with E now outcome key event.payload) _ s raises)
      ∙ run-pure tt _

  none-run : (key : String) (s : State E) → resend_payment E now outcome key none s ≡ (ok tt, s)
  unfolding resend_payment ◌>>=◌
  none-run key s = refl

  to_resend :
      (key : String) (s : State E) {o : Option PaymentRetry}
      → event_at key s ≡ o
      → retry_payment E now outcome key s ≡ resend_payment E now outcome key o s
  unfolding retry_payment
  to_resend key s same = run-gets-bind _ _ s ∙ ap (λ o. resend_payment E now outcome key o s) same

  module _ (reached : (key : String) → outcome key ≡ ok tt) where
    sent-IsStep :
        (key : String) (event : PaymentRetry) (p : PmsPayment) (s : State E)
        → event_at key s ≡ some event
        → event.payload ≡ all_of p
        → IsStep key s (forgot key (told (notify_pms p ∷ []) s))
    sent-IsStep key event p s found full =
        let sendable = ap can_settle found ∙ ap is_sendable full in
        record {
          run = to_resend key s found ∙ sent-run key event p s (reached key) full;
          calls = ap (λ cs. s.calls ++ cs) (sym (ap sent_for found ∙ ap sent_of full));
          own = rw sendable (forgot-Settled key (told (notify_pms p ∷ []) s));
          keeps = λ k settled. other-Settled k key (told (notify_pms p ∷ []) s) settled;
          others = λ k. rw (L.payment_retries.get-delete, sendable) (ground arith);
        }

    stuck-IsStep :
        (key : String) (event : PaymentRetry) (s : State E)
        → event_at key s ≡ some event
        → is_sendable event.payload ≡ false
        → sent_of event.payload ≡ []
        → IsStep key s s
    stuck-IsStep key event s found short silent =
        let stuck = ap can_settle found ∙ short in
        record {
          run = to_resend key s found ∙ stuck-run key event s short;
          calls = append-nil s.calls ∙ ap (λ cs. s.calls ++ cs) (sym (ap sent_for found ∙ silent));
          own = rw stuck refl;
          keeps = λ k settled. settled;
          others = λ k. rw stuck (ground arith);
        }

    none-IsStep : (key : String) (s : State E) → event_at key s ≡ none → IsStep key s s
    none-IsStep key s missing =
        let free = ap can_settle missing in
        record {
          run = to_resend key s missing ∙ none-run key s;
          calls = append-nil s.calls ∙ ap (λ cs. s.calls ++ cs) (sym (ap sent_for missing));
          own =
              rw free
                (λ t later. L.payment_retries.get-later now t key s.payment_retries later missing);
          keeps = λ k settled. settled;
          others = λ k. rw free (ground (arith, eq_iff key k, missing));
        }

    pub step : (key : String) (s : State E) → (z : State E) × IsStep key s z
    step key s = by_waiting (event_at key s) refl
      where
        by_payload :
            (event : PaymentRetry) (q : RetryPayload)
            → event_at key s ≡ some event
            → event.payload ≡ q
            → (z : State E) × IsStep key s z
        by_payload event (all_of p) found full = (_, sent-IsStep key event p s found full)
        by_payload event (without_tx_id a b n c d k) found short =
            (s, stuck-IsStep key event s found (ap is_sendable short) (ap sent_of short))

        by_waiting : (o : Option PaymentRetry) → event_at key s ≡ o → (z : State E) × IsStep key s z
        by_waiting none missing = (s, none-IsStep key s missing)
        by_waiting (some event) found = by_payload event event.payload found refl
