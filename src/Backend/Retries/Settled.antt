-- ===== src/Backend/Retries/Settled.antt =====
-- What a whole scan of the retries tells the parking lot, and what it leaves.
use car_pay_in.Table.{All-map}
use car_pay_in.Backend.Retries.Step.{event_at}
use mathlib.Core.Path.{subst, subst⁻¹}
use car_pay_in.Backend.Retries.Step.{Fate}
use car_pay_in.Backend.Retries.Step.{IsStep}
use car_pay_in.Backend.Retries.Step.{Settled}
use car_pay_in.Backend.Retries.Step.{can_settle}
use car_pay_in.Backend.Retries.Step.{is_sendable}
use car_pay_in.Backend.Retries.Step.{sent_for}
use car_pay_in.Backend.Retries.Step.{sent_for_all}
use car_pay_in.Backend.Retries.Step.{sent_of}
use car_pay_in.Backend.Retries.Step.{step}
use car_pay_in.Base.{All}
use car_pay_in.Exec.Run.{bind-ok}
use car_pay_in.Backend.Retries.{process_payment_retries}
use car_pay_in.Base.{append-nil}
use car_pay_in.Base.{arith}
use car_pay_in.Base.{eq_iff}
use car_pay_in.Exec.Run.{run-pure}
use car_pay_in.Base.{sym}
use car_pay_in.Base.{Bool}
use car_pay_in.Base.{List}
use car_pay_in.Base.{Option}
use car_pay_in.Backend.Models.{PaymentRetry}
use car_pay_in.Exec.{Result}
use car_pay_in.Backend.Models.{RetryPayload}
use car_pay_in.Base.{String}
use car_pay_in.Base.{[]}
use car_pay_in.Backend.Models.{all_of}
use car_pay_in.Base.{ap}
use car_pay_in.Base.{false}
use car_pay_in.Base.{if◌then◌else◌}
use car_pay_in.Base.{none}
use car_pay_in.Exec.{ok}
use car_pay_in.Base.{refl}
use car_pay_in.Base.{some}
use car_pay_in.Base.{true}
use car_pay_in.Backend.Models.{without_tx_id}
use car_pay_in.Base.{ℕ}
use car_pay_in.Base.{◌&&◌}
use car_pay_in.Base.{◌++◌}
use car_pay_in.Base.{◌==◌}
use car_pay_in.Base.{◌∙◌}
use car_pay_in.Base.{◌∷◌}
use car_pay_in.Base.{◌≡◌}
use car_pay_in.Backend.Env.{Env, IsLawful, State}

append_assoc : {A : Type 0} (xs ys zs : List A) → (xs ++ ys) ++ zs ≡ xs ++ (ys ++ zs)
append_assoc [] ys zs = refl
append_assoc (x ∷ xs) ys zs = ap (λ l. x ∷ l) (append_assoc xs ys zs)

stuck-silent : (o : Option PaymentRetry) → can_settle o ≡ false → sent_for o ≡ []
stuck-silent none h = refl
stuck-silent (some event) h = by_payload event.payload h
  where
    by_payload : (q : RetryPayload) → is_sendable q ≡ false → sent_of q ≡ []
    by_payload (all_of p) clash = ground arith
    by_payload (without_tx_id a b n c d k) _ = refl

-- what a scan forgets, as the state and as the list of calls see it
sent-forget :
    (b c : Bool) (o l : Option PaymentRetry)
    → sent_for o ≡ sent_for l
    → (b ≡ true → c ≡ false → sent_for o ≡ [])
    → sent_for (if b && c then none else o) ≡ sent_for (if b then none else l)
sent-forget true true o l same silent = refl
sent-forget true false o l same silent = silent refl refl
sent-forget false c o l same silent = same

settle-forget :
    (d : Bool) (o : Option PaymentRetry)
    → can_settle o ≡ true
    → can_settle (if d then none else o) ≡ true
settle-forget true o h = refl
settle-forget false o h = h

module _ {E : Env} (L : IsLawful E) (now : ℕ) (outcome : String → Result (Unit {0}))
    (reached : (key : String) → outcome key ≡ ok tt) where
  abbrev scan : List String → State E → Result (Unit {0}) × State E
  scan keys s = process_payment_retries E now outcome keys s

  scan-step :
      (key : String) (keys : List String) (s : State E) {z : State E}
      → IsStep L now outcome key s z
      → scan (key ∷ keys) s ≡ scan keys z
  unfolding process_payment_retries
  scan-step key keys s done = bind-ok _ _ s done.run

  -- a key that is listed again has nothing to send, or something that cannot be sent
  step-sent :
      (key k : String) (s z : State E) (l : Option PaymentRetry)
      → IsStep L now outcome key s z
      → sent_for (event_at L now outcome k s) ≡ sent_for l
      → sent_for (event_at L now outcome k z) ≡ sent_for (if key == k then none else l)
  step-sent key k s z l done same =
      ap sent_for (done.others k)
      ∙ sent-forget (key == k) (can_settle (event_at L now outcome key s))
          (event_at L now outcome k s) l same
          (λ is_key short. stuck-silent (event_at L now outcome k s) (
            ap (λ j. can_settle (event_at L now outcome j s)) (sym ((eq_iff key k).0 is_key))
            ∙ short))

  scan-calls :
      (keys : List String) (look : String → Option PaymentRetry) (s : State E)
      → ((k : String) → sent_for (event_at L now outcome k s) ≡ sent_for (look k))
      → ((scan keys s).0 ≡ ok tt) × ((scan keys s).1.calls ≡ s.calls ++ sent_for_all look keys)
  unfolding process_payment_retries sent_for_all
  scan-calls [] look s same = rw (run-pure tt s) (refl, append-nil s.calls)
  scan-calls (key ∷ keys) look s same =
      let (z, done) = step L now outcome reached key s in
      let (ended, calls) =
        scan-calls keys (λ k. if key == k then none else look k) z
          (λ k. step-sent key k s z (look k) done (same k)) in
      (
        ap (λ e. e.0) (scan-step key keys s done) ∙ ended,
        ap (λ e. e.1.calls) (scan-step key keys s done)
            ∙ calls
            ∙ ap (λ cs. cs ++ sent_for_all (λ k. if key == k then none else look k) keys)
                (done.calls ∙ ap (λ cs. s.calls ++ cs) (same key))
            ∙ append_assoc s.calls (sent_for (look key))
                (sent_for_all (λ k. if key == k then none else look k) keys),
      )

  scan-Settled :
      (k : String) (keys : List String) (s : State E)
      → Settled L now outcome k s
      → Settled L now outcome k (scan keys s).1
  unfolding process_payment_retries
  scan-Settled k [] s settled = rw (run-pure tt s) settled
  scan-Settled k (key ∷ keys) s settled =
      let (z, done) = step L now outcome reached key s in
      rw (scan-step key keys s done) (scan-Settled k keys z (done.keeps k settled))

  stuck-kept :
      (k : String) (keys : List String) (s : State E)
      → can_settle (event_at L now outcome k s) ≡ false
      → event_at L now outcome k (scan keys s).1 ≡ event_at L now outcome k s
  unfolding process_payment_retries
  stuck-kept k [] s stuck = rw (run-pure tt s) refl
  stuck-kept k (key ∷ keys) s stuck =
      let (z, done) = step L now outcome reached key s in
      let same = stuck-step key k s z done stuck in
      ap (λ e. event_at L now outcome k e.1) (scan-step key keys s done)
      ∙ stuck-kept k keys z (ap can_settle same ∙ stuck)
      ∙ same
    where
      stuck-step :
          (key k : String) (s z : State E)
          → IsStep L now outcome key s z
          → can_settle (event_at L now outcome k s) ≡ false
          → event_at L now outcome k z ≡ event_at L now outcome k s
      stuck-step key k s z done stuck = ground (arith, done.others k, eq_iff key k, stuck)

  scan-settles :
      (keys : List String) (s : State E)
      → All
          (λ k.
            can_settle (event_at L now outcome k s) ≡ true
            → Settled L now outcome k (scan keys s).1)
          keys
  scan-settles [] s = tt
  scan-settles (key ∷ keys) s =
      let (z, done) = step L now outcome reached key s in
      subst⁻¹
        (λ (e : Result (Unit {0}) × State E).
          (can_settle (event_at L now outcome key s) ≡ true → Settled L now outcome key e.1)
          × All (λ k. can_settle (event_at L now outcome k s) ≡ true → Settled L now outcome k e.1)
              keys)
        (scan-step key keys s done)
        (
          λ free. scan-Settled key keys z (own-Settled key s z done free),
          All-map
              (λ k.
                can_settle (event_at L now outcome k z) ≡ true
                → Settled L now outcome k (scan keys z).1)
              (λ k.
                can_settle (event_at L now outcome k s) ≡ true
                → Settled L now outcome k (scan keys z).1)
              keys
              (λ k later free. later (
                ap can_settle (done.others k)
                ∙ settle-forget (key == k && can_settle (event_at L now outcome key s))
                    (event_at L now outcome k s) free))
              (scan-settles keys z),
        )
    where
      own-Settled :
          (key : String) (s z : State E)
          → IsStep L now outcome key s z
          → can_settle (event_at L now outcome key s) ≡ true
          → Settled L now outcome key z
      own-Settled key s z done free = subst (λ b. Fate L now outcome b key s z) free done.own

  -- what a scan of the keys leaves
  pub record IsScanned (keys : List String) (s : State E) (e : Result (Unit {0}) × State E)
      : Type 0 where
    pub ended : e.0 ≡ ok tt
    pub calls : e.1.calls ≡ s.calls ++ sent_for_all (λ k. event_at L now outcome k s) keys
    pub fates : All (λ k. Fate L now outcome (can_settle (event_at L now outcome k s)) k s e.1) keys

  -- A scan of the retries while the parking lot can be reached ends without an exception. The
  -- parking lot is told exactly of the events that wait under the keys and have all arguments of
  -- the call, in the order of the keys and once for a key that is listed again. Such an
  -- event no longer waits, while a listed event without `carpay_tx_id` waits as before.
  pub process_payment_retries-Settled :
      (keys : List String) (s : State E)
      → IsScanned keys s (process_payment_retries E now outcome keys s)
  process_payment_retries-Settled keys s = record {
    ended = (scan-calls keys (λ k. event_at L now outcome k s) s (λ _. refl)).0;
    calls = (scan-calls keys (λ k. event_at L now outcome k s) s (λ _. refl)).1;
    fates =
        All-map
          (λ k.
            can_settle (event_at L now outcome k s) ≡ true
            → Settled L now outcome k (scan keys s).1)
          (λ k. Fate L now outcome (can_settle (event_at L now outcome k s)) k s (scan keys s).1)
          keys (λ k settles. by_fate k (can_settle (event_at L now outcome k s)) refl settles)
          (scan-settles keys s);
  }
    where
      by_fate :
          (k : String) (b : Bool)
          → can_settle (event_at L now outcome k s) ≡ b
          → (can_settle (event_at L now outcome k s) ≡ true
              → Settled L now outcome k (scan keys s).1)
          → Fate L now outcome b k s (scan keys s).1
      by_fate k true free settles = settles free
      by_fate k false stuck settles = stuck-kept k keys s stuck
